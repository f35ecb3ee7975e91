-- ===== src/BlobFile/MergeIterator/Least.antt =====
-- The top of the heap of BlobFileMergeIterator.
use diffkv.Prelude.{
  ◌≡◌, refl, Bool, true, false, Bool-cases, inl, inr, List, [], ◌∷◌, ◌++◌, Bytes, All, All-append,
  All-imp, arith,
}
use mathlib.Core.List.{Permᴰ}
use mathlib.Core.List.Permᴰ
use diffkv.Coding.{Coding, Crc}
use diffkv.Options.{Comparator, IsComparator}
use diffkv.Compression.{Codecs}
use diffkv.Format.Record.{BlobRecord}
use diffkv.BlobFile.Iterator.{BlobFileIterator}
use diffkv.BlobFile.MergeIterator.{goes_first, top}
use diffkv.BlobFile.MergeIterator.Finds.{Found, Finds, Low, Sorted, together, All-Permᴰ}

-- Each iterator of the heap stands at the first of its records.
abbrev pub Holds : (Coding → Crc → Codecs → List BlobFileIterator → List (List Found) → Type 0)
Holds c crc z [] [] = Unit {0}
Holds c crc z (it ∷ its) ((x ∷ xs) ∷ xss) = Finds c crc z (x ∷ xs) it × Holds c crc z its xss
Holds c crc z its xss = ⊥

pub swap_blocks : {A : Type 0} (xs ys zs : List A) → Permᴰ (xs ++ (ys ++ zs)) (ys ++ (xs ++ zs))
swap_blocks [] ys zs = Permᴰ.refl (ys ++ zs)
swap_blocks (x ∷ xs) ys zs =
    Permᴰ.trans (Permᴰ.cons refl (swap_blocks xs ys zs)) (Permᴰ.symm (Permᴰ.middle x ys (xs ++ zs)))

module _ (cmp : Comparator) (icmp : IsComparator cmp)
    (earlier : BlobFileIterator → BlobFileIterator → Bool) where
  goes_first-true :
      (a b : BlobFileIterator) (r s : BlobRecord)
      → goes_first cmp earlier a b ≡ true
      → a.cur_blob_record ≡ r
      → b.cur_blob_record ≡ s
      → cmp.less s.key r.key ≡ false
  unfolding goes_first
  goes_first-true a b r s goes ra sb = rw (← ra, ← sb) (ground (arith, goes))

  asym : (a b : Bytes) → cmp.less a b ≡ true → cmp.less b a ≡ false
  asym a b h = elim (Bool-cases (cmp.less b a)) [
    | inl back ↦ absurd (cc (icmp.trans a b a h back, icmp.irrefl a))
    | inr kept ↦ kept
  ]

  goes_first-false :
      (a b : BlobFileIterator) (r s : BlobRecord)
      → goes_first cmp earlier a b ≡ false
      → a.cur_blob_record ≡ r
      → b.cur_blob_record ≡ s
      → cmp.less r.key s.key ≡ false
  unfolding goes_first
  goes_first-false a b r s stays ra sb =
      rw (← ra, ← sb)
        (elim (Bool-cases (cmp.less b.cur_blob_record.key a.cur_blob_record.key)) [
          | inl less ↦ asym b.cur_blob_record.key a.cur_blob_record.key less
          | inr more ↦ ground (arith, stays, more)
        ])

  -- What is not less than `a` is not less than what `a` is not less than.
  Low-neg_trans :
      (a b : Bytes) (xs : List Found) → cmp.less a b ≡ false → Low cmp a xs → Low cmp b xs
  Low-neg_trans a b xs h low = All-imp _ _ xs (λ x l. icmp.neg_trans x.content.key a b l h) low

  module _ (c : Coding) (crc : Crc) (z : Codecs) where
    -- The records of the heap, with the top's first.
    abbrev pub Splits :
        List Found → List (List Found) → BlobFileIterator × List BlobFileIterator → Type 0
    Splits xs xss t =
        (y : Found) × (ys : List Found) × (yss : List (List Found)) × Finds c crc z (y ∷ ys) t.0
        × Holds c crc z t.1 yss
        × Permᴰ (xs ++ together xss) ((y ∷ ys) ++ together yss)
        × (Sorted cmp xs
            → All (Sorted cmp) xss
            → Sorted cmp (y ∷ ys) × All (Sorted cmp) yss × Low cmp y.content.key (together yss))

    pub top-Splits :
        (it : BlobFileIterator) (its : List BlobFileIterator) (x : Found) (xs : List Found)
        (xss : List (List Found))
        → Finds c crc z (x ∷ xs) it
        → Holds c crc z its xss
        → Splits (x ∷ xs) xss (top cmp earlier it its)
    unfolding top
    top-Splits it [] x xs [] f h = (x, xs, [], f, tt, Permᴰ.refl _, λ s ss. (s, tt, tt))
    top-Splits it [] x xs (ys ∷ xss) f h = elim h [ ]
    top-Splits it (i ∷ is) x xs [] f h = elim h [ ]
    top-Splits it (i ∷ is) x xs ([] ∷ wss) f h = elim h [ ]
    top-Splits it (i ∷ is) x xs ((w ∷ ws) ∷ wss) f (fw, h) =
        let (y, ys, yss, fy, hy, p, low) = top-Splits i is w ws wss fw h in
        let best = (top cmp earlier i is).0 in
        elim (Bool-cases (goes_first cmp earlier best it)) [
          | inl goes ↦
              let least = goes_first-true best it y.content x.content goes fy.1 f.1 in
              rw (goes, top)
                (
                  y,
                  ys,
                  (x ∷ xs) ∷ yss,
                  fy,
                  (f, hy),
                  Permᴰ.trans (Permᴰ.append_left (x ∷ xs) p)
                      (swap_blocks (x ∷ xs) (y ∷ ys) (together yss)),
                  λ s ss.
                      let (sy, syss, l) = low ss.0 ss.1 in
                      (
                        sy,
                        (s, syss),
                        All-append _ (x ∷ xs) (together yss)
                            (least, Low-neg_trans x.content.key y.content.key xs least s.0) l,
                      ),
                )
          | inr stays ↦
              let least = goes_first-false best it y.content x.content stays fy.1 f.1 in
              rw (stays, top)
                (
                  x,
                  xs,
                  (w ∷ ws) ∷ wss,
                  f,
                  (fw, h),
                  Permᴰ.refl _,
                  λ s ss.
                      let (sy, syss, l) = low ss.0 ss.1 in
                      (
                        s,
                        ss,
                        All-Permᴰ _ (Permᴰ.symm p) (
                            Low-neg_trans y.content.key x.content.key ((y ∷ ys) ++ together yss)
                              least
                              (icmp.irrefl y.content.key, All-append _ ys (together yss) sy.0 l)),
                      ),
                )
        ]
