-- ===== src/BlobFile/MergeIterator/Merges.antt =====
-- BlobFileMergeIterator of src/blob_file_iterator.cc gives every record of its files once.
use diffkv.Prelude.{
  ℕ, zero, suc, ◌≤◌, ◌≡◌, refl, sym, ap, ◌∙◌, Bool, none, some, List, [], ◌∷◌, ◌++◌, All,
  All-append, Outcome, ok, ◌>>=◌, length, arith,
}
use mathlib.Core.Path.{subst}
use mathlib.Core.List.{Perm, Permᴰ, append_assoc, append-nil}
use mathlib.Core.List.Permᴰ
use diffkv.Coding.{Coding, Crc, BlockHandles}
use diffkv.Options.{Comparator, IsComparator}
use diffkv.Compression.{Codecs}
use diffkv.BlobFile.Iterator.{BlobFileIterator, InitIo, NextIo}
use diffkv.BlobFile.Iterator
use diffkv.BlobFile.Iterator.Fetched.{good_reads}
use diffkv.BlobFile.MergeIterator.{
  BlobFileMergeIterator, push, top, advance, next_of, start, seek_each, seek_to_first,
}
use diffkv.BlobFile.MergeIterator.Finds.{Found, Finds, Sorted, together, All-Permᴰ}
use diffkv.BlobFile.MergeIterator.Least.{Holds, Splits, top-Splits, swap_blocks}
use diffkv.BlobFile.MergeIterator.Steps.{
  Walks, Merged, push-Holds, next-valid, next_of-some, current-valid, no_more, length-Permᴰ,
}

module _ (cmp : Comparator) (icmp : IsComparator cmp)
    (earlier : BlobFileIterator → BlobFileIterator → Bool) (c : Coding) (crc : Crc)
    (z : Codecs) where
  -- With the top taken off, the walk goes on with what its Next leaves.
  step_top :
      (n : ℕ) (m : BlobFileMergeIterator) (t : BlobFileIterator × List BlobFileIterator)
      (xs : List Found) (xss : List (List Found))
      → ((m' : BlobFileMergeIterator) (hp : List BlobFileIterator) (hss : List (List Found))
          → m'.own_status ≡ none
          → Holds c crc z hp hss
          → length (together hss) ≤ n
          → Merged cmp earlier c crc z (advance cmp earlier hp m') hss)
      → m.own_status ≡ none
      → m.current ≡ some t.0
      → m.min_heap ≡ t.1
      → Splits cmp icmp earlier c crc z xs xss t
      → length (xs ++ together xss) ≤ suc n
      → Merged cmp earlier c crc z m (xs ∷ xss)
  step_top n m t xs xss goes_on fine at heap (y, ys, yss, f, h, p, order) short =
      let (v0, content, index, it', done, fit) = f in
      let (hss, h', same, sorted) = push-Holds cmp earlier c crc z it' ys t.1 yss fit h in
      let (zs, walk, q, low) =
        goes_on m (push it' t.1) hss fine h'
          (omega (arith, short, length-Permᴰ p, ap length same)) in
      let v = current-valid cmp earlier c crc z m t.0 at fine v0 in
      let rest : Permᴰ (ys ++ together yss) zs = subst (λ x. Permᴰ x zs) same q in
      (
        y ∷ zs,
        (
          v,
          t.0,
          at,
          content,
          index,
          advance cmp earlier (push it' t.1) m,
          next-valid cmp earlier c crc z m v
              ∙ (ap (λ o. next_of cmp earlier c crc z good_reads o m) at
                  ∙ (next_of-some cmp earlier c crc z m t.0 it' done
                      ∙ ap (λ x. Outcome.ok (advance cmp earlier (push it' x) m)) heap)),
          walk,
        ),
        Permᴰ.trans p (Permᴰ.cons refl rest),
        λ ss.
            let (sy, syss, l) = order ss.0 ss.1 in
            (All-Permᴰ _ rest (All-append _ ys (together yss) sy.0 l), low (sorted sy.1 syss)),
      )

  walk :
      (n : ℕ) (m : BlobFileMergeIterator) (hp : List BlobFileIterator) (hss : List (List Found))
      → m.own_status ≡ none
      → Holds c crc z hp hss
      → length (together hss) ≤ n
      → Merged cmp earlier c crc z (advance cmp earlier hp m) hss
  unfolding advance
  walk n m [] [] fine h short = no_more cmp earlier c crc z m fine
  walk n m [] (xs ∷ xss) fine h short = elim h [ ]
  walk n m (i ∷ is) [] fine h short = elim h [ ]
  walk n m (i ∷ is) ([] ∷ xss) fine h short = elim h [ ]
  walk zero m (i ∷ is) ((x ∷ xs) ∷ xss) fine h short = absurd (omega arith)
  walk (suc n) m (i ∷ is) ((x ∷ xs) ∷ xss) fine (f, h) short =
      step_top n (advance cmp earlier (i ∷ is) m) (top cmp earlier i is) (x ∷ xs) xss (walk n) fine
        refl refl (top-Splits cmp icmp earlier c crc z i is x xs xss f h) short

regroup : {A : Type 0} (xs ys zs : List A) → Permᴰ ((xs ++ ys) ++ zs) (ys ++ (xs ++ zs))
regroup xs ys zs =
    subst (λ l. Permᴰ l (ys ++ (xs ++ zs))) (sym (append_assoc xs ys zs)) (swap_blocks xs ys zs)

-- SeekToFirst of each of the iterators stands at the first of its records, of which there are some.
abbrev pub Opens :
    (Coding
      → Crc
      → Codecs
      → BlockHandles
      → List (BlobFileIterator × InitIo × NextIo)
      → List (List Found)
      → Type 0)
Opens c crc z bh [] [] = Unit {0}
Opens c crc z bh ((it, init_io, io) ∷ its) ((x ∷ xs) ∷ xss) =
    ((it' : BlobFileIterator) × (Iterator.seek_to_first c crc z bh init_io io it ≡ ok it')
      × Finds c crc z (x ∷ xs) it')
    × Opens c crc z bh its xss
Opens c crc z bh its xss = ⊥

module _ (cmp : Comparator) (icmp : IsComparator cmp)
    (earlier : BlobFileIterator → BlobFileIterator → Bool) (c : Coding) (crc : Crc) (z : Codecs)
    (bh : BlockHandles) where
  -- What the loop of SeekToFirst makes of a heap.
  abbrev Heaped : List (List Found) → List (List Found) → List BlobFileIterator → Type 0
  Heaped xss hss heap =
      (yss : List (List Found)) × Holds c crc z heap yss
      × Permᴰ (together xss ++ together hss) (together yss)
      × (All (Sorted cmp) xss → All (Sorted cmp) hss → All (Sorted cmp) yss)

  seek_each-Heaped :
      (its : List (BlobFileIterator × InitIo × NextIo)) (xss hss : List (List Found))
      (heap : List BlobFileIterator)
      → Opens c crc z bh its xss
      → Holds c crc z heap hss
      → (heap' : List BlobFileIterator) × (seek_each cmp earlier c crc z bh its heap ≡ ok heap')
        × Heaped xss hss heap'
  unfolding seek_each
  seek_each-Heaped [] [] hss heap o h = (heap, refl, (hss, h, Permᴰ.refl _, λ s t. t))
  seek_each-Heaped [] (xs ∷ xss) hss heap o h = elim o [ ]
  seek_each-Heaped (i ∷ its) [] hss heap o h = elim o [ ]
  seek_each-Heaped (i ∷ its) ([] ∷ xss) hss heap o h = elim o [ ]
  seek_each-Heaped ((it, init_io, io) ∷ its) ((x ∷ xs) ∷ xss) hss heap ((it', done, f), o) h =
      let (hss', h', same, sorted) = push-Holds cmp earlier c crc z it' (x ∷ xs) heap hss f h in
      let (heap2, done2, (yss, h2, p, sorted2)) =
        seek_each-Heaped its xss hss' (push it' heap) o h' in
      (
        heap2,
        ap
              (λ (o : Outcome BlobFileIterator).
                o >>= λ i. seek_each cmp earlier c crc z bh its (push i heap))
              done
            ∙ done2,
        (
          yss,
          h2,
          Permᴰ.trans (regroup (x ∷ xs) (together xss) (together hss))
              (subst (λ x. Permᴰ (together xss ++ x) (together yss)) same p),
          λ s t. sorted2 s.1 (sorted s.0 t),
        ),
      )

  start-Merged :
      (heap : List BlobFileIterator) (yss : List (List Found))
      → Holds c crc z heap yss
      → 1 ≤ length (together yss)
      → Merged cmp earlier c crc z (start cmp earlier heap) yss
  unfolding start advance
  start-Merged [] [] h some_record = absurd (omega (arith, some_record))
  start-Merged [] (xs ∷ xss) h some_record = elim h [ ]
  start-Merged (i ∷ is) yss h some_record =
      walk cmp icmp earlier c crc z (length (together yss))
        (record { own_status = none; min_heap = []; current = none }) (i ∷ is) yss refl h
        (omega arith)

  opened_walk :
      (its : List (BlobFileIterator × InitIo × NextIo)) (xss : List (List Found))
      → Opens c crc z bh its xss
      → 1 ≤ length (together xss)
      → (m : BlobFileMergeIterator) × (zs : List Found) × (seek_to_first cmp earlier c crc z bh its
          ≡ ok m)
        × Walks c crc z cmp earlier zs m
        × Permᴰ (together xss) zs
        × (All (Sorted cmp) xss → Sorted cmp zs)
  unfolding seek_to_first
  opened_walk its xss o some_record =
      let (heap, done, (yss, h, p, sorted)) = seek_each-Heaped its xss [] [] o tt in
      let p' : Permᴰ (together xss) (together yss) =
        subst (λ x. Permᴰ x (together yss)) (append-nil (together xss)) p in
      let (zs, walks, q, low) =
        start-Merged heap yss h (omega (arith, some_record, length-Permᴰ p')) in
      (
        start cmp earlier heap,
        zs,
        ap (λ (o : Outcome (List BlobFileIterator)). o >>= λ x. Outcome.ok (start cmp earlier x))
            done,
        walks,
        Permᴰ.trans p' q,
        λ ss. low (sorted ss tt),
      )

  -- The iterators open, each on some records, and there is one at least. SeekToFirst of the merge
  -- iterator then stands at a record, and calls of Next lead through a permutation of all records of
  -- all iterators, each with its index, whatever order the heap chooses among equal keys; after the
  -- last the merge iterator is not valid and has no error.
  pub seek_to_first-Walks :
      (its : List (BlobFileIterator × InitIo × NextIo)) (xss : List (List Found))
      → Opens c crc z bh its xss
      → 1 ≤ length (together xss)
      → (m : BlobFileMergeIterator) × (zs : List Found) × (seek_to_first cmp earlier c crc z bh its
          ≡ ok m)
        × Walks c crc z cmp earlier zs m
        × Perm (together xss) zs
  seek_to_first-Walks its xss o some_record =
      let (m, zs, done, walks, p, _) = opened_walk its xss o some_record in
      (m, zs, done, walks, ∣ p ∣₁)

  -- Where the records of each file are in the order of their keys, and there is one at least, so are
  -- those of the merge iterator: SeekToFirst and calls of Next lead through all of them in that order.
  pub seek_to_first-Sorted :
      (its : List (BlobFileIterator × InitIo × NextIo)) (xss : List (List Found))
      → Opens c crc z bh its xss
      → 1 ≤ length (together xss)
      → All (Sorted cmp) xss
      → (m : BlobFileMergeIterator) × (zs : List Found) × (seek_to_first cmp earlier c crc z bh its
          ≡ ok m)
        × Walks c crc z cmp earlier zs m
        × Perm (together xss) zs
        × Sorted cmp zs
  seek_to_first-Sorted its xss o some_record s =
      let (m, zs, done, walks, p, low) = opened_walk its xss o some_record in
      (m, zs, done, walks, ∣ p ∣₁, low s)
