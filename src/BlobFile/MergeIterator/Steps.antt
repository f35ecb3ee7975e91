-- ===== src/BlobFile/MergeIterator/Steps.antt =====
-- The steps of BlobFileMergeIterator of src/blob_file_iterator.cc.
use diffkv.Prelude.{
  ◌≡◌, refl, sym, ap, ◌∙◌, Bool, true, false, none, some, List, [], ◌∷◌, ◌++◌, All, Outcome, ok,
  ◌>>=◌, length, arith,
}
use mathlib.Core.Path.{subst}
use mathlib.Core.List.{Permᴰ}
use diffkv.Coding.{Coding, Crc}
use diffkv.Options.{Comparator}
use diffkv.Compression.{Codecs}
use diffkv.BlobFile.Iterator.{BlobFileIterator}
use diffkv.BlobFile.Iterator
use diffkv.BlobFile.Iterator.Fetched.{good_reads}
use diffkv.BlobFile.MergeIterator.{
  BlobFileMergeIterator, status, is_valid, push, advance, next_of, next,
}
use diffkv.BlobFile.MergeIterator.Finds.{Found, Finds, Sorted, together}
use diffkv.BlobFile.MergeIterator.Least.{Holds}

pub length-Permᴰ : {A : Type 0} {xs ys : List A} → Permᴰ xs ys → length xs ≡ length ys
length-Permᴰ Permᴰ.nil = refl
length-Permᴰ (Permᴰ.cons e p) = omega (arith, length-Permᴰ p)
length-Permᴰ (Permᴰ.swap e f) = refl
length-Permᴰ (Permᴰ.trans p q) = length-Permᴰ p ∙ length-Permᴰ q

-- The merge iterator stands at the first of the records, calls of Next lead through the others, and
-- then to an iterator that is not valid and has no error.
abbrev pub Walks :
    (Coding
      → Crc
      → Codecs
      → Comparator
      → (BlobFileIterator → BlobFileIterator → Bool)
      → List Found
      → BlobFileMergeIterator
      → Type 0)
Walks c crc z cmp earlier [] m = (is_valid m ≡ false) × (status m ≡ none)
Walks c crc z cmp earlier (x ∷ xs) m =
    (is_valid m ≡ true)
    × (it : BlobFileIterator) × (m.current ≡ some it)
    × (it.cur_blob_record ≡ x.content)
    × (Iterator.blob_index it ≡ x.index)
    × (m' : BlobFileMergeIterator) × (next cmp earlier c crc z good_reads m ≡ ok m')
    × Walks c crc z cmp earlier xs m'

push-valid :
    (it : BlobFileIterator) (heap : List BlobFileIterator)
    → Iterator.is_valid it ≡ true
    → push it heap ≡ it ∷ heap
unfolding push Iterator.is_valid
push-valid it heap v = ground (arith, v)

push-invalid :
    (it : BlobFileIterator) (heap : List BlobFileIterator)
    → Iterator.is_valid it ≡ false
    → push it heap ≡ heap
unfolding push Iterator.is_valid
push-invalid it heap v = ground (arith, v)

valid-fine : (it : BlobFileIterator) → Iterator.is_valid it ≡ true → it.status ≡ none
unfolding Iterator.is_valid
valid-fine it v = ground (arith, v)

module _ (cmp : Comparator) (earlier : BlobFileIterator → BlobFileIterator → Bool) (c : Coding)
    (crc : Crc) (z : Codecs) where
  pub push-Holds :
      (it : BlobFileIterator) (xs : List Found) (heap : List BlobFileIterator)
      (xss : List (List Found))
      → Finds c crc z xs it
      → Holds c crc z heap xss
      → (yss : List (List Found)) × Holds c crc z (push it heap) yss
        × (together yss ≡ xs ++ together xss)
        × (Sorted cmp xs → All (Sorted cmp) xss → All (Sorted cmp) yss)
  push-Holds it [] heap xss f h =
      (xss, subst (λ x. Holds c crc z x xss) (sym (push-invalid it heap f.0)) h, refl, λ s ss. ss)
  push-Holds it (x ∷ xs) heap xss f h = (
    (x ∷ xs) ∷ xss,
    subst (λ y. Holds c crc z y ((x ∷ xs) ∷ xss)) (sym (push-valid it heap f.0)) (f, h),
    refl,
    λ s ss. (s, ss),
  )

  pub next-valid :
      (m : BlobFileMergeIterator)
      → is_valid m ≡ true
      → next cmp earlier c crc z good_reads m ≡ next_of cmp earlier c crc z good_reads m.current m
  unfolding next
  next-valid m v = rw (v, next)

  pub next_of-some :
      (m : BlobFileMergeIterator) (it it' : BlobFileIterator)
      → Iterator.next c crc z good_reads it ≡ ok it'
      → next_of cmp earlier c crc z good_reads (some it) m
        ≡ ok (advance cmp earlier (push it' m.min_heap) m)
  unfolding next_of
  next_of-some m it it' done =
      ap
        (λ (o : Outcome BlobFileIterator).
          o >>= λ i. Outcome.ok (advance cmp earlier (push i m.min_heap) m))
        done

  pub current-valid :
      (m : BlobFileMergeIterator) (it : BlobFileIterator)
      → m.current ≡ some it
      → m.own_status ≡ none
      → Iterator.is_valid it ≡ true
      → is_valid m ≡ true
  unfolding is_valid status Iterator.is_valid
  current-valid m it at fine v = ground (arith, at, fine, valid-fine it v, v)

  -- What a walk needs of the heap it is about to take the top of.
  abbrev pub Merged : BlobFileMergeIterator → List (List Found) → Type 0
  Merged m xss =
      (zs : List Found) × Walks c crc z cmp earlier zs m
      × Permᴰ (together xss) zs
      × (All (Sorted cmp) xss → Sorted cmp zs)

  pub no_more :
      (m : BlobFileMergeIterator) → m.own_status ≡ none → Merged (advance cmp earlier [] m) []
  unfolding advance is_valid status
  no_more m fine = ([], (refl, fine), Permᴰ.nil, λ s. tt)
