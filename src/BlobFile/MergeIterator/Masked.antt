-- ===== src/BlobFile/MergeIterator/Masked.antt =====
-- A read error that BlobFileMergeIterator::Next of src/blob_file_iterator.cc does not report.
use diffkv.Prelude.{
  ◌≡◌, refl, ap, ◌∙◌, Bool, true, false, none, some, List, [], Outcome, ok, ◌>>=◌, Status,
}
use diffkv.Coding.{Coding, Crc}
use diffkv.Options.{Comparator}
use diffkv.Compression.{Codecs}
use diffkv.BlobFile.Iterator.{BlobFileIterator, NextIo}
use diffkv.BlobFile.Iterator
use diffkv.BlobFile.MergeIterator.{
  BlobFileMergeIterator, status, is_valid, push, advance, next_of, next,
}

push-failed :
    (it : BlobFileIterator) (heap : List BlobFileIterator) (s : Status)
    → it.status ≡ some s
    → push it heap ≡ heap
unfolding push
push-failed it heap s e = rw (e, push)

module _ (cmp : Comparator) (earlier : BlobFileIterator → BlobFileIterator → Bool) (c : Coding)
    (crc : Crc) (z : Codecs) where
  -- The last iterator of a merge fails to read its next record: Next leaves a merge iterator that is
  -- not valid and whose status is OK, as if the records had come to their end.
  pub next-masked :
      (io : NextIo) (m : BlobFileMergeIterator) (it it' : BlobFileIterator) (s : Status)
      → is_valid m ≡ true
      → m.current ≡ some it
      → m.min_heap ≡ []
      → m.own_status ≡ none
      → Iterator.next c crc z io it ≡ ok it'
      → it'.status ≡ some s
      → (m' : BlobFileMergeIterator) × (next cmp earlier c crc z io m ≡ ok m')
        × (is_valid m' ≡ false)
        × (status m' ≡ none)
  unfolding next next_of advance is_valid status
  next-masked io m it it' s v at last fine done bad =
      let run : next cmp earlier c crc z io m ≡ next_of cmp earlier c crc z io m.current m =
        rw (v, next) in
      let onward : next_of cmp earlier c crc z io (some it) m
          ≡ ok (advance cmp earlier (push it' m.min_heap) m) =
        ap
          (λ (o : Outcome BlobFileIterator).
            o >>= λ i. Outcome.ok (advance cmp earlier (push i m.min_heap) m))
          done in
      (
        advance cmp earlier [] m,
        run
            ∙ (ap (λ o. next_of cmp earlier c crc z io o m) at
                ∙ (onward
                    ∙ ap (λ x. Outcome.ok (advance cmp earlier x m))
                        (push-failed it' m.min_heap s bad ∙ last))),
        refl,
        fine,
      )
