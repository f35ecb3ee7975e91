-- ===== src/BlobFile/Iterator/Scan.antt =====
-- BlobFileIterator of src/blob_file_iterator.cc over what BlobFileBuilder has written.
use diffkv.Prelude.{
  ℕ, ◌^◌, ◌<◌, ◌≡◌, sym, ap, ◌∙◌, false, none, List, [], ◌∷◌, ◌++◌, Bytes, All, ok, >>=-eq-ok,
  ok-injective, length, length-append, arith,
}
use mathlib.Core.Path.{subst}
use mathlib.Core.List.{append_assoc}
use diffkv.Coding.{Coding, IsCoding, Crc, IsCrc}
use diffkv.Options.{Comparator}
use diffkv.Compression.{CompressionType, Codecs, IsCodecs}
use diffkv.Format.Bounds.{record_header_size}
use diffkv.Format.Record.{BlobRecord}
use diffkv.Format.Index.{BlobHandle}
use diffkv.BlobFile.Builder.{BlobFileBuilder, add}
use diffkv.BlobFile.RoundTrip.{IsWritable, add_all, add-ok, add_all-AllRead}
use diffkv.BlobFile.Iterator.{BlobFileIterator, is_valid, prefetch_and_get, next}
use diffkv.BlobFile.Iterator.Fetched.{good_reads, length-encoded_header}
use diffkv.BlobFile.Iterator.Stepped.{
  IsReady, IsAt, prefetch_and_get-encode_record, prefetch_and_get-end,
}

-- A record that Add is given for a blob file: with its key, and with lengths that fit a varint32.
abbrev pub IsWhole : BlobRecord → Type 0
IsWhole r = (r.only_value ≡ false) × IsWritable r

-- The iterator stands at the first record, at its handle; each call of Next leads to the one after it,
-- and the call after the last leaves it invalid without an error.
abbrev pub Scans :
    (Coding → Crc → Codecs → ℕ → List BlobHandle → List BlobRecord → BlobFileIterator → Type 0)
Scans c crc z n [] [] it = (is_valid it ≡ false) × (it.status ≡ none)
Scans c crc z n (h ∷ hs) (r ∷ rs) it =
    IsAt n h r it
    × (it' : BlobFileIterator) × (next c crc z good_reads it ≡ ok it')
    × Scans c crc z n hs rs it'
Scans c crc z n hs rs it = ⊥

module _ (c : Coding) (law : IsCoding c) (crc : Crc) (icrc : IsCrc crc) (z : Codecs)
    (zlaw : IsCodecs z) (t : CompressionType) (cmp : Comparator) where
  next-prepared :
      (file : Bytes) (n end at : ℕ) (it : BlobFileIterator)
      → IsReady file n end at it
      → next c crc z good_reads it ≡ prefetch_and_get c crc z good_reads it
  unfolding next
  next-prepared file n end at it ready = rw (ready.prepared, next)

  pub whole-IsWritable : (rs : List BlobRecord) → All IsWhole rs → All IsWritable rs
  whole-IsWritable [] w = tt
  whole-IsWritable (r ∷ rs) (w, ws) = (w.1, whole-IsWritable rs ws)

  longer_file :
      (header body before more file : Bytes)
      → length header ≡ record_header_size
      → file ≡ (before ++ (header ++ body)) ++ more
      → length before < length file
  longer_file header body before more file nine laid = omega (
    arith,
    nine,
    ap length laid,
    length-append (before ++ (header ++ body)) more,
    length-append before (header ++ body),
    length-append header body,
  )

  -- A call of Add makes the file longer.
  pub add_all-longer :
      (r : BlobRecord) (rs : List BlobRecord) (hs : List BlobHandle) (b b2 : BlobFileBuilder)
      → b.status ≡ none
      → All IsWhole rs
      → add_all c crc z t cmp (r ∷ rs) b ≡ ok (hs, b2)
      → length b.file < length b2.file
  unfolding add_all
  add_all-longer r rs hs b b2 fine w e =
      let ((h, b1), one, e1) = >>=-eq-ok (add c crc z t cmp none r _ b) _ e in
      let ((hs', b3), others, e2) = >>=-eq-ok (add_all c crc z t cmp rs b1) _ e1 in
      let (header, body, enc, _, grown, fine1) =
        add-ok c law crc icrc z zlaw t cmp r _ h b b1 fine one in
      let (more, longer, _, _) =
        add_all-AllRead c law crc icrc z zlaw t cmp rs hs' b1 b3 fine1 (whole-IsWritable rs w)
          others in
      longer_file header body b.file more b2.file
        (length-encoded_header c law crc icrc z zlaw t r header body enc)
        (ap (λ p. p.1.file) (sym (ok-injective e2)) ∙ (longer ∙ ap (λ x. x ++ more) grown))

  -- The same of an iterator that stands before them: PrefetchAndGet finds the records that calls of
  -- Add wrote, one after the other.
  pub prefetch_and_get-add_all :
      (rs : List BlobRecord) (hs : List BlobHandle) (b b2 : BlobFileBuilder) (tail : Bytes) (n : ℕ)
      (it : BlobFileIterator)
      → b.status ≡ none
      → All IsWhole rs
      → add_all c crc z t cmp rs b ≡ ok (hs, b2)
      → length (b2.file ++ tail) < 2 ^ 64
      → IsReady (b2.file ++ tail) n (length b2.file) (length b.file) it
      → (it' : BlobFileIterator) × (prefetch_and_get c crc z good_reads it ≡ ok it')
        × Scans c crc z n hs rs it'
  unfolding add_all
  prefetch_and_get-add_all [] hs b b2 tail n it fine w e small ready =
      let same = ok-injective e in
      let (it', done, over, good) =
        prefetch_and_get-end c law crc icrc z zlaw t (b2.file ++ tail) n (length b2.file) it (
          subst (λ at. IsReady (b2.file ++ tail) n (length b2.file) at it)
            (ap (λ p. length p.1.file) same) ready) in
      (it', done, subst (λ x. Scans c crc z n x [] it') (ap (λ p. p.0) same) (over, good))
  prefetch_and_get-add_all (r ∷ rs) hs b b2 tail n it fine ((only, wr), w) e small ready =
      let ((h, b1), one, e1) = >>=-eq-ok (add c crc z t cmp none r _ b) _ e in
      let ((hs', b3), others, e2) = >>=-eq-ok (add_all c crc z t cmp rs b1) _ e1 in
      let same = ok-injective e2 in
      let last : b3 ≡ b2 = ap (λ p. p.1) same in
      let (header, body, enc, at_end, grown, fine1) =
        add-ok c law crc icrc z zlaw t cmp r _ h b b1 fine one in
      let (more, longer, _, _) =
        add_all-AllRead c law crc icrc z zlaw t cmp rs hs' b1 b3 fine1 (whole-IsWritable rs w)
          others in
      let laid : b2.file ++ tail ≡ b.file ++ (header ++ (body ++ (more ++ tail))) =
        ap (λ x. x.file ++ tail) (sym last)
        ∙ (ap (λ x. x ++ tail) (longer ∙ ap (λ x. x ++ more) grown) ∙ simp append_assoc) in
      let inside : length b.file < length b2.file =
        longer_file header body b.file more b2.file
          (length-encoded_header c law crc icrc z zlaw t r header body enc)
          (ap (λ x. x.file) (sym last) ∙ (longer ∙ ap (λ x. x ++ more) grown)) in
      let (it', done, at, ready') =
        prefetch_and_get-encode_record c law crc icrc z zlaw t r header body b.file (more ++ tail)
          (b2.file ++ tail) n (length b2.file) it only wr enc laid small inside ready in
      let (it2, done2, scans) =
        prefetch_and_get-add_all rs hs' b1 b3 tail n it' fine1 w others
          (subst (λ x. length (x.file ++ tail) < 2 ^ 64) (sym last) small)
          (subst (λ x. IsReady (x.file ++ tail) n (length x.file) (length b1.file) it') (sym last)
            (subst (λ x. IsReady (b2.file ++ tail) n (length b2.file) (length x) it') (sym grown)
              ready')) in
      (
        it',
        done,
        subst (λ x. Scans c crc z n x (r ∷ rs) it') (ap (λ p. p.0) same)
            (
              subst (λ x. IsAt n x r it') (sym at_end) at,
              it2,
              next-prepared (b2.file ++ tail) n (length b2.file) _ it' ready' ∙ done2,
              scans,
            ),
      )
