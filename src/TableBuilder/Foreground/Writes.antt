-- ===== src/TableBuilder/Foreground/Writes.antt =====
-- A request of ForegroundBuilder in src/table_builder.cc that is answered with OK has written a record.
use diffkv.Prelude.{
  ℕ, ◌≡◌, refl, ap, Bool-cases, false, inl, inr, Option, none, some, Option-cases, Outcome-cases,
  Bytes, ok, ok-injective, Status, is_empty,
}
use diffkv.Coding.{Coding, Crc, BlockHandles}
use diffkv.Options.{Comparator, CfOptions}
use diffkv.Compression.{CompressionType, Codecs}
use diffkv.BlobFile.Builder.{BlobFileBuilder, new_builder}
use diffkv.TableBuilder.Foreground.{
  Worker, RequestIo, Answer, answer, write_request, new_file_request, add_request, handle_request,
}

-- The open file, if there is one, has had no error.
abbrev pub IsFine : Worker → Type 0
IsFine w = (n : ℕ) (b : BlobFileBuilder) → w.output ≡ some (n, b) → b.status ≡ none

module _ (c : Coding) (crc : Crc) (bh : BlockHandles) (z : Codecs) (t : CompressionType)
    (cmp : Comparator) {R : Type 0} (options : CfOptions R) where
  pub answer-some :
      (io : RequestIo) (entry : Bytes)
      → (answer c crc bh z t cmp options io entry).status ≡ none
      → (answer c crc bh z t cmp options io entry).entry ≡ some entry
  answer-some io entry e = elim (Option-cases io.put_io) [
    | inl good ↦ rw good refl
    | inr (x, bad) ↦ absurd (cc (rw bad at e))
  ]

  new_builder-fine : (io : Option Status) → io ≡ none → (new_builder c io).status ≡ none
  unfolding new_builder
  new_builder-fine none e = refl
  new_builder-fine (some x) e = e

  -- The request has gone to a file without an error, to the open one or to a new one.
  abbrev pub HasWritten : RequestIo → Bytes → Bytes → Worker → Worker → Answer → Type 0
  HasWritten io key value w w' a =
      (n : ℕ) × (b : BlobFileBuilder) × (b.status ≡ none)
      × (write_request c crc bh z t cmp options io key value n b w ≡ ok (a, w'))

  new_file_request-writes :
      (io : RequestIo) (key value : Bytes) (w w' : Worker) (a : Answer)
      → io.header_io ≡ none
      → new_file_request c crc bh z t cmp options io key value w ≡ ok (a, w')
      → a.status ≡ none
      → HasWritten io key value w w' a
  unfolding new_file_request
  new_file_request-writes io key value w w' a no_header e accepted =
      elim (Outcome-cases io.new_file) [
        | inl broken ↦ absurd (cc (rw (broken, new_file_request) at e))
        | inr (inl (s, failed)) ↦ absurd (
            cc (accepted, ap (λ p. p.0.status) (ok-injective (rw (failed, new_file_request) at e))))
        | inr (inr (n, made)) ↦ elim (Bool-cases io.has_storage) [
          | inr gone ↦ absurd (cc (rw (made, gone, new_file_request) at e))
          | inl there ↦ (
            n,
            new_builder c io.header_io,
            new_builder-fine io.header_io no_header,
            rw (made, there, new_file_request) at e,
          )
        ]
      ]

  pub handle_request-writes :
      (io : RequestIo) (key value : Bytes) (w w' : Worker) (a : Answer)
      → is_empty key ≡ false
      → IsFine w
      → io.header_io ≡ none
      → handle_request c crc bh z t cmp options io key value w ≡ ok (a, w')
      → a.status ≡ none
      → HasWritten io key value w w' a
  unfolding handle_request add_request
  handle_request-writes io key value w w' a named fine no_header e accepted =
      elim (Option-cases w.output) [
        | inr ((n, b), held) ↦
            (n, b, fine n b held, rw (named, held, handle_request, add_request) at e)
        | inl closed ↦
            new_file_request-writes io key value w w' a no_header
              (rw (named, closed, handle_request, add_request) at e) accepted
      ]
