-- ===== src/TableBuilder/Foreground/Stores.antt =====
-- ForegroundBuilder of src/table_builder.cc: where the value of a request is afterwards.
use diffkv.Prelude.{
  ℕ, ◌≡◌, refl, sym, ap, ◌∙◌, ◌⊎◌, inl, inr, leb, false, Bool-cases, if◌then◌else◌, none, some,
  Option-cases, List, [], ◌∷◌, ◌++◌, Bytes, ok, >>=-eq-ok, ok-injective, length, is_empty,
}
use mathlib.Core.Path.{subst}
use mathlib.Core.Option.{some-injective}
use mathlib.Core.List.{append-nil}
use diffkv.Coding.{Coding, IsCoding, Crc, IsCrc, BlockHandles}
use diffkv.Options.{Comparator, CfOptions}
use diffkv.Compression.{CompressionType, Codecs, IsCodecs}
use diffkv.Format.Bounds.{unsorted}
use diffkv.Format.Record.{BlobRecord}
use diffkv.Format.Index.{BlobHandle, encode_index}
use diffkv.Format.FileMeta.{BlobFileMeta, FileEvent, make, file_state_transit}
use diffkv.BlobFile.Builder.{BlobFileBuilder, add, finish_file}
use diffkv.BlobFile.Reader.{read_record}
use diffkv.BlobFile.RoundTrip.{IsWritable, request, read_added, add-ok}
use diffkv.TableBuilder.{BlobFileHandle}
use diffkv.TableBuilder.Separates.{finish_file-longer}
use diffkv.TableBuilder.Foreground.Writes.{IsFine, answer-some, handle_request-writes}
use diffkv.TableBuilder.Foreground.{
  Worker, RequestIo, Answer, finish_blob, write_request, handle_request,
}

-- The file that the worker has under the number, open or finished.
abbrev pub HasFile : Worker → ℕ → Bytes → Type 0
HasFile w n file =
    ((b : BlobFileBuilder) × (w.output ≡ some (n, b)) × (b.file ≡ file))
    ⊎ ((m : BlobFileMeta) × (before : List (BlobFileMeta × BlobFileHandle)) × (w.finished_files
          ≡ before ++ ((m, record { number = n; file = file }) ∷ [])))

module _ (c : Coding) (crc : Crc) (bh : BlockHandles) where
  finish_blob-HasFile :
      (io : RequestIo) (n : ℕ) (b : BlobFileBuilder) (w w' : Worker)
      → w.output ≡ some (n, b)
      → finish_blob c crc bh io w ≡ ok w'
      → (more : Bytes) × HasFile w' n (b.file ++ more) × (w'.output ≡ none)
  unfolding finish_blob
  finish_blob-HasFile io n b w w' held e =
      let b' = finish_file c crc bh io.footer_io io.flush_io b in
      elim (Option-cases b'.status) [
        | inr (x, bad) ↦ absurd (cc (rw (held, bad, finish_blob) at e))
        | inl good ↦
            let (more, longer) = finish_file-longer c crc bh io.footer_io io.flush_io b good in
            let (m, _, same) =
              >>=-eq-ok
                (file_state_transit FileEvent.reset (
                  make n (length b'.file) b'.num_entries 0 b'.smallest_key b'.largest_key unsorted))
                _ (rw (held, good, finish_blob) at e) in
            (
              more,
              inr (
                m,
                w.finished_files,
                sym (ap (λ x. x.finished_files) (ok-injective same))
                    ∙ ap (λ f. w.finished_files ++ ((m, record { number = n; file = f }) ∷ []))
                        longer,
              ),
              sym (ap (λ x. x.output) (ok-injective same)),
            )
      ]

module _ (c : Coding) (law : IsCoding c) (crc : Crc) (icrc : IsCrc crc) (bh : BlockHandles)
    (z : Codecs) (zlaw : IsCodecs z) (t : CompressionType) (cmp : Comparator) {R : Type 0}
    (options : CfOptions R) where
  -- The entry leads to the record, in a file that the worker has, whatever is appended to it later.
  abbrev pub IsStored : BlobRecord → Answer → Worker → Type 0
  IsStored r a w =
      (n : ℕ) × (h : BlobHandle) × (file : Bytes) × (a.entry
        ≡ some (encode_index c (record { file_number = n; blob_handle = h })))
      × HasFile w n file
      × ((tail : Bytes) → read_record c crc z none h (request r) (file ++ tail) ≡ ok r)
      × IsFine w

  -- After the file has been finished or not.
  kept_file :
      (io : RequestIo) (n : ℕ) (b1 : BlobFileBuilder) (w w2 : Worker)
      → b1.status ≡ none
      → w.output ≡ some (n, b1)
      → (if leb options.blob_file_target_size (length b1.file)
          then finish_blob c crc bh io w
          else ok w)
        ≡ ok w2
      → (more : Bytes) × HasFile w2 n (b1.file ++ more) × IsFine w2
  kept_file io n b1 w w2 fine held e =
      elim (Bool-cases (leb options.blob_file_target_size (length b1.file))) [
        | inl full ↦
            let (more, has, closed) =
              finish_blob-HasFile c crc bh io n b1 w w2 held (rw full at e) in
            (more, has, λ k b o. absurd (cc (closed, o)))
        | inr room ↦
            let same : w ≡ w2 = ok-injective (rw room at e) in
            subst (λ x. (more : Bytes) × HasFile x n (b1.file ++ more) × IsFine x) same
              (
                [],
                inl (b1, held, sym (append-nil b1.file)),
                λ k b o.
                    sym (ap (λ p. p.1.status) (some-injective (n, b1) (k, b) (sym held ∙ o)))
                    ∙ fine,
              )
      ]

  abbrev pub record_for : Bytes → Bytes → BlobRecord
  record_for key value = record { key = key; value = value; only_value = false }

  write_request-IsStored :
      (io : RequestIo) (key value : Bytes) (n : ℕ) (b : BlobFileBuilder) (w w' : Worker)
      (a : Answer)
      → b.status ≡ none
      → io.write_io ≡ none
      → IsWritable (record_for key value)
      → write_request c crc bh z t cmp options io key value n b w ≡ ok (a, w')
      → a.status ≡ none
      → IsStored (record_for key value) a w'
  unfolding write_request
  write_request-IsStored io key value n b w w' a fine no_io wr e accepted =
      let r = record_for key value in
      let start : BlobHandle = record { offset = 0; size = 0 } in
      let ((h, b1), one, e1) = >>=-eq-ok (add c crc z t cmp io.write_io r start b) _ e in
      let entry = encode_index c (record { file_number = n; blob_handle = h }) in
      let w1 = record w { output = some (n, b1) } in
      let (w2, kept, e2) =
        >>=-eq-ok
          (if leb options.blob_file_target_size (length b1.file)
            then finish_blob c crc bh io w1
            else ok w1)
          _ e1 in
      let same = ok-injective e2 in
      let (header, body, enc, at_end, grown, fine1) =
        add-ok c law crc icrc z zlaw t cmp r start h b b1 fine
          (subst (λ x. add c crc z t cmp x r start b ≡ ok (h, b1)) no_io one) in
      let (more, has, still) = kept_file io n b1 w1 w2 fine1 refl kept in
      subst (λ p. IsStored r p.0 p.1) same
        (
          n,
          h,
          b1.file ++ more,
          answer-some c crc bh z t cmp options io entry (ap (λ p. p.0.status) same ∙ accepted),
          has,
          λ tail.
              read_added c law crc icrc z zlaw t cmp r h header body b.file b1.file
                (b1.file ++ more) more tail wr enc at_end grown refl,
          still,
        )

  -- A request with a key that is answered with OK, where the file system takes what is written to it,
  -- no error has come up before and the lengths fit a varint32: the entry in the request's batch leads
  -- to the record, in a blob file that the builder has open or has finished, whatever is appended to
  -- the file later; and still there has been no error.
  pub handle_request-IsStored :
      (io : RequestIo) (key value : Bytes) (w w' : Worker) (a : Answer)
      → is_empty key ≡ false
      → IsFine w
      → io.header_io ≡ none
      → io.write_io ≡ none
      → IsWritable (record_for key value)
      → handle_request c crc bh z t cmp options io key value w ≡ ok (a, w')
      → a.status ≡ none
      → IsStored (record_for key value) a w'
  handle_request-IsStored io key value w w' a named fine no_header no_io wr e accepted =
      let (n, b, good, writes) =
        handle_request-writes c crc bh z t cmp options io key value w w' a named fine no_header e
          accepted in
      write_request-IsStored io key value n b w w' a good no_io wr writes accepted
