-- ===== src/TableBuilder/Foreground/Masked.antt =====
-- A write error that ForegroundBuilder::handleRequest of src/table_builder.cc does not report.
use diffkv.Prelude.{
  ℕ, zero, suc, ◌+◌, ◌≡◌, refl, sym, ap, ◌∙◌, leb, false, inl, inr, Bool-cases, none, some, Bytes,
  ok, err, fault, >>=-eq-ok, ok-injective, Option, List, [], Status, length, take, drop,
  drop-append, is_empty, arith, if◌then◌else◌, ◌==◌,
}
use mathlib.Core.Path.{subst}
use mathlib.Core.List.{append-nil}
use diffkv.Coding.{Coding, Crc, BlockHandles}
use diffkv.Options.{Comparator, CfOptions}
use diffkv.Compression.{CompressionType, Codecs}
use diffkv.Format.Bounds.{record_header_size}
use diffkv.Format.Record.{BlobRecord}
use diffkv.Format.Index.{BlobHandle, encode_index}
use diffkv.Format.Codec.{encode_record}
use diffkv.BlobFile.Builder.{BlobFileBuilder, add, finish_file}
use diffkv.BlobFile.Reader.{read_at, read_record}
use diffkv.TableBuilder.Foreground.{
  Worker, RequestIo, Answer, finish_blob, flush_request, write_request, handle_request,
}
use diffkv.TableBuilder.Foreground.Writes.{IsFine, answer-some, handle_request-writes}

take_nil : {A : Type 0} (n : ℕ) → take {A = A} n [] ≡ []
take_nil zero = refl
take_nil (suc n) = refl

drop-length : {A : Type 0} (xs : List A) → drop (length xs) xs ≡ []
drop-length xs = ap (λ l. drop (length xs) l) (sym (append-nil xs)) ∙ drop-append xs []

module _ (c : Coding) (crc : Crc) (z : Codecs) where
  -- Nothing is read where a file ends.
  read_record-at_end :
      (size : ℕ) (target : BlobRecord) (file : Bytes)
      → read_record c crc z none
          (record { offset = length file; size = record_header_size + size })
          target
          file
        ≡ err Status.corruption
  unfolding read_record read_at
  read_record-at_end size target file =
      let nothing : take (record_header_size + size) (drop (length file) file) ≡ [] =
        ap (λ x. take (record_header_size + size) x) (drop-length file)
        ∙ take_nil (record_header_size + size) in
      let apart : (record_header_size + size == length {A = ℕ} []) ≡ false = ground arith in
      rw (nothing, apart, read_record)

module _ (c : Coding) (crc : Crc) (bh : BlockHandles) where
  finish_file-failed :
      (io flush : Option Status) (b : BlobFileBuilder) (x : Status)
      → b.status ≡ some x
      → finish_file c crc bh io flush b ≡ b
  unfolding finish_file
  finish_file-failed io flush b x bad = ground (arith, bad)

  finish_blob-failed :
      (io : RequestIo) (n : ℕ) (b : BlobFileBuilder) (w : Worker) (x : Status)
      → w.output ≡ some (n, b)
      → b.status ≡ some x
      → finish_blob c crc bh io w ≡ fault
  unfolding finish_blob
  finish_blob-failed io n b w x held bad =
      let stays = finish_file-failed io.footer_io io.flush_io b x bad in
      rw (held, stays, bad, finish_blob)

module _ (c : Coding) (crc : Crc) (bh : BlockHandles) (z : Codecs) (t : CompressionType)
    (cmp : Comparator) {R : Type 0} (options : CfOptions R) where
  add-refused :
      (x : Status) (r : BlobRecord) (handle h : BlobHandle) (b b1 : BlobFileBuilder)
      → b.status ≡ none
      → add c crc z t cmp (some x) r handle b ≡ ok (h, b1)
      → (size : ℕ) × (h ≡ record { offset = length b.file; size = record_header_size + size })
        × (b1 ≡ record b { status = some x })
  unfolding add
  add-refused x r handle h b b1 fine e =
      let (p, enc, same) = >>=-eq-ok (encode_record c crc z t r) _ (rw (fine, add) at e) in
      (length p.1, sym (ap (λ q. q.0) (ok-injective same)), sym (ap (λ q. q.1) (ok-injective same)))

  -- A file that has failed is not finished.
  kept_open :
      (io : RequestIo) (n : ℕ) (b : BlobFileBuilder) (w w2 : Worker) (x : Status)
      → w.output ≡ some (n, b)
      → b.status ≡ some x
      → (if leb options.blob_file_target_size (length b.file)
          then finish_blob c crc bh io w
          else ok w)
        ≡ ok w2
      → w ≡ w2
  kept_open io n b w w2 x held bad e =
      elim (Bool-cases (leb options.blob_file_target_size (length b.file))) [
        | inl full ↦ absurd (cc (finish_blob-failed c crc bh io n b w x held bad, (rw full at e)))
        | inr room ↦ ok-injective (rw room at e)
      ]

  -- The entry leads to where the open file of the builder ends, so that no record is read there. The
  -- error stays with the file, and a flush ends the process.
  abbrev pub IsLost : RequestIo → BlobRecord → Status → Answer → Worker → Type 0
  IsLost later target x a w =
      (n : ℕ) × (h : BlobHandle) × (b : BlobFileBuilder) × (a.entry
        ≡ some (encode_index c (record { file_number = n; blob_handle = h })))
      × (w.output ≡ some (n, b))
      × (b.status ≡ some x)
      × (read_record c crc z none h target b.file ≡ err Status.corruption)
      × (flush_request c crc bh later w ≡ fault)

  write_request-IsLost :
      (io later : RequestIo) (key value : Bytes) (target : BlobRecord) (n : ℕ) (b : BlobFileBuilder)
      (w w' : Worker) (a : Answer) (x : Status)
      → b.status ≡ none
      → io.write_io ≡ some x
      → write_request c crc bh z t cmp options io key value n b w ≡ ok (a, w')
      → a.status ≡ none
      → IsLost later target x a w'
  unfolding write_request flush_request
  write_request-IsLost io later key value target n b w w' a x fine bad e accepted =
      let r : BlobRecord = record { key = key; value = value; only_value = false } in
      let start : BlobHandle = record { offset = 0; size = 0 } in
      let ((h, b1), one, e1) = >>=-eq-ok (add c crc z t cmp io.write_io r start b) _ e in
      let entry = encode_index c (record { file_number = n; blob_handle = h }) in
      let w1 = record w { output = some (n, b1) } in
      let (w2, kept, e2) =
        >>=-eq-ok
          (if leb options.blob_file_target_size (length b1.file)
            then finish_blob c crc bh io w1
            else ok w1)
          _ e1 in
      let same = ok-injective e2 in
      let (size, at_end, left) =
        add-refused x r start h b b1 fine
          (subst (λ y. add c crc z t cmp y r start b ≡ ok (h, b1)) bad one) in
      let failed : b1.status ≡ some x = ap (λ y. y.status) left in
      let there : w'.output ≡ some (n, b1) =
        sym (ap (λ p. p.1.output) same)
        ∙ sym (ap (λ y. y.output) (kept_open io n b1 w1 w2 x refl failed kept)) in
      (
        n,
        h,
        b1,
        sym (ap (λ p. p.0.entry) same)
            ∙ answer-some c crc bh z t cmp options io entry (ap (λ p. p.0.status) same ∙ accepted),
        there,
        failed,
        ap (λ y. read_record c crc z none y target b1.file)
              (at_end
                ∙ ap (λ y. record { offset = length y.file; size = record_header_size + size })
                    (sym left))
            ∙ read_record-at_end c crc z size target b1.file,
        rw (finish_blob-failed c crc bh later n b1 w' x there failed),
      )

  -- The file system refuses the record of a request, which goes to a file with no error so far, and
  -- the request is answered with OK all the same. Then its batch has an index that leads to where the
  -- open file of the builder ends, where a read is a corruption; the error stays with the file, and
  -- the next flush ends the process.
  pub handle_request-masked :
      (io later : RequestIo) (key value : Bytes) (target : BlobRecord) (w w' : Worker) (a : Answer)
      (x : Status)
      → is_empty key ≡ false
      → IsFine w
      → io.header_io ≡ none
      → io.write_io ≡ some x
      → handle_request c crc bh z t cmp options io key value w ≡ ok (a, w')
      → a.status ≡ none
      → IsLost later target x a w'
  handle_request-masked io later key value target w w' a x named fine no_header bad e accepted =
      let (n, b, good, writes) =
        handle_request-writes c crc bh z t cmp options io key value w w' a named fine no_header e
          accepted in
      write_request-IsLost io later key value target n b w w' a x good bad writes accepted
