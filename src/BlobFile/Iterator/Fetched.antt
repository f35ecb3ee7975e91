-- ===== src/BlobFile/Iterator/Fetched.antt =====
-- GetBlobRecord of src/blob_file_iterator.cc reads what BlobEncoder wrote.
use diffkv.Prelude.{
  ◌≡◌, sym, ap, ◌∙◌, false, none, [], ◌++◌, Bytes, Outcome, ok, >>=-eq-ok, ok-injective, length,
  take, drop, take-append, drop-append, add64, inl,
}
use mathlib.Core.Path.{subst}
use mathlib.Core.List.{append_assoc, append-nil}
use diffkv.Coding.{Coding, IsCoding, Crc, IsCrc}
use diffkv.Compression.{CompressionType, Codecs, IsCodecs, compress}
use diffkv.Format.Bounds.{record_header_size}
use diffkv.Format.Record.{BlobRecord}
use diffkv.Format.Record
use diffkv.Format.Codec.{
  encode_record, BlobDecoder, decode_record_header, decode_record, decode_blob,
}
use diffkv.Format.Codec.RoundTrip.{
  decode_blob-encode_record, decode_record_header-header_of, length-header_of, encoded_parts,
  decoder_of,
}
use diffkv.BlobFile.Reader.{read_at}
use diffkv.BlobFile.RoundTrip.{IsWritable}
use diffkv.BlobFile.Iterator.{BlobFileIterator, NextIo, get_blob_record, take_record}

-- The bytes that stand in the middle of a file.
pub take-middle :
    (before xs more : Bytes) → take (length xs) (drop (length before) (before ++ (xs ++ more))) ≡ xs
take-middle before xs more = rw (drop-append before (xs ++ more)) (take-append xs more)

-- The file system's answer when nothing fails.
abbrev pub good_reads : NextIo
good_reads = record { header = none; record_io = none }

module _ (c : Coding) (law : IsCoding c) (crc : Crc) (icrc : IsCrc crc) (z : Codecs)
    (zlaw : IsCodecs z) (t : CompressionType) where
  pub length-encoded_header :
      (r : BlobRecord) (header body : Bytes)
      → encode_record c crc z t r ≡ ok (header, body)
      → length header ≡ record_header_size
  length-encoded_header r header body e =
      let (eh, _, _) = encoded_parts c law crc icrc z zlaw t r header body e in
      let out = compress z t (Record.encode_to c r) in
      ap length eh ∙ length-header_of c law crc icrc z zlaw out.0 out.1

  -- The two steps of decoding, each on the bytes that it is given.
  decode_steps :
      (target r : BlobRecord) (header body : Bytes)
      → Record.Fits target r
      → encode_record c crc z t r ≡ ok (header, body)
      → (d : BlobDecoder) × (decode_record_header c crc z header ≡ ok (d, []))
        × (d.record_size ≡ length body)
        × (decode_record c crc z d target body ≡ ok (r, []))
  unfolding decode_blob decoder_of
  decode_steps target r header body fits e =
      let (eh, eb, range) = encoded_parts c law crc icrc z zlaw t r header body e in
      let out = compress z t (Record.encode_to c r) in
      let whole =
        decode_blob-encode_record c law crc icrc z zlaw t target r header body [] fits e in
      let ((d, rest), first, second) =
        >>=-eq-ok (decode_record_header c crc z (header ++ (body ++ []))) _ whole in
      let long =
        decode_record_header-header_of c law crc icrc z zlaw out.0 out.1 (body ++ []) range in
      let short = decode_record_header-header_of c law crc icrc z zlaw out.0 out.1 [] range in
      let same =
        ok-injective
          (sym first ∙ (ap (λ x. decode_record_header c crc z (x ++ (body ++ []))) eh ∙ long)) in
      let d0 = decoder_of c law crc icrc z zlaw out.0 out.1 in
      (
        d0,
        ap (λ x. decode_record_header c crc z x) (eh ∙ sym (append-nil _)) ∙ short,
        ap length (sym eb),
        subst (λ p. decode_record c crc z p.0 target p.1 ≡ ok (r, []))
            (same ∙ ap (λ x. (d0, x)) (append-nil body)) second,
      )

  -- Where the iterator's offset is that of a record that BlobEncoder wrote, GetBlobRecord takes it.
  pub get_blob_record-encode_record :
      (r : BlobRecord) (header body before more : Bytes) (it : BlobFileIterator)
      → it.cur_blob_record.only_value ≡ false
      → r.only_value ≡ false
      → IsWritable r
      → encode_record c crc z t r ≡ ok (header, body)
      → it.file ≡ before ++ (header ++ (body ++ more))
      → it.iterate_offset ≡ length before
      → add64 (length before) record_header_size ≡ length (before ++ header)
      → get_blob_record c crc z good_reads it ≡ ok (take_record c crc z (length body) r it)
  unfolding get_blob_record read_at
  get_blob_record-encode_record r header body before more it whole only w e file at small =
      let (d, first, size, second) =
        decode_steps it.cur_blob_record r header body (inl (whole, only, w.0, w.1)) e in
      let head : take record_header_size (drop it.iterate_offset it.file) ≡ header =
        rw (file, at, ← length-encoded_header r header body e)
          (take-middle before header (body ++ more)) in
      let rest : take (length body) (drop (add64 it.iterate_offset record_header_size) it.file)
          ≡ body =
        rw (file, at, small, ← append_assoc) (take-middle (before ++ header) body more) in
      rw (head, first, size, rest, second, get_blob_record)
        (ap (λ n. Outcome.ok (take_record c crc z n r it)) size)
