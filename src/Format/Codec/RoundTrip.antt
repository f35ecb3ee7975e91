-- ===== src/Format/Codec/RoundTrip.antt =====
-- A blob record is read back from what BlobEncoder wrote.
use diffkv.Prelude.{
  ℕ, ◌≡◌, ◌∙◌, inl, inr, leb, ◌++◌, [], ◌∷◌, Bytes, ok, length, take, length-append, take-append,
  drop-append, arith, IsU32, true,
}
use diffkv.Coding.{Coding, IsCoding, Crc, IsCrc}
use diffkv.Compression.{CompressionType, Codecs, IsCodecs, compress, uncompress}
use diffkv.Compression.RoundTrip.{compress-Recovers}
use diffkv.Format.Bounds.{record_header_size, decode_into, decode_into_whole}
use diffkv.Format.Record.{BlobRecord}
use diffkv.Format.Record
use diffkv.Format.Codec.{
  header_tail, header_of, encode_record, BlobDecoder, decode_record_header, decode_body,
  decode_record, decode_blob,
}
use mathlib.Core.Path.{subst}
use mathlib.Core.List.{append_assoc}

module _ (c : Coding) (law : IsCoding c) (crc : Crc) (icrc : IsCrc crc) (z : Codecs)
    (zlaw : IsCodecs z) where
  length-header_tail :
      (body : Bytes) (t : CompressionType) → length (header_tail c crc z body t) ≡ 5
  unfolding header_tail
  length-header_tail body t = omega (
    arith,
    length-append (c.put_fixed32 (length body)) (z.code t ∷ []),
    law.length-fixed32 (length body),
  )

  -- What EncodeRecord writes before a record takes 9 bytes.
  pub length-header_of :
      (body : Bytes) (t : CompressionType) → length (header_of c crc z body t) ≡ record_header_size
  unfolding header_of
  length-header_of body t = omega (
    arith,
    length-append (c.put_fixed32 (crc.extend (crc.value (header_tail c crc z body t)) body))
        (header_tail c crc z body t),
    law.length-fixed32 (crc.extend (crc.value (header_tail c crc z body t)) body),
    length-header_tail body t,
  )

  take_tail :
      (body : Bytes) (t : CompressionType) (rest : Bytes)
      → take 5 (header_tail c crc z body t ++ rest) ≡ header_tail c crc z body t
  take_tail body t rest =
      subst (λ (n : ℕ). take n (header_tail c crc z body t ++ rest) ≡ header_tail c crc z body t)
        (length-header_tail body t) (take-append (header_tail c crc z body t) rest)

  -- The decoder's members after it has read the header of `body`.
  unfoldable pub decoder_of : Bytes → CompressionType → BlobDecoder
  decoder_of body t = record {
    crc = crc.extend (crc.value (header_tail c crc z body t)) body;
    header_crc = crc.value (header_tail c crc z body t);
    record_size = length body;
    compression = t;
  }

  tail_split :
      (body : Bytes) (t : CompressionType) (rest : Bytes)
      → header_tail c crc z body t ++ rest ≡ c.put_fixed32 (length body) ++ (z.code t ∷ rest)
  unfolding header_tail
  tail_split body t rest = append_assoc (c.put_fixed32 (length body)) (z.code t ∷ []) rest

  -- DecodeHeader finds the size and the compression type of the record, and the checksum that
  -- extends the header's by the record.
  pub decode_record_header-header_of :
      (body : Bytes) (t : CompressionType) (rest : Bytes)
      → IsU32 (length body)
      → decode_record_header c crc z (header_of c crc z body t ++ rest)
        ≡ ok (decoder_of body t, rest)
  unfolding decode_record_header header_of decoder_of
  decode_record_header-header_of body t rest h =
      let tail = header_tail c crc z body t in
      let sum = crc.extend (crc.value tail) body in
      rw (append_assoc, law.fixed32_read sum (tail ++ rest) (icrc.extend_range _ body))
        (rw (take_tail body t rest, tail_split body t rest)
          (rw (law.fixed32_read (length body) (z.code t ∷ rest) h) (rw (zlaw.of_code-code t))))

  leb_prefix : (xs ys : Bytes) → leb (length xs) (length (xs ++ ys)) ≡ true
  leb_prefix xs ys = ground (arith, length-append xs ys)

  decode_body-uncompress :
      (t : CompressionType) (target : BlobRecord) (body input : Bytes)
      → uncompress z t body ≡ ok input
      → decode_body c z t target body ≡ decode_into (Record.decode_from c target) input
  unfolding decode_body
  decode_body-uncompress CompressionType.no_compression target body input e =
      unfold uncompress in cc
  decode_body-uncompress t target body input e = rw e

  decode_body-compress :
      (t : CompressionType) (target r : BlobRecord)
      → Record.Fits target r
      → let out = compress z t (Record.encode_to c r) in decode_body c z out.1 target out.0 ≡ ok r
  unfolding decode_body
  decode_body-compress t target r fits =
      let input = Record.encode_to c r in
      let whole =
        decode_into_whole (Record.decode_from c target) input r
          (Record.decode-encode c law target r fits) in
      elim (compress-Recovers z zlaw t input) [
        | inl (none, same) ↦ rw (none, same) whole
        | inr (back, _) ↦ decode_body-uncompress _ target _ input back ∙ whole
      ]

  pub encoded_parts :
      (t : CompressionType) (r : BlobRecord) (header body : Bytes)
      → encode_record c crc z t r ≡ ok (header, body)
      → let out = compress z t (Record.encode_to c r) in
        (header ≡ header_of c crc z out.0 out.1) × (body ≡ out.0) × IsU32 (length out.0)
  unfolding encode_record
  encoded_parts t r header body e = (ground arith, ground arith, ground arith)

  -- Whatever the compression type, the record that EncodeRecord wrote is read back by DecodeHeader
  -- and DecodeRecord, and what follows it is left over.
  pub decode_blob-encode_record :
      (t : CompressionType) (target r : BlobRecord) (header body rest : Bytes)
      → Record.Fits target r
      → encode_record c crc z t r ≡ ok (header, body)
      → decode_blob c crc z target (header ++ (body ++ rest)) ≡ ok (r, rest)
  unfolding decode_blob decode_record decoder_of
  decode_blob-encode_record t target r header body rest fits e =
      let (eh, eb, range) = encoded_parts t r header body e in
      let out = compress z t (Record.encode_to c r) in
      rw (eh, eb)
        (rw (decode_record_header-header_of out.0 out.1 (out.0 ++ rest) range) (
          rw (take-append out.0 rest, drop-append out.0 rest, leb_prefix out.0 rest)
            (rw (decode_body-compress t target r fits))))
