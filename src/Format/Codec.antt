-- ===== src/Format/Codec.antt =====
-- BlobEncoder and BlobDecoder of src/blob_format.h and src/blob_format.cc: a record behind its header.
pub mod RoundTrip
use diffkv.Prelude.{
  ℕ, ◌+◌, ◌-◌, ◌^◌, ◌≡◌, ltb, leb, ◌++◌, [], ◌∷◌, Bytes, Outcome, ok, fault, ◌>>=◌, ◌>>◌, or_err,
  assert, Status, length, take, drop, Bool, true, false,
}
use diffkv.Coding.{Coding, Crc}
use diffkv.Compression.{CompressionType, Codecs, compress, uncompress}
use diffkv.Format.Bounds.{record_header_size, get_char, decode_into}
use diffkv.Format.Record.{BlobRecord}
use diffkv.Format.Record

module _ (c : Coding) (crc : Crc) (z : Codecs) where
  -- header_ + 4: the size and the compression type, which the checksum covers too.
  unfoldable pub header_tail : Bytes → CompressionType → Bytes
  header_tail body t = c.put_fixed32 (length body) ++ (z.code t ∷ [])

  unfoldable pub header_of : Bytes → CompressionType → Bytes
  unfolding header_tail
  header_of body t =
      c.put_fixed32 (crc.extend (crc.value (header_tail body t)) body) ++ header_tail body t

  -- BlobEncoder::EncodeRecord: the header and the record that GetHeader and GetRecord return.
  unfoldable pub encode_record : CompressionType → BlobRecord → Outcome (Bytes × Bytes)
  encode_record t r = do
    let (body, used) = compress z t (Record.encode_to c r)
    assert (ltb (length body) (2 ^ 32 - 1))
    ok (header_of body used, body)

-- The members of BlobDecoder that DecodeHeader sets.
pub record BlobDecoder : Type 0 where
  pub crc : ℕ
  pub header_crc : ℕ
  pub record_size : ℕ
  pub compression : CompressionType

module _ (c : Coding) (z : Codecs) where
  -- The record in the bytes that DecodeRecord cuts off.
  unfoldable pub decode_body : CompressionType → BlobRecord → Bytes → Outcome BlobRecord
  unfolding decode_into
  decode_body CompressionType.no_compression target input =
      decode_into (Record.decode_from c target) input
  decode_body t target input = do
    buffer ← uncompress z t input
    decode_into (Record.decode_from c target) buffer

module _ (c : Coding) (crc : Crc) (z : Codecs) where
  -- BlobDecoder::DecodeHeader
  unfoldable pub decode_record_header : Bytes → Outcome (BlobDecoder × Bytes)
  unfolding get_char
  decode_record_header src = do
    (sum, s1) ← or_err Status.corruption (c.get_fixed32 src)
    let header_sum = crc.value (take (record_header_size - 4) s1)
    (size, s2) ← or_err Status.corruption (c.get_fixed32 s1)
    (type, rest) ← or_err Status.corruption (get_char s2)
    ok (
      record {
        crc = sum;
        header_crc = header_sum;
        record_size = size;
        compression = z.of_code type;
      },
      rest,
    )

  -- BlobDecoder::DecodeRecord; `remove_prefix` asserts that the slice holds the record.
  unfoldable pub decode_record : BlobDecoder → BlobRecord → Bytes → Outcome (BlobRecord × Bytes)
  unfolding decode_body
  decode_record d target src = do
    assert (leb d.record_size (length src))
    r ← decode_body c z d.compression target (take d.record_size src)
    ok (r, drop d.record_size src)

  -- DecodeHeader and DecodeRecord as the readers call them.
  unfoldable pub decode_blob : BlobRecord → Bytes → Outcome (BlobRecord × Bytes)
  decode_blob target src = do (d, rest) ← decode_record_header src; decode_record d target rest
