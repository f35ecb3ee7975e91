-- ===== src/Format/FileEnds.antt =====
-- BlobFileHeader and BlobFileFooter of src/blob_format.h: the first 8 bytes of a blob file and the last 32.
pub mod RoundTrip
use diffkv.Prelude.{
  ℕ, ◌+◌, ◌-◌, ◌≡◌, ◌==◌, leb, ◌++◌, Bytes, Outcome, ok, ◌>>=◌, ◌>>◌, or_err, require, assert,
  Status, length, take, drop, replicate, sub64,
}
use diffkv.Coding.{Coding, Crc, BlockHandle, BlockHandles}

-- kHeaderMagicNumber, kVersion1 and kFooterMagicNumber.
abbrev pub header_magic_number : ℕ
header_magic_number = 0x2be0a614

abbrev pub version1 : ℕ
version1 = 1

abbrev pub footer_magic_number : ℕ
footer_magic_number = 0x2be0a6148e39edc6

module _ (c : Coding) where
  -- The version is the struct's only field.
  unfoldable pub encode_header : ℕ → Bytes
  encode_header version = c.put_fixed32 header_magic_number ++ c.put_fixed32 version

  unfoldable pub decode_header : Bytes → Outcome (ℕ × Bytes)
  decode_header src = do
    (magic_number, src') ← or_err Status.corruption (c.get_fixed32 src)
    require (magic_number == header_magic_number) Status.corruption
    (version, rest) ← or_err Status.corruption (c.get_fixed32 src')
    require (version == version1) Status.corruption
    ok (version, rest)

-- std::string::resize
abbrev pub resize : ℕ → Bytes → Bytes
resize n s = take n s ++ replicate (n - length s) 0

module _ (c : Coding) (crc : Crc) (b : BlockHandles) where
  -- kBlobFooterSize
  unfoldable pub footer_size : ℕ
  footer_size = b.max_encoded_length + 8 + 4

  -- What the checksum covers.
  unfoldable pub footer_body : BlockHandle → Bytes
  footer_body h = resize b.max_encoded_length (b.encode h) ++ c.put_fixed64 footer_magic_number

  unfoldable pub encode_footer : BlockHandle → Bytes
  unfolding footer_body
  encode_footer h = footer_body h ++ c.put_fixed32 (crc.value (footer_body h))

  -- `remove_prefix` asserts that the slice is long enough; its argument wraps around if the handle
  -- took more than its share.
  unfoldable pub decode_footer : Bytes → Outcome (BlockHandle × Bytes)
  decode_footer src = do
    (h, s1) ← or_err Status.corruption (b.decode src)
    let padding = sub64 b.max_encoded_length (length src - length s1)
    assert (leb padding (length s1))
    let s2 = drop padding s1
    (magic_number, s3) ← or_err Status.corruption (c.get_fixed64 s2)
    require (magic_number == footer_magic_number) Status.corruption
    let decoded = take (length src - length s3) src
    (checksum, rest) ← or_err Status.corruption (c.get_fixed32 s3)
    require (crc.value decoded == checksum) Status.corruption
    ok (h, rest)
