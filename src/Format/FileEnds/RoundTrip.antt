-- ===== src/Format/FileEnds/RoundTrip.antt =====
-- The header and the footer of a blob file, of src/blob_format.h, are decoded.
use diffkv.Prelude.{
  ℕ, ◌-◌, ◌≤◌, ◌≡◌, ◌≢◌, ap, ◌∙◌, ◌==◌, ◌+◌, ◌&&◌, leb, ◌++◌, Bytes, ok, err, Status, IsU64, IsU32,
  length, take, replicate, length-append, length-replicate, take_all, take-append, drop-append,
  arith, sub64, if◌then◌else◌, true,
}
use diffkv.Coding.{Coding, IsCoding, Crc, IsCrc, BlockHandle, BlockHandles, IsBlockHandles}
use diffkv.Format.FileEnds.{
  resize, footer_body, encode_header, decode_header, encode_footer, decode_footer, version1,
  header_magic_number, footer_magic_number,
}
use mathlib.Core.List.{append_assoc}

module _ (c : Coding) (law : IsCoding c) where
  -- The header of a new blob file is accepted, and a header of any other version is a corruption.
  pub decode_header-encode_header :
      (version : ℕ) (rest : Bytes)
      → IsU32 version
      → ((version ≡ version1)
          → decode_header c (encode_header c version ++ rest) ≡ ok (version, rest))
        × ((version ≢ version1)
            → decode_header c (encode_header c version ++ rest) ≡ err Status.corruption)
  unfolding decode_header encode_header
  decode_header-encode_header version rest v =
      rw
        (
          append_assoc,
          law.fixed32_read header_magic_number (c.put_fixed32 version ++ rest) (omega arith),
        )
        (rw (law.fixed32_read version rest v) (λ e. ground arith, λ n. ground arith))

length-suffix : (xs ys : Bytes) → length (xs ++ ys) - length ys ≡ length xs
length-suffix xs ys = omega (arith, length-append xs ys)

pub resize_fits : (n : ℕ) (s : Bytes) → length s ≤ n → resize n s ≡ s ++ replicate (n - length s) 0
resize_fits n s h = rw (take_all n s h)

module _ (c : Coding) (law : IsCoding c) (crc : Crc) (b : BlockHandles)
    (blaw : IsBlockHandles b) where
  -- What stands before the checksum: the handle, filled up to its share with the bytes `pad`, and
  -- the magic number.
  abbrev pub front : BlockHandle → Bytes → ℕ → Bytes
  front h pad magic_number = b.encode h ++ (pad ++ c.put_fixed64 magic_number)

  -- The padding takes what the handle leaves of its share.
  abbrev pub Fills : BlockHandle → Bytes → Type 0
  Fills h pad = length (b.encode h) + length pad ≡ b.max_encoded_length

  front_parts :
      (h : BlockHandle) (pad tail : Bytes) (magic_number : ℕ)
      → front h pad magic_number ++ tail
        ≡ b.encode h ++ (pad ++ (c.put_fixed64 magic_number ++ tail))
  front_parts h pad tail magic_number = simp append_assoc

  take-front :
      (h : BlockHandle) (pad tail : Bytes) (magic_number : ℕ)
      → let whole = b.encode h ++ (pad ++ (c.put_fixed64 magic_number ++ tail)) in
        take (length whole - length tail) whole ≡ front h pad magic_number
  take-front h pad tail magic_number = rw (← front_parts h pad tail magic_number) (
      rw (length-suffix (front h pad magic_number) tail)
        (take-append (front h pad magic_number) tail))

  padding_length :
      (h : BlockHandle) (pad tail : Bytes)
      → Fills h pad
      → sub64 b.max_encoded_length (length (b.encode h ++ tail) - length tail) ≡ length pad
  padding_length h pad tail fills =
      omega (arith, length-suffix (b.encode h) tail, fills, blaw.two_varints)

  leb_prefix : (xs ys : Bytes) → leb (length xs) (length (xs ++ ys)) ≡ true
  leb_prefix xs ys = ground (arith, length-append xs ys)

  -- Of the bytes of a handle, of padding that fills the handle's share, of a magic number and of a
  -- checksum, DecodeFrom reads the handle where the magic number is kFooterMagicNumber and the
  -- checksum is that of what stands before it, and what follows is left over; with another magic
  -- number or another checksum it returns a corruption. The padding may be any bytes.
  pub decode_footer-parts :
      (h : BlockHandle) (pad : Bytes) (magic_number sum : ℕ) (rest : Bytes)
      → IsU64 h.offset
      → IsU64 h.size
      → Fills h pad
      → IsU64 magic_number
      → IsU32 sum
      → decode_footer c crc b (front h pad magic_number ++ (c.put_fixed32 sum ++ rest)) ≡ (
          if (magic_number == footer_magic_number) && (crc.value (front h pad magic_number) == sum)
          then ok (h, rest)
          else err Status.corruption)
  unfolding decode_footer
  decode_footer-parts h pad magic_number sum rest o s fills m r =
      let tail = c.put_fixed32 sum ++ rest in
      let s2 = c.put_fixed64 magic_number ++ tail in
      rw (front_parts h pad tail magic_number) (
        rw (blaw.handle_read h (pad ++ s2) o s) (
          rw (padding_length h pad (pad ++ s2) fills) (
            rw (leb_prefix pad s2, drop-append pad s2)
              (rw (law.fixed64_read magic_number tail m) (
                rw (take-front h pad tail magic_number, law.fixed32_read sum rest r)
                  (ground arith))))))

  padding_of : BlockHandle → Bytes
  padding_of h = replicate (b.max_encoded_length - length (b.encode h)) 0

  padding_of-Fills : (h : BlockHandle) → IsU64 h.offset → IsU64 h.size → Fills h (padding_of h)
  unfolding padding_of
  padding_of-Fills h o s = omega (
    arith,
    ap (λ (n : ℕ). n) (length-replicate {A = ℕ} (b.max_encoded_length - length (b.encode h)) 0),
    blaw.handle_fits h o s,
  )

  footer_body-front :
      (h : BlockHandle)
      → IsU64 h.offset
      → IsU64 h.size
      → footer_body c crc b h ≡ front h (padding_of h) footer_magic_number
  unfolding footer_body padding_of
  footer_body-front h o s =
      rw (resize_fits _ _ (blaw.handle_fits h o s))
        (append_assoc (b.encode h) (padding_of h) (c.put_fixed64 footer_magic_number))

  pub decode_footer-encode_footer :
      (icrc : IsCrc crc) (h : BlockHandle) (rest : Bytes)
      → IsU64 h.offset
      → IsU64 h.size
      → decode_footer c crc b (encode_footer c crc b h ++ rest) ≡ ok (h, rest)
  unfolding encode_footer
  decode_footer-encode_footer icrc h rest o s =
      let body = front h (padding_of h) footer_magic_number in
      rw (footer_body-front h o s) (
        rw (append_assoc body (c.put_fixed32 (crc.value body)) rest) (
          decode_footer-parts h (padding_of h) footer_magic_number (crc.value body) rest o s
            (padding_of-Fills h o s) (omega arith) (icrc.value_range body)
          ∙ ground arith))
