-- ===== src/Format/Record.antt =====
-- BlobRecord of src/blob_format.h: a key and a value, or the value alone.
use diffkv.Prelude.{
  ◌≡◌, Bool, true, false, [], ◌++◌, Bytes, Outcome, ok, ◌>>=◌, or_err, Status, length, IsU32,
  if◌then◌else◌, ℕ, ◌+◌, arith, ◌⊎◌, inl, inr,
}
use diffkv.Coding.{Coding, IsCoding}
use mathlib.Core.Path.{subst}
use mathlib.Core.List.{append_assoc, append-nil}

pub record BlobRecord : Type 0 where
  pub key : Bytes
  pub value : Bytes
  pub only_value : Bool

abbrev pub new_record : BlobRecord
new_record = record { key = []; value = []; only_value = false }

-- BlobRecord::size
unfoldable pub size : BlobRecord → ℕ
size r = length r.key + length r.value

module _ (c : Coding) where
  unfoldable pub encode_to : BlobRecord → Bytes
  encode_to r =
      if r.only_value then r.value else c.put_length_prefixed r.key ++ c.put_length_prefixed r.value

  -- `only_value` is the caller's, and so is the key where only a value is read.
  unfoldable pub decode_from : BlobRecord → Bytes → Outcome (BlobRecord × Bytes)
  decode_from target src = if target.only_value then ok (record target { value = src }, []) else do
    (key, src') ← or_err Status.corruption (c.get_length_prefixed src)
    (value, rest) ← or_err Status.corruption (c.get_length_prefixed src')
    ok (record target { key = key; value = value }, rest)

-- `target` asks for the parts that `r` was written with, and the lengths fit a varint32.
abbrev pub Fits : BlobRecord → BlobRecord → Type 0
Fits target r =
    ((target.only_value ≡ false)
      × (r.only_value ≡ false)
      × IsU32 (length r.key)
      × IsU32 (length r.value))
    ⊎ ((target.only_value ≡ true) × (r.only_value ≡ true) × (target.key ≡ r.key))

module _ (c : Coding) (law : IsCoding c) where
  pub decode-encode_whole :
      (target r : BlobRecord) (rest : Bytes)
      → target.only_value ≡ false
      → r.only_value ≡ false
      → IsU32 (length r.key)
      → IsU32 (length r.value)
      → decode_from c target (encode_to c r ++ rest) ≡ ok (r, rest)
  unfolding decode_from encode_to
  decode-encode_whole target r rest t f hk hv =
      rw (f, t, append_assoc, law.prefixed_read r.key (c.put_length_prefixed r.value ++ rest) hk)
        (rw (law.prefixed_read r.value rest hv) (ground arith))

  pub decode-encode_value :
      (target r : BlobRecord)
      → target.only_value ≡ true
      → r.only_value ≡ true
      → target.key ≡ r.key
      → decode_from c target (encode_to c r) ≡ ok (r, [])
  unfolding decode_from encode_to
  decode-encode_value target r t f k = rw (t, f) (ground arith)

  pub decode-encode :
      (target r : BlobRecord) → Fits target r → decode_from c target (encode_to c r) ≡ ok (r, [])
  decode-encode target r (inl (t, f, hk, hv)) =
      subst (λ s. decode_from c target s ≡ ok (r, [])) (append-nil (encode_to c r))
        (decode-encode_whole target r [] t f hk hv)
  decode-encode target r (inr (t, f, k)) = decode-encode_value target r t f k
