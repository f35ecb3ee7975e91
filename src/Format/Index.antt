-- ===== src/Format/Index.antt =====
-- BlobHandle and BlobIndex of src/blob_format.h: where a record stands in which blob file.
use diffkv.Prelude.{
  ℕ, ◌≡◌, ◌↔◌, Bool, ◌&&◌, ◌==◌, ◌∷◌, ◌++◌, Bytes, Outcome, ok, err, fault, ◌>>=◌, ◌>>◌, or_err,
  require, Status, IsU64, arith,
}
use diffkv.Coding.{Coding, IsCoding}
use diffkv.Format.Bounds.{get_char}
use mathlib.Core.List.{append_assoc}

pub record BlobHandle : Type 0 where
  pub offset : ℕ
  pub size : ℕ

-- `friend bool operator==(const BlobHandle &, const BlobHandle &)`
unfoldable pub same_handle : BlobHandle → BlobHandle → Bool
same_handle a b = (a.offset == b.offset) && (a.size == b.size)

pub record BlobIndex : Type 0 where
  pub file_number : ℕ
  pub blob_handle : BlobHandle

unfoldable pub same_index : BlobIndex → BlobIndex → Bool
unfolding same_handle
same_index a b = (a.file_number == b.file_number) && same_handle a.blob_handle b.blob_handle

-- kBlobRecord
abbrev pub blob_record : ℕ
blob_record = 1

-- Any failure of the handle is reported as the index's own Corruption.
unfoldable pub as_corruption {ℓ} : {A : Type ℓ} → Outcome A → Outcome A
as_corruption (ok a) = ok a
as_corruption (err s) = err Status.corruption
as_corruption fault = fault

module _ (c : Coding) where
  unfoldable pub encode_handle : BlobHandle → Bytes
  encode_handle h = c.put_varint64 h.offset ++ c.put_varint64 h.size

  unfoldable pub decode_handle : Bytes → Outcome (BlobHandle × Bytes)
  decode_handle src = do
    (offset, src') ← or_err Status.corruption (c.get_varint64 src)
    (size, rest) ← or_err Status.corruption (c.get_varint64 src')
    ok (record { offset = offset; size = size }, rest)

  unfoldable pub encode_index : BlobIndex → Bytes
  unfolding encode_handle
  encode_index i = blob_record ∷ (c.put_varint64 i.file_number ++ encode_handle i.blob_handle)

  unfoldable pub decode_index : Bytes → Outcome (BlobIndex × Bytes)
  unfolding get_char as_corruption decode_handle
  decode_index src = do
    (type, src') ← or_err Status.corruption (get_char src)
    require (type == blob_record) Status.corruption
    (file_number, src'') ← or_err Status.corruption (c.get_varint64 src')
    (handle, rest) ← as_corruption (decode_handle src'')
    ok (record { file_number = file_number; blob_handle = handle }, rest)

-- The fields are uint64_t.
pub record IsHandle (h : BlobHandle) : Type 0 where
  pub offset_range : IsU64 h.offset
  pub size_range : IsU64 h.size

pub record IsIndex (i : BlobIndex) : Type 0 where
  pub file_range : IsU64 i.file_number
  pub handle_range : IsHandle i.blob_handle

-- `==` on indexes is equality.
pub same_index_iff : (a b : BlobIndex) → (same_index a b ≡ Bool.true) ↔ (a ≡ b)
unfolding same_index
same_index_iff a b = ground arith

module _ (c : Coding) (law : IsCoding c) where
  pub decode_handle-encode_handle :
      (h : BlobHandle) (rest : Bytes)
      → IsHandle h
      → decode_handle c (encode_handle c h ++ rest) ≡ ok (h, rest)
  unfolding decode_handle encode_handle
  decode_handle-encode_handle h rest v =
      rw (append_assoc, law.varint64_read h.offset (c.put_varint64 h.size ++ rest) v.offset_range)
        (rw (law.varint64_read h.size rest v.size_range))

  -- A blob index whose fields are uint64_t is read back from its encoding, and what follows it is
  -- left over.
  pub decode_index-encode_index :
      (i : BlobIndex) (rest : Bytes)
      → IsIndex i
      → decode_index c (encode_index c i ++ rest) ≡ ok (i, rest)
  unfolding decode_index encode_index
  decode_index-encode_index i rest v =
      rw
        (
          append_assoc,
          law.varint64_read i.file_number (encode_handle c i.blob_handle ++ rest) v.file_range,
        )
        (rw (decode_handle-encode_handle i.blob_handle rest v.handle_range))
