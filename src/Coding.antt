-- ===== src/Coding.antt =====
-- rocksdb/util/coding.h, util/crc32c.h and table/format.h, which dep/rocksdb supplies, as a parameter.
pub mod Leb128
use diffkv.Prelude.{ℕ, ◌<◌, ◌≤◌, ◌≡◌, Option, some, ◌++◌, Bytes, IsU32, IsU64, length}

-- Put... gives the bytes that it appends; Get... the value and what it leaves of the slice.
pub record Coding : Type 0 where
  pub put_varint32 : ℕ → Bytes
  pub get_varint32 : Bytes → Option (ℕ × Bytes)
  pub put_varint64 : ℕ → Bytes
  pub get_varint64 : Bytes → Option (ℕ × Bytes)
  pub put_fixed32 : ℕ → Bytes
  pub get_fixed32 : Bytes → Option (ℕ × Bytes)
  pub put_fixed64 : ℕ → Bytes
  pub get_fixed64 : Bytes → Option (ℕ × Bytes)
  pub put_length_prefixed : Bytes → Bytes
  pub get_length_prefixed : Bytes → Option (Bytes × Bytes)

-- What coding.h documents: a value in range reads back, and a read takes at least a byte.
pub record IsCoding (c : Coding) : Type 0 where
  pub varint32_read :
      (v : ℕ) (rest : Bytes) → IsU32 v → c.get_varint32 (c.put_varint32 v ++ rest) ≡ some (v, rest)
  pub varint64_read :
      (v : ℕ) (rest : Bytes) → IsU64 v → c.get_varint64 (c.put_varint64 v ++ rest) ≡ some (v, rest)
  pub fixed32_read :
      (v : ℕ) (rest : Bytes) → IsU32 v → c.get_fixed32 (c.put_fixed32 v ++ rest) ≡ some (v, rest)
  pub fixed64_read :
      (v : ℕ) (rest : Bytes) → IsU64 v → c.get_fixed64 (c.put_fixed64 v ++ rest) ≡ some (v, rest)
  pub prefixed_read :
      (s rest : Bytes)
      → IsU32 (length s)
      → c.get_length_prefixed (c.put_length_prefixed s ++ rest) ≡ some (s, rest)
  pub varint32_takes :
      (src : Bytes) (v : ℕ) (rest : Bytes)
      → c.get_varint32 src ≡ some (v, rest)
      → length rest < length src
  pub varint64_takes :
      (src : Bytes) (v : ℕ) (rest : Bytes)
      → c.get_varint64 src ≡ some (v, rest)
      → length rest < length src
  pub prefixed_takes :
      (src s rest : Bytes) → c.get_length_prefixed src ≡ some (s, rest) → length rest < length src
  pub varint32_some : (v : ℕ) → 0 < length (c.put_varint32 v)
  pub length-fixed32 : (v : ℕ) → length (c.put_fixed32 v) ≡ 4
  pub length-fixed64 : (v : ℕ) → length (c.put_fixed64 v) ≡ 8

-- crc32c::Value and crc32c::Extend.
pub record Crc : Type 0 where
  pub value : Bytes → ℕ
  pub extend : ℕ → Bytes → ℕ

pub record IsCrc (c : Crc) : Type 0 where
  pub value_range : (s : Bytes) → IsU32 (c.value s)
  pub extend_range : (n : ℕ) (s : Bytes) → IsU32 (c.extend n s)

-- rocksdb's BlockHandle, an offset and a size.
pub record BlockHandle : Type 0 where
  pub offset : ℕ
  pub size : ℕ

abbrev pub null_block_handle : BlockHandle
null_block_handle = record { offset = 0; size = 0 }

-- BlockHandle::EncodeTo, BlockHandle::DecodeFrom and kMaxEncodedLength.
pub record BlockHandles : Type 0 where
  pub encode : BlockHandle → Bytes
  pub decode : Bytes → Option (BlockHandle × Bytes)
  pub max_encoded_length : ℕ

pub record IsBlockHandles (b : BlockHandles) : Type 0 where
  pub handle_read :
      (h : BlockHandle) (rest : Bytes)
      → IsU64 h.offset
      → IsU64 h.size
      → b.decode (b.encode h ++ rest) ≡ some (h, rest)
  pub handle_fits :
      (h : BlockHandle) → IsU64 h.offset → IsU64 h.size → length (b.encode h) ≤ b.max_encoded_length
  pub two_varints : b.max_encoded_length ≡ 20
