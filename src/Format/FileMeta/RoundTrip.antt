-- ===== src/Format/FileMeta/RoundTrip.antt =====
-- BlobFileMeta::DecodeFrom reads back what BlobFileMeta::EncodeTo wrote.
use diffkv.Prelude.{◌≡◌, ◌++◌, Bytes, ok, IsU32, IsU64, length}
use diffkv.Coding.{Coding, IsCoding}
use diffkv.Format.FileMeta.{BlobFileMeta, encode_meta, decode_meta}
use mathlib.Core.List.{append_assoc}

-- The persistent fields fit the types that they are declared with.
pub record IsMeta (m : BlobFileMeta) : Type 0 where
  pub number_range : IsU64 m.file_number
  pub size_range : IsU64 m.file_size
  pub entries_range : IsU64 m.file_entries
  pub type_range : IsU32 m.file_type
  pub level_range : IsU32 m.file_level
  pub smallest_range : IsU32 (length m.smallest_key)
  pub largest_range : IsU32 (length m.largest_key)

-- `target` with the persistent fields of `m`.
unfoldable pub persist : BlobFileMeta → BlobFileMeta → BlobFileMeta
persist target m = record target {
  file_number = m.file_number;
  file_size = m.file_size;
  file_entries = m.file_entries;
  file_type = m.file_type;
  file_level = m.file_level;
  smallest_key = m.smallest_key;
  largest_key = m.largest_key;
}

module _ (c : Coding) (law : IsCoding c) where
  pub decode_meta-encode_meta :
      (target m : BlobFileMeta) (rest : Bytes)
      → IsMeta m
      → decode_meta c target (encode_meta c m ++ rest) ≡ ok (persist target m, rest)
  unfolding decode_meta encode_meta persist
  decode_meta-encode_meta target m rest v = simp (
    append_assoc,
    law.varint64_read m.file_number _ v.number_range,
    law.varint64_read m.file_size _ v.size_range,
    law.varint64_read m.file_entries _ v.entries_range,
    law.varint32_read m.file_type _ v.type_range,
    law.varint32_read m.file_level _ v.level_range,
    law.prefixed_read m.smallest_key _ v.smallest_range,
    law.prefixed_read m.largest_key _ v.largest_range,
  )
