-- ===== src/BlobFile/Builder.antt =====
-- BlobFileBuilder of src/blob_file_builder.h and src/blob_file_builder.cc.
use diffkv.Prelude.{
  ℕ, ◌+◌, if◌then◌else◌, Option, none, some, [], ◌++◌, Bytes, Outcome, ok, ◌>>=◌, Status, add64,
  length, is_empty,
}
use diffkv.Coding.{Coding, Crc, BlockHandles, null_block_handle}
use diffkv.Options.{Comparator}
use diffkv.Compression.{CompressionType, Codecs}
use diffkv.Format.Bounds.{record_header_size}
use diffkv.Format.Record.{BlobRecord}
use diffkv.Format.Index.{BlobHandle}
use diffkv.Format.Codec.{encode_record}
use diffkv.Format.FileEnds.{encode_header, encode_footer, version1}

-- `file` is what the writer has taken; `status` is none for OK.
pub record BlobFileBuilder : Type 0 where
  pub file : Bytes
  pub status : Option Status
  pub num_entries : ℕ
  pub smallest_key : Bytes
  pub largest_key : Bytes

-- WritableFileWriter::Append, whose answer is given; what it refuses is not in the file.
abbrev pub append : Option Status → Bytes → BlobFileBuilder → BlobFileBuilder
append none bytes b = record b { file = b.file ++ bytes; status = none }
append (some x) bytes b = record b { status = some x }

-- The constructor, on a new file.
unfoldable pub new_builder : Coding → Option Status → BlobFileBuilder
new_builder c io =
    append io (encode_header c version1)
      (record { file = []; status = none; num_entries = 0; smallest_key = []; largest_key = [] })

module _ (cmp : Comparator) where
  -- The keys after a record, as Add tracks them.
  unfoldable pub first_key : Bytes → BlobFileBuilder → BlobFileBuilder
  first_key key b =
      if is_empty b.smallest_key then record b { smallest_key = key; largest_key = key } else b

  unfoldable pub widen : Bytes → BlobFileBuilder → BlobFileBuilder
  widen key b =
      if cmp.less b.largest_key key
      then record b { largest_key = key }
      else if cmp.less key b.smallest_key
      then record b { smallest_key = key }
      else b

  unfoldable pub count_entry : Bytes → BlobFileBuilder → BlobFileBuilder
  unfolding first_key widen
  count_entry key b = widen key (first_key key (record b { num_entries = add64 b.num_entries 1 }))

module _ (c : Coding) (crc : Crc) (z : Codecs) (t : CompressionType) (cmp : Comparator) where
  abbrev pub added : Option Status → BlobRecord → Bytes → BlobFileBuilder → BlobFileBuilder
  added none r bytes b = count_entry cmp r.key (append none bytes b)
  added (some x) r bytes b = append (some x) bytes b

  -- Add: the handle that it leaves, and the builder. Nothing happens after an error.
  unfoldable pub add :
      Option Status
      → BlobRecord
      → BlobHandle
      → BlobFileBuilder
      → Outcome (BlobHandle × BlobFileBuilder)
  add io r handle b = elim b.status [
    | some x ↦ ok (handle, b)
    | none ↦ encode_record c crc z t r >>= λ p. ok (
      record { offset = length b.file; size = record_header_size + length p.1 },
      added io r (p.0 ++ p.1) b,
    )
  ]

module _ (c : Coding) (crc : Crc) (bh : BlockHandles) where
  -- Finish: the status is the builder's, after the footer and a flush.
  unfoldable pub finish_file : Option Status → Option Status → BlobFileBuilder → BlobFileBuilder
  finish_file io flush b = elim b.status [
    | some x ↦ b
    | none ↦ elim io [
      | some x ↦ record b { status = some x }
      | none ↦ record b {
        file = b.file ++ encode_footer c crc bh null_block_handle;
        status = flush;
      }
    ]
  ]
