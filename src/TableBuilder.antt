-- ===== src/TableBuilder.antt =====
-- TitanTableBuilder of src/table_builder.h and src/table_builder.cc: the values of a table that go to
-- blob files. The counters of bytes and time, which only the statistics read, are left out. Levels
-- are those of flushes and compactions, which are not negative.
pub mod Separates
pub mod Failed
pub mod Foreground
use diffkv.Prelude.{
  ℕ, ◌==◌, ltb, leb, Bool, true, false, ◌&&◌, ◌||◌, if◌then◌else◌, Option, none, some, is_none,
  List, [], ◌∷◌, ◌++◌, Bytes, Outcome, ok, err, fault, ◌>>=◌, Status, length,
}
use diffkv.Prelude.Assoc.{find, emplace}
use diffkv.Coding.{Coding, Crc, BlockHandles}
use diffkv.Options.{Ratios, Comparator, CfOptions}
use diffkv.Compression.{CompressionType, Codecs}
use diffkv.Format.Bounds.{sorted}
use diffkv.Format.Record.{BlobRecord}
use diffkv.Format.Index.{BlobIndex, encode_index, decode_index}
use diffkv.Format.FileMeta.{
  BlobFileMeta, FileState, FileEvent, same_state, make, file_state_transit,
}
use diffkv.BlobFile.Builder.{BlobFileBuilder, new_builder, add, finish_file}
use diffkv.Storage.{BlobStorage, find_file}
use diffkv.FileSet.{LogIo, first_error, member}
use diffkv.FileManager.{FileManager, CloseIo, batch_finish_files}

-- rocksdb's internal keys, from db/dbformat.h: ParseInternalKey and AppendInternalKey.
pub data ValueType : Type 0 where
  value blob_index : ValueType
  other_type : ℕ → ValueType

pub record ParsedKey : Type 0 where
  pub user_key : Bytes
  pub sequence : ℕ
  pub type : ValueType

pub record InternalKeys : Type 0 where
  pub parse : Bytes → Option ParsedKey
  pub append : ParsedKey → Bytes

pub data BlobRunMode : Type 0 where
  normal read_only fallback : BlobRunMode

abbrev pub is_value : ValueType → Bool
is_value ValueType.value = true
is_value type = false

abbrev pub is_blob_index : ValueType → Bool
is_blob_index ValueType.blob_index = true
is_blob_index type = false

abbrev pub is_normal : BlobRunMode → Bool
is_normal BlobRunMode.normal = true
is_normal mode = false

abbrev pub is_fallback : BlobRunMode → Bool
is_fallback BlobRunMode.fallback = true
is_fallback mode = false

-- The key of a value that is in a blob file.
abbrev pub as_index : InternalKeys → ParsedKey → Bytes
as_index keys ikey = keys.append (record ikey { type = ValueType.blob_index })

-- The handle of a blob file, with what was written to it.
pub record BlobFileHandle : Type 0 where
  pub number : ℕ
  pub file : Bytes

-- `base` is what the base builder was given, `base_status` its status. The file of an open handle is
-- in the blob builder.
pub record TableBuilder : Type 0 where
  pub status : Option Status
  pub base : List (Bytes × Bytes)
  pub base_status : Option Status
  pub blob_handle : Option ℕ
  pub blob_builder : Option BlobFileBuilder
  pub finished_blobs : List (BlobFileMeta × BlobFileHandle)
  pub encountered_files : List (ℕ × Option BlobFileMeta)
  pub merging_files : List ℕ

-- What the calls of other parts answer during one Add.
pub record AddIo : Type 0 where
  pub base : Option Status
  pub get : Outcome BlobRecord
  pub new_prefetcher : Option Status
  pub new_file : Outcome ℕ
  pub header_io : Option Status
  pub write_io : Option Status
  pub footer_io : Option Status
  pub flush_io : Option Status
  pub delete_file : Option Status

abbrev pub builder_status : Option BlobFileBuilder → Option Status
builder_status none = none
builder_status (some b) = b.status

-- status()
unfoldable pub status : TableBuilder → Option Status
status b = first_error b.status (first_error b.base_status (builder_status b.blob_builder))

-- ok()
abbrev pub is_ok : TableBuilder → Bool
is_ok b = is_none (status b)

-- base_builder_->Add
unfoldable pub base_add : AddIo → Bytes → Bytes → TableBuilder → TableBuilder
base_add io key val b = record b { base = b.base ++ ((key, val) ∷ []); base_status = io.base }

module _ (c : Coding) (crc : Crc) (bh : BlockHandles) where
  -- The branches of FinishBlobFile after the builder's Finish. A null handle cannot be asked.
  unfoldable pub keep_blob_file : ℕ → BlobFileBuilder → TableBuilder → Outcome TableBuilder
  keep_blob_file target_level f b = elim b.blob_handle [
    | none ↦ fault
    | some n ↦
        file_state_transit FileEvent.flush_or_compaction_output
          (make n (length f.file) f.num_entries target_level f.smallest_key f.largest_key sorted)
        >>= λ m. ok (record b {
          finished_blobs = b.finished_blobs ++ ((m, record { number = n; file = f.file }) ∷ []);
          blob_handle = none;
          blob_builder = none;
        })
  ]

  unfoldable pub drop_blob_file : AddIo → TableBuilder → Outcome TableBuilder
  drop_blob_file io b = elim b.blob_handle [
    | none ↦ fault
    | some n ↦ ok (record b { status = io.delete_file; blob_handle = none })
  ]

  -- FinishBlobFile
  unfoldable pub finish_blob_file : AddIo → ℕ → TableBuilder → Outcome TableBuilder
  unfolding keep_blob_file drop_blob_file
  finish_blob_file io target_level b = elim b.blob_builder [
    | none ↦ ok b
    | some f ↦
        let f' = finish_file c crc bh io.footer_io io.flush_io f in
        let b' = record b { blob_builder = some f' } in
        elim (is_ok b') [ true ↦ keep_blob_file target_level f' b' | false ↦ drop_blob_file io b' ]
  ]

module _ (c : Coding) (crc : Crc) (bh : BlockHandles) (z : Codecs) (t : CompressionType)
    (cmp : Comparator) {R : Type 0} (options : CfOptions R) (target_level : ℕ) where
  -- AddBlob: a new file, if none is open, and whether there is one.
  unfoldable pub open_blob_file : AddIo → TableBuilder → Outcome (Bool × TableBuilder)
  open_blob_file io b = elim b.blob_builder [
    | some f ↦ ok (true, b)
    | none ↦ elim io.new_file [
      | fault ↦ fault
      | err s ↦ ok (false, record b { status = some s })
      | ok n ↦ ok (
        true,
        record b {
          status = none;
          blob_handle = some n;
          blob_builder = some (new_builder c io.header_io);
        },
      )
    ]
  ]

  abbrev pub record_for : Bytes → Bytes → BlobRecord
  record_for key val = record { key = key; value = val; only_value = options.level_merge }

  unfoldable pub full_blob_file : AddIo → BlobFileBuilder → TableBuilder → Outcome TableBuilder
  unfolding finish_blob_file
  full_blob_file io f b =
      if leb options.blob_file_target_size (length f.file)
      then finish_blob_file c crc bh io target_level b
      else ok b

  -- The rest of AddBlob: the index entry that it leaves, and the builder.
  unfoldable pub write_blob : AddIo → Bytes → Bytes → TableBuilder → Outcome (Bytes × TableBuilder)
  unfolding full_blob_file
  write_blob io key val b = elim b.blob_builder [
    | none ↦ fault
    | some f ↦ elim b.blob_handle [
      | none ↦ fault
      | some n ↦
          add c crc z t cmp io.write_io (record_for key val) (record { offset = 0; size = 0 }) f
          >>= λ p.
              let b' = record b { blob_builder = some p.1 } in
              elim (is_ok b') [
                | false ↦ ok ([], b')
                | true ↦ full_blob_file io p.1 b' >>= λ b''.
                    ok (encode_index c (record { file_number = n; blob_handle = p.0 }), b'')
              ]
    ]
  ]

  -- AddBlob: the index entry, which is empty after an error, and the builder.
  unfoldable pub add_blob : AddIo → Bytes → Bytes → TableBuilder → Outcome (Bytes × TableBuilder)
  unfolding open_blob_file write_blob
  add_blob io key val b = elim (is_ok b) [
    | false ↦ ok ([], b)
    | true ↦ open_blob_file io b >>= λ p. elim p.0 [
      | false ↦ ok ([], p.1)
      | true ↦ write_blob io key val p.1
    ]
  ]

  module _ (keys : InternalKeys) where
    -- Add, of a value that goes to a blob file.
    unfoldable pub separate : AddIo → ParsedKey → Bytes → TableBuilder → Outcome TableBuilder
    unfolding add_blob
    separate io ikey val b = add_blob io ikey.user_key val b >>= λ p.
        ok (if is_ok p.1 then base_add io (as_index keys ikey) p.0 p.1 else p.1)

    -- Add, of an index whose value comes back into the table.
    unfoldable pub ingest : AddIo → ParsedKey → Bytes → Bytes → TableBuilder → Outcome TableBuilder
    ingest io ikey key val b = elim (decode_index c val) [
      | fault ↦ fault
      | err s ↦ ok (record b { status = some s })
      | ok _ ↦ elim io.get [
        | fault ↦ fault
        | err s ↦ ok (base_add io key val b)
        | ok r ↦ ok (base_add io (keys.append (record ikey { type = ValueType.value })) r.value b)
      ]
    ]

    -- ShouldMerge
    unfoldable pub should_merge : ℕ → Option BlobFileMeta → Bool
    should_merge merge_level none = false
    should_merge merge_level (some m) =
        (m.file_type == sorted)
        && ((leb merge_level target_level && ltb m.file_level target_level)
            || (same_state m.state FileState.to_merge || same_state m.state FileState.to_gc))

    -- NewPrefetcher of the storage.
    abbrev pub new_prefetcher : AddIo → ℕ → BlobStorage R → Option Status
    new_prefetcher io n s =
        if is_none (find_file n s) then some Status.corruption else io.new_prefetcher

    -- The value is read, and moves to the new file; if it cannot be, the index stays.
    unfoldable pub move_value :
        AddIo → ParsedKey → Bytes → Bytes → TableBuilder → Outcome TableBuilder
    move_value io ikey key val b = elim io.get [
      | fault ↦ fault
      | err s ↦ ok (base_add io key val b)
      | ok r ↦ add_blob io ikey.user_key r.value b >>= λ p.
          ok (
            if is_ok p.1 then base_add io (as_index keys ikey) p.0 p.1 else base_add io key val p.1)
    ]

    unfoldable pub merge_value :
        AddIo → ℕ → BlobStorage R → ParsedKey → Bytes → Bytes → TableBuilder → Outcome TableBuilder
    unfolding move_value
    merge_value io n s ikey key val b =
        if member n b.merging_files
        then move_value io ikey key val b
        else elim (new_prefetcher io n s) [
          | some x ↦ ok (base_add io key val (record b { status = some x }))
          | none ↦
              move_value io ikey key val
                (record b { status = none; merging_files = n ∷ b.merging_files })
        ]

    -- Add, of an index whose value may move to a new file. A file is looked up once.
    unfoldable pub merge :
        AddIo → ℕ → BlobStorage R → ParsedKey → Bytes → Bytes → TableBuilder → Outcome TableBuilder
    unfolding merge_value should_merge
    merge io merge_level s ikey key val b = elim (decode_index c val) [
      | fault ↦ fault
      | err x ↦ ok (record b { status = some x })
      | ok (index, rest) ↦ elim (find index.file_number b.encountered_files) [
        | some file ↦
            if should_merge merge_level file
            then merge_value io index.file_number s ikey key val b
            else ok (base_add io key val b)
        | none ↦
            let file = find_file index.file_number s in
            let b' = record b {
              encountered_files = emplace index.file_number file b.encountered_files;
            } in
            if should_merge merge_level file
            then merge_value io index.file_number s ikey key val b'
            else ok (base_add io key val b')
      ]
    ]

    -- Add, with the parts of the key.
    unfoldable pub add_parsed :
        AddIo
        → BlobRunMode
        → ℕ
        → Bool
        → BlobStorage R
        → ParsedKey
        → Bytes
        → Bytes
        → TableBuilder
        → Outcome TableBuilder
    unfolding ingest separate merge
    add_parsed io mode merge_level merge_low_level s ikey key val b =
        if is_blob_index ikey.type && is_fallback mode
        then ingest io ikey key val b
        else if is_value ikey.type && (leb options.min_blob_size (length val) && is_normal mode)
        then separate io ikey val b
        else if is_blob_index ikey.type
            && (options.level_merge
                && ((leb merge_level target_level || merge_low_level) && is_normal mode))
        then merge io merge_level s ikey key val b
        else ok (base_add io key val b)

    -- Add
    unfoldable pub add_entry :
        AddIo
        → BlobRunMode
        → ℕ
        → Bool
        → BlobStorage R
        → Bytes
        → Bytes
        → TableBuilder
        → Outcome TableBuilder
    unfolding add_parsed
    add_entry io mode merge_level merge_low_level s key val b = elim (is_ok b) [
      | false ↦ ok b
      | true ↦ elim (keys.parse key) [
        | none ↦ ok (record b { status = some Status.corruption })
        | some ikey ↦ add_parsed io mode merge_level merge_low_level s ikey key val b
      ]
    ]

abbrev pub files_of : List (BlobFileMeta × BlobFileHandle) → List (BlobFileMeta × ℕ)
files_of [] = []
files_of ((m, h) ∷ fs) = (m, h.number) ∷ files_of fs

-- What Finish is told: the status of the base builder after its Finish, and the file system's answers.
pub record TableFinishIo : Type 0 where
  pub base : Option Status
  pub add_io : AddIo
  pub close : ℕ → CloseIo
  pub log : LogIo
  pub heard : Status → Option Status

module _ (c : Coding) (crc : Crc) (bh : BlockHandles) (cmp : Comparator) {R : Type 0}
    (ratios : Ratios R) (target_level : ℕ) where
  -- Finish: `status_` is what BatchFinishFiles returns, whatever it was.
  unfoldable pub finish_table :
      TableFinishIo
      → ℕ
      → TableBuilder
      → FileManager R
      → Outcome (Option Status × TableBuilder × FileManager R)
  unfolding finish_blob_file
  finish_table io cf b m =
      finish_blob_file c crc bh io.add_io target_level (record b { base_status = io.base })
      >>= λ b1.
          batch_finish_files c cmp ratios io.heard io.close io.log cf (files_of b1.finished_blobs) m
          >>= λ r. ok (status (record b1 { status = r.0 }), record b1 { status = r.0 }, r.1)

-- Abandon, with the answer of DeleteFile. A null handle cannot be asked for its number.
unfoldable pub abandon : Option Status → TableBuilder → Outcome TableBuilder
abandon delete_file b = elim b.blob_builder [
  | none ↦ ok b
  | some f ↦ elim b.blob_handle [
    | none ↦ fault
    | some n ↦ ok (record b { status = delete_file; blob_handle = none })
  ]
]
