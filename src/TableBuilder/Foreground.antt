-- ===== src/TableBuilder/Foreground.antt =====
-- ForegroundBuilder of src/table_builder.h and src/table_builder.cc: the thread of one builder, which
-- writes values to blob files before they go to the memtable. A request is handled as a whole.
pub mod Writes
pub mod Stores
pub mod Masked
use diffkv.Prelude.{
  ℕ, ltb, leb, Bool, true, false, ◌&&◌, ◌||◌, if◌then◌else◌, Option, none, some, List, [], ◌∷◌,
  ◌++◌, Bytes, Outcome, ok, err, fault, ◌>>=◌, Status, length, is_empty,
}
use diffkv.Coding.{Coding, Crc, BlockHandles}
use diffkv.Options.{Comparator, CfOptions}
use diffkv.Compression.{CompressionType, Codecs}
use diffkv.Format.Bounds.{unsorted}
use diffkv.Format.Record.{BlobRecord}
use diffkv.Format.Index.{encode_index}
use diffkv.Format.FileMeta.{BlobFileMeta, FileEvent, make, file_state_transit}
use diffkv.BlobFile.Builder.{BlobFileBuilder, new_builder, add, finish_file}
use diffkv.TableBuilder.{BlobFileHandle}

-- The members of one builder: its handle's number with its blob builder, and the finished files.
pub record Worker : Type 0 where
  pub output : Option (ℕ × BlobFileBuilder)
  pub finished_files : List (BlobFileMeta × BlobFileHandle)

-- What the calls of other parts answer during one request. `has_storage` says that the storage is
-- still there.
pub record RequestIo : Type 0 where
  pub new_file : Outcome ℕ
  pub header_io : Option Status
  pub has_storage : Bool
  pub write_io : Option Status
  pub footer_io : Option Status
  pub flush_io : Option Status
  pub put_io : Option Status

-- What a request comes to: its status, the entry that its batch is given under the key, and the
-- files that the request hands to BatchFinishFiles.
pub record Answer : Type 0 where
  pub status : Option Status
  pub entry : Option Bytes
  pub handed_over : List (BlobFileMeta × BlobFileHandle)

-- Add, up to the queue: whether the value goes to a blob file.
unfoldable pub is_taken : {R : Type 0} → CfOptions R → Bytes → Bool
is_taken options value =
    if ltb (length value) options.min_blob_size
      || (options.level_merge && ltb (length value) options.mid_blob_size)
    then false
    else true

module _ (c : Coding) (crc : Crc) (bh : BlockHandles) where
  -- FinishBlob; a file that cannot be finished ends the process.
  unfoldable pub finish_blob : RequestIo → Worker → Outcome Worker
  finish_blob io w = elim w.output [
    | none ↦ ok w
    | some (n, b) ↦
        let b' = finish_file c crc bh io.footer_io io.flush_io b in
        elim b'.status [
          | some x ↦ fault
          | none ↦
              file_state_transit FileEvent.reset
                (make n (length b'.file) b'.num_entries 0 b'.smallest_key b'.largest_key unsorted)
              >>= λ m. ok (record {
                output = none;
                finished_files =
                    w.finished_files ++ ((m, record { number = n; file = b'.file }) ∷ []);
              })
        ]
  ]

  -- A request with an empty key: finish what there is.
  unfoldable pub flush_request : RequestIo → Worker → Outcome (Answer × Worker)
  unfolding finish_blob
  flush_request io w = finish_blob io w >>= λ w'. ok (
    record { status = none; entry = none; handed_over = w'.finished_files },
    record w' { finished_files = [] },
  )

abbrev pub refused : Status → Answer
refused s = record { status = some s; entry = none; handed_over = [] }

module _ (c : Coding) (crc : Crc) (bh : BlockHandles) (z : Codecs) (t : CompressionType)
    (cmp : Comparator) {R : Type 0} (options : CfOptions R) where
  -- PutBlobIndex; a batch that is full takes nothing.
  abbrev pub answer : RequestIo → Bytes → Answer
  answer io entry = elim io.put_io [
    | none ↦ record { status = none; entry = some entry; handed_over = [] }
    | some s ↦ refused s
  ]

  -- The record goes to the open file, which is finished when it is large enough. The status of the
  -- blob builder is not looked at.
  unfoldable pub write_request :
      RequestIo → Bytes → Bytes → ℕ → BlobFileBuilder → Worker → Outcome (Answer × Worker)
  unfolding finish_blob
  write_request io key value n b w =
      add c crc z t cmp io.write_io (record { key = key; value = value; only_value = false })
        (record { offset = 0; size = 0 }) b
      >>= λ p.
          let entry = encode_index c (record { file_number = n; blob_handle = p.0 }) in
          let w' = record w { output = some (n, p.1) } in
          (if leb options.blob_file_target_size (length p.1.file)
            then finish_blob c crc bh io w'
            else ok w')
          >>= λ w2. ok (answer io entry, w2)

  -- A new file for the record.
  unfoldable pub new_file_request : RequestIo → Bytes → Bytes → Worker → Outcome (Answer × Worker)
  unfolding write_request
  new_file_request io key value w = elim io.new_file [
    | fault ↦ fault
    | err s ↦ ok (refused s, w)
    | ok n ↦
        if io.has_storage
        then write_request io key value n (new_builder c io.header_io) w
        else fault
  ]

  unfoldable pub add_request : RequestIo → Bytes → Bytes → Worker → Outcome (Answer × Worker)
  unfolding write_request new_file_request
  add_request io key value w = elim w.output [
    | some (n, b) ↦ write_request io key value n b w
    | none ↦ new_file_request io key value w
  ]

  -- handleRequest, of one request.
  unfoldable pub handle_request : RequestIo → Bytes → Bytes → Worker → Outcome (Answer × Worker)
  unfolding add_request flush_request
  handle_request io key value w =
      if is_empty key then flush_request c crc bh io w else add_request io key value w
