-- ===== src/Gc/Job.antt =====
-- BlobGCJob of src/blob_gc_job.h and src/blob_gc_job.cc: the loop of DoRunGC over the records that the
-- merge iterator yields. Each record comes with the answers that the calls of other parts give while it
-- is handled: the lookup in the LSM tree, the file system's, those of the foreground builder.
pub mod Settled
pub mod Accounts
use diffkv.Prelude.{
  ℕ, ◌+◌, Bool, true, false, not, ◌&&◌, leb, if◌then◌else◌, Option, none, some, is_none, List, [],
  ◌∷◌, ◌++◌, Bytes, Outcome, ok, err, fault, ◌>>=◌, ◌>>◌, assert, Status, add64, length, is_empty,
}
use diffkv.Coding.{Coding, Crc}
use diffkv.Options.{Comparator, DbOptions, CfOptions}
use diffkv.Compression.{CompressionType, Codecs}
use diffkv.Format.Record.{BlobRecord}
use diffkv.Format.Record
use diffkv.Format.Index.{BlobIndex, encode_index, decode_index, same_index}
use diffkv.BlobFile.Builder.{BlobFileBuilder, new_builder, add}

-- What DBImpl::GetImpl answers: a status, no key, a value in the tree, or a blob index.
pub data Lookup : Type 0 where
  failed : Status → Lookup
  missing : Lookup
  plain : Bytes → Lookup
  indexed : Bytes → Lookup

-- DiscardEntry: whether the tree no longer names the record at `index`.
unfoldable pub discard_entry : Coding → Lookup → BlobIndex → Outcome Bool
discard_entry c (failed s) index = err s
discard_entry c missing index = ok true
discard_entry c (plain value) index = ok true
discard_entry c (indexed entry) index = do
  (other, rest) ← decode_index c entry
  ok (not (same_index index other))

-- The bytes that DiscardEntry counts as read.
unfoldable pub lookup_size : Lookup → Bytes → ℕ
lookup_size (failed s) key = 0
lookup_size missing key = length key
lookup_size (plain value) key = length key + length value
lookup_size (indexed entry) key = length key + length entry

-- A record of an input file, and the answers for it. NewFile answers with a file's number.
pub record GcItem : Type 0 where
  pub index : BlobIndex
  pub key : Bytes
  pub value : Bytes
  pub shutting_down : Bool
  pub lookup : Lookup
  pub new_file : Outcome ℕ
  pub header_io : Option Status
  pub write_io : Option Status
  pub put_io : Option Status
  pub forward_io : Option Status
  pub base_write_io : Option Status

-- A blob file that the job writes: the number of its handle, and its builder.
pub record GcOutput : Type 0 where
  pub number : ℕ
  pub builder : BlobFileBuilder

-- An entry of rewrite_batches_: the key, the index that the callback expects, and the new entry.
pub record Rewrite : Type 0 where
  pub key : Bytes
  pub old_index : BlobIndex
  pub entry : Bytes

-- The members of metrics_ that count bytes and keys.
pub record GcMetrics : Type 0 where
  pub bytes_read : ℕ
  pub bytes_written : ℕ
  pub keys_overwritten : ℕ
  pub bytes_overwritten : ℕ
  pub keys_relocated : ℕ
  pub bytes_relocated : ℕ
  pub num_new_files : ℕ
  pub num_files : ℕ

-- The job with the locals of DoRunGC: `s` is `status`, the handle and its builder are `open_output`.
-- What went to the foreground builder is in `forwarded`.
pub record GcJob : Type 0 where
  pub status : Option Status
  pub file_size : ℕ
  pub open_output : Option GcOutput
  pub outputs : List GcOutput
  pub batches : List Rewrite
  pub forwarded : List (Bytes × Bytes)
  pub metrics : GcMetrics

abbrev pub new_job : GcJob
new_job = record {
  status = none;
  file_size = 0;
  open_output = none;
  outputs = [];
  batches = [];
  forwarded = [];
  metrics = record {
    bytes_read = 0;
    bytes_written = 0;
    keys_overwritten = 0;
    bytes_overwritten = 0;
    keys_relocated = 0;
    bytes_relocated = 0;
    num_new_files = 0;
    num_files = 0;
  };
}

-- A turn of the loop ends by `break` (true) or goes on.
abbrev pub stop : Status → GcJob → Outcome (Bool × GcJob)
stop s job = ok (true, record job { status = some s })

abbrev pub go_on : Option Status → GcJob → Outcome (Bool × GcJob)
go_on s job = ok (false, record job { status = s })

-- The counts of a record that is read, and of one that is dropped.
unfoldable pub count_read : GcItem → GcJob → GcJob
unfolding lookup_size
count_read i job = record job {
  metrics = record job.metrics {
    bytes_read =
        add64 (add64 job.metrics.bytes_read i.index.blob_handle.size) (lookup_size i.lookup i.key);
  };
}

unfoldable pub count_overwritten : GcItem → GcJob → GcJob
count_overwritten i job = record job {
  metrics = record job.metrics {
    keys_overwritten = add64 job.metrics.keys_overwritten 1;
    bytes_overwritten = add64 job.metrics.bytes_overwritten i.index.blob_handle.size;
  };
}

-- With the foreground builder: it takes the record, and its batch is written to the tree.
unfoldable pub forward_item : GcItem → GcJob → Outcome (Bool × GcJob)
forward_item i job = elim i.forward_io [
  | some x ↦ go_on none job
  | none ↦
      go_on i.base_write_io (record job { forwarded = job.forwarded ++ ((i.key, i.value) ∷ []) })
]

-- The open file goes to blob_file_builders_; its builder has met no error.
unfoldable pub close_output : GcJob → Outcome GcJob
close_output job = elim job.open_output [
  | none ↦ fault
  | some out ↦
      assert (is_none out.builder.status)
      >> ok (record job { outputs = job.outputs ++ (out ∷ []); open_output = none })
]

-- After the loop, with the status of the iterator.
unfoldable pub end_run : Option Status → GcJob → Outcome (Option Status × GcJob)
unfolding close_output
end_run (some x) job = ok (some x, job)
end_run none job = elim job.status [
  | some x ↦ ok (some x, job)
  | none ↦ elim job.open_output [
    | none ↦ ok (none, job)
    | some out ↦ close_output job >>= λ j. ok (none, j)
  ]
]

module _ (c : Coding) where
  unfoldable pub create_output : GcItem → GcJob → Outcome (Bool × GcJob)
  create_output i job = elim i.new_file [
    | fault ↦ fault
    | err s ↦ stop s job
    | ok n ↦ go_on none (record job {
      open_output = some (record { number = n; builder = new_builder c i.header_io });
      file_size = 0;
    })
  ]

  -- A file to write to: the open one, if there is one that is not full.
  unfoldable pub ready_output : ℕ → GcItem → GcJob → Outcome (Bool × GcJob)
  ready_output target_size i job = elim (leb target_size job.file_size) [
    | true ↦ close_output job >>= create_output i
    | false ↦ elim job.open_output [ none ↦ create_output i job | some out ↦ go_on none job ]
  ]

abbrev pub record_of : GcItem → BlobRecord
record_of i = record { key = i.key; value = i.value; only_value = false }

module _ (c : Coding) (crc : Crc) (z : Codecs) (t : CompressionType) (cmp : Comparator) where
  -- The record goes to the open file, and the key's new index to rewrite_batches_.
  unfoldable pub write_item : GcItem → GcJob → Outcome (Bool × GcJob)
  write_item i job = elim job.open_output [
    | none ↦ fault
    | some out ↦ do
      (h, b) ←
          add c crc z t cmp i.write_io (record_of i) (record { offset = 0; size = 0 }) out.builder
      assert (not (is_empty i.key))
      let size = Record.size (record_of i)
      let index : BlobIndex = record { file_number = out.number; blob_handle = h }
      ok (
        not (is_none i.put_io),
        record job {
          status = i.put_io;
          file_size = add64 job.file_size size;
          open_output = some (record out { builder = b });
          batches =
              job.batches
              ++ (record { key = i.key; old_index = i.index; entry = encode_index c index } ∷ []);
          metrics = record job.metrics { bytes_written = add64 job.metrics.bytes_written size };
        },
      )
  ]

  unfoldable pub rewrite_item : ℕ → GcItem → GcJob → Outcome (Bool × GcJob)
  unfolding write_item ready_output
  rewrite_item target_size i job = ready_output c target_size i job >>= λ r. elim r.0 [
    | true ↦ ok (true, r.1)
    | false ↦ write_item i r.1
  ]

  module _ {R : Type 0} (db : DbOptions) (options : CfOptions R) where
    unfoldable pub keep_item : GcItem → GcJob → Outcome (Bool × GcJob)
    unfolding forward_item rewrite_item
    keep_item i job = elim (db.sep_before_flush && not options.level_merge) [
      | true ↦ forward_item i job
      | false ↦ rewrite_item options.blob_file_target_size i job
    ]

    -- The body of the loop.
    unfoldable pub run_item : GcItem → GcJob → Outcome (Bool × GcJob)
    unfolding keep_item count_read count_overwritten
    run_item i job = elim i.shutting_down [
      | true ↦ stop Status.shutdown_in_progress job
      | false ↦ elim (discard_entry c i.lookup i.index) [
        | fault ↦ fault
        | err s ↦ stop s (count_read i job)
        | ok true ↦ go_on none (count_overwritten i (count_read i job))
        | ok false ↦ keep_item i (count_read i job)
      ]
    ]

    unfoldable pub run_items : List GcItem → GcJob → Outcome GcJob
    unfolding run_item
    run_items [] job = ok job
    run_items (i ∷ is) job =
        run_item i job >>= λ r. elim r.0 [ true ↦ ok r.1 | false ↦ run_items is r.1 ]

    -- DoRunGC, with BuildIterator's status: the iterator is valid at its start.
    unfoldable pub do_run_gc :
        Option Status → List GcItem → Option Status → GcJob → Outcome (Option Status × GcJob)
    unfolding run_items end_run
    do_run_gc (some x) items iterator_status job = ok (some x, job)
    do_run_gc none items iterator_status job =
        assert (not (is_empty items)) >> (run_items items job >>= end_run iterator_status)

    -- Run: every input is sampled, and without inputs there is nothing to do.
    unfoldable pub run :
        List ℕ
        → Option Status
        → List GcItem
        → Option Status
        → GcJob
        → Outcome (Option Status × GcJob)
    unfolding do_run_gc
    run inputs built items iterator_status job =
        if is_empty inputs then ok (none, job) else do_run_gc built items iterator_status job
