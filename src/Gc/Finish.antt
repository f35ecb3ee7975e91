-- ===== src/Gc/Finish.antt =====
-- BlobGCJob::Finish of src/blob_gc_job.cc and its three parts: the output files are installed, the
-- keys are rewritten, the input files are deleted. DoRunGC is Gc/Job.
pub mod Removes
pub mod Replaces
pub mod Masked
use diffkv.Prelude.{
  ℕ, ◌+◌, Bool, true, false, not, ◌&&◌, if◌then◌else◌, Option, none, some, List, [], ◌∷◌, ◌++◌, map,
  Bytes, Outcome, ok, err, ◌>>=◌, Status, add64, length,
}
use diffkv.Coding.{Coding, Crc, BlockHandles}
use diffkv.Options.{Ratios, Comparator, DbOptions}
use diffkv.Format.Bounds.{sorted, unsorted}
use diffkv.Format.FileMeta.{BlobFileMeta, FileEvent, make, file_state_transit}
use diffkv.BlobFile.Builder.{BlobFileBuilder, finish_file}
use diffkv.Edit.{VersionEdit, new_edit, set_column_family_id, delete_blob_file}
use diffkv.FileSet.{FileSet, LogIo, log_and_apply}
use diffkv.FileManager.{FileManager, CloseIo, batch_finish_files, batch_delete_files}
use diffkv.Gc.Job.{GcOutput, Rewrite, GcMetrics, GcJob}

-- What the file system answers to the footer of a file and to the flush.
pub record FinishIo : Type 0 where
  pub append : Option Status
  pub flush : Option Status

-- The answers for InstallOutputBlobFiles, by the number of the file.
pub record InstallIo : Type 0 where
  pub finish : ℕ → FinishIo
  pub close : ℕ → CloseIo
  pub log : LogIo
  pub delete : ℕ → Option Status
  pub heard : Status → Option Status

module _ (c : Coding) (crc : Crc) (bh : BlockHandles) where
  -- The loop that finishes the builders: the first status that is not OK, the outputs, and how many
  -- of them are finished.
  unfoldable pub finish_outputs : (ℕ → FinishIo) → List GcOutput → Option Status × List GcOutput × ℕ
  finish_outputs io [] = (none, [], 0)
  finish_outputs io (out ∷ outs) =
      let b = finish_file c crc bh (io out.number).append (io out.number).flush out.builder in
      let rest = finish_outputs io outs in
      elim b.status [
        | some x ↦ (some x, record out { builder = b } ∷ outs, 0)
        | none ↦ (rest.0, record out { builder = b } ∷ rest.1, rest.2 + 1)
      ]

-- The meta of an output file, with the event kGCOutput.
unfoldable pub output_meta : DbOptions → GcOutput → Outcome BlobFileMeta
output_meta db out = file_state_transit FileEvent.gc_output (
    make out.number (length out.builder.file) 0 0 out.builder.smallest_key out.builder.largest_key
      (if db.sep_before_flush then unsorted else sorted))

unfoldable pub output_metas : DbOptions → List GcOutput → Outcome (List (BlobFileMeta × ℕ))
unfolding output_meta
output_metas db [] = ok []
output_metas db (out ∷ outs) =
    output_meta db out >>= λ m. output_metas db outs >>= λ ms. ok ((m, out.number) ∷ ms)

abbrev pub numbers_of : List GcOutput → List ℕ
numbers_of [] = []
numbers_of (out ∷ outs) = out.number ∷ numbers_of outs

-- A job that installs: the outputs of its BlobGC come after a success.
pub record Installed (R : Type 0) : Type 0 where
  pub status : Option Status
  pub gc_outputs : List ℕ
  pub job : GcJob
  pub manager : FileManager R

abbrev pub count_new_files : ℕ → GcJob → GcJob
count_new_files n job = record job {
  metrics = record job.metrics { num_new_files = add64 job.metrics.num_new_files n };
}

abbrev pub installed :
    {R : Type 0} → List GcOutput → GcJob → Option Status × FileManager R → Installed R
installed outs job (none, m) = record {
  status = none;
  gc_outputs = numbers_of outs;
  job = job;
  manager = m;
}
installed outs job (some x, m) = record { status = some x; gc_outputs = []; job = job; manager = m }

module _ (c : Coding) (crc : Crc) (bh : BlockHandles) (cmp : Comparator) {R : Type 0}
    (ratios : Ratios R) where
  -- InstallOutputBlobFiles. After a failure its status is that of the deletion.
  unfoldable pub install_output_blob_files :
      DbOptions → InstallIo → ℕ → GcJob → FileManager R → Outcome (Installed R)
  unfolding finish_outputs output_metas
  install_output_blob_files db io cf job m =
      let (s, outs, n) = finish_outputs c crc bh io.finish job.outputs in
      let job1 = count_new_files n (record job { outputs = outs }) in
      elim s [
        | none ↦ output_metas db outs >>= λ files.
            batch_finish_files c cmp ratios io.heard io.close io.log cf files m >>= λ r.
            ok (installed outs job1 r)
        | some x ↦
            let (s', m') = batch_delete_files io.delete (numbers_of outs) m in
            ok (record { status = s'; gc_outputs = []; job = job1; manager = m' })
      ]

-- What happens while one batch is written. `read_bytes` is the callback's member, which nothing sets
-- since the batch is written without its callback.
pub record RewriteIo : Type 0 where
  pub dropped : Bool
  pub shutting_down : Bool
  pub write : Option Status
  pub data_size : ℕ
  pub read_bytes : ℕ

-- The loop of RewriteValidKeyToLSM: `s`, the entries that the tree took, and the counts.
pub record Rewriting : Type 0 where
  pub status : Option Status
  pub written : List (Bytes × Bytes)
  pub metrics : GcMetrics

abbrev pub is_busy : Status → Bool
is_busy Status.busy = true
is_busy s = false

abbrev pub count_rewrite_read : RewriteIo → GcMetrics → GcMetrics
count_rewrite_read io g = record g { bytes_read = add64 g.bytes_read io.read_bytes }

unfoldable pub relocated : RewriteIo → Rewrite → Rewriting → Rewriting
relocated io b r = record r {
  status = none;
  written = r.written ++ ((b.key, b.entry) ∷ []);
  metrics = count_rewrite_read io (record r.metrics {
    bytes_written = add64 r.metrics.bytes_written io.data_size;
    keys_relocated = add64 r.metrics.keys_relocated 1;
    bytes_relocated = add64 r.metrics.bytes_relocated b.old_index.blob_handle.size;
  });
}

unfoldable pub overwritten : RewriteIo → Rewrite → Rewriting → Rewriting
overwritten io b r = record r {
  status = some Status.busy;
  metrics = count_rewrite_read io (record r.metrics {
    keys_overwritten = add64 r.metrics.keys_overwritten 1;
    bytes_overwritten = add64 r.metrics.bytes_overwritten b.old_index.blob_handle.size;
  });
}

-- The answers are numbered by the batches.
unfoldable pub rewrite_each : (ℕ → RewriteIo) → ℕ → List Rewrite → Rewriting → Rewriting
unfolding relocated overwritten
rewrite_each io n [] r = r
rewrite_each io n (b ∷ bs) r = elim (io n).dropped [
  | true ↦ record r { status = some Status.aborted }
  | false ↦ elim (io n).shutting_down [
    | true ↦ record r { status = some Status.shutdown_in_progress }
    | false ↦ elim (io n).write [
      | none ↦ rewrite_each io (n + 1) bs (relocated (io n) b r)
      | some x ↦ elim (is_busy x) [
        | true ↦ rewrite_each io (n + 1) bs (overwritten (io n) b r)
        | false ↦ record r { status = some x }
      ]
    ]
  ]
]

abbrev pub forgive_busy : Option Status → Option Status
forgive_busy (some Status.busy) = none
forgive_busy s = s

-- RewriteValidKeyToLSM
unfoldable pub rewrite_valid_key_to_lsm : (ℕ → RewriteIo) → GcJob → Rewriting
unfolding rewrite_each
rewrite_valid_key_to_lsm io job =
    let r =
      rewrite_each io 0 job.batches
        (record { status = none; written = []; metrics = job.metrics }) in
    record r { status = forgive_busy r.status }

-- The loop of DeleteInputBlobFiles.
unfoldable pub delete_inputs : ℕ → List ℕ → VersionEdit → VersionEdit
delete_inputs sequence [] e = e
delete_inputs sequence (n ∷ ns) e = delete_inputs sequence ns (delete_blob_file n sequence e)

module _ (c : Coding) (cmp : Comparator) {R : Type 0} (ratios : Ratios R) where
  -- DeleteInputBlobFiles, with the latest sequence number of the tree.
  unfoldable pub delete_input_blob_files :
      LogIo → ℕ → ℕ → List ℕ → FileManager R → Outcome (Option Status × FileManager R)
  unfolding delete_inputs
  delete_input_blob_files io cf sequence inputs m =
      log_and_apply c cmp ratios io
        (delete_inputs sequence inputs (set_column_family_id cf new_edit)) m.file_set
      >>= λ r. ok (r.0, record m { file_set = r.1 })

-- What Finish leaves.
pub record Finished (R : Type 0) : Type 0 where
  pub status : Option Status
  pub written : List (Bytes × Bytes)
  pub gc_outputs : List ℕ
  pub metrics : GcMetrics
  pub manager : FileManager R

-- Everything that Finish is told from outside.
pub record FinishGcIo : Type 0 where
  pub install : InstallIo
  pub rewrite : ℕ → RewriteIo
  pub dropped : Bool
  pub sequence : ℕ
  pub delete_log : LogIo

module _ (c : Coding) (crc : Crc) (bh : BlockHandles) (cmp : Comparator) {R : Type 0}
    (ratios : Ratios R) where
  -- The first half of Finish, where the job has files of its own.
  unfoldable pub install_and_rewrite :
      DbOptions → FinishGcIo → ℕ → GcJob → FileManager R → Outcome (Finished R)
  unfolding install_output_blob_files rewrite_valid_key_to_lsm
  install_and_rewrite db io cf job m =
      install_output_blob_files c crc bh cmp ratios db io.install cf job m >>= λ i. elim i.status [
        | some x ↦ ok (record {
          status = some x;
          written = [];
          gc_outputs = i.gc_outputs;
          metrics = i.job.metrics;
          manager = i.manager;
        })
        | none ↦
            let r = rewrite_valid_key_to_lsm io.rewrite i.job in
            ok (record {
              status = r.status;
              written = r.written;
              gc_outputs = i.gc_outputs;
              metrics = r.metrics;
              manager = i.manager;
            })
      ]

  -- The second half: DeleteInputBlobFiles counts the files before it logs the edit.
  unfoldable pub delete_after : FinishGcIo → ℕ → List ℕ → Finished R → Outcome (Finished R)
  unfolding delete_input_blob_files
  delete_after io cf inputs f = elim f.status [
    | some x ↦ ok f
    | none ↦ elim io.dropped [
      | true ↦ ok f
      | false ↦
          delete_input_blob_files c cmp ratios io.delete_log cf io.sequence inputs f.manager
          >>= λ r. ok (record f {
            status = r.0;
            manager = r.1;
            metrics = record f.metrics { num_files = add64 f.metrics.num_files (length inputs) };
          })
    ]
  ]

  -- Finish: `level_merge` is that of the foreground builder's options.
  unfoldable pub finish :
      DbOptions → Bool → FinishGcIo → ℕ → List ℕ → GcJob → FileManager R → Outcome (Finished R)
  unfolding install_and_rewrite delete_after
  finish db level_merge io cf inputs job m = elim (db.sep_before_flush && not level_merge) [
    | true ↦ delete_after io cf inputs (record {
      status = none;
      written = [];
      gc_outputs = [];
      metrics = job.metrics;
      manager = m;
    })
    | false ↦ install_and_rewrite db io cf job m >>= delete_after io cf inputs
  ]
