-- ===== src/Gc/Finish/Masked.antt =====
-- InstallOutputBlobFiles of src/blob_gc_job.cc where an output file cannot be finished.
use diffkv.Prelude.{ℕ, ◌≡◌, refl, ap, none, some, List, [], ok, Status}
use diffkv.Coding.{Coding, Crc, BlockHandles}
use diffkv.Options.{Ratios, Comparator, DbOptions}
use diffkv.FileManager.{FileManager, delete_each, batch_delete_files, without_all}
use diffkv.Gc.Job.{GcOutput, GcJob}
use diffkv.Gc.Finish.{
  FinishGcIo, Finished, finish_outputs, numbers_of, install_output_blob_files, rewrite_each,
  rewrite_valid_key_to_lsm, forgive_busy, install_and_rewrite, count_new_files,
}
use diffkv.Gc.Finish.Replaces.{AllWrite, entries_of, rewrite_each-all}

module _ (c : Coding) (crc : Crc) (bh : BlockHandles) (cmp : Comparator) {R : Type 0}
    (ratios : Ratios R) (db : DbOptions) (io : FinishGcIo) (cf n : ℕ) (x : Status) (job : GcJob)
    (outs : List GcOutput) (m : FileManager R)
    (failed : finish_outputs c crc bh io.install.finish job.outputs ≡ (some x, outs, n)) where
  -- The status of an output file that cannot be finished is lost: InstallOutputBlobFiles then returns
  -- what the deletion of the last output file answers, and nothing is added to the file set.
  install_output_blob_files-masked :
      install_output_blob_files c crc bh cmp ratios db io.install cf job m
      ≡ ok (record {
        status = delete_each io.install.delete none (numbers_of outs);
        gc_outputs = [];
        job = count_new_files n (record job { outputs = outs });
        manager = record m { pending_outputs = without_all (numbers_of outs) m.pending_outputs };
      })
  unfolding install_output_blob_files batch_delete_files
  install_output_blob_files-masked = rw (failed, install_output_blob_files, failed)

  -- If an output file cannot be finished, the deletion of the last output file answers OK, and so
  -- does the tree for every batch, then the first half of Finish returns OK and tells the tree the
  -- new entry of every batch, although no output file was added to the file set.
  pub install_and_rewrite-masked :
      delete_each io.install.delete none (numbers_of outs) ≡ none
      → AllWrite io.rewrite 0 job.batches
      → (f : Finished R) × (install_and_rewrite c crc bh cmp ratios db io cf job m ≡ ok f)
        × (f.status ≡ none)
        × (f.written ≡ entries_of job.batches)
        × (f.manager.file_set ≡ m.file_set)
  unfolding install_and_rewrite rewrite_valid_key_to_lsm
  install_and_rewrite-masked deleted all =
      let job1 = count_new_files n (record job { outputs = outs }) in
      let (ended, written) =
        rewrite_each-all io.rewrite 0 job.batches
          (record { status = none; written = []; metrics = job1.metrics }) refl all in
      let r =
        rewrite_each io.rewrite 0 job.batches
          (record { status = none; written = []; metrics = job1.metrics }) in
      (
        record {
          status = forgive_busy r.status;
          written = r.written;
          gc_outputs = [];
          metrics = r.metrics;
          manager = record m { pending_outputs = without_all (numbers_of outs) m.pending_outputs };
        },
        rw (install_output_blob_files-masked, deleted),
        ap forgive_busy ended,
        written,
        refl,
      )
