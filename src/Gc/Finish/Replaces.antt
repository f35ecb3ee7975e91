-- ===== src/Gc/Finish/Replaces.antt =====
-- BlobGCJob::Finish of src/blob_gc_job.cc as a whole, where every call answers OK: the outputs take
-- the place of the inputs.
use diffkv.Prelude.{
  ℕ, ◌+◌, add64, ◌≡◌, ◌≢◌, refl, sym, ap, ◌∙◌, Bool, false, not, ◌&&◌, if◌then◌else◌, Option, none,
  some, is_none, List, [], ◌∷◌, ◌++◌, Bytes, All, ok, length, arith,
}
use mathlib.Core.Path.{subst}
use mathlib.Core.List.{append_assoc, append-nil}
use diffkv.Prelude.Assoc.{find, has, Distinct}
use diffkv.Coding.{Coding, Crc, BlockHandles}
use diffkv.Options.{Ratios, Comparator, DbOptions}
use diffkv.Format.Bounds.{sorted, unsorted}
use diffkv.Format.FileMeta.{BlobFileMeta, FileState, is_obsolete, make, file_state_transit, transit}
use diffkv.Edit.{new_edit, set_column_family_id}
use diffkv.Storage.{BlobStorage, find_file, level_slot}
use diffkv.Storage.Invariant.{IsWellFormed}
use diffkv.Collector.Deleted.{obsolete_too}
use diffkv.FileSet.{FileSet, log_and_apply}
use diffkv.FileSet.Snapshot.{by_file_number}
use diffkv.FileManager.{FileManager, batch_finish_files}
use diffkv.FileManager.Adds.{metas_of, AllClose, IsNewIn, batch_finish_files-adds}
use diffkv.Gc.Job.{GcOutput, Rewrite, GcJob}
use diffkv.Gc.Finish.{
  FinishGcIo, RewriteIo, Rewriting, Finished, finish_outputs, output_meta, output_metas, numbers_of,
  install_output_blob_files, rewrite_each, rewrite_valid_key_to_lsm, relocated, forgive_busy,
  delete_input_blob_files, install_and_rewrite, delete_after, finish, count_new_files,
}
use diffkv.Gc.Finish.Removes.{
  at_sequence, IsLive, delete_inputs-at_sequence, removing_edit, log_and_apply-removes,
}

-- The meta under which an output file enters the storage.
abbrev pub output_file : DbOptions → GcOutput → BlobFileMeta
output_file db out =
    record (make out.number (length out.builder.file) 0 0 out.builder.smallest_key
      out.builder.largest_key (if db.sep_before_flush then unsorted else sorted)) {
        state = FileState.pending_gc;
      }

abbrev pub output_files : DbOptions → List GcOutput → List (BlobFileMeta × ℕ)
output_files db [] = []
output_files db (out ∷ outs) = (output_file db out, out.number) ∷ output_files db outs

output_metas-ok :
    (db : DbOptions) (outs : List GcOutput) → output_metas db outs ≡ ok (output_files db outs)
unfolding output_metas output_meta file_state_transit transit make
output_metas-ok db [] = refl
output_metas-ok db (out ∷ outs) = rw (output_metas-ok db outs)

-- The storage has no file under the numbers of the outputs.
abbrev pub AllAbsent : {R : Type 0} → BlobStorage R → List GcOutput → Type 0
AllAbsent s [] = Unit {0}
AllAbsent s (out ∷ outs) = (find out.number s.files ≡ none) × AllAbsent s outs

output_files-IsNewIn :
    {R : Type 0} (db : DbOptions) (s : BlobStorage R) (outs : List GcOutput)
    → AllAbsent s outs
    → All (IsNewIn s) (metas_of (output_files db outs))
unfolding make is_obsolete level_slot
output_files-IsNewIn db s [] new = tt
output_files-IsNewIn db s (out ∷ outs) (gone, new) =
    ((refl, ground arith, gone), output_files-IsNewIn db s outs new)

-- Every batch is written.
abbrev pub AllWrite : (ℕ → RewriteIo) → ℕ → List Rewrite → Type 0
AllWrite io n [] = Unit {0}
AllWrite io n (b ∷ bs) =
    ((io n).dropped ≡ false)
    × ((io n).shutting_down ≡ false)
    × ((io n).write ≡ none)
    × AllWrite io (n + 1) bs

abbrev pub entries_of : List Rewrite → List (Bytes × Bytes)
entries_of [] = []
entries_of (b ∷ bs) = (b.key, b.entry) ∷ entries_of bs

pub rewrite_each-all :
    (io : ℕ → RewriteIo) (n : ℕ) (bs : List Rewrite) (r : Rewriting)
    → r.status ≡ none
    → AllWrite io n bs
    → ((rewrite_each io n bs r).status ≡ none)
      × ((rewrite_each io n bs r).written ≡ r.written ++ entries_of bs)
unfolding rewrite_each relocated
rewrite_each-all io n [] r fine all = (fine, sym (append-nil r.written))
rewrite_each-all io n (b ∷ bs) r fine (kept, up, wrote, all) =
    let (still, written) = rewrite_each-all io (n + 1) bs (relocated (io n) b r) refl all in
    (
      rw (kept, rewrite_each, up, rewrite_each, wrote) still,
      rw (kept, rewrite_each, up, rewrite_each, wrote)
          (written ∙ append_assoc r.written ((b.key, b.entry) ∷ []) (entries_of bs)),
    )

-- What the calls of Finish answer where nothing goes wrong; `outs` are the finished outputs.
pub record IsFine (c : Coding) (crc : Crc) (bh : BlockHandles) (db : DbOptions) (io : FinishGcIo)
    (job : GcJob) (outs : List GcOutput) (n : ℕ) : Type 0 where
  pub finishes : finish_outputs c crc bh io.install.finish job.outputs ≡ (none, outs, n)
  pub closes : AllClose io.install.close (output_files db outs)
  pub installs_record : io.install.log.add_record ≡ none
  pub installs_sync : io.install.log.sync ≡ none
  pub writes : AllWrite io.rewrite 0 job.batches
  pub not_dropped : io.dropped ≡ false
  pub deletes_record : io.delete_log.add_record ≡ none
  pub deletes_sync : io.delete_log.sync ≡ none

-- What the storage has under a number before the inputs are deleted.
abbrev pub with_outputs :
    {R : Type 0} → DbOptions → List GcOutput → BlobStorage R → ℕ → Option BlobFileMeta
with_outputs db outs s k =
    if is_none (find_file k s)
    then find k (by_file_number (metas_of (output_files db outs)))
    else find_file k s

-- The outputs have come, and the inputs are obsolete.
pub record Replaced {R : Type 0} (db : DbOptions) (cf : ℕ) (s : BlobStorage R)
    (outs : List GcOutput) (ds : List (ℕ × ℕ)) (fs t : FileSet R) : Type 0 where
  pub storage : BlobStorage R
  pub there : find cf t.column_families ≡ some storage
  pub well_formed : IsWellFormed storage
  pub effect :
      (k : ℕ)
      → find_file k storage
        ≡ (if has k ds then obsolete_too (with_outputs db outs s k) else with_outputs db outs s k)
  pub others : (j : ℕ) → cf ≢ j → find j t.column_families ≡ find j fs.column_families

still-IsLive :
    {R : Type 0} (s s1 : BlobStorage R) (ms : List (ℕ × BlobFileMeta)) (ns : List ℕ)
    → ((k : ℕ) → find_file k s1 ≡ (if is_none (find_file k s) then find k ms else find_file k s))
    → All (IsLive s) ns
    → All (IsLive s1) ns
unfolding find_file
still-IsLive s s1 ms [] effect live = tt
still-IsLive s s1 ms (n ∷ ns) effect ((m, there, alive), live) =
    ((m, effect n ∙ rw there, alive), still-IsLive s s1 ms ns effect live)

module _ (c : Coding) (crc : Crc) (bh : BlockHandles) (cmp : Comparator) {R : Type 0}
    (ratios : Ratios R) where
  install-fine :
      (db : DbOptions) (io : FinishGcIo) (cf n : ℕ) (job : GcJob) (outs : List GcOutput)
      (m m' : FileManager R)
      → IsFine c crc bh db io job outs n
      → batch_finish_files c cmp ratios io.install.heard io.install.close io.install.log cf
          (output_files db outs)
          m
        ≡ ok (none, m')
      → install_output_blob_files c crc bh cmp ratios db io.install cf job m
        ≡ ok (record {
          status = none;
          gc_outputs = numbers_of outs;
          job = count_new_files n (record job { outputs = outs });
          manager = m';
        })
  unfolding install_output_blob_files
  install-fine db io cf n job outs m m' fine done =
      rw (fine.finishes, install_output_blob_files, fine.finishes, output_metas-ok db outs, done)

  install_and_rewrite-fine :
      (db : DbOptions) (io : FinishGcIo) (cf n : ℕ) (job : GcJob) (outs : List GcOutput)
      (m m' : FileManager R)
      → IsFine c crc bh db io job outs n
      → batch_finish_files c cmp ratios io.install.heard io.install.close io.install.log cf
          (output_files db outs)
          m
        ≡ ok (none, m')
      → (f : Finished R) × (install_and_rewrite c crc bh cmp ratios db io cf job m ≡ ok f)
        × (f.status ≡ none)
        × (f.written ≡ entries_of job.batches)
        × (f.gc_outputs ≡ numbers_of outs)
        × (f.manager ≡ m')
  unfolding install_and_rewrite rewrite_valid_key_to_lsm
  install_and_rewrite-fine db io cf n job outs m m' fine done =
      let job1 = count_new_files n (record job { outputs = outs }) in
      let r =
        rewrite_each io.rewrite 0 job.batches
          (record { status = none; written = []; metrics = job1.metrics }) in
      let (ended, written) =
        rewrite_each-all io.rewrite 0 job.batches
          (record { status = none; written = []; metrics = job1.metrics }) refl fine.writes in
      (
        record {
          status = forgive_busy r.status;
          written = r.written;
          gc_outputs = numbers_of outs;
          metrics = r.metrics;
          manager = m';
        },
        rw (install-fine db io cf n job outs m m' fine done),
        ap forgive_busy ended,
        written,
        refl,
        refl,
      )

  delete_after-fine :
      (io : FinishGcIo) (cf : ℕ) (inputs : List ℕ) (f : Finished R) (t : FileSet R)
      → f.status ≡ none
      → io.dropped ≡ false
      → log_and_apply c cmp ratios io.delete_log
          (removing_edit cf (at_sequence io.sequence inputs))
          f.manager.file_set
        ≡ ok (none, t)
      → (g : Finished R) × (delete_after c crc bh cmp ratios io cf inputs f ≡ ok g)
        × (g.status ≡ none)
        × (g.written ≡ f.written)
        × (g.gc_outputs ≡ f.gc_outputs)
        × (g.manager.file_set ≡ t)
  unfolding delete_after delete_input_blob_files set_column_family_id
  delete_after-fine io cf inputs f t fine kept done = (
    record f {
      status = none;
      manager = record f.manager { file_set = t };
      metrics = record f.metrics { num_files = add64 f.metrics.num_files (length inputs) };
    },
    rw (
      fine,
      delete_after,
      kept,
      delete_inputs-at_sequence io.sequence inputs (set_column_family_id cf new_edit),
      done,
    ),
    refl,
    refl,
    refl,
    refl,
  )

  -- Finish of a job that writes its own files returns OK where every call answers OK, the output
  -- files have new numbers, each once, and the input files are live in a well-formed storage, each
  -- once. The tree is told the new entry of every batch, in order. The storage is then well-formed
  -- and has the output files, waiting for the end of the collection, beside the files that it had;
  -- the input files, and only they, became obsolete; and no other column family has changed.
  pub finish-Replaced :
      (db : DbOptions) (level_merge : Bool) (io : FinishGcIo) (cf n : ℕ) (inputs : List ℕ)
      (job : GcJob) (outs : List GcOutput) (log : List Bytes) (m : FileManager R)
      (s : BlobStorage R)
      → (db.sep_before_flush && not level_merge) ≡ false
      → IsFine c crc bh db io job outs n
      → m.file_set.manifest ≡ some log
      → find cf m.file_set.column_families ≡ some s
      → IsWellFormed s
      → Distinct (by_file_number (metas_of (output_files db outs)))
      → AllAbsent s outs
      → Distinct (at_sequence io.sequence inputs)
      → All (IsLive s) inputs
      → (f : Finished R) × (finish c crc bh cmp ratios db level_merge io cf inputs job m ≡ ok f)
        × (f.status ≡ none)
        × (f.written ≡ entries_of job.batches)
        × (f.gc_outputs ≡ numbers_of outs)
        × Replaced db cf s outs (at_sequence io.sequence inputs) m.file_set f.manager.file_set
  unfolding finish
  finish-Replaced db level_merge io cf n inputs job outs log m s own fine manifest there v once new
        twice live =
      let ms = by_file_number (metas_of (output_files db outs)) in
      let (m', added, longer, inside, _) =
        batch_finish_files-adds c cmp ratios io.install.heard io.install.close io.install.log cf
          (output_files db outs) log m s fine.closes fine.installs_record fine.installs_sync
          manifest there v once (output_files-IsNewIn db s outs new) in
      let (f, first, good, written, outputs, at) =
        install_and_rewrite-fine db io cf n job outs m m' fine added in
      let (t, removed, gone) =
        log_and_apply-removes c cmp ratios io.delete_log cf io.sequence inputs _ m'.file_set
          inside.storage fine.deletes_record fine.deletes_sync longer inside.there
          inside.well_formed twice (still-IsLive s inside.storage ms inputs inside.effect live) in
      let (g, second, good', written', outputs', now) =
        delete_after-fine io cf inputs f t good fine.not_dropped (
          ap
            (λ (x : FileManager R).
              log_and_apply c cmp ratios io.delete_log
                (removing_edit cf (at_sequence io.sequence inputs)) x.file_set)
            at
          ∙ removed) in
      (
        g,
        rw (own, finish, first) second,
        good',
        written' ∙ written,
        outputs' ∙ outputs,
        subst (λ x. Replaced db cf s outs (at_sequence io.sequence inputs) m.file_set x) (sym now)
            (record {
              storage = gone.storage;
              there = gone.there;
              well_formed = gone.well_formed;
              effect = λ k.
                  gone.effect k
                  ∙ ap (λ o. if has k (at_sequence io.sequence inputs) then obsolete_too o else o)
                      (inside.effect k);
              others = λ j ne. gone.others j ne ∙ inside.others j ne;
            }),
      )
