-- ===== src/FileManager/Adds.antt =====
-- BatchFinishFiles of src/db_impl.cc, where the file system answers OK: the files are in the file set.
use diffkv.Prelude.{
  ℕ, ◌≤◌, ◌≡◌, ◌≢◌, refl, sym, ap, ◌∙◌, false, if◌then◌else◌, Option, none, some, is_none, List, [],
  ◌∷◌, ◌++◌, Bytes, All, ok, Status,
}
use mathlib.Core.List.{append_assoc, append-nil}
use diffkv.Prelude.Assoc.{find, Distinct, Fresh-nil}
use diffkv.Coding.{Coding}
use diffkv.Options.{Ratios, Comparator}
use diffkv.Format.FileMeta.{BlobFileMeta, is_obsolete}
use diffkv.Edit.{VersionEdit, new_edit, set_next_file_number, set_column_family_id, add_blob_file}
use diffkv.Storage.{BlobStorage, find_file, level_slot}
use diffkv.Storage.Invariant.{IsWellFormed}
use diffkv.Collector.Family.{no_edits, seal}
use diffkv.Collector.Batch.{collect, delete_files, update_files}
use diffkv.Collector.Added.{IsAddable, IsAbsent}
use diffkv.Collector.Updated.{grow}
use diffkv.Collector.Commit.{IsBatch, after_batch, seal_iff}
use diffkv.FileSet.{FileSet, LogIo, log_and_apply}
use diffkv.FileSet.Commit.{logged, log_and_apply-commits}
use diffkv.FileSet.Snapshot.{by_file_number, adding, add_files-adding}
use diffkv.FileManager.{
  FileManager, CloseIo, set_bg_error, close_files, handles_of, without_all, batch_finish_files,
}

abbrev pub metas_of : List (BlobFileMeta × ℕ) → List BlobFileMeta
metas_of [] = []
metas_of ((meta, number) ∷ files) = meta ∷ metas_of files

-- Sync and Close answer OK for every file.
abbrev pub AllClose : (ℕ → CloseIo) → List (BlobFileMeta × ℕ) → Type 0
AllClose io [] = Unit {0}
AllClose io ((meta, number) ∷ files) =
    ((io number).sync ≡ none) × ((io number).close ≡ none) × AllClose io files

-- A file that the storage can take: not obsolete, on one of its levels, and under a new number.
abbrev pub IsNewIn : {R : Type 0} → BlobStorage R → BlobFileMeta → Type 0
IsNewIn s m =
    (is_obsolete m ≡ false)
    × (level_slot s.cf_options m ≤ s.cf_options.num_levels)
    × (find m.file_number s.files ≡ none)

close_files-ok :
    (io : ℕ → CloseIo) (files : List (BlobFileMeta × ℕ)) (e : VersionEdit)
    → AllClose io files
    → close_files io files e ≡ (none, record e { added_files = e.added_files ++ metas_of files })
unfolding close_files add_blob_file
close_files-ok io [] e all =
    ap (λ x. (none, record e { added_files = x })) (sym (append-nil e.added_files))
close_files-ok io ((meta, number) ∷ files) e (synced, closed, all) =
    rw (synced, close_files, closed)
      (close_files-ok io files (add_blob_file meta e) all
        ∙ ap (λ x. (none, record e { added_files = x }))
            (append_assoc e.added_files (meta ∷ []) (metas_of files)))

abbrev pub adding_edit : ℕ → List BlobFileMeta → VersionEdit
adding_edit cf ms = record new_edit { column_family_id = cf; added_files = ms }

collect-adding :
    (cf n : ℕ) (ms : List BlobFileMeta)
    → Distinct (by_file_number ms)
    → collect (set_next_file_number n (adding_edit cf ms)) no_edits ≡ (none, adding ms)
unfolding collect delete_files update_files set_next_file_number
collect-adding cf n ms d =
    rw (add_files-adding ms no_edits (Fresh-nil _) d)
      (rw (add_files-adding ms no_edits (Fresh-nil _) d))

module _ {R : Type 0} (s : BlobStorage R) where
  All-IsAddable :
      (ms : List BlobFileMeta)
      → All (IsNewIn s) ms
      → All (IsAddable s.cf_options) (by_file_number ms) × All (IsAbsent s) (by_file_number ms)
  All-IsAddable [] new = (tt, tt)
  All-IsAddable (m ∷ ms) ((live, fits, absent), new) =
      let (addable, gone) = All-IsAddable ms new in (((refl, live, fits), addable), (absent, gone))

  adding-IsBatch :
      (ms : List BlobFileMeta)
      → Distinct (by_file_number ms)
      → All (IsNewIn s) ms
      → IsBatch (adding ms) s × (seal (adding ms) s ≡ ok tt)
  adding-IsBatch ms d new =
      let (addable, gone) = All-IsAddable ms new in
      (
        record {
          added_once = d;
          deleted_once = tt;
          updated_once = tt;
          addable = addable;
          roomy = tt;
        },
        (seal_iff (adding ms) s).1 (gone, tt),
      )

  after_batch-adding :
      (ms : List BlobFileMeta) (k : ℕ) (old : Option BlobFileMeta)
      → grow (find k (adding ms).updated_discardable_size) (after_batch (adding ms) old k)
        ≡ (if is_none old then find k (by_file_number ms) else old)
  unfolding find
  after_batch-adding ms k none = refl
  after_batch-adding ms k (some x) = refl

-- Where BatchFinishFiles leaves the storage of one column family: the new files are there, each under
-- its number, and nothing else has changed.
pub record AddedIn {R : Type 0} (cf : ℕ) (s : BlobStorage R) (ms : List BlobFileMeta)
    (fs : FileSet R) (t : FileSet R) : Type 0 where
  pub storage : BlobStorage R
  pub there : find cf t.column_families ≡ some storage
  pub well_formed : IsWellFormed storage
  pub effect :
      (k : ℕ)
      → find_file k storage
        ≡ (if is_none (find_file k s) then find k (by_file_number ms) else find_file k s)
  pub others : (j : ℕ) → cf ≢ j → find j t.column_families ≡ find j fs.column_families

module _ (c : Coding) (cmp : Comparator) {R : Type 0} (ratios : Ratios R) where
  pub log_and_apply-adds :
      (io : LogIo) (cf : ℕ) (ms : List BlobFileMeta) (log : List Bytes) (fs : FileSet R)
      (s : BlobStorage R)
      → io.add_record ≡ none
      → io.sync ≡ none
      → fs.manifest ≡ some log
      → find cf fs.column_families ≡ some s
      → IsWellFormed s
      → Distinct (by_file_number ms)
      → All (IsNewIn s) ms
      → (t : FileSet R) × (log_and_apply c cmp ratios io (adding_edit cf ms) fs ≡ ok (none, t))
        × (t.manifest ≡ some (log ++ (logged c (adding_edit cf ms) fs ∷ [])))
        × AddedIn cf s ms fs t
  log_and_apply-adds io cf ms log fs s added synced manifest there v d new =
      let (batch, accepted) = adding-IsBatch s ms d new in
      let (t, s', done, longer, now, v', effect, others) =
        log_and_apply-commits c cmp ratios io (adding_edit cf ms) (adding ms) log fs s added synced
          manifest there (collect-adding cf fs.next_file_number ms d) v batch accepted in
      (
        t,
        done,
        longer,
        record {
          storage = s';
          there = now;
          well_formed = v';
          effect = λ k. effect k ∙ after_batch-adding s ms k (find_file k s);
          others = others;
        },
      )

  -- BatchFinishFiles of new files, whose numbers differ and which the storage can take, returns OK
  -- where the file system answers OK. The record is in the manifest; the storage of the column family
  -- is well-formed and has the files beside those that it had; no other column family changes; and
  -- the files are no longer pending.
  pub batch_finish_files-adds :
      (heard : Status → Option Status) (io : ℕ → CloseIo) (log_io : LogIo) (cf : ℕ)
      (files : List (BlobFileMeta × ℕ)) (log : List Bytes) (m : FileManager R) (s : BlobStorage R)
      → AllClose io files
      → log_io.add_record ≡ none
      → log_io.sync ≡ none
      → m.file_set.manifest ≡ some log
      → find cf m.file_set.column_families ≡ some s
      → IsWellFormed s
      → Distinct (by_file_number (metas_of files))
      → All (IsNewIn s) (metas_of files)
      → (m' : FileManager R) × (batch_finish_files c cmp ratios heard io log_io cf files m
          ≡ ok (none, m'))
        × (m'.file_set.manifest
            ≡ some (log ++ (logged c (adding_edit cf (metas_of files)) m.file_set ∷ [])))
        × AddedIn cf s (metas_of files) m.file_set m'.file_set
        × (m'.pending_outputs ≡ without_all (handles_of files) m.pending_outputs)
  unfolding batch_finish_files set_bg_error set_column_family_id
  batch_finish_files-adds heard io log_io cf files log m s closed added synced manifest there v d
        new =
      let (t, done, longer, inside) =
        log_and_apply-adds log_io cf (metas_of files) log m.file_set s added synced manifest there v
          d new in
      (
        record m {
          file_set = t;
          pending_outputs = without_all (handles_of files) m.pending_outputs;
        },
        rw (
          close_files-ok io files (set_column_family_id cf new_edit) closed,
          batch_finish_files,
          close_files-ok io files (set_column_family_id cf new_edit) closed,
          done,
        ),
        longer,
        inside,
        refl,
      )
