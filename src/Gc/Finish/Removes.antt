-- ===== src/Gc/Finish/Removes.antt =====
-- DeleteInputBlobFiles of src/blob_gc_job.cc, where the file system answers OK: the input files are
-- obsolete.
use diffkv.Prelude.{
  ℕ, ◌≡◌, ◌≢◌, sym, ap, ◌∙◌, false, if◌then◌else◌, Option, none, some, List, [], ◌∷◌, ◌++◌, Bytes,
  All, ok, arith,
}
use mathlib.Core.List.{append_assoc, append-nil}
use diffkv.Prelude.Assoc.{find, has, emplace_new, Distinct, Fresh, Fresh-nil, Fresh-next}
use diffkv.Coding.{Coding}
use diffkv.Options.{Ratios, Comparator}
use diffkv.Format.FileMeta.{BlobFileMeta, is_obsolete}
use diffkv.Edit.{VersionEdit, new_edit, set_next_file_number, delete_blob_file}
use diffkv.Storage.{BlobStorage, find_file}
use diffkv.Storage.Invariant.{IsWellFormed}
use diffkv.Collector.Family.{CfEdits, no_edits, delete_file, seal}
use diffkv.Collector.Batch.{collect, add_files, delete_files, update_files}
use diffkv.Collector.Deleted.{IsLiveIn, obsolete_too}
use diffkv.Collector.Updated.{grow}
use diffkv.Collector.Commit.{IsBatch, after_batch, seal_iff}
use diffkv.FileSet.{FileSet, LogIo, log_and_apply}
use diffkv.FileSet.Commit.{log_and_apply-commits}
use diffkv.Gc.Finish.{delete_inputs}

-- The files with the sequence at which they become obsolete.
abbrev pub at_sequence : ℕ → List ℕ → List (ℕ × ℕ)
at_sequence q [] = []
at_sequence q (n ∷ ns) = (n, q) ∷ at_sequence q ns

-- A file of the storage that is not obsolete.
abbrev pub IsLive : {R : Type 0} → BlobStorage R → ℕ → Type 0
IsLive s n = (m : BlobFileMeta) × (find n s.files ≡ some m) × (is_obsolete m ≡ false)

pub delete_inputs-at_sequence :
    (q : ℕ) (ns : List ℕ) (e : VersionEdit)
    → delete_inputs q ns e ≡ record e { deleted_files = e.deleted_files ++ at_sequence q ns }
unfolding delete_inputs delete_blob_file
delete_inputs-at_sequence q [] e =
    ap (λ x. record e { deleted_files = x }) (sym (append-nil e.deleted_files))
delete_inputs-at_sequence q (n ∷ ns) e =
    delete_inputs-at_sequence q ns (delete_blob_file n q e)
    ∙ ap (λ x. record e { deleted_files = x })
        (append_assoc e.deleted_files ((n, q) ∷ []) (at_sequence q ns))

delete_files-all :
    (ds : List (ℕ × ℕ)) (c : CfEdits)
    → Fresh c.deleted_files ds
    → Distinct ds
    → delete_files ds c ≡ (none, record c { deleted_files = c.deleted_files ++ ds })
unfolding delete_files delete_file
delete_files-all [] c f d =
    ap (λ x. (none, record c { deleted_files = x })) (sym (append-nil c.deleted_files))
delete_files-all ((n, q) ∷ ds) c (gone, f) (new, d) =
    let c' = record c { deleted_files = c.deleted_files ++ ((n, q) ∷ []) } in
    rw (gone, delete_files, emplace_new n q c.deleted_files (ground arith))
      (delete_files-all ds c' (Fresh-next n q c.deleted_files ds new f) d
        ∙ ap (λ x. (none, record c { deleted_files = x }))
            (append_assoc c.deleted_files ((n, q) ∷ []) ds))

abbrev pub removing_edit : ℕ → List (ℕ × ℕ) → VersionEdit
removing_edit cf ds = record new_edit { column_family_id = cf; deleted_files = ds }

abbrev removing : List (ℕ × ℕ) → CfEdits
removing ds = record no_edits { deleted_files = ds }

collect-removing :
    (cf n : ℕ) (ds : List (ℕ × ℕ))
    → Distinct ds
    → collect (set_next_file_number n (removing_edit cf ds)) no_edits ≡ (none, removing ds)
unfolding collect add_files update_files set_next_file_number
collect-removing cf n ds d =
    rw (delete_files-all ds no_edits (Fresh-nil ds) d)
      (rw (delete_files-all ds no_edits (Fresh-nil ds) d))

module _ {R : Type 0} (s : BlobStorage R) where
  All-IsLiveIn : (q : ℕ) (ns : List ℕ) → All (IsLive s) ns → All (IsLiveIn [] s) (at_sequence q ns)
  All-IsLiveIn q [] live = tt
  All-IsLiveIn q (n ∷ ns) (l, live) = (λ _. l, All-IsLiveIn q ns live)

  removing-IsBatch :
      (q : ℕ) (ns : List ℕ)
      → Distinct (at_sequence q ns)
      → All (IsLive s) ns
      → IsBatch (removing (at_sequence q ns)) s × (seal (removing (at_sequence q ns)) s ≡ ok tt)
  removing-IsBatch q ns d live = (
    record { added_once = tt; deleted_once = d; updated_once = tt; addable = tt; roomy = tt },
    (seal_iff (removing (at_sequence q ns)) s).1 (tt, All-IsLiveIn q ns live),
  )

  after_batch-removing :
      (ds : List (ℕ × ℕ)) (k : ℕ) (old : Option BlobFileMeta)
      → grow (find k (removing ds).updated_discardable_size) (after_batch (removing ds) old k)
        ≡ (if has k ds then obsolete_too old else old)
  unfolding find
  after_batch-removing ds k none = ground arith
  after_batch-removing ds k (some x) = ground arith

-- Where the edit leaves the storage of its column family.
pub record RemovedIn {R : Type 0} (cf : ℕ) (s : BlobStorage R) (ds : List (ℕ × ℕ)) (fs : FileSet R)
    (t : FileSet R) : Type 0 where
  pub storage : BlobStorage R
  pub there : find cf t.column_families ≡ some storage
  pub well_formed : IsWellFormed storage
  pub effect :
      (k : ℕ)
      → find_file k storage ≡ (if has k ds then obsolete_too (find_file k s) else find_file k s)
  pub others : (j : ℕ) → cf ≢ j → find j t.column_families ≡ find j fs.column_families

module _ (c : Coding) (cmp : Comparator) {R : Type 0} (ratios : Ratios R) where
  pub log_and_apply-removes :
      (io : LogIo) (cf q : ℕ) (ns : List ℕ) (log : List Bytes) (fs : FileSet R) (s : BlobStorage R)
      → io.add_record ≡ none
      → io.sync ≡ none
      → fs.manifest ≡ some log
      → find cf fs.column_families ≡ some s
      → IsWellFormed s
      → Distinct (at_sequence q ns)
      → All (IsLive s) ns
      → (t : FileSet R) × (log_and_apply c cmp ratios io (removing_edit cf (at_sequence q ns)) fs
          ≡ ok (none, t))
        × RemovedIn cf s (at_sequence q ns) fs t
  log_and_apply-removes io cf q ns log fs s added synced manifest there v d live =
      let ds = at_sequence q ns in
      let (batch, accepted) = removing-IsBatch s q ns d live in
      let (t, s', done, longer, now, v', effect, others) =
        log_and_apply-commits c cmp ratios io (removing_edit cf ds) (removing ds) log fs s added
          synced manifest there (collect-removing cf fs.next_file_number ds d) v batch accepted in
      (
        t,
        done,
        record {
          storage = s';
          there = now;
          well_formed = v';
          effect = λ k. effect k ∙ after_batch-removing s ds k (find_file k s);
          others = others;
        },
      )
