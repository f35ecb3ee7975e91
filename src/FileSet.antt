-- ===== src/FileSet.antt =====
-- BlobFileSet of src/blob_file_set.h and src/blob_file_set.cc: the storages of all column families,
-- and the manifest that they can be recovered from. Its callers hold the database's mutex.
pub mod Recover
pub mod Commit
pub mod Purge
pub mod Snapshot
use diffkv.Prelude.{
  ℕ, ◌+◌, ◌≡◌, ◌==◌, Bool, true, false, not, ◌||◌, if◌then◌else◌, Option, none, some, List, [], ◌∷◌,
  ◌++◌, Bytes, Outcome, ok, err, fault, ◌>>=◌, ◌>>◌, Status, is_empty, keep,
}
use diffkv.Prelude.Assoc.{find, emplace, modify, erase, has}
use diffkv.Coding.{Coding}
use diffkv.Options.{Ratios, Comparator, DbOptions, CfOptions}
use diffkv.Format.FileMeta.{BlobFileMeta, is_obsolete}
use diffkv.Edit.{
  VersionEdit, new_edit, set_next_file_number, set_column_family_id, add_blob_file,
  delete_blob_file, encode_edit,
}
use diffkv.Storage.{BlobStorage, new_storage, mark_destroyed, maybe_remove, get_obsolete_files}
use diffkv.Storage.Ranges.{Range, get_blob_files_in_ranges}
use diffkv.Collector.Batch.{EditCollector, new_collector, add_edit, seal_batch, apply_batch}

-- `manifest` holds the records of the manifest that is open; a null pointer is `none`. A manifest
-- that failed is known by its number.
pub record FileSet (R : Type 0) : Type 0 where
  pub db_options : DbOptions
  pub column_families : List (ℕ × BlobStorage R)
  pub obsolete_columns : List ℕ
  pub manifest : Option (List Bytes)
  pub obsolete_manifests : List ℕ
  pub next_file_number : ℕ

-- What the file system answers to a write of the manifest and to its sync; `none` is OK.
pub record LogIo : Type 0 where
  pub add_record : Option Status
  pub sync : Option Status

-- What it answers while a new manifest is made.
pub record ManifestIo : Type 0 where
  pub new_file : Option Status
  pub snapshot : Option Status
  pub sync : Option Status
  pub set_current : Option Status

abbrev pub first_error : Option Status → Option Status → Option Status
first_error none s = s
first_error (some x) s = some x

abbrev pub member : ℕ → List ℕ → Bool
member n [] = false
member n (k ∷ ks) = (k == n) || member n ks

-- `std::unordered_set::erase`, of a list without repetitions.
abbrev pub without : ℕ → List ℕ → List ℕ
without n [] = []
without n (k ∷ ks) = if k == n then ks else k ∷ without n ks

module _ {R : Type 0} where
  abbrev pub new_file_set : DbOptions → FileSet R
  new_file_set db = record {
    db_options = db;
    column_families = [];
    obsolete_columns = [];
    manifest = none;
    obsolete_manifests = [];
    next_file_number = 1;
  }

  -- NewFileNumber
  unfoldable pub new_file_number : FileSet R → ℕ × FileSet R
  new_file_number fs =
      (fs.next_file_number, record fs { next_file_number = fs.next_file_number + 1 })

  -- AddColumnFamilies
  unfoldable pub add_column_families : List (ℕ × CfOptions R) → FileSet R → FileSet R
  add_column_families [] fs = fs
  add_column_families ((cf, options) ∷ cs) fs = add_column_families cs (record fs {
    column_families = emplace cf (new_storage fs.db_options options) fs.column_families;
  })

-- The edit of a column family in a snapshot.
unfoldable pub snapshot_files : List (ℕ × BlobFileMeta) → VersionEdit → VersionEdit
unfolding add_blob_file
snapshot_files [] e = e
snapshot_files ((number, m) ∷ fs) e =
    if is_obsolete m then snapshot_files fs e else snapshot_files fs (add_blob_file m e)

module _ (c : Coding) {R : Type 0} where
  unfoldable pub snapshot_families : List (ℕ × BlobStorage R) → List Bytes
  unfolding snapshot_files
  snapshot_families [] = []
  snapshot_families ((cf, s) ∷ cs) =
      encode_edit c (snapshot_files s.files (set_column_family_id cf new_edit))
      ∷ snapshot_families cs

  -- WriteSnapshot: the records that it adds.
  unfoldable pub write_snapshot : FileSet R → List Bytes
  unfolding snapshot_families
  write_snapshot fs =
      encode_edit c (set_next_file_number fs.next_file_number new_edit)
      ∷ snapshot_families fs.column_families

  -- OpenManifest; where the file cannot be made, the old manifest stays.
  unfoldable pub open_manifest : ManifestIo → ℕ → FileSet R → Option Status × FileSet R
  unfolding write_snapshot
  open_manifest io number fs = elim io.new_file [
    | some x ↦ (some x, fs)
    | none ↦ elim (first_error io.snapshot (first_error io.sync io.set_current)) [
      | none ↦ (none, record fs { manifest = some (write_snapshot fs) })
      | some x ↦ (
        some x,
        record fs { manifest = none; obsolete_manifests = fs.obsolete_manifests ++ (number ∷ []) },
      )
    ]
  ]

-- The file set with one more record in its manifest.
abbrev pub appended : {R : Type 0} → Bytes → List Bytes → FileSet R → FileSet R
appended record_bytes log fs = record fs { manifest = some (log ++ (record_bytes ∷ [])) }

module _ (c : Coding) (cmp : Comparator) {R : Type 0} (ratios : Ratios R) where
  -- The end of LogAndApply, from the write of the record on.
  unfoldable pub log_then_apply :
      LogIo → Bytes → EditCollector → FileSet R → Outcome (Option Status × FileSet R)
  log_then_apply io bytes k fs = elim fs.manifest [
    | none ↦ fault
    | some log ↦ elim io.add_record [
      | some x ↦ ok (some x, fs)
      | none ↦ elim io.sync [
        | some x ↦ ok (some x, appended bytes log fs)
        | none ↦ apply_batch cmp ratios k fs.column_families >>= λ cs.
            ok (none, record (appended bytes log fs) { column_families = cs })
      ]
    ]
  ]

  abbrev pub sealed_apply :
      LogIo
      → Bytes
      → FileSet R
      → Option Status × EditCollector
      → Outcome (Option Status × FileSet R)
  sealed_apply io bytes fs (some x, k) = ok (some x, fs)
  sealed_apply io bytes fs (none, k) = log_then_apply io bytes k fs

  -- LogAndApply: its status, with the file set that it leaves. Where Apply fails, only the status.
  unfoldable pub log_and_apply :
      LogIo → VersionEdit → FileSet R → Outcome (Option Status × FileSet R)
  unfolding log_then_apply
  log_and_apply io edit fs =
      let e = set_next_file_number fs.next_file_number edit in
      let (s, k) = add_edit e new_collector in
      elim s [
        | some x ↦ ok (some x, fs)
        | none ↦ seal_batch fs.column_families k >>= λ r. sealed_apply io (encode_edit c e) fs r
      ]

  -- The loop of DropColumnFamilies that fills the edit.
  unfoldable pub drop_files : ℕ → List (ℕ × BlobFileMeta) → VersionEdit → VersionEdit
  drop_files sequence [] e = e
  drop_files sequence ((number, m) ∷ fs) e =
      if is_obsolete m
      then drop_files sequence fs e
      else drop_files sequence fs (delete_blob_file number sequence e)

  abbrev pub next_drop :
      (FileSet R → Outcome (Option Status × FileSet R))
      → ℕ
      → Option Status × FileSet R
      → Outcome (Option Status × FileSet R)
  next_drop rest cf (some x, fs) = ok (some x, fs)
  next_drop rest cf (none, fs) = rest (record fs {
    obsolete_columns =
        if member cf fs.obsolete_columns then fs.obsolete_columns else cf ∷ fs.obsolete_columns;
  })

  -- DropColumnFamilies; the answers of the file system come with the families.
  unfoldable pub drop_column_families :
      List (ℕ × LogIo) → ℕ → FileSet R → Outcome (Option Status × FileSet R)
  unfolding drop_files log_and_apply
  drop_column_families [] sequence fs = ok (none, fs)
  drop_column_families ((cf, io) ∷ cs) sequence fs = elim (find cf fs.column_families) [
    | none ↦ ok (some Status.not_found, fs)
    | some s ↦
        log_and_apply io (drop_files sequence s.files (set_column_family_id cf new_edit)) fs
        >>= next_drop (drop_column_families cs sequence) cf
  ]

  -- The loop of DeleteBlobFilesInRanges, which leaves the sequence of DeleteBlobFile at its default.
  unfoldable pub delete_files : List ℕ → VersionEdit → VersionEdit
  delete_files [] e = e
  delete_files (n ∷ ns) e = delete_files ns (delete_blob_file n 0 e)

  -- DeleteBlobFilesInRanges
  unfoldable pub delete_blob_files_in_ranges :
      LogIo → ℕ → List Range → Bool → ℕ → FileSet R → Outcome (Option Status × FileSet R)
  unfolding delete_files log_and_apply
  delete_blob_files_in_ranges io cf ranges include_end obsolete_sequence fs =
      elim (find cf fs.column_families) [
        | none ↦ ok (some Status.not_found, fs)
        | some s ↦ get_blob_files_in_ranges cmp include_end ranges s >>= λ numbers.
            log_and_apply io (delete_files numbers (set_column_family_id cf new_edit)) fs
      ]

module _ {R : Type 0} where
  -- MaybeDestroyColumnFamily
  unfoldable pub maybe_destroy_column_family : ℕ → FileSet R → Option Status × FileSet R
  maybe_destroy_column_family cf fs =
      let fs1 = record fs { obsolete_columns = without cf fs.obsolete_columns } in
      elim (find cf fs.column_families) [
        | none ↦ (some Status.not_found, fs1)
        | some s ↦ (
          none,
          record fs1 {
            column_families =
                if maybe_remove (mark_destroyed s)
                then erase cf fs.column_families
                else modify cf (λ _. mark_destroyed s) fs.column_families;
          },
        )
      ]

  -- IsColumnFamilyObsolete
  unfoldable pub is_column_family_obsolete : ℕ → FileSet R → Bool
  is_column_family_obsolete cf fs = member cf fs.obsolete_columns

  -- The loop of GetObsoleteFiles: the files to delete, and the families that stay.
  unfoldable pub purge_families :
      Comparator
      → ℕ
      → List ℕ
      → List (ℕ × BlobStorage R)
      → Outcome (List ℕ × List (ℕ × BlobStorage R))
  purge_families cmp oldest kept [] = ok ([], [])
  purge_families cmp oldest kept ((cf, s) ∷ cs) = elim (member cf kept) [
    | true ↦ purge_families cmp oldest kept cs >>= λ q. ok (q.0, (cf, s) ∷ q.1)
    | false ↦ get_obsolete_files cmp oldest s >>= λ r. purge_families cmp oldest kept cs >>= λ q.
        ok (r.0 ++ q.0, if maybe_remove r.1 then q.1 else (cf, r.1) ∷ q.1)
  ]

  -- GetObsoleteFiles: the blob files and the manifests to delete.
  unfoldable pub get_obsolete_files_of_set :
      Comparator → ℕ → FileSet R → Outcome (List ℕ × List ℕ × FileSet R)
  unfolding purge_families
  get_obsolete_files_of_set cmp oldest fs =
      purge_families cmp oldest fs.obsolete_columns fs.column_families >>= λ q.
      ok (q.0, fs.obsolete_manifests, record fs { column_families = q.1; obsolete_manifests = [] })
