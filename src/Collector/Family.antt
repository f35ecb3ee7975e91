-- ===== src/Collector/Family.antt =====
-- EditCollector::CFEditCollector: the edits of one column family.
use diffkv.Prelude.{
  ℕ, true, false, if◌then◌else◌, none, some, List, [], ◌∷◌, Outcome, ok, err, ◌>>=◌, ◌>>◌, require,
  Status,
}
use diffkv.Prelude.Assoc.{has, emplace, modify}
use diffkv.Options.{Ratios, Comparator}
use diffkv.Format.FileMeta.{BlobFileMeta, is_obsolete, add_discardable_size}
use diffkv.Storage.{BlobStorage, find_file, add_blob_file, mark_file_obsolete}
use diffkv.Storage.Score.{compute_gc_score}

pub record CfEdits : Type 0 where
  pub added_files : List (ℕ × BlobFileMeta)
  pub deleted_files : List (ℕ × ℕ)
  pub updated_discardable_size : List (ℕ × ℕ)

abbrev pub no_edits : CfEdits
no_edits = record { added_files = []; deleted_files = []; updated_discardable_size = [] }

unfoldable pub add_file : BlobFileMeta → CfEdits → Outcome CfEdits
add_file m c =
    if has m.file_number c.added_files
    then err Status.corruption
    else ok (record c { added_files = emplace m.file_number m c.added_files })

unfoldable pub delete_file : ℕ → ℕ → CfEdits → Outcome CfEdits
delete_file number sequence c =
    if has number c.deleted_files
    then err Status.corruption
    else ok (record c { deleted_files = emplace number sequence c.deleted_files })

-- UpdateFile: `emplace` keeps the size of an earlier update of the file.
unfoldable pub update_file : ℕ → ℕ → CfEdits → CfEdits
update_file number size c = record c {
  updated_discardable_size = emplace number size c.updated_discardable_size;
}

module _ {R : Type 0} where
  -- The first loop of Seal: no added file may be there, obsolete or not.
  unfoldable pub seal_added : List (ℕ × BlobFileMeta) → BlobStorage R → Outcome (Unit {0})
  unfolding find_file
  seal_added [] s = ok tt
  seal_added ((number, m) ∷ fs) s = elim (find_file number s) [
    | none ↦ seal_added fs s
    | some blob ↦ err Status.corruption
  ]

  -- Its second loop: a deleted file is added in the batch, or is there and not obsolete.
  unfoldable pub seal_deleted :
      List (ℕ × BlobFileMeta) → List (ℕ × ℕ) → BlobStorage R → Outcome (Unit {0})
  unfolding find_file
  seal_deleted added [] s = ok tt
  seal_deleted added ((number, sequence) ∷ ds) s = elim (has number added) [
    | true ↦ seal_deleted added ds s
    | false ↦ elim (find_file number s) [
      | none ↦ err Status.corruption
      | some blob ↦ elim (is_obsolete blob) [
        | true ↦ err Status.corruption
        | false ↦ seal_deleted added ds s
      ]
    ]
  ]

  unfoldable pub seal : CfEdits → BlobStorage R → Outcome (Unit {0})
  unfolding seal_added seal_deleted
  seal c s = seal_added c.added_files s >> seal_deleted c.added_files c.deleted_files s

  -- The loops of Apply. Files that are added and deleted in one batch are passed over.
  unfoldable pub apply_added :
      Comparator → List (ℕ × ℕ) → List (ℕ × BlobFileMeta) → BlobStorage R → Outcome (BlobStorage R)
  apply_added cmp deleted [] s = ok s
  apply_added cmp deleted ((number, m) ∷ fs) s = elim (has number deleted) [
    | true ↦ apply_added cmp deleted fs s
    | false ↦ add_blob_file cmp m s >>= λ s'. apply_added cmp deleted fs s'
  ]

  unfoldable pub apply_deleted :
      List (ℕ × BlobFileMeta) → List (ℕ × ℕ) → BlobStorage R → Outcome (BlobStorage R)
  apply_deleted added [] s = ok s
  apply_deleted added ((number, sequence) ∷ ds) s = elim (has number added) [
    | true ↦ apply_deleted added ds s
    | false ↦ mark_file_obsolete number sequence s >>= λ r.
        require (r.0) Status.not_found >> apply_deleted added ds r.1
  ]

  -- A write through the pointer that FindFile returns.
  unfoldable pub apply_updated : List (ℕ × ℕ) → BlobStorage R → Outcome (BlobStorage R)
  unfolding find_file
  apply_updated [] s = ok s
  apply_updated ((number, size) ∷ us) s = elim (find_file number s) [
    | none ↦ apply_updated us s
    | some m ↦ add_discardable_size size m >>= λ m'.
        apply_updated us (record s { files = modify number (λ _. m') s.files })
  ]

  unfoldable pub apply : Comparator → Ratios R → CfEdits → BlobStorage R → Outcome (BlobStorage R)
  unfolding apply_added apply_deleted apply_updated
  apply cmp ratios c s = do
    s1 ← apply_added cmp c.deleted_files c.added_files s
    s2 ← apply_deleted c.added_files c.deleted_files s1
    s3 ← apply_updated c.updated_discardable_size s2
    ok ((compute_gc_score ratios s3).1)
