-- ===== src/FileSet/Recover.antt =====
-- BlobFileSet::Open and BlobFileSet::Recover of src/blob_file_set.cc.
use diffkv.Prelude.{
  ℕ, Bool, true, false, if◌then◌else◌, Option, none, some, List, [], ◌∷◌, ◌++◌, Bytes, Outcome, ok,
  err, ◌>>=◌, Status,
}
use diffkv.Coding.{Coding}
use diffkv.Options.{Ratios, Comparator, CfOptions}
use diffkv.Format.Bounds.{decode_into}
use diffkv.Format.FileMeta.{Uninit, BlobFileMeta}
use diffkv.Edit.{new_edit, decode_edit}
use diffkv.Storage.{BlobStorage, get_obsolete_files}
use diffkv.Storage.Score.{mark_all_files_for_gc, compute_gc_score}
use diffkv.Collector.Batch.{
  EditCollector, new_collector, add_edit, seal_batch, apply_batch, get_next_file_number,
}
use diffkv.FileSet.{
  FileSet, ManifestIo, add_column_families, new_file_number, open_manifest, member,
}

-- A status and a state, as a call that fails.
abbrev pub checked {ℓ} : {A : Type ℓ} → Option Status × A → Outcome A
checked (none, a) = ok a
checked (some x, a) = err x

module _ (c : Coding) (u : Uninit) where
  -- The loop over the manifest's records. A record comes with whether the reader reported a
  -- corruption before it, which ends the loop; the status that it set is then overwritten.
  unfoldable pub read_edits : List (Bytes × Bool) → EditCollector → Outcome EditCollector
  read_edits [] k = ok k
  read_edits ((bytes, corrupted) ∷ rs) k = elim corrupted [
    | true ↦ ok k
    | false ↦ decode_into (decode_edit c u new_edit) bytes >>= λ e.
        checked (add_edit e k) >>= λ k'. read_edits rs k'
  ]

-- kMaxSequenceNumber
abbrev pub max_sequence_number : ℕ
max_sequence_number = 0xffffffffffffff

-- What a name of the directory stands for.
pub data FileKind : Type 0 where
  blob_file descriptor_file other_file : FileKind

unfoldable pub numbers_of : List (ℕ × BlobFileMeta) → List ℕ
numbers_of [] = []
numbers_of ((k, m) ∷ fs) = m.file_number ∷ numbers_of fs

module _ {R : Type 0} where
  -- MarkAllFilesForGC, and the scores of each storage.
  unfoldable pub mark_families :
      Ratios R → List (ℕ × BlobStorage R) → Outcome (List (ℕ × BlobStorage R))
  mark_families ratios [] = ok []
  mark_families ratios ((cf, s) ∷ cs) = do
    s' ← mark_all_files_for_gc ratios s
    cs' ← mark_families ratios cs
    ok ((cf, (compute_gc_score ratios s').1) ∷ cs')

  -- The loop that drops what is obsolete, with the files that stay.
  unfoldable pub alive_files :
      Comparator → List (ℕ × BlobStorage R) → Outcome (List ℕ × List (ℕ × BlobStorage R))
  unfolding numbers_of
  alive_files cmp [] = ok ([], [])
  alive_files cmp ((cf, s) ∷ cs) = do
    (removed, s') ← get_obsolete_files cmp max_sequence_number s
    (alive, cs') ← alive_files cmp cs
    ok (numbers_of s'.files ++ alive, (cf, s') ∷ cs')

abbrev pub is_other : FileKind → Bool
is_other FileKind.other_file = true
is_other k = false

-- The names that the last loop deletes: blob files and manifests that are not alive.
unfoldable pub dead_names : List ℕ → List (ℕ × FileKind) → List (ℕ × FileKind)
dead_names alive [] = []
dead_names alive ((number, kind) ∷ ns) =
    if member number alive
    then dead_names alive ns
    else if is_other kind
    then dead_names alive ns
    else (number, kind) ∷ dead_names alive ns

-- The end of Recover: a new manifest, and then the deletion of what is not alive.
unfoldable pub start_manifest :
    Coding
    → Comparator
    → {R : Type 0} → ManifestIo
    → List (ℕ × FileKind)
    → FileSet R
    → Outcome (FileSet R × List (ℕ × FileKind))
unfolding alive_files dead_names
start_manifest c cmp io names fs = do
  let (number, fs2) = new_file_number fs
  fs3 ← checked (open_manifest c io number fs2)
  (alive, kept) ← alive_files cmp fs3.column_families
  ok (record fs3 { column_families = kept }, dead_names (number ∷ alive) names)

module _ (c : Coding) (u : Uninit) (cmp : Comparator) {R : Type 0} (ratios : Ratios R) where
  -- Recover, over the records of the current manifest and the names of the directory: the file set,
  -- and the files that it deletes.
  unfoldable pub recover :
      ManifestIo
      → List (Bytes × Bool)
      → List (ℕ × FileKind)
      → FileSet R
      → Outcome (FileSet R × List (ℕ × FileKind))
  unfolding read_edits mark_families start_manifest
  recover io records names fs = do
    k ← read_edits c u records new_collector
    r ← seal_batch fs.column_families k
    k' ← checked r
    cs ← apply_batch cmp ratios k' fs.column_families
    next ← get_next_file_number k'
    marked ← mark_families ratios cs
    start_manifest c cmp io names (record fs { column_families = marked; next_file_number = next })

  -- Open; `current` is whether there is a CURRENT file, and a status that is neither.
  unfoldable pub open_set :
      Outcome Bool
      → ManifestIo
      → List (Bytes × Bool)
      → List (ℕ × FileKind)
      → List (ℕ × CfOptions R)
      → FileSet R
      → Outcome (FileSet R × List (ℕ × FileKind))
  unfolding recover
  open_set current io records names families fs0 =
      let fs = add_column_families families fs0 in
      current >>= λ exists. elim exists [
        | true ↦ recover io records names fs
        | false ↦
            let (number, fs1) = new_file_number fs in
            checked (open_manifest c io number fs1) >>= λ fs2. ok (fs2, [])
      ]
