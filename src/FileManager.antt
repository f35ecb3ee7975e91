-- ===== src/FileManager.antt =====
-- TitanDBImpl::FileManager of src/db_impl.cc: new blob files, and their way into the file set. The
-- other members of the database that it touches are the pending outputs and the background error.

pub mod Adds
use diffkv.Prelude.{
  ℕ, ◌==◌, Bool, true, false, if◌then◌else◌, Option, none, some, List, [], ◌∷◌, Outcome, ok, err,
  ◌>>=◌, Status,
}
use diffkv.Coding.{Coding}
use diffkv.Options.{Ratios, Comparator}
use diffkv.Format.FileMeta.{BlobFileMeta}
use diffkv.Edit.{VersionEdit, new_edit, set_column_family_id, add_blob_file}
use diffkv.FileSet.{FileSet, LogIo, new_file_number, log_and_apply, first_error, member, without}

-- `pending_outputs` is a set, kept without repetitions.
pub record FileManager (R : Type 0) : Type 0 where
  pub file_set : FileSet R
  pub pending_outputs : List ℕ
  pub bg_error : Option Status

-- SetBGError; `heard` is what the listeners make of the status, which they may change.
unfoldable pub set_bg_error :
    {R : Type 0} → (Status → Option Status) → Option Status → FileManager R → FileManager R
set_bg_error heard none m = m
set_bg_error heard (some s) m = elim (heard s) [
  | none ↦ m
  | some x ↦ record m { bg_error = some x }
]

abbrev pub insert : ℕ → List ℕ → List ℕ
insert n ns = if member n ns then ns else n ∷ ns

abbrev pub without_all : List ℕ → List ℕ → List ℕ
without_all [] ns = ns
without_all (k ∷ ks) ns = without_all ks (without k ns)

-- NewFile, with the answer of NewWritableFile. The number is used up also if it fails.
unfoldable pub new_file : {R : Type 0} → Option Status → FileManager R → Outcome ℕ × FileManager R
unfolding new_file_number
new_file io m =
    let (number, fs) = new_file_number m.file_set in
    elim io [
      | some x ↦ (err x, record m { file_set = fs })
      | none ↦
          (ok number, record m { file_set = fs; pending_outputs = insert number m.pending_outputs })
    ]

-- What Sync and Close of a file answer.
pub record CloseIo : Type 0 where
  pub sync : Option Status
  pub close : Option Status

-- The loop of BatchFinishFiles. A file is its meta and the number of its handle.
unfoldable pub close_files :
    (ℕ → CloseIo) → List (BlobFileMeta × ℕ) → VersionEdit → Option Status × VersionEdit
close_files io [] e = (none, e)
close_files io ((meta, number) ∷ files) e =
    let rest = close_files io files (add_blob_file meta e) in
    elim (first_error (io number).sync (io number).close) [ some x ↦ (some x, e) | none ↦ rest ]

abbrev pub handles_of : List (BlobFileMeta × ℕ) → List ℕ
handles_of [] = []
handles_of ((meta, number) ∷ files) = number ∷ handles_of files

-- The end of BatchFinishFiles, with LogAndApply's status and the file set that it leaves.
abbrev pub finished :
    {R : Type 0}
    → (Status → Option Status)
    → List (BlobFileMeta × ℕ)
    → FileManager R
    → Option Status × FileSet R
    → Option Status × FileManager R
finished heard files m (s, fs) = (
  s,
  record (set_bg_error heard s (record m { file_set = fs })) {
    pending_outputs = without_all (handles_of files) m.pending_outputs;
  },
)

module _ (c : Coding) (cmp : Comparator) {R : Type 0} (ratios : Ratios R) where
  -- BatchFinishFiles: its status. A file that cannot be closed ends it at once.
  unfoldable pub batch_finish_files :
      (Status → Option Status)
      → (ℕ → CloseIo)
      → LogIo
      → ℕ
      → List (BlobFileMeta × ℕ)
      → FileManager R
      → Outcome (Option Status × FileManager R)
  unfolding close_files set_bg_error
  batch_finish_files heard io log cf files m =
      let (s, e) = close_files io files (set_column_family_id cf new_edit) in
      elim s [
        | some x ↦ ok (some x, m)
        | none ↦ log_and_apply c cmp ratios log e m.file_set >>= λ r. ok (finished heard files m r)
      ]

-- The status that the loop of BatchDeleteFiles ends with: the last deletion's.
unfoldable pub delete_each : (ℕ → Option Status) → Option Status → List ℕ → Option Status
delete_each io s [] = s
delete_each io s (n ∷ ns) = delete_each io (io n) ns

-- BatchDeleteFiles, with what DeleteFile answers for each number.
unfoldable pub batch_delete_files :
    {R : Type 0} → (ℕ → Option Status) → List ℕ → FileManager R → Option Status × FileManager R
unfolding delete_each
batch_delete_files io numbers m = (
  delete_each io none numbers,
  record m { pending_outputs = without_all numbers m.pending_outputs },
)
