-- ===== src/FileSet/Snapshot.antt =====
-- The edits that WriteSnapshot makes: the live files of a storage, as a batch of additions.
pub mod RoundTrip
use diffkv.Prelude.{
  ℕ, ◌≡◌, refl, sym, ap, ◌∙◌, ◌==◌, Bool, true, false, if◌then◌else◌, none, some, List, [], ◌∷◌,
  ◌++◌, map, Bytes, All, ok, IsU32, IsU64, Bool-cases, ==_iff, inl, inr, arith,
}
use mathlib.Core.List.{append_assoc, append-nil}
use diffkv.Prelude.Assoc.{
  find, has, emplace_new, assign, find-assign, Distinct, Fresh, Fresh-nil, Fresh-next,
}
use diffkv.Coding.{Coding, IsCoding}
use diffkv.Format.Bounds.{decode_into, decode_into_whole}
use diffkv.Format.FileMeta.{BlobFileMeta, Uninit, make_default, is_obsolete}
use diffkv.Format.FileMeta.RoundTrip.{IsMeta, persist}
use diffkv.Edit.{
  VersionEdit, new_edit, set_next_file_number, set_column_family_id, add_blob_file, encode_edit,
  decode_edit,
}
use diffkv.Edit.RoundTrip.{persistent, decode_edit-encode_edit}
use diffkv.Storage.{BlobStorage}
use diffkv.Storage.Invariant.{IsKeyed, IsWellFormed}
use diffkv.Collector.Family.{CfEdits, no_edits, add_file}
use diffkv.Collector.Batch.{
  EditCollector, new_collector, add_files, delete_files, update_files, collect, or_none,
  take_number, add_edit, get_next_file_number,
}
use diffkv.FileSet.{FileSet, snapshot_files, snapshot_families, write_snapshot}
use diffkv.FileSet.Recover.{read_edits}

-- The files that are not obsolete.
abbrev pub live_files : List (ℕ × BlobFileMeta) → List BlobFileMeta
live_files [] = []
live_files ((k, m) ∷ fs) = if is_obsolete m then live_files fs else m ∷ live_files fs

abbrev pub by_file_number : List BlobFileMeta → List (ℕ × BlobFileMeta)
by_file_number [] = []
by_file_number (m ∷ ms) = (m.file_number, m) ∷ by_file_number ms

pub with_added : List BlobFileMeta → VersionEdit → VersionEdit
with_added ms e = record e { added_files = e.added_files ++ ms }

pub snapshot_files-with_added :
    (fs : List (ℕ × BlobFileMeta)) (e : VersionEdit)
    → snapshot_files fs e ≡ with_added (live_files fs) e
unfolding snapshot_files add_blob_file with_added
snapshot_files-with_added [] e =
    ap (λ x. record e { added_files = x }) (sym (append-nil e.added_files))
snapshot_files-with_added ((k, m) ∷ fs) e = elim (Bool-cases (is_obsolete m)) [
  | inl dead ↦ rw (dead) (snapshot_files-with_added fs e)
  | inr live ↦ rw (live) (
      snapshot_files-with_added fs (add_blob_file m e)
      ∙ ap (λ x. record e { added_files = x })
          (append_assoc e.added_files (m ∷ []) (live_files fs)))
]

-- A batch that adds files, each under its own number.
abbrev pub adding : List BlobFileMeta → CfEdits
adding ms = record no_edits { added_files = by_file_number ms }

pub add_files-adding :
    (ms : List BlobFileMeta) (c : CfEdits)
    → Fresh c.added_files (by_file_number ms)
    → Distinct (by_file_number ms)
    → add_files ms c ≡ (none, record c { added_files = c.added_files ++ by_file_number ms })
unfolding add_files add_file
add_files-adding [] c f d =
    ap (λ x. (none, record c { added_files = x })) (sym (append-nil c.added_files))
add_files-adding (m ∷ ms) c (gone, f) (new, d) =
    let n = m.file_number in
    let c' = record c { added_files = c.added_files ++ ((n, m) ∷ []) } in
    rw (gone, add_files, emplace_new n m c.added_files (ground arith))
      (add_files-adding ms c' (Fresh-next n m c.added_files (by_file_number ms) new f) d
        ∙ ap (λ x. (none, record c { added_files = x }))
            (append_assoc c.added_files ((n, m) ∷ []) (by_file_number ms)))

has-live_files :
    (k : ℕ) (fs : List (ℕ × BlobFileMeta))
    → All IsKeyed fs
    → has k fs ≡ false
    → has k (by_file_number (live_files fs)) ≡ false
unfolding find
has-live_files k [] keyed h = refl
has-live_files k ((n, m) ∷ fs) (key, keyed) h = elim (Bool-cases (is_obsolete m)) [
  | inl dead ↦ rw (dead) (has-live_files k fs keyed (ground arith))
  | inr live ↦ rw (live) (ground (arith, has-live_files k fs keyed (ground arith)))
]

pub live_files-Distinct :
    (fs : List (ℕ × BlobFileMeta))
    → All IsKeyed fs
    → Distinct fs
    → Distinct (by_file_number (live_files fs))
live_files-Distinct [] keyed d = tt
live_files-Distinct ((n, m) ∷ fs) (key, keyed) (new, d) = elim (Bool-cases (is_obsolete m)) [
  | inl dead ↦ rw (dead) (live_files-Distinct fs keyed d)
  | inr live ↦ rw (live) (
    ap (λ k. has k (by_file_number (live_files fs))) key ∙ has-live_files n fs keyed new,
    live_files-Distinct fs keyed d,
  )
]
