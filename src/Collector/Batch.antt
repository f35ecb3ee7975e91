-- ===== src/Collector/Batch.antt =====
-- EditCollector: AddEdit, Seal, Apply and GetNextFileNumber.
use diffkv.Prelude.{
  ℕ, Bool, true, false, if◌then◌else◌, ltb, Option, none, some, List, [], ◌∷◌, Outcome, ok, err,
  fault, ◌>>=◌, ◌>>◌, require, Status,
}
use diffkv.Prelude.Assoc.{find, assign, modify}
use diffkv.Options.{Ratios, Comparator}
use diffkv.Format.FileMeta.{BlobFileMeta}
use diffkv.Edit.{VersionEdit}
use diffkv.Storage.{BlobStorage}
use diffkv.Collector.Family.{CfEdits, no_edits, add_file, delete_file, update_file, seal, apply}

-- `status` is none for OK.
pub record EditCollector : Type 0 where
  pub status : Option Status
  pub sealed : Bool
  pub has_next_file_number : Bool
  pub next_file_number : ℕ
  pub column_families : List (ℕ × CfEdits)

abbrev pub new_collector : EditCollector
new_collector = record {
  status = none;
  sealed = false;
  has_next_file_number = false;
  next_file_number = 0;
  column_families = [];
}

-- The edits so far with the outcome of the last call, where a loop stops at the first error.
abbrev pub step :
    CfEdits → Outcome CfEdits → (CfEdits → Option Status × CfEdits) → Option Status × CfEdits
step c (ok c') next = next c'
step c (err s) next = (some s, c)
step c fault next = (none, c)

unfoldable pub add_files : List BlobFileMeta → CfEdits → Option Status × CfEdits
add_files [] c = (none, c)
add_files (m ∷ ms) c = step c (add_file m c) (λ c'. add_files ms c')

unfoldable pub delete_files : List (ℕ × ℕ) → CfEdits → Option Status × CfEdits
delete_files [] c = (none, c)
delete_files ((number, sequence) ∷ ds) c =
    step c (delete_file number sequence c) (λ c'. delete_files ds c')

unfoldable pub update_files : List (ℕ × ℕ) → CfEdits → CfEdits
update_files [] c = c
update_files ((number, size) ∷ us) c = update_files us (update_file number size c)

abbrev pub or_none : Option CfEdits → CfEdits
or_none none = no_edits
or_none (some c) = c

-- The part of AddEdit that concerns the files.
unfoldable pub collect : VersionEdit → CfEdits → Option Status × CfEdits
unfolding add_files delete_files update_files
collect e c =
    let (s1, c1) = add_files e.added_files c in
    elim s1 [
      | some s ↦ (some s, c1)
      | none ↦
          let (s2, c2) = delete_files e.deleted_files c1 in
          elim s2 [
            | some s ↦ (some s, c2)
            | none ↦ (none, update_files e.updated_discardable_size c2)
          ]
    ]

-- The part that concerns the next file number, which must not fall.
unfoldable pub take_number : VersionEdit → EditCollector → Option Status × EditCollector
take_number e k =
    if e.has_next_file_number
    then (if ltb e.next_file_number k.next_file_number
        then (some Status.corruption, record k { status = some Status.corruption })
        else (
          none,
          record k { next_file_number = e.next_file_number; has_next_file_number = true },
        ))
    else (none, k)

-- AddEdit: the status that it returns, and the collector. Each AddFile and DeleteFile overwrites
-- `status`.
unfoldable pub add_edit : VersionEdit → EditCollector → Option Status × EditCollector
unfolding collect take_number
add_edit e k =
    if k.sealed
    then (some Status.incomplete, k)
    else (let (s, c) = collect e (or_none (find e.column_family_id k.column_families)) in
        let k1 = record k { column_families = assign e.column_family_id c k.column_families } in
        elim s [ some x ↦ (some x, record k1 { status = some x }) | none ↦ take_number e k1 ])

module _ {R : Type 0} where
  -- The loop of Seal: a column family without a storage is passed over.
  unfoldable pub seal_families : List (ℕ × BlobStorage R) → List (ℕ × CfEdits) → Outcome (Unit {0})
  unfolding seal
  seal_families storages [] = ok tt
  seal_families storages ((cf, c) ∷ cs) = elim (find cf storages) [
    | none ↦ seal_families storages cs
    | some s ↦ seal c s >> seal_families storages cs
  ]

  -- Seal: an error is kept in `status`.
  unfoldable pub seal_batch :
      List (ℕ × BlobStorage R) → EditCollector → Outcome (Option Status × EditCollector)
  unfolding seal_families
  seal_batch storages k = elim k.status [
    | some s ↦ ok (some s, k)
    | none ↦ elim (seal_families storages k.column_families) [
      | ok _ ↦ ok (none, record k { sealed = true })
      | err s ↦ ok (some s, record k { status = some s })
      | fault ↦ fault
    ]
  ]

  -- The loop of Apply, which writes through the pointers to the storages.
  unfoldable pub apply_families :
      Comparator
      → Ratios R
      → List (ℕ × CfEdits)
      → List (ℕ × BlobStorage R)
      → Outcome (List (ℕ × BlobStorage R))
  unfolding apply
  apply_families cmp ratios [] storages = ok storages
  apply_families cmp ratios ((cf, c) ∷ cs) storages = elim (find cf storages) [
    | none ↦ apply_families cmp ratios cs storages
    | some s ↦
        apply cmp ratios c s >>= λ s'. apply_families cmp ratios cs (modify cf (λ _. s') storages)
  ]

  -- Apply. What it has written when it fails is not kept.
  unfoldable pub apply_batch :
      Comparator
      → Ratios R
      → EditCollector
      → List (ℕ × BlobStorage R)
      → Outcome (List (ℕ × BlobStorage R))
  unfolding apply_families
  apply_batch cmp ratios k storages = elim k.status [
    | some s ↦ err s
    | none ↦
        require k.sealed Status.incomplete >> apply_families cmp ratios k.column_families storages
  ]

-- GetNextFileNumber
unfoldable pub get_next_file_number : EditCollector → Outcome ℕ
get_next_file_number k = elim k.status [
  | some s ↦ err s
  | none ↦ if k.has_next_file_number then ok k.next_file_number else err Status.corruption
]
