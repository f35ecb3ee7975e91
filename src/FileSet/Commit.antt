-- ===== src/FileSet/Commit.antt =====
-- LogAndApply: nothing is applied that is not in the manifest, and a batch that Seal accepts is.
use diffkv.Prelude.{
  ℕ, ◌≡◌, ◌≢◌, refl, ◌⊎◌, inl, inr, Bool, true, false, Option, none, some, List, [], ◌∷◌, ◌++◌,
  Bytes, ok, >>=-eq-ok, ok-injective, Option-cases, Status, arith,
}
use diffkv.Prelude.Assoc.{find, assign, modify, find-modify_self, find-modify_ne}
use mathlib.Core.Path.{subst}
use diffkv.Coding.{Coding}
use diffkv.Options.{Ratios, Comparator}
use diffkv.Edit.{VersionEdit, set_next_file_number, encode_edit}
use diffkv.Storage.{BlobStorage, find_file}
use diffkv.Storage.Invariant.{IsWellFormed}
use diffkv.Collector.Family.{CfEdits, no_edits, seal, apply}
use diffkv.Collector.Batch.{
  EditCollector, new_collector, collect, take_number, add_edit, seal_families, seal_batch,
  apply_families, apply_batch,
}
use diffkv.Collector.Updated.{grow}
use diffkv.Collector.Commit.{IsBatch, after_batch, apply-seal}
use diffkv.FileSet.{FileSet, LogIo, log_then_apply, sealed_apply, log_and_apply, appended}

-- The record that LogAndApply writes for an edit.
abbrev pub logged : {R : Type 0} → Coding → VersionEdit → FileSet R → Bytes
logged c e fs = encode_edit c (set_next_file_number fs.next_file_number e)

-- What a status of LogAndApply says of the file set that it leaves: after OK the record is in the
-- manifest; after an error no storage has changed, and if the record is in the manifest then it was
-- the sync that failed.
abbrev pub Keeps : {R : Type 0} → Bytes → LogIo → FileSet R → Option Status → FileSet R → Type 0
Keeps bytes io fs none t =
    (log : List Bytes) × (fs.manifest ≡ some log) × (t.manifest ≡ some (log ++ (bytes ∷ [])))
Keeps bytes io fs (some x) t =
    (t.column_families ≡ fs.column_families)
    × ((t.manifest ≡ fs.manifest)
        ⊎ ((log : List Bytes) × (fs.manifest ≡ some log)
            × (t.manifest ≡ some (log ++ (bytes ∷ [])))
            × (io.sync ≡ some x)))

module _ (c : Coding) (cmp : Comparator) {R : Type 0} (ratios : Ratios R) where
  log_then_apply-Keeps :
      (io : LogIo) (bytes : Bytes) (k : EditCollector) (fs t : FileSet R) (s : Option Status)
      → log_then_apply c cmp ratios io bytes k fs ≡ ok (s, t)
      → Keeps bytes io fs s t
  unfolding log_then_apply
  log_then_apply-Keeps io bytes k fs t s e = elim (Option-cases fs.manifest) [
    | inl gone ↦ cc (rw (gone, log_then_apply) at e)
    | inr (log, there) ↦ elim (Option-cases io.add_record) [
      | inr (x, bad) ↦
          subst (λ p. Keeps bytes io fs p.0 p.1)
            (ok-injective (rw (there, log_then_apply, bad) at e)) (refl, inl refl)
      | inl added ↦ elim (Option-cases io.sync) [
        | inr (x, bad) ↦
            subst (λ p. Keeps bytes io fs p.0 p.1)
              (ok-injective (rw (there, log_then_apply, added, bad) at e))
              (refl, inr (log, there, refl, bad))
        | inl synced ↦
            let (cs, _, same) =
              >>=-eq-ok (apply_batch cmp ratios k fs.column_families) _
                (rw (there, log_then_apply, added, synced) at e) in
            subst (λ p. Keeps bytes io fs p.0 p.1) (ok-injective same) (log, there, refl)
      ]
    ]
  ]

  sealed_apply-Keeps :
      (io : LogIo) (bytes : Bytes) (r : Option Status × EditCollector) (fs t : FileSet R)
      (s : Option Status)
      → sealed_apply c cmp ratios io bytes fs r ≡ ok (s, t)
      → Keeps bytes io fs s t
  sealed_apply-Keeps io bytes (some x, k) fs t s e =
      subst (λ p. Keeps bytes io fs p.0 p.1) (ok-injective e) (refl, inl refl)
  sealed_apply-Keeps io bytes (none, k) fs t s e = log_then_apply-Keeps io bytes k fs t s e

  -- Whatever LogAndApply returns: after OK the record of the edit is in the manifest, behind the
  -- others; after an error no storage has changed, and the manifest has not either, unless it was its
  -- sync that failed.
  pub log_and_apply-Keeps :
      (io : LogIo) (edit : VersionEdit) (fs t : FileSet R) (s : Option Status)
      → log_and_apply c cmp ratios io edit fs ≡ ok (s, t)
      → Keeps (logged c edit fs) io fs s t
  unfolding log_and_apply
  log_and_apply-Keeps io edit fs t s e =
      let a = add_edit (set_next_file_number fs.next_file_number edit) new_collector in
      elim (Option-cases a.0) [
        | inr (x, bad) ↦
            subst (λ p. Keeps (logged c edit fs) io fs p.0 p.1)
              (ok-injective (rw (bad, log_and_apply) at e)) (refl, inl refl)
        | inl good ↦
            let (r, _, rest) =
              >>=-eq-ok (seal_batch fs.column_families a.1) _ (rw (good, log_and_apply) at e) in
            sealed_apply-Keeps io (logged c edit fs) r fs t s rest
      ]

  -- What AddEdit leaves of one edit.
  abbrev collected : VersionEdit → CfEdits → Bool → FileSet R → EditCollector
  collected edit batch sealed fs = record {
    status = none;
    sealed = sealed;
    has_next_file_number = true;
    next_file_number = fs.next_file_number;
    column_families = (edit.column_family_id, batch) ∷ [];
  }

  add_edit-collected :
      (edit : VersionEdit) (batch : CfEdits) (fs : FileSet R)
      → collect (set_next_file_number fs.next_file_number edit) no_edits ≡ (none, batch)
      → add_edit (set_next_file_number fs.next_file_number edit) new_collector
        ≡ (none, collected edit batch false fs)
  unfolding add_edit take_number set_next_file_number find assign
  add_edit-collected edit batch fs e = rw (e, add_edit) ground arith

  seal_families-single :
      (cf : ℕ) (batch : CfEdits) (storages : List (ℕ × BlobStorage R)) (s : BlobStorage R)
      → find cf storages ≡ some s
      → seal batch s ≡ ok tt
      → seal_families storages ((cf, batch) ∷ []) ≡ ok tt
  unfolding seal_families
  seal_families-single cf batch storages s there e = rw (there, seal_families, e)

  seal_batch-collected :
      (edit : VersionEdit) (batch : CfEdits) (fs : FileSet R) (s : BlobStorage R)
      → find edit.column_family_id fs.column_families ≡ some s
      → seal batch s ≡ ok tt
      → seal_batch fs.column_families (collected edit batch false fs)
        ≡ ok (none, collected edit batch true fs)
  unfolding seal_batch seal_families
  seal_batch-collected edit batch fs s there e =
      rw (seal_families-single edit.column_family_id batch fs.column_families s there e, seal_batch)

  apply_batch-collected :
      (edit : VersionEdit) (batch : CfEdits) (fs : FileSet R) (s s' : BlobStorage R)
      → find edit.column_family_id fs.column_families ≡ some s
      → apply cmp ratios batch s ≡ ok s'
      → apply_batch cmp ratios (collected edit batch true fs) fs.column_families
        ≡ ok (modify edit.column_family_id (λ _. s') fs.column_families)
  unfolding apply_batch apply_families
  apply_batch-collected edit batch fs s s' there e = rw (there, apply_families, e)

  pub log_and_apply-commits :
      (io : LogIo) (edit : VersionEdit) (batch : CfEdits) (log : List Bytes) (fs : FileSet R)
      (s : BlobStorage R)
      → io.add_record ≡ none
      → io.sync ≡ none
      → fs.manifest ≡ some log
      → find edit.column_family_id fs.column_families ≡ some s
      → collect (set_next_file_number fs.next_file_number edit) no_edits ≡ (none, batch)
      → IsWellFormed s
      → IsBatch batch s
      → seal batch s ≡ ok tt
      → (t : FileSet R) × (s' : BlobStorage R) × (log_and_apply c cmp ratios io edit fs
          ≡ ok (none, t))
        × (t.manifest ≡ some (log ++ (logged c edit fs ∷ [])))
        × (find edit.column_family_id t.column_families ≡ some s')
        × IsWellFormed s'
        × ((k : ℕ)
            → find_file k s'
              ≡ grow (find k batch.updated_discardable_size) (after_batch batch (find_file k s) k))
        × ((cf : ℕ)
            → edit.column_family_id ≢ cf
            → find cf t.column_families ≡ find cf fs.column_families)
  unfolding log_and_apply log_then_apply
  log_and_apply-commits io edit batch log fs s added synced manifest there collects v b accepted =
      let (s', done, v', effect) = apply-seal cmp ratios batch s v b accepted in
      let cf = edit.column_family_id in
      (
        record (appended (logged c edit fs) log fs) {
          column_families = modify cf (λ _. s') fs.column_families;
        },
        s',
        rw (
          add_edit-collected edit batch fs collects,
          log_and_apply,
          add_edit-collected edit batch fs collects,
          seal_batch-collected edit batch fs s there accepted,
          log_then_apply,
          manifest,
          added,
          synced,
          apply_batch-collected edit batch fs s s' there done,
        ),
        refl,
        find-modify_self cf (λ _. s') fs.column_families s there,
        v',
        effect,
        λ k ne. find-modify_ne cf k (λ _. s') fs.column_families ne,
      )
