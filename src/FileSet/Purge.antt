-- ===== src/FileSet/Purge.antt =====
-- What BlobFileSet deletes: GetObsoleteFiles while the database is open, and the end of Recover.
use diffkv.Prelude.{
  ℕ, ◌+◌, ◌≡◌, refl, sym, ap, ◌∙◌, Bool, true, false, ◌==◌, if◌then◌else◌, some, List, [], ◌∷◌,
  ◌++◌, Bytes, All, ok, >>=-eq-ok, ok-injective, Bool-cases, Option-cases, ==_iff, inl, inr,
}
use mathlib.Core.Path.{subst}
use diffkv.Prelude.Assoc.{find}
use diffkv.Coding.{Coding}
use diffkv.Options.{Ratios, Comparator}
use diffkv.Format.FileMeta.{Uninit}
use diffkv.Storage.{BlobStorage, get_obsolete_files, maybe_remove}
use diffkv.Storage.Invariant.{IsWellFormed}
use diffkv.Storage.Invariant.Purge.{get_obsolete_files-IsWellFormed}
use diffkv.Collector.Batch.{new_collector, seal_batch, apply_batch, get_next_file_number}
use diffkv.FileSet.{
  FileSet, ManifestIo, member, purge_families, get_obsolete_files_of_set, new_file_number,
  open_manifest, first_error,
}
use diffkv.FileSet.Recover.{
  FileKind, is_other, numbers_of, alive_files, dead_names, read_edits, checked, mark_families,
  start_manifest, recover,
}

All-if {ℓ κ} :
    {A : Type ℓ} (P : A → Type κ) (b : Bool) (xs ys : List A)
    → All P xs
    → All P ys
    → All P (if b then xs else ys)
All-if P true xs ys p q = p
All-if P false xs ys p q = q

apart : (ks : List ℕ) (j k : ℕ) → member j ks ≡ false → member k ks ≡ true → (j == k) ≡ false
apart ks j k out inside = elim (Bool-cases (j == k)) [
  | inl same ↦ cc (ap (λ i. member i ks) ((==_iff j k).0 same), out, inside)
  | inr other ↦ other
]

-- An entry of another key does not matter, whether it stays or not.
find-skip :
    {V : Type 0} (j k : ℕ) (old new : V) (b : Bool) (xs cs : List (ℕ × V))
    → (j == k) ≡ false
    → find k (if b then xs else (j, new) ∷ xs) ≡ (if j == k then some old else find k xs)
unfolding find
find-skip j k old new true xs cs h = rw (h)
find-skip j k old new false xs cs h = rw (h)

module _ (cmp : Comparator) {R : Type 0} where
  -- What the loop comes to.
  abbrev Purged : ℕ → List ℕ → List (ℕ × BlobStorage R) → List ℕ × List (ℕ × BlobStorage R) → Type 0
  Purged oldest kept cs q =
      (purge_families cmp oldest kept cs ≡ ok q)
      × All (λ e. IsWellFormed e.1) (q.1)
      × ((cf : ℕ) → member cf kept ≡ true → find cf (q.1) ≡ find cf cs)

  purge-kept :
      (oldest : ℕ) (kept : List ℕ) (cf : ℕ) (s : BlobStorage R) (cs : List (ℕ × BlobStorage R))
      (q : List ℕ × List (ℕ × BlobStorage R))
      → member cf kept ≡ true
      → purge_families cmp oldest kept cs ≡ ok q
      → purge_families cmp oldest kept ((cf, s) ∷ cs) ≡ ok (q.0, (cf, s) ∷ q.1)
  unfolding purge_families
  purge-kept oldest kept cf s cs q h e = rw (h, purge_families, e)

  purge-open :
      (oldest : ℕ) (kept : List ℕ) (cf : ℕ) (s : BlobStorage R) (cs : List (ℕ × BlobStorage R))
      (q : List ℕ × List (ℕ × BlobStorage R)) (r : List ℕ × BlobStorage R)
      → member cf kept ≡ false
      → get_obsolete_files cmp oldest s ≡ ok r
      → purge_families cmp oldest kept cs ≡ ok q
      → purge_families cmp oldest kept ((cf, s) ∷ cs)
        ≡ ok (r.0 ++ q.0, if maybe_remove r.1 then q.1 else (cf, r.1) ∷ q.1)
  unfolding purge_families
  purge-open oldest kept cf s cs q r h f e = rw (h, purge_families, f, e)

  purge_families-Purged :
      (oldest : ℕ) (kept : List ℕ) (cs : List (ℕ × BlobStorage R))
      → All (λ e. IsWellFormed e.1) cs
      → (q : List ℕ × List (ℕ × BlobStorage R)) × Purged oldest kept cs q
  unfolding purge_families find
  purge_families-Purged oldest kept [] v = (([], []), (refl, tt, λ cf h. refl))
  purge_families-Purged oldest kept ((cf, s) ∷ cs) (v, vs) =
      let (q, (e, w, f)) = purge_families-Purged oldest kept cs vs in
      elim (Bool-cases (member cf kept)) [
        | inl dropped ↦ (
          (q.0, (cf, s) ∷ q.1),
          (
            purge-kept oldest kept cf s cs q dropped e,
            (v, w),
            λ k h. ap (λ x. if cf == k then some s else x) (f k h),
          ),
        )
        | inr live ↦
            let (r, done, w0) = get_obsolete_files-IsWellFormed cmp oldest s v in
            (
              (r.0 ++ q.0, if maybe_remove r.1 then q.1 else (cf, r.1) ∷ q.1),
              (
                purge-open oldest kept cf s cs q r live done e,
                All-if (λ x. IsWellFormed x.1) (maybe_remove r.1) (q.1) ((cf, r.1) ∷ q.1) w (w0, w),
                λ k h.
                    find-skip cf k s r.1 (maybe_remove r.1) (q.1) cs (apart kept cf k live h)
                    ∙ ap (λ x. if cf == k then some s else x) (f k h),
              ),
            )
      ]

  -- On well-formed storages GetObsoleteFiles fails no assert and leaves well-formed storages, and a
  -- column family that is dropped but not yet destroyed keeps its storage as it is.
  pub get_obsolete_files_of_set-IsWellFormed :
      (oldest : ℕ) (fs : FileSet R)
      → All (λ e. IsWellFormed e.1) fs.column_families
      → (q : List ℕ × List ℕ × FileSet R) × (get_obsolete_files_of_set cmp oldest fs ≡ ok q)
        × All (λ e. IsWellFormed e.1) (q.2.column_families)
        × ((cf : ℕ)
            → member cf fs.obsolete_columns ≡ true
            → find cf (q.2.column_families) ≡ find cf fs.column_families)
  unfolding get_obsolete_files_of_set
  get_obsolete_files_of_set-IsWellFormed oldest fs v =
      let (q, (e, w, f)) = purge_families-Purged oldest fs.obsolete_columns fs.column_families v in
      (
        (q.0, fs.obsolete_manifests, record fs { column_families = q.1; obsolete_manifests = [] }),
        rw (e),
        w,
        f,
      )

-- The numbers of the files of all storages.
abbrev pub numbers_of_set : {R : Type 0} → List (ℕ × BlobStorage R) → List ℕ
numbers_of_set [] = []
numbers_of_set ((cf, s) ∷ cs) = numbers_of s.files ++ numbers_of_set cs

alive_files-numbers :
    {R : Type 0} (cmp : Comparator) (cs kept : List (ℕ × BlobStorage R)) (alive : List ℕ)
    → alive_files cmp cs ≡ ok (alive, kept)
    → alive ≡ numbers_of_set kept
unfolding alive_files
alive_files-numbers cmp [] kept alive e = cc (ok-injective e)
alive_files-numbers cmp ((cf, s) ∷ cs) kept alive e =
    let (r, _, e1) = >>=-eq-ok (get_obsolete_files cmp _ s) _ e in
    let (q, rest, e2) = >>=-eq-ok (alive_files cmp cs) _ e1 in
    let ih = alive_files-numbers cmp cs (q.1) (q.0) rest in
    subst (λ p. p.0 ≡ numbers_of_set p.1) (ok-injective e2)
      (ap (λ x. numbers_of (r.1.files) ++ x) ih)

-- Neither a name of an alive file nor one of another kind.
dead_names-All :
    (alive : List ℕ) (names : List (ℕ × FileKind))
    → All (λ d. (member d.0 alive ≡ false) × (is_other d.1 ≡ false)) (dead_names alive names)
unfolding dead_names
dead_names-All alive [] = tt
dead_names-All alive ((n, kind) ∷ ns) =
    let ih = dead_names-All alive ns in
    elim (Bool-cases (member n alive)) [
      | inl here ↦ rw (here) ih
      | inr gone ↦ elim (Bool-cases (is_other kind)) [
        | inl other ↦ rw (gone, other) ih
        | inr known ↦ rw (gone, known) ((gone, known), ih)
      ]
    ]

open_manifest-number :
    (c : Coding) {R : Type 0} (io : ManifestIo) (number : ℕ) (fs t : FileSet R)
    → checked (open_manifest c io number fs) ≡ ok t
    → t.next_file_number ≡ fs.next_file_number
unfolding open_manifest
open_manifest-number c io number fs t e = elim (Option-cases io.new_file) [
  | inr (x, bad) ↦ cc (rw (bad, open_manifest) at e)
  | inl made ↦
      let failed = first_error io.snapshot (first_error io.sync io.set_current) in
      elim (Option-cases failed) [
        | inr (x, bad) ↦ cc (rw (made, open_manifest, bad) at e)
        | inl fine ↦
            ap (λ x. x.next_file_number) (sym (ok-injective (rw (made, open_manifest, fine) at e)))
      ]
]

-- Nothing in `dead` is the new manifest or a file of a storage, or of another kind.
abbrev pub AllDead : {R : Type 0} → FileSet R → List (ℕ × FileKind) → Type 0
AllDead t dead =
    (number : ℕ) × (t.next_file_number ≡ number + 1)
    × All
        (λ d.
          (member d.0 (number ∷ numbers_of_set t.column_families) ≡ false) × (is_other d.1 ≡ false))
        dead

start_manifest-AllDead :
    (c : Coding) (cmp : Comparator) {R : Type 0} (io : ManifestIo)
    (names dead : List (ℕ × FileKind)) (fs t : FileSet R)
    → start_manifest c cmp io names fs ≡ ok (t, dead)
    → AllDead t dead
unfolding start_manifest new_file_number
start_manifest-AllDead c cmp io names dead fs t e =
    let number = fs.next_file_number in
    let fs2 = record fs { next_file_number = number + 1 } in
    let (fs3, made, e1) = >>=-eq-ok (checked (open_manifest c io number fs2)) _ e in
    let (q, alive, e2) = >>=-eq-ok (alive_files cmp fs3.column_families) _ e1 in
    let alive_all = alive_files-numbers cmp fs3.column_families (q.1) (q.0) alive in
    subst (λ p. AllDead p.0 p.1) (ok-injective e2)
      (
        number,
        open_manifest-number c io number fs2 fs3 made,
        subst
            (λ a.
              All (λ d. (member d.0 (number ∷ a) ≡ false) × (is_other d.1 ≡ false))
                (dead_names (number ∷ q.0) names))
            alive_all (dead_names-All (number ∷ q.0) names),
      )

-- Recover deletes no file that a storage has in the end, not the manifest that it has just made, and
-- nothing that is neither a blob file nor a manifest.
pub recover-AllDead :
    (c : Coding) (u : Uninit) (cmp : Comparator) {R : Type 0} (ratios : Ratios R) (io : ManifestIo)
    (records : List (Bytes × Bool)) (names dead : List (ℕ × FileKind)) (fs t : FileSet R)
    → recover c u cmp ratios io records names fs ≡ ok (t, dead)
    → AllDead t dead
unfolding recover
recover-AllDead c u cmp ratios io records names dead fs t e =
    let (k, _, e1) = >>=-eq-ok (read_edits c u records new_collector) _ e in
    let (r, _, e2) = >>=-eq-ok (seal_batch fs.column_families k) _ e1 in
    let (k', _, e3) = >>=-eq-ok (checked r) _ e2 in
    let (cs, _, e4) = >>=-eq-ok (apply_batch cmp ratios k' fs.column_families) _ e3 in
    let (next, _, e5) = >>=-eq-ok (get_next_file_number k') _ e4 in
    let (marked, _, e6) = >>=-eq-ok (mark_families ratios cs) _ e5 in
    start_manifest-AllDead c cmp io names dead
      (record fs { column_families = marked; next_file_number = next }) t e6
