-- ===== src/Collector/Commit.antt =====
-- CFEditCollector::Seal and Apply of src/edit_collector.h together: what Seal checks is what Apply
-- needs.
use diffkv.Prelude.{
  ℕ, ◌≡◌, ◌↔◌, refl, sym, ap, ◌∙◌, Option, List, [], ◌∷◌, All, All-imp, ok, >>=-eq-ok, Bool-cases,
  Option-cases, inl, inr,
}
use mathlib.Core.Path.{subst}
use diffkv.Prelude.Assoc.{find, has, Distinct}
use diffkv.Options.{Ratios, Comparator}
use diffkv.Format.FileMeta.{BlobFileMeta, is_obsolete}
use diffkv.Storage.{BlobStorage, find_file}
use diffkv.Storage.Score.{compute_gc_score}
use diffkv.Storage.Invariant.{IsWellFormed}
use diffkv.Collector.Family.{
  CfEdits, seal_added, seal_deleted, seal, apply_added, apply_deleted, apply_updated, apply,
}
use diffkv.Collector.Added.{IsAddable, IsAbsent, after_added, apply_added_lem}
use diffkv.Collector.Deleted.{IsLiveIn, after_deleted, apply_deleted_lem}
use diffkv.Collector.Updated.{IsRoomy, grow, apply_updated_lem}

-- What FindFile gives for a number after a batch, from what it gave before.
abbrev pub after_batch : CfEdits → Option BlobFileMeta → ℕ → Option BlobFileMeta
after_batch c old k =
    after_deleted c.added_files c.deleted_files (after_added c.deleted_files c.added_files old k) k

module _ {R : Type 0} where
  -- A batch that AddEdit collected from well-formed edits: no number twice, addable files, and room
  -- for each discardable size.
  pub record IsBatch (c : CfEdits) (s : BlobStorage R) : Type 0 where
    pub added_once : Distinct c.added_files
    pub deleted_once : Distinct c.deleted_files
    pub updated_once : Distinct c.updated_discardable_size
    pub addable : All (IsAddable s.cf_options) c.added_files
    pub roomy :
        All (λ u. IsRoomy (after_batch c (find u.0 s.files) u.0) u.1) c.updated_discardable_size

  seal_added_iff :
      (added : List (ℕ × BlobFileMeta)) (s : BlobStorage R)
      → (seal_added added s ≡ ok tt) ↔ All (IsAbsent s) added
  unfolding seal_added
  seal_added_iff [] s = (λ _. tt, λ _. refl)
  seal_added_iff ((n, m) ∷ es) s = elim (Option-cases (find n s.files)) [
    | inl gone ↦ (
      λ e. (gone, (seal_added_iff es s).0 (rw (gone, seal_added) at e)),
      λ a. rw (gone, seal_added) ((seal_added_iff es s).1 a.1),
    )
    | inr (x, there) ↦ (λ e. cc (rw (there, seal_added) at e), λ a. cc (there, a.0))
  ]

  seal_deleted_iff :
      (added : List (ℕ × BlobFileMeta)) (ds : List (ℕ × ℕ)) (s : BlobStorage R)
      → (seal_deleted added ds s ≡ ok tt) ↔ All (IsLiveIn added s) ds
  unfolding seal_deleted
  seal_deleted_iff added [] s = (λ _. tt, λ _. refl)
  seal_deleted_iff added ((n, q) ∷ ds) s =
      let rest = seal_deleted_iff added ds s in
      elim (Bool-cases (has n added)) [
        | inl paired ↦ (
          λ e. (λ own. cc (paired, own), rest.0 (rw (paired, seal_deleted) at e)),
          λ a. rw (paired, seal_deleted) (rest.1 a.1),
        )
        | inr own ↦ elim (Option-cases (find n s.files)) [
          | inl gone ↦ (
            λ e. cc (rw (own, gone, seal_deleted) at e),
            λ a. let (x, there, _) = a.0 own in cc (gone, there),
          )
          | inr (x, there) ↦ elim (Bool-cases (is_obsolete x)) [
            | inl dead ↦ (
              λ e. cc (rw (own, there, dead, seal_deleted) at e),
              λ a. let (y, here, live) = a.0 own in cc (there, here, dead, live),
            )
            | inr live ↦ (
              λ e. (λ _. (x, there, live), rest.0 (rw (own, there, live, seal_deleted) at e)),
              λ a. rw (own, there, live, seal_deleted) (rest.1 a.1),
            )
          ]
        ]
      ]

  -- Seal accepts a batch exactly when no file that it adds is in the storage, obsolete or not, and
  -- each file that it deletes is added by it or is in the storage and not obsolete.
  pub seal_iff :
      (c : CfEdits) (s : BlobStorage R)
      → (seal c s ≡ ok tt)
        ↔ (All (IsAbsent s) c.added_files × All (IsLiveIn c.added_files s) c.deleted_files)
  unfolding seal
  seal_iff c s =
      let added = seal_added_iff c.added_files s in
      let deleted = seal_deleted_iff c.added_files c.deleted_files s in
      (
        λ e.
            let (_, one, two) = >>=-eq-ok (seal_added c.added_files s) _ e in
            (added.0 one, deleted.0 two),
        λ a. rw (added.1 a.0) (deleted.1 a.1),
      )

  compute_gc_score-IsWellFormed :
      (ratios : Ratios R) (s : BlobStorage R)
      → IsWellFormed s
      → IsWellFormed (compute_gc_score ratios s).1
  unfolding compute_gc_score
  compute_gc_score-IsWellFormed ratios s v = record {
    counted = record {
      distinct = v.distinct;
      keyed = v.keyed;
      fitted = v.fitted;
      levels = v.levels;
      live_count = v.live_count;
      live_bytes = v.live_bytes;
      obsolete_count = v.obsolete_count;
      obsolete_bytes = v.obsolete_bytes;
    };
    once = v.once;
    named = v.named;
    all_listed = v.all_listed;
  }

  compute_gc_score-files :
      (ratios : Ratios R) (s : BlobStorage R) (k : ℕ)
      → find_file k (compute_gc_score ratios s).1 ≡ find k s.files
  unfolding compute_gc_score find_file
  compute_gc_score-files ratios s k = refl

  run :
      (cmp : Comparator) (ratios : Ratios R) (c : CfEdits) (s s1 s2 s3 : BlobStorage R)
      → apply_added cmp c.deleted_files c.added_files s ≡ ok s1
      → apply_deleted c.added_files c.deleted_files s1 ≡ ok s2
      → apply_updated c.updated_discardable_size s2 ≡ ok s3
      → apply cmp ratios c s ≡ ok (compute_gc_score ratios s3).1
  unfolding apply
  run cmp ratios c s s1 s2 s3 e1 e2 e3 = rw (e1, e2, e3)

  pub apply-seal :
      (cmp : Comparator) (ratios : Ratios R) (c : CfEdits) (s : BlobStorage R)
      → IsWellFormed s
      → IsBatch c s
      → seal c s ≡ ok tt
      → (t : BlobStorage R) × (apply cmp ratios c s ≡ ok t)
        × IsWellFormed t
        × ((k : ℕ)
            → find_file k t
              ≡ grow (find k c.updated_discardable_size) (after_batch c (find_file k s) k))
  unfolding find_file
  apply-seal cmp ratios c s v b e =
      let (gone, live) = (seal_iff c s).0 e in
      let (s1, (e1, v1, o1, f1)) =
        apply_added_lem cmp c.deleted_files c.added_files s v b.added_once b.addable gone in
      let (s2, (e2, v2, f2)) =
        apply_deleted_lem c.added_files c.deleted_files s1 v1 b.deleted_once (
          All-imp (IsLiveIn c.added_files s) (IsLiveIn c.added_files s1) c.deleted_files
            (λ p a own.
              let (m, there, alive) = a own in
              (m, f1 p.0 ∙ ap (λ o. after_added c.deleted_files c.added_files o p.0) there, alive))
            live) in
      let both : (k : ℕ) → find k s2.files ≡ after_batch c (find k s.files) k =
        λ k. f2 k ∙ ap (λ o. after_deleted c.added_files c.deleted_files o k) (f1 k) in
      let (s3, (e3, v3, f3)) = apply_updated_lem c.updated_discardable_size s2 v2 b.updated_once (
        All-imp (λ u. IsRoomy (after_batch c (find u.0 s.files) u.0) u.1)
          (λ u. IsRoomy (find u.0 s2.files) u.1) c.updated_discardable_size
          (λ u r. subst (λ o. IsRoomy o u.1) (sym (both u.0)) r) b.roomy) in
      (
        (compute_gc_score ratios s3).1,
        run cmp ratios c s s1 s2 s3 e1 e2 e3,
        compute_gc_score-IsWellFormed ratios s3 v3,
        λ k.
            compute_gc_score-files ratios s3 k
            ∙ (f3 k ∙ ap (λ o. grow (find k c.updated_discardable_size) o) (both k)),
      )
