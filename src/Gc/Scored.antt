-- ===== src/Gc/Scored.antt =====
-- ComputeGCScore of src/blob_storage.cc hands PickBlobGC what it needs.
use diffkv.Prelude.{
  ℕ, ◌≡◌, ◌≢◌, refl, ap, ◌==◌, Bool, false, not, if◌then◌else◌, Option, some, is_none, List, [],
  ◌∷◌, All, All-imp, ok, Bool-cases, ==_iff, inl, inr, arith,
}
use diffkv.Prelude.Assoc.{find, has, Distinct}
use diffkv.Options.{Ratios, CfOptions}
use diffkv.Format.FileMeta.{BlobFileMeta, FileState}
use diffkv.Storage.{BlobStorage}
use diffkv.Storage.Invariant.{IsWellFormed}
use diffkv.Storage.Score.{insert, sort, is_eligible, scores, before, compute_gc_score}
use diffkv.Gc.Picker.{BlobGc, pick_blob_gc}
use diffkv.Gc.Marks.{Chosen, pick_blob_gc-Chosen}

module _ {R : Type 0} (less : ℕ × R → ℕ × R → Bool) where
  has-insert :
      (k : ℕ) (x : ℕ × R) (ys : List (ℕ × R))
      → (x.0 == k) ≡ false
      → has k ys ≡ false
      → has k (insert less x ys) ≡ false
  unfolding insert find
  has-insert k x [] ne h = ground arith
  has-insert k x (y ∷ ys) ne h = ground (arith, has-insert k x ys ne)

  insert-Distinct :
      (x : ℕ × R) (ys : List (ℕ × R))
      → has x.0 ys ≡ false
      → Distinct ys
      → Distinct (insert less x ys)
  unfolding insert find
  insert-Distinct x [] h d = (refl, tt)
  insert-Distinct x (y ∷ ys) h (new, d) = elim (Bool-cases (less y x)) [
    | inl yes_less ↦
        rw (yes_less)
          (has-insert y.0 x ys (ground arith) new, insert-Distinct x ys (ground arith) d)
    | inr not_less ↦ rw (not_less) (h, (new, d))
  ]

  insert-All :
      (P : ℕ × R → Type 0) (x : ℕ × R) (ys : List (ℕ × R))
      → P x
      → All P ys
      → All P (insert less x ys)
  unfolding insert
  insert-All P x [] p a = (p, tt)
  insert-All P x (y ∷ ys) p (q, a) = elim (Bool-cases (less y x)) [
    | inl yes_less ↦ rw (yes_less) (q, insert-All P x ys p a)
    | inr not_less ↦ rw (not_less) (p, (q, a))
  ]

  has-sort : (k : ℕ) (xs : List (ℕ × R)) → has k xs ≡ false → has k (sort less xs) ≡ false
  unfolding sort find
  has-sort k [] h = h
  has-sort k (x ∷ xs) h =
      has-insert k x (sort less xs) (ground arith) (has-sort k xs (ground arith))

  sort-Distinct : (xs : List (ℕ × R)) → Distinct xs → Distinct (sort less xs)
  unfolding sort
  sort-Distinct [] d = tt
  sort-Distinct (x ∷ xs) (new, d) =
      insert-Distinct x (sort less xs) (has-sort x.0 xs new) (sort-Distinct xs d)

  sort-All : (P : ℕ × R → Type 0) (xs : List (ℕ × R)) → All P xs → All P (sort less xs)
  unfolding sort
  sort-All P [] a = tt
  sort-All P (x ∷ xs) (p, a) = insert-All P x (sort less xs) p (sort-All P xs a)

-- Every entry of a map is what its key finds.
find_each : {V : Type 0} (m : List (ℕ × V)) → Distinct m → All (λ e. find e.0 m ≡ some e.1) m
unfolding find
find_each [] d = tt
find_each ((k, v) ∷ m) (new, d) = (
  ground arith,
  All-imp (λ e. find e.0 m ≡ some e.1) (λ e. (if k == e.0 then some v else find e.0 m) ≡ some e.1) m
      (λ e h. elim (Bool-cases (k == e.0)) [
        | inl same ↦
            cc (ap (λ i. has i m) ((==_iff k e.0).0 same), new, ap (λ o. not (is_none o)) h)
        | inr other ↦ rw (other) h
      ])
      (find_each m d),
)

module _ {R : Type 0} (r : Ratios R) (o : CfOptions R) where
  has-scores :
      (k : ℕ) (fs : List (ℕ × BlobFileMeta)) → has k fs ≡ false → has k (scores r o fs) ≡ false
  unfolding scores find
  has-scores k [] h = refl
  has-scores k ((n, m) ∷ fs) h = ground (arith, has-scores k fs)

  scores-Distinct : (fs : List (ℕ × BlobFileMeta)) → Distinct fs → Distinct (scores r o fs)
  unfolding scores
  scores-Distinct [] d = tt
  scores-Distinct ((n, m) ∷ fs) (new, d) = elim (Bool-cases (is_eligible r o m)) [
    | inl taken ↦ rw (taken, scores) (has-scores n fs new, scores-Distinct fs d)
    | inr passed ↦ rw (passed, scores) (scores-Distinct fs d)
  ]

  scores-All :
      (P : ℕ → Type 0) (fs : List (ℕ × BlobFileMeta))
      → All (λ e. P e.0) fs
      → All (λ e. P e.0) (scores r o fs)
  unfolding scores
  scores-All P [] a = tt
  scores-All P ((n, m) ∷ fs) (p, a) = elim (Bool-cases (is_eligible r o m)) [
    | inl taken ↦ rw (taken, scores) (p, scores-All P fs a)
    | inr passed ↦ rw (passed, scores) (scores-All P fs a)
  ]

All-both :
    {A : Type 0} (P Q : A → Type 0) (xs : List A) → All P xs → All Q xs → All (λ x. P x × Q x) xs
All-both P Q [] p q = tt
All-both P Q (x ∷ xs) (p, ps) (q, qs) = ((p, q), All-both P Q xs ps qs)

-- After ComputeGCScore of a well-formed storage in which no file is in kInit, PickBlobGC fails no
-- assert: it returns nothing, or a job over files of the storage, each once, that are all in kNormal
-- and then in kBeingGC.
pub pick_blob_gc-compute_gc_score :
    {R : Type 0} (r : Ratios R) (o : CfOptions R) (s : BlobStorage R)
    → IsWellFormed s
    → All (λ e. e.1.state ≢ FileState.init) s.files
    → s.cf_options.blob_file_target_size ≢ 0
    → (q : Option BlobGc × BlobStorage R) × (pick_blob_gc o (compute_gc_score r s).1 ≡ ok q)
      × Chosen o (compute_gc_score r s).1 q
unfolding compute_gc_score
pick_blob_gc-compute_gc_score r o s v started target =
    let IsKnown : ℕ → Type 0 =
      λ n. (m : BlobFileMeta) × (find n s.files ≡ some m) × (m.state ≢ FileState.init) in
    let found = scores r s.cf_options s.files in
    let known : All (λ e. IsKnown e.0) s.files =
      All-imp (λ e. (find e.0 s.files ≡ some e.1) × (e.1.state ≢ FileState.init)) (λ e. IsKnown e.0)
        s.files (λ e h. (e.1, h.0, h.1))
        (All-both _ _ s.files (find_each s.files v.distinct) started) in
    pick_blob_gc-Chosen o (compute_gc_score r s).1 target
      (sort-All (before r s.cf_options) (λ e. IsKnown e.0) found
        (scores-All r s.cf_options IsKnown s.files known))
      (sort-Distinct (before r s.cf_options) found
        (scores-Distinct r s.cf_options s.files v.distinct))
