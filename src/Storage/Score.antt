-- ===== src/Storage/Score.antt =====
-- ComputeGCScore, MarkAllFilesForGC and ShouldGCLowLevel of src/blob_storage.h and src/blob_storage.cc.
use diffkv.Prelude.{
  ℕ, zero, suc, ◌+◌, ◌-◌, ◌*◌, ◌/◌, ◌^◌, Bool, true, false, ◌&&◌, ◌||◌, ◌==◌, ltb, leb,
  if◌then◌else◌, List, [], ◌∷◌, Outcome, ok, ◌>>=◌, add64, length,
}
use diffkv.Options.{Ratios, CfOptions}
use diffkv.Format.Bounds.{sorted}
use diffkv.Format.FileMeta.{BlobFileMeta, FileEvent, is_obsolete, file_state_transit}
use diffkv.Storage.Counters.{Stats, discardable_ratio, discardable_ratio_level, count_ratio}
use diffkv.Storage.{BlobStorage}

-- std::sort; entries that compare equal keep their order here, which the code leaves open.
module _ {ℓ} {A : Type ℓ} (less : A → A → Bool) where
  unfoldable pub insert : A → List A → List A
  insert x [] = x ∷ []
  insert x (y ∷ ys) = if less y x then y ∷ insert x ys else x ∷ (y ∷ ys)

  unfoldable pub sort : List A → List A
  unfolding insert
  sort [] = []
  sort (x ∷ xs) = insert x (sort xs)

module _ {R : Type 0} (r : Ratios R) where
  -- The files that the loop does not pass over.
  unfoldable pub is_eligible : CfOptions R → BlobFileMeta → Bool
  is_eligible o m =
      if is_obsolete m
        || (o.level_merge
            && ((m.file_type == sorted)
                || r.lt (discardable_ratio r m) o.blob_file_discardable_ratio))
      then false
      else true

  unfoldable pub score : CfOptions R → BlobFileMeta → R
  score o m =
      if ltb m.file_size o.merge_small_file_threshold
      then o.blob_file_discardable_ratio
      else discardable_ratio r m

  unfoldable pub scores : CfOptions R → List (ℕ × BlobFileMeta) → List (ℕ × R)
  unfolding is_eligible score
  scores o [] = []
  scores o ((number, m) ∷ fs) =
      if is_eligible o m then (number, score o m) ∷ scores o fs else scores o fs

  abbrev pub by_number : ℕ × R → ℕ × R → Bool
  by_number a b = ltb a.0 b.0

  abbrev pub by_score : ℕ × R → ℕ × R → Bool
  by_score a b = r.lt b.1 a.1

  -- The comparator that the options choose.
  abbrev pub before : CfOptions R → ℕ × R → ℕ × R → Bool
  before o = if o.level_merge then by_score else by_number

  unfoldable pub compute_gc_score : BlobStorage R → ℕ × BlobStorage R
  unfolding scores sort
  compute_gc_score s =
      let found = sort (before s.cf_options) (scores s.cf_options s.files) in
      (length found, record s { gc_score = found })

  -- MarkAllFilesForGC
  unfoldable pub mark_files :
      List (ℕ × BlobFileMeta) → Stats → Outcome (List (ℕ × BlobFileMeta) × Stats)
  mark_files [] st = ok ([], st)
  mark_files ((number, m) ∷ fs) st = do
    m' ← file_state_transit FileEvent.db_restart (record m { gc_mark = true })
    (fs', st') ← mark_files fs (count_ratio (discardable_ratio_level r m') st)
    ok ((number, m') ∷ fs', st')

  unfoldable pub mark_all_files_for_gc : BlobStorage R → Outcome (BlobStorage R)
  unfolding mark_files
  mark_all_files_for_gc s = do
    (fs, st) ← mark_files s.files s.stats
    ok (record s { files = fs; stats = st })

-- The sum of `n` slots from `i` on, in uint64_t.
unfoldable pub sum_levels : (ℕ → ℕ) → ℕ → ℕ → ℕ → ℕ
sum_levels sizes acc i zero = acc
sum_levels sizes acc i (suc n) = sum_levels sizes (add64 acc (sizes i)) (i + 1) n

-- ShouldGCLowLevel; `low_size` adds the slots below num_levels - 2, `high_size` the others.
unfoldable pub should_gc_low_level : {R : Type 0} → BlobStorage R → Bool
unfolding sum_levels
should_gc_low_level s =
    let levels = s.cf_options.num_levels in
    let low_size = sum_levels s.level_blob_size 0 0 (levels - 2) in
    let high_size = sum_levels s.level_blob_size 0 (levels - 2) (levels + 1 - (levels - 2)) in
    let total = add64 low_size high_size in
    ltb low_size high_size
    && (ltb 0 low_size && (ltb (100 * 2 ^ 30) total && leb (total / low_size) 10))
