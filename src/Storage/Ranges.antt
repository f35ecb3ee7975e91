-- ===== src/Storage/Ranges.antt =====
-- GetBlobFilesInRanges of src/blob_storage.cc.
use diffkv.Prelude.{
  ℕ, Bool, true, false, not, ◌&&◌, ◌||◌, if◌then◌else◌, Option, none, some, List, [], ◌∷◌, ◌++◌,
  Bytes, Outcome, ok, fault, ◌>>=◌, ◌>>◌, assert, is_none, is_empty,
}
use diffkv.Prelude.Assoc.{find}
use diffkv.Options.{Comparator}
use diffkv.Format.FileMeta.{BlobFileMeta, is_obsolete}
use diffkv.Storage.{BlobStorage}

-- RangePtr: no bound is the minimum or the maximum.
pub record Range : Type 0 where
  pub start : Option Bytes
  pub limit : Option Bytes

module _ (cmp : Comparator) where
  -- The entries from `lower_bound(*begin)` on.
  unfoldable pub from_lower_bound : Option Bytes → List (Bytes × ℕ) → List (Bytes × ℕ)
  from_lower_bound none rs = rs
  from_lower_bound (some begin) [] = []
  from_lower_bound (some begin) ((k, n) ∷ rs) =
      if cmp.less k begin then from_lower_bound (some begin) rs else (k, n) ∷ rs

  -- The entries before `upper_bound(*end)`.
  unfoldable pub to_upper_bound : Option Bytes → List (Bytes × ℕ) → List (Bytes × ℕ)
  to_upper_bound none rs = rs
  to_upper_bound (some end) [] = []
  to_upper_bound (some end) ((k, n) ∷ rs) =
      if cmp.less end k then [] else (k, n) ∷ to_upper_bound (some end) rs

  -- Whether the largest key lies before the end, or on it where that is included.
  abbrev pub ends_in : Bool → Option Bytes → Bytes → Bool
  ends_in include_end none largest = true
  ends_in include_end (some end) largest =
      if include_end then not (cmp.less end largest) else cmp.less largest end

  -- The tests of the loop's body, after which a file is pushed.
  unfoldable pub is_picked : Bool → Option Bytes → BlobFileMeta → Bool
  is_picked include_end end m =
      not (is_obsolete m)
      && (not (is_empty m.largest_key && not (is_none end))
          && ends_in include_end end m.largest_key)

  -- The loop; a pointer to no file is a fault.
  unfoldable pub pick_range :
      Bool → Option Bytes → List (ℕ × BlobFileMeta) → List (Bytes × ℕ) → Outcome (List ℕ)
  unfolding is_picked
  pick_range include_end end files [] = ok []
  pick_range include_end end files ((k, n) ∷ rs) = elim (find n files) [
    | none ↦ fault
    | some m ↦ pick_range include_end end files rs >>= λ picked.
        ok (if is_picked include_end end m then m.file_number ∷ picked else picked)
  ]

  -- An entry between `end` and `begin`: `lower_bound` then lies behind `upper_bound`, and the loop
  -- runs off the map.
  unfoldable pub overshoots : Bytes → Bytes → List (Bytes × ℕ) → Bool
  overshoots begin end [] = false
  overshoots begin end ((k, n) ∷ rs) =
      (cmp.less end k && cmp.less k begin) || overshoots begin end rs

  abbrev pub range_overshoots : Range → List (Bytes × ℕ) → Bool
  range_overshoots range rs = elim range.start [
    | none ↦ false
    | some begin ↦ elim range.limit [ none ↦ false | some end ↦ overshoots begin end rs ]
  ]

  unfoldable pub get_blob_files_in_range :
      Bool → Range → List (ℕ × BlobFileMeta) → List (Bytes × ℕ) → Outcome (List ℕ)
  unfolding from_lower_bound to_upper_bound pick_range overshoots
  get_blob_files_in_range include_end range files ranges =
      assert (not (range_overshoots range ranges))
      >> pick_range include_end range.limit files
          (to_upper_bound range.limit (from_lower_bound range.start ranges))

  unfoldable pub get_blob_files_in_ranges :
      {R : Type 0} → Bool → List Range → BlobStorage R → Outcome (List ℕ)
  unfolding get_blob_files_in_range
  get_blob_files_in_ranges include_end [] s = ok []
  get_blob_files_in_ranges include_end (range ∷ ranges) s =
      get_blob_files_in_range include_end range s.files s.blob_ranges >>= λ first.
      get_blob_files_in_ranges include_end ranges s >>= λ others. ok (first ++ others)
