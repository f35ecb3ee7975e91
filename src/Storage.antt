-- ===== src/Storage.antt =====
-- BlobStorage of src/blob_storage.h and src/blob_storage.cc: the blob files of one column family.
-- Each method holds the storage's mutex, so a call is one step.
pub mod Counters
pub mod Totals
pub mod Invariant
pub mod Score
pub mod Ranges
pub mod Runs
use diffkv.Prelude.{
  ℕ, suc, ◌+◌, ◌-◌, ◌≡◌, Bool, true, false, not, ◌&&◌, ◌||◌, ◌==◌, ltb, leb, if◌then◌else◌, Option,
  none, some, is_none, List, [], ◌∷◌, ◌++◌, map, Bytes, Outcome, ok, err, fault, ◌>>=◌, ◌>>◌,
  assert, Status, add64, sub64, length, is_empty,
}
use diffkv.Prelude.Assoc.{find, emplace, modify, erase}
use diffkv.Options.{Ratios, Comparator, DbOptions, CfOptions}
use diffkv.Format.Bounds.{sorted}
use diffkv.Format.FileMeta.{BlobFileMeta, FileEvent, is_obsolete, file_state_transit}
use Counters.{
  Stats, new_stats, RatioLevel, discardable_ratio_level, count_live, uncount_live, count_obsolete,
  uncount_obsolete, count_ratio, sub_live_blob_size,
}

-- `files` owns the metas. `blob_ranges` maps smallest keys to pointers to them, in key order; a
-- pointer is the file's number. `level_blob_size` has num_levels + 1 slots.
pub record BlobStorage (R : Type 0) : Type 0 where
  pub db_options : DbOptions
  pub cf_options : CfOptions R
  pub files : List (ℕ × BlobFileMeta)
  pub building_files : List ℕ
  pub blob_ranges : List (Bytes × ℕ)
  pub gc_score : List (ℕ × R)
  pub obsolete_files : List (ℕ × ℕ)
  pub destroyed : Bool
  pub stats : Stats
  pub level_blob_size : ℕ → ℕ

abbrev update : (ℕ → ℕ) → ℕ → ℕ → ℕ → ℕ
update f k v j = if j == k then v else f j

-- `building_files_.erase(number)`
unfoldable pub drop_building : ℕ → List ℕ → List ℕ
drop_building n [] = []
drop_building n (k ∷ ks) = if k == n then ks else k ∷ drop_building n ks

-- FindBuildingFile: whether a reader for the file is kept.
unfoldable pub is_building : ℕ → List ℕ → Bool
is_building n [] = false
is_building n (k ∷ ks) = (k == n) || is_building n ks

module _ {R : Type 0} where
  unfoldable pub new_storage : DbOptions → CfOptions R → BlobStorage R
  new_storage db cf = record {
    db_options = db;
    cf_options = cf;
    files = [];
    building_files = [];
    blob_ranges = [];
    gc_score = [];
    obsolete_files = [];
    destroyed = false;
    stats = new_stats;
    level_blob_size = λ _. 0;
  }

  -- FindFile
  unfoldable pub find_file : ℕ → BlobStorage R → Option BlobFileMeta
  find_file number s = find number s.files

  -- The slot of `level_blob_size_` that a file is counted in.
  unfoldable pub level_slot : CfOptions R → BlobFileMeta → ℕ
  level_slot o m = if m.file_type == sorted then m.file_level else o.num_levels

module _ (cmp : Comparator) where
  -- `blob_ranges_.emplace`: a multimap puts a new entry behind those with an equivalent key.
  unfoldable pub insert_range : Bytes → ℕ → List (Bytes × ℕ) → List (Bytes × ℕ)
  insert_range key n [] = (key, n) ∷ []
  insert_range key n ((k, j) ∷ rs) =
      if cmp.less key k then (key, n) ∷ ((k, j) ∷ rs) else (k, j) ∷ insert_range key n rs

  abbrev same_key : Bytes → Bytes → Bool
  same_key a b = not (cmp.less a b) && not (cmp.less b a)

  -- The loop over `equal_range(smallest_key)` that erases the first entry of the file.
  unfoldable pub erase_range : Bytes → ℕ → List (Bytes × ℕ) → List (Bytes × ℕ)
  erase_range key n [] = []
  erase_range key n ((k, j) ∷ rs) =
      if same_key k key && (j == n) then rs else (k, j) ∷ erase_range key n rs

  module _ {R : Type 0} where
    -- What AddBlobFile writes.
    unfoldable pub with_blob_file : BlobFileMeta → BlobStorage R → BlobStorage R
    unfolding insert_range level_slot
    with_blob_file m s =
        let slot = level_slot s.cf_options m in
        record s {
          files = emplace m.file_number m s.files;
          blob_ranges = insert_range m.smallest_key m.file_number s.blob_ranges;
          stats = count_live m.file_size s.stats;
          level_blob_size =
              update s.level_blob_size slot (add64 (s.level_blob_size slot) m.file_size);
          building_files =
              if s.db_options.sep_before_flush
              then drop_building m.file_number s.building_files
              else s.building_files;
        }

    -- AddBlobFile; a level outside the vector is a fault.
    unfoldable pub add_blob_file : BlobFileMeta → BlobStorage R → Outcome (BlobStorage R)
    unfolding level_slot
    add_blob_file m s =
        assert (leb (level_slot s.cf_options m) s.cf_options.num_levels) >> ok (with_blob_file m s)

    -- RemoveFile; the eviction from the file cache is not part of the state.
    unfoldable pub remove_file : ℕ → BlobStorage R → Bool × BlobStorage R
    unfolding erase_range
    remove_file number s = elim (find number s.files) [
      | none ↦ (false, s)
      | some m ↦ (
        true,
        record s {
          blob_ranges = erase_range m.smallest_key m.file_number s.blob_ranges;
          stats = uncount_obsolete m.file_size s.stats;
          files = erase number s.files;
        },
      )
    ]

    -- The loop of GetObsoleteFiles: what stays in the list, the files that are removed, the storage.
    unfoldable pub drop_obsolete :
        ℕ → List (ℕ × ℕ) → BlobStorage R → Outcome (List (ℕ × ℕ) × List ℕ × BlobStorage R)
    drop_obsolete oldest [] s = ok ([], [], s)
    drop_obsolete oldest ((number, sequence) ∷ rest) s = elim (ltb sequence oldest) [
      | true ↦
          let r = remove_file number s in
          assert r.0 >> (drop_obsolete oldest rest r.1 >>= λ q. ok (q.0, number ∷ q.1, q.2))
      | false ↦ drop_obsolete oldest rest s >>= λ q. ok ((number, sequence) ∷ q.0, q.1, q.2)
    ]

    -- GetObsoleteFiles: the numbers of the files to delete.
    unfoldable pub get_obsolete_files : ℕ → BlobStorage R → Outcome (List ℕ × BlobStorage R)
    get_obsolete_files oldest s = drop_obsolete oldest s.obsolete_files s >>= λ q.
        ok (q.1, record (q.2) { obsolete_files = q.0 })

module _ {R : Type 0} where
  -- What MarkFileObsoleteLocked writes; `m'` is the file after its transition.
  unfoldable pub with_obsolete_file :
      BlobFileMeta → BlobFileMeta → ℕ → BlobStorage R → BlobStorage R
  unfolding level_slot
  with_obsolete_file m m' obsolete_sequence s =
      let slot = level_slot s.cf_options m in
      record s {
        obsolete_files = s.obsolete_files ++ ((m.file_number, obsolete_sequence) ∷ []);
        files = modify m.file_number (λ _. m') s.files;
        stats = count_obsolete m.file_size (
            uncount_live m.file_size
              (sub_live_blob_size (sub64 m.file_size m.discardable_size) s.stats));
        level_blob_size =
            update s.level_blob_size slot (sub64 (s.level_blob_size slot) m.file_size);
      }

  -- MarkFileObsoleteLocked
  unfoldable pub mark_file_obsolete_locked :
      BlobFileMeta → ℕ → BlobStorage R → Outcome (BlobStorage R)
  unfolding level_slot
  mark_file_obsolete_locked m obsolete_sequence s = do
    m' ← file_state_transit FileEvent.delete m
    assert (leb (level_slot s.cf_options m) s.cf_options.num_levels)
    ok (with_obsolete_file m m' obsolete_sequence s)

  -- MarkFileObsolete: `false` if there is no such file.
  unfoldable pub mark_file_obsolete : ℕ → ℕ → BlobStorage R → Outcome (Bool × BlobStorage R)
  mark_file_obsolete number obsolete_sequence s = elim (find number s.files) [
    | none ↦ ok (false, s)
    | some m ↦ mark_file_obsolete_locked m obsolete_sequence s >>= λ s'. ok (true, s')
  ]

  -- AddBuildingFile, once the file could be opened.
  unfoldable pub add_building_file : ℕ → BlobStorage R → BlobStorage R
  unfolding is_building
  add_building_file number s =
      if is_building number s.building_files
      then s
      else record s { building_files = number ∷ s.building_files }

  unfoldable pub mark_destroyed : BlobStorage R → BlobStorage R
  mark_destroyed s = record s { destroyed = true }

  unfoldable pub maybe_remove : BlobStorage R → Bool
  maybe_remove s = s.destroyed && is_empty s.obsolete_files

  unfoldable pub num_blob_files : BlobStorage R → ℕ
  num_blob_files s = length s.files

  unfoldable pub num_obsolete_blob_files : BlobStorage R → ℕ
  num_obsolete_blob_files s = length s.obsolete_files
