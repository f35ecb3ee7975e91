-- ===== src/Storage/Runs.antt =====
-- CountSortedRun of src/blob_storage.cc.
use diffkv.Prelude.{ℕ, Bool, if◌then◌else◌, List, [], ◌∷◌, map, Bytes, length}
use diffkv.Format.FileMeta.{BlobFileMeta}
use diffkv.Storage.Score.{sort}

-- std::string's `<`, byte by byte, is a parameter; the head of a run is its last file.
module _ (less : Bytes → Bytes → Bool) where
  unfoldable pub place : BlobFileMeta → List (List BlobFileMeta) → List (List BlobFileMeta)
  place f [] = (f ∷ []) ∷ []
  place f ([] ∷ runs) = [] ∷ place f runs
  place f ((g ∷ gs) ∷ runs) =
      if less g.largest_key f.smallest_key then (f ∷ (g ∷ gs)) ∷ runs else (g ∷ gs) ∷ place f runs

  unfoldable pub place_all : List BlobFileMeta → List (List BlobFileMeta) → List (List BlobFileMeta)
  unfolding place
  place_all [] runs = runs
  place_all (f ∷ fs) runs = place_all fs (place f runs)

  abbrev pub by_smallest : BlobFileMeta → BlobFileMeta → Bool
  by_smallest a b = less a.smallest_key b.smallest_key

  unfoldable pub count_sorted_run : List BlobFileMeta → List ℕ
  unfolding place_all sort
  count_sorted_run files = map length (place_all (sort by_smallest files) [])
