-- ===== src/Examples/Files.antt =====
-- A storage with a few files, through the calls that change it.
use diffkv.Prelude.{◌≤◌, ℕ, ◌+◌, ◌≡◌, refl, ◌↔◌, true, false, none, List, [], ◌∷◌, All, ok, arith}
use diffkv.Prelude.Assoc.{find, has, emplace}
use diffkv.Format.FileMeta.{BlobFileMeta, FileState, is_obsolete, transit, file_state_transit}
use diffkv.Storage.{
  BlobStorage, new_storage, find_file, level_slot, with_blob_file, with_obsolete_file,
  add_blob_file, mark_file_obsolete, mark_file_obsolete_locked, get_obsolete_files,
}
use diffkv.Storage.Invariant.{IsWellFormed}
use diffkv.Storage.Invariant.Start.{new_storage-IsWellFormed}
use diffkv.Storage.Invariant.Methods.{add_blob_file-IsWellFormed, mark_file_obsolete-IsWellFormed}
use diffkv.Storage.Invariant.Due.{due, waiting, numbers, IsInvisible}
use diffkv.Storage.Invariant.Purge.{get_obsolete_files-IsWellFormed, get_obsolete_files_exact}
use diffkv.Collector.Family.{CfEdits, seal, seal_added, seal_deleted}
use diffkv.Collector.Added.{IsAbsent}
use diffkv.Collector.Deleted.{IsLiveIn}
use diffkv.Collector.Commit.{IsBatch, seal_iff}
use diffkv.Examples.Values.{bytewise, some_db_options, some_cf_options}

abbrev pub file : ℕ → BlobFileMeta
file n = record {
  file_number = n;
  file_size = 100;
  file_entries = 3;
  file_type = 0;
  file_level = 6;
  smallest_key = n ∷ [];
  largest_key = (n + 5) ∷ [];
  state = FileState.normal;
  discardable_size = 10;
  gc_mark = false;
}

abbrev pub start : BlobStorage ℕ
start = new_storage some_db_options some_cf_options

abbrev pub one_file : BlobStorage ℕ
one_file = with_blob_file bytewise (file 7) start

abbrev pub two_files : BlobStorage ℕ
two_files = with_blob_file bytewise (file 9) one_file

one_file_added : add_blob_file bytewise (file 7) start ≡ ok one_file
unfolding add_blob_file level_slot new_storage
one_file_added = refl

pub one_file-IsWellFormed : IsWellFormed one_file
unfolding new_storage find is_obsolete
one_file-IsWellFormed =
    add_blob_file-IsWellFormed bytewise (file 7) start one_file
      (new_storage-IsWellFormed some_db_options some_cf_options) refl refl one_file_added

two_files_added : add_blob_file bytewise (file 9) one_file ≡ ok two_files
unfolding add_blob_file level_slot new_storage with_blob_file
two_files_added = refl

pub two_files-IsWellFormed : IsWellFormed two_files
unfolding new_storage find is_obsolete with_blob_file emplace
two_files-IsWellFormed =
    add_blob_file-IsWellFormed bytewise (file 9) one_file two_files one_file-IsWellFormed refl refl
      two_files_added

add_blob_file-IsWellFormed_example : IsWellFormed two_files
unfolding new_storage find is_obsolete with_blob_file emplace
add_blob_file-IsWellFormed_example =
    add_blob_file-IsWellFormed bytewise (file 9) one_file two_files one_file-IsWellFormed refl refl
      two_files_added

abbrev pub one_dead : BlobStorage ℕ
one_dead = with_obsolete_file (file 7) (record (file 7) { state = FileState.obsolete }) 50 two_files

one_dead_marked : mark_file_obsolete 7 50 two_files ≡ ok (true, one_dead)
unfolding mark_file_obsolete mark_file_obsolete_locked file_state_transit transit level_slot find
    new_storage with_blob_file emplace
one_dead_marked = refl

one_dead-IsWellFormed : IsWellFormed one_dead
one_dead-IsWellFormed =
    mark_file_obsolete-IsWellFormed 7 50 true two_files one_dead two_files-IsWellFormed
      one_dead_marked

mark_file_obsolete-IsWellFormed_example : IsWellFormed one_dead
mark_file_obsolete-IsWellFormed_example =
    mark_file_obsolete-IsWellFormed 7 50 true two_files one_dead two_files-IsWellFormed
      one_dead_marked

get_obsolete_files-IsWellFormed_example :
    (r : List ℕ × BlobStorage ℕ) × (get_obsolete_files bytewise 60 one_dead ≡ ok r)
    × IsWellFormed (r.1)
get_obsolete_files-IsWellFormed_example =
    get_obsolete_files-IsWellFormed bytewise 60 one_dead one_dead-IsWellFormed

get_obsolete_files_exact_example :
    (t : BlobStorage ℕ) × (get_obsolete_files bytewise 60 one_dead
      ≡ ok (numbers (due 60 one_dead.obsolete_files), t))
    × All (IsInvisible (60 ∷ (70 ∷ []))) (due 60 one_dead.obsolete_files)
    × All (λ p. find_file p.0 t ≡ none) (due 60 one_dead.obsolete_files)
    × (t.obsolete_files ≡ waiting 60 one_dead.obsolete_files)
    × All (λ p. 60 ≤ p.1) t.obsolete_files
    × ((k : ℕ)
        → has k (due 60 one_dead.obsolete_files) ≡ false
        → find_file k t ≡ find_file k one_dead)
get_obsolete_files_exact_example =
    get_obsolete_files_exact bytewise 60 (60 ∷ (70 ∷ [])) one_dead one_dead-IsWellFormed
      (omega arith, (omega arith, tt))

-- A batch of a GC job: file 7 gives way to file 11, and file 9 has more discardable bytes.
abbrev pub gc_batch : CfEdits
gc_batch = record {
  added_files = (11, file 11) ∷ [];
  deleted_files = (7, 50) ∷ [];
  updated_discardable_size = (9, 30) ∷ [];
}

pub gc_batch-IsBatch : IsBatch gc_batch two_files
unfolding find is_obsolete with_blob_file emplace new_storage level_slot
gc_batch-IsBatch = record {
  added_once = (refl, tt);
  deleted_once = (refl, tt);
  updated_once = (refl, tt);
  addable = ((refl, refl, omega arith), tt);
  roomy = ((omega arith, omega arith), tt);
}

pub gc_batch_sealed : seal gc_batch two_files ≡ ok tt
unfolding seal seal_added seal_deleted find find_file is_obsolete with_blob_file emplace new_storage
gc_batch_sealed = refl

seal_iff_example : (seal gc_batch two_files ≡ ok tt) ↔ (
    All (IsAbsent two_files) gc_batch.added_files
    × All (IsLiveIn gc_batch.added_files two_files) gc_batch.deleted_files)
seal_iff_example = seal_iff gc_batch two_files
