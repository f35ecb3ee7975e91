-- ===== src/Storage/Invariant.antt =====
-- What every method of BlobStorage keeps: the map, the list of obsolete files and the counters agree.
pub mod Start
pub mod Methods
pub mod Due
pub mod Purge
use diffkv.Prelude.{
  ℕ, ◌+◌, ◌%◌, ◌^◌, ◌≤◌, ◌≡◌, refl, Bool, true, false, ◌&&◌, ◌==◌, not, if◌then◌else◌, Option, some,
  List, [], ◌∷◌, All, length, arith,
}
use diffkv.Prelude.Assoc.{find, Distinct}
use diffkv.Options.{CfOptions}
use diffkv.Format.FileMeta.{BlobFileMeta, is_obsolete}
use diffkv.Storage.Totals.{total}
use diffkv.Storage.{BlobStorage, level_slot}

-- What a file adds to each counter.
abbrev pub live_one : BlobFileMeta → ℕ
live_one m = if is_obsolete m then 0 else 1

abbrev pub live_size : BlobFileMeta → ℕ
live_size m = if is_obsolete m then 0 else m.file_size

abbrev pub dead_one : BlobFileMeta → ℕ
dead_one m = if is_obsolete m then 1 else 0

abbrev pub dead_size : BlobFileMeta → ℕ
dead_size m = if is_obsolete m then m.file_size else 0

abbrev pub live_size_at : {R : Type 0} → CfOptions R → ℕ → BlobFileMeta → ℕ
live_size_at o level m = if level == level_slot o m then live_size m else 0

abbrev pub IsKeyed : ℕ × BlobFileMeta → Type 0
IsKeyed e = e.1.file_number ≡ e.0

-- The file's slot is one of level_blob_size's.
abbrev pub IsFitted : {R : Type 0} → CfOptions R → ℕ × BlobFileMeta → Type 0
IsFitted o e = level_slot o e.1 ≤ o.num_levels

-- An entry of `obsolete_files` names a file of the map that is obsolete.
abbrev pub Names : List (ℕ × BlobFileMeta) → ℕ × ℕ → Type 0
Names files p = (m : BlobFileMeta) × (find p.0 files ≡ some m) × (is_obsolete m ≡ true)

-- The map and the counters, which AddStats and SubStats keep in uint64_t.
pub record IsCounted {R : Type 0} (s : BlobStorage R) : Type 0 where
  pub distinct : Distinct s.files
  pub keyed : All IsKeyed s.files
  pub fitted : All (IsFitted s.cf_options) s.files
  pub levels :
      (level : ℕ)
      → s.level_blob_size level ≡ total (live_size_at s.cf_options level) s.files % 2 ^ 64
  pub live_count : s.stats.num_live_blob_file ≡ total live_one s.files % 2 ^ 64
  pub live_bytes : s.stats.live_blob_file_size ≡ total live_size s.files % 2 ^ 64
  pub obsolete_count : s.stats.num_obsolete_blob_file ≡ total dead_one s.files % 2 ^ 64
  pub obsolete_bytes : s.stats.obsolete_blob_file_size ≡ total dead_size s.files % 2 ^ 64

-- The list of obsolete files names each of them, and each once.
pub record IsWellFormed {R : Type 0} (s : BlobStorage R) : Type 0 where
  pub counted : IsCounted s
  pub open counted use *
  pub once : Distinct s.obsolete_files
  pub named : All (Names s.files) s.obsolete_files
  pub all_listed : total dead_one s.files ≡ length s.obsolete_files
