-- ===== src/Options.antt =====
-- The options of include/titan/options.h that the modelled code reads, and the doubles among them.
use diffkv.Prelude.{ℕ, ◌≡◌, Bool, true, false, Bytes}

-- double: a quotient of two uint64_t, k / 10, and `<`. No value is a NaN, as a file's size is not 0.
pub record Ratios (R : Type 0) : Type 0 where
  pub of_sizes : ℕ → ℕ → R
  pub of_tenths : ℕ → R
  pub lt : R → R → Bool

pub record IsRatios {R : Type 0} (r : Ratios R) : Type 0 where
  pub asym : (a b : R) → r.lt a b ≡ true → r.lt b a ≡ false
  pub neg_trans : (a b c : R) → r.lt a b ≡ false → r.lt b c ≡ false → r.lt a c ≡ false

-- Comparator::Compare(a, b) < 0, and what rocksdb asks of a comparator.
pub record Comparator : Type 0 where
  pub less : Bytes → Bytes → Bool

pub record IsComparator (c : Comparator) : Type 0 where
  pub irrefl : (a : Bytes) → c.less a a ≡ false
  pub trans : (a b d : Bytes) → c.less a b ≡ true → c.less b d ≡ true → c.less a d ≡ true
  pub neg_trans : (a b d : Bytes) → c.less a b ≡ false → c.less b d ≡ false → c.less a d ≡ false

pub record DbOptions : Type 0 where
  pub sep_before_flush : Bool

pub record CfOptions (R : Type 0) : Type 0 where
  pub num_levels : ℕ
  pub level_merge : Bool
  pub min_blob_size : ℕ
  pub mid_blob_size : ℕ
  pub blob_file_target_size : ℕ
  pub max_gc_batch_size : ℕ
  pub min_gc_batch_size : ℕ
  pub blob_file_discardable_ratio : R
  pub merge_small_file_threshold : ℕ
