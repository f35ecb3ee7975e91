-- ===== src/Storage/Counters.antt =====
-- The counters of TitanInternalStats (src/titan_stats.h) that BlobStorage keeps.
use diffkv.Prelude.{ℕ, Bool, true, false, not, ◌&&◌, if◌then◌else◌, add64, sub64}
use diffkv.Options.{Ratios}
use diffkv.Format.FileMeta.{BlobFileMeta}

pub data RatioLevel : Type 0 where
  le0 le20 le50 le80 le100 : RatioLevel

pub record Stats : Type 0 where
  pub live_blob_size : ℕ
  pub num_live_blob_file : ℕ
  pub num_obsolete_blob_file : ℕ
  pub live_blob_file_size : ℕ
  pub obsolete_blob_file_size : ℕ
  pub num_discardable_ratio : RatioLevel → ℕ

abbrev pub new_stats : Stats
new_stats = record {
  live_blob_size = 0;
  num_live_blob_file = 0;
  num_obsolete_blob_file = 0;
  live_blob_file_size = 0;
  obsolete_blob_file_size = 0;
  num_discardable_ratio = λ _. 0;
}

abbrev pub count_live : ℕ → Stats → Stats
count_live size s = record s {
  live_blob_file_size = add64 s.live_blob_file_size size;
  num_live_blob_file = add64 s.num_live_blob_file 1;
}

abbrev pub uncount_live : ℕ → Stats → Stats
uncount_live size s = record s {
  live_blob_file_size = sub64 s.live_blob_file_size size;
  num_live_blob_file = sub64 s.num_live_blob_file 1;
}

abbrev pub sub_live_blob_size : ℕ → Stats → Stats
sub_live_blob_size size s = record s { live_blob_size = sub64 s.live_blob_size size }

abbrev pub count_obsolete : ℕ → Stats → Stats
count_obsolete size s = record s {
  obsolete_blob_file_size = add64 s.obsolete_blob_file_size size;
  num_obsolete_blob_file = add64 s.num_obsolete_blob_file 1;
}

abbrev pub uncount_obsolete : ℕ → Stats → Stats
uncount_obsolete size s = record s {
  obsolete_blob_file_size = sub64 s.obsolete_blob_file_size size;
  num_obsolete_blob_file = sub64 s.num_obsolete_blob_file 1;
}

abbrev same_level : RatioLevel → RatioLevel → Bool
same_level RatioLevel.le0 RatioLevel.le0 = true
same_level RatioLevel.le20 RatioLevel.le20 = true
same_level RatioLevel.le50 RatioLevel.le50 = true
same_level RatioLevel.le80 RatioLevel.le80 = true
same_level RatioLevel.le100 RatioLevel.le100 = true
same_level a b = false

abbrev pub count_ratio : RatioLevel → Stats → Stats
count_ratio l s = record s {
  num_discardable_ratio = λ k.
      if same_level k l then add64 (s.num_discardable_ratio k) 1 else s.num_discardable_ratio k;
}

-- BlobFileMeta::GetDiscardableRatio and GetDiscardableRatioLevel; the last two branches agree.
module _ {R : Type 0} (r : Ratios R) where
  unfoldable pub discardable_ratio : BlobFileMeta → R
  discardable_ratio m = r.of_sizes m.discardable_size m.file_size

  unfoldable pub discardable_ratio_level : BlobFileMeta → RatioLevel
  unfolding discardable_ratio
  discardable_ratio_level m =
      let ratio = discardable_ratio m in
      if not (r.lt ratio (r.of_tenths 0)) && not (r.lt (r.of_tenths 0) ratio)
      then RatioLevel.le0
      else if not (r.lt (r.of_tenths 2) ratio)
      then RatioLevel.le20
      else if not (r.lt (r.of_tenths 5) ratio)
      then RatioLevel.le50
      else if not (r.lt (r.of_tenths 8) ratio)
      then RatioLevel.le80
      else RatioLevel.le100
