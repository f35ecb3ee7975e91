-- ===== src/Storage/Invariant/Start.antt =====
-- The storage that the constructor of BlobStorage leaves is well-formed.
use diffkv.Prelude.{refl}
use diffkv.Options.{DbOptions, CfOptions}
use diffkv.Storage.{new_storage}
use diffkv.Storage.Invariant.{IsWellFormed}

pub new_storage-IsWellFormed :
    {R : Type 0} (db : DbOptions) (cf : CfOptions R) → IsWellFormed (new_storage db cf)
unfolding new_storage
new_storage-IsWellFormed db cf = record {
  counted = record {
    distinct = tt;
    keyed = tt;
    fitted = tt;
    levels = λ level. refl;
    live_count = refl;
    live_bytes = refl;
    obsolete_count = refl;
    obsolete_bytes = refl;
  };
  once = tt;
  named = tt;
  all_listed = refl;
}
