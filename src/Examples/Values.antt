-- ===== src/Examples/Values.antt =====
-- Concrete compressors, ratios and comparators for the tests.
use diffkv.Prelude.{
  ℕ, suc, zero, ◌+◌, ◌*◌, ◌-◌, ◌/◌, ◌≡◌, ap, Bool, true, false, ◌==◌, ltb, Option-cases, inl, inr,
  if◌then◌else◌, Option, none, some, [], ◌∷◌, Bytes, replicate, arith,
}
use mathlib.Core.Path.{subst}
use diffkv.Options.{Ratios, Comparator, DbOptions, CfOptions}
use diffkv.Compression.{CompressionType, Codecs, IsCodecs}

abbrev run_next : Option ℕ → Option ℕ
run_next none = none
run_next (some n) = some (suc n)

-- How often `b` follows itself to the end, where nothing else does.
abbrev pub run : ℕ → Bytes → Option ℕ
run b [] = some 0
run b (x ∷ xs) = if x == b then run_next (run b xs) else none

run-replicate : (b n : ℕ) (xs : Bytes) → run b xs ≡ some n → replicate n b ≡ xs
run-replicate b n [] h = ground arith
run-replicate b zero (x ∷ xs) h = ground arith
run-replicate b (suc n) (x ∷ xs) h = ground (arith, run-replicate b n xs)

abbrev packed : ℕ → Option ℕ → Option Bytes
packed b none = none
packed b (some n) = some (b ∷ (n ∷ []))

abbrev pub pack : Bytes → Option Bytes
pack [] = none
pack (b ∷ bs) = packed b (run b bs)

abbrev pub unpack : Bytes → Option Bytes
unpack (b ∷ (n ∷ [])) = some (b ∷ replicate n b)
unpack bs = none

some-injective : {a b : Bytes} → some a ≡ some b → a ≡ b
some-injective e = cc

unpack-pack : (raw out : Bytes) → pack raw ≡ some out → unpack out ≡ some raw
unpack-pack [] out h = cc
unpack-pack (b ∷ bs) out h = elim (Option-cases (run b bs)) [
  | inl e ↦ cc (rw (e) at h)
  | inr (n, e) ↦
      subst (λ o. unpack o ≡ some (b ∷ bs)) (some-injective (rw (e) at h))
        (ap (λ xs. some (b ∷ xs)) (run-replicate b n bs e))
]

abbrev type_code : CompressionType → ℕ
type_code CompressionType.no_compression = 0
type_code CompressionType.snappy = 1
type_code CompressionType.zlib = 2
type_code CompressionType.bzip2 = 3
type_code CompressionType.lz4 = 4
type_code CompressionType.lz4hc = 5
type_code CompressionType.xpress = 6
type_code CompressionType.zstd = 7
type_code CompressionType.zstd_not_final = 8
type_code (CompressionType.unknown n) = n + 9

abbrev type_of : ℕ → CompressionType
type_of n =
    if n == 0
    then CompressionType.no_compression
    else (if n == 1
        then CompressionType.snappy
        else (if n == 2
            then CompressionType.zlib
            else (if n == 3
                then CompressionType.bzip2
                else (if n == 4
                    then CompressionType.lz4
                    else (if n == 5
                        then CompressionType.lz4hc
                        else (if n == 6
                            then CompressionType.xpress
                            else (if n == 7
                                then CompressionType.zstd
                                else (if n == 8
                                    then CompressionType.zstd_not_final
                                    else CompressionType.unknown (n - 9)))))))))

type_of-type_code : (t : CompressionType) → type_of (type_code t) ≡ t
type_of-type_code t = ground arith

-- Every type packs a value of one repeated byte into two bytes.
abbrev pub run_codecs : Codecs
run_codecs = record {
  compressor = λ _. pack;
  decompressor = λ _. unpack;
  code = type_code;
  of_code = type_of;
}

pub run_codecs-IsCodecs : IsCodecs run_codecs
run_codecs-IsCodecs = record { inverse = λ _. unpack-pack; of_code-code = type_of-type_code }

-- Ratios in thousandths.
abbrev pub thousandths : Ratios ℕ
thousandths = record { of_sizes = λ a b. a * 1000 / b; of_tenths = λ k. k * 100; lt = ltb }

abbrev pub bytes_less : Bytes → Bytes → Bool
bytes_less xs [] = false
bytes_less [] (y ∷ ys) = true
bytes_less (x ∷ xs) (y ∷ ys) = if x == y then bytes_less xs ys else ltb x y

abbrev pub bytewise : Comparator
bytewise = record { less = bytes_less }

abbrev pub some_db_options : DbOptions
some_db_options = record { sep_before_flush = true }

abbrev pub some_cf_options : CfOptions ℕ
some_cf_options = record {
  num_levels = 7;
  level_merge = false;
  min_blob_size = 4;
  mid_blob_size = 8;
  blob_file_target_size = 256;
  max_gc_batch_size = 1000;
  min_gc_batch_size = 100;
  blob_file_discardable_ratio = 500;
  merge_small_file_threshold = 8;
}
