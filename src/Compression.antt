-- ===== src/Compression.antt =====
-- Compress, Uncompress and GoodCompressionRatio of src/util.cc, over rocksdb's compression libraries.
pub mod RoundTrip
use diffkv.Prelude.{
  ℕ, ◌-◌, ◌/◌, ◌≡◌, Bool, ltb, Option, none, some, Bytes, Outcome, ok, err, fault, Status, or_err,
  length, if◌then◌else◌,
}

-- rocksdb's CompressionType; `unknown` stands for the values that the switches do not name.
pub data CompressionType : Type 0 where
  no_compression snappy zlib bzip2 lz4 lz4hc xpress zstd zstd_not_final : CompressionType
  unknown : ℕ → CompressionType

-- The libraries' compressors and decompressors (`none` is a failure), and the enum's numbers.
pub record Codecs : Type 0 where
  pub compressor : CompressionType → Bytes → Option Bytes
  pub decompressor : CompressionType → Bytes → Option Bytes
  pub code : CompressionType → ℕ
  pub of_code : ℕ → CompressionType

pub record IsCodecs (z : Codecs) : Type 0 where
  pub inverse :
      (t : CompressionType) (raw out : Bytes)
      → z.compressor t raw ≡ some out
      → z.decompressor t out ≡ some raw
  pub of_code-code : (t : CompressionType) → z.of_code (z.code t) ≡ t

-- `raw_size - (raw_size / 8u)` does not wrap around.
unfoldable pub good_compression_ratio : ℕ → ℕ → Bool
good_compression_ratio compressed_size raw_size = ltb compressed_size (raw_size - raw_size / 8)

-- One case of the switch: the compressor's output if it is good, else the input.
unfoldable pub choose : CompressionType → Bytes → Option Bytes → Bytes × CompressionType
unfolding good_compression_ratio
choose t input none = (input, CompressionType.no_compression)
choose t input (some output) =
    if good_compression_ratio (length output) (length input)
    then (output, t)
    else (input, CompressionType.no_compression)

unfoldable pub compress : Codecs → CompressionType → Bytes → Bytes × CompressionType
unfolding choose
compress z CompressionType.no_compression input = (input, CompressionType.no_compression)
compress z (CompressionType.unknown n) input = (input, CompressionType.no_compression)
compress z t input = choose t input (z.compressor t input)

unfoldable pub uncompress : Codecs → CompressionType → Bytes → Outcome Bytes
uncompress z CompressionType.no_compression input = fault
uncompress z (CompressionType.unknown n) input = err Status.corruption
uncompress z t input = or_err Status.corruption (z.decompressor t input)
