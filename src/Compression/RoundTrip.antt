-- ===== src/Compression/RoundTrip.antt =====
-- What Compress hands on can be read back, and is never longer than its input.
use diffkv.Prelude.{
  ℕ, ◌≡◌, refl, ◌⊎◌, inl, inr, ◌<◌, ◌-◌, ◌/◌, ◌*◌, true, Bool-cases, ltb→lt, some, Bytes, ok,
  length, arith, Option-cases,
}
use diffkv.Compression.{
  CompressionType, Codecs, IsCodecs, choose, compress, uncompress, good_compression_ratio,
}

-- Either the input itself, marked as not compressed, or an output that the same type uncompresses to
-- the input and that is shorter by an eighth.
abbrev pub Recovers : Codecs → Bytes → Bytes × CompressionType → Type 0
Recovers z input r =
    ((r.1 ≡ CompressionType.no_compression) × (r.0 ≡ input))
    ⊎ ((uncompress z r.1 r.0 ≡ ok input) × (8 * length r.0 < 7 * length input))

module _ (z : Codecs) (law : IsCodecs z) where
  good_is_shorter : (n raw : ℕ) → good_compression_ratio n raw ≡ true → 8 * n < 7 * raw
  unfolding good_compression_ratio
  good_is_shorter n raw h = omega (arith, ltb→lt n (raw - raw / 8) h)

  choose-Recovers :
      (t : CompressionType) (input : Bytes)
      → ((out : Bytes) → z.decompressor t out ≡ some input → uncompress z t out ≡ ok input)
      → Recovers z input (choose t input (z.compressor t input))
  unfolding choose uncompress
  choose-Recovers t input back = elim (Option-cases (z.compressor t input)) [
    | inl e ↦ rw e (inl (refl, refl))
    | inr (out, e) ↦ elim (Bool-cases (good_compression_ratio (length out) (length input))) [
      | inl good ↦
          rw (e, choose, good)
            (inr (back out (law.inverse t input out e), good_is_shorter _ _ good))
      | inr bad ↦ rw (e, choose, bad) (inl (refl, refl))
    ]
  ]

  -- Compress hands on either its input, marked as not compressed, or an output that Uncompress turns
  -- back into the input and that is shorter than seven eighths of it.
  pub compress-Recovers :
      (t : CompressionType) (input : Bytes) → Recovers z input (compress z t input)
  unfolding compress uncompress
  compress-Recovers CompressionType.no_compression input = inl (refl, refl)
  compress-Recovers (CompressionType.unknown n) input = inl (refl, refl)
  compress-Recovers CompressionType.snappy input = choose-Recovers _ input (λ out e. rw e)
  compress-Recovers CompressionType.zlib input = choose-Recovers _ input (λ out e. rw e)
  compress-Recovers CompressionType.bzip2 input = choose-Recovers _ input (λ out e. rw e)
  compress-Recovers CompressionType.lz4 input = choose-Recovers _ input (λ out e. rw e)
  compress-Recovers CompressionType.lz4hc input = choose-Recovers _ input (λ out e. rw e)
  compress-Recovers CompressionType.xpress input = choose-Recovers _ input (λ out e. rw e)
  compress-Recovers CompressionType.zstd input = choose-Recovers _ input (λ out e. rw e)
  compress-Recovers CompressionType.zstd_not_final input = choose-Recovers _ input (λ out e. rw e)
