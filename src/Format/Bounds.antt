-- ===== src/Format/Bounds.antt =====
-- Constants of src/blob_format.h, GetChar of src/blob_format.cc and the template DecodeInto.
use diffkv.Prelude.{ℕ, ◌≡◌, Option, none, some, [], ◌∷◌, Bytes, Outcome, ok, err, ◌>>=◌, Status}

abbrev pub record_header_size : ℕ
record_header_size = 9

abbrev pub blob_header_size : ℕ
blob_header_size = 8

-- kSorted and kUnSorted.
abbrev pub sorted : ℕ
sorted = 0

abbrev pub unsorted : ℕ
unsorted = 1

unfoldable pub get_char : Bytes → Option (ℕ × Bytes)
get_char [] = none
get_char (b ∷ rest) = some (b, rest)

-- The check of `DecodeInto` that nothing is left.
unfoldable pub finish {ℓ} : {A : Type ℓ} → A × Bytes → Outcome A
finish (a, []) = ok a
finish (a, b ∷ rest) = err Status.corruption

unfoldable pub decode_into {ℓ} : {A : Type ℓ} → (Bytes → Outcome (A × Bytes)) → Bytes → Outcome A
unfolding finish
decode_into decode src = decode src >>= finish

-- `DecodeInto` gives back what a decoder reads off the whole slice.
pub decode_into_whole {ℓ} :
    {A : Type ℓ} (decode : Bytes → Outcome (A × Bytes)) (src : Bytes) (a : A)
    → decode src ≡ ok (a, [])
    → decode_into decode src ≡ ok a
unfolding decode_into
decode_into_whole decode src a h = rw h
