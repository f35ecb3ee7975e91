-- ===== src/Coding/Leb128.antt =====
-- A concrete coding: varints in groups of seven bits, fixed integers with the low byte first.
use diffkv.Prelude.{
  ℕ, zero, suc, ◌+◌, ◌-◌, ◌*◌, ◌/◌, ◌%◌, ◌^◌, ◌<◌, ◌≤◌, ◌≡◌, refl, Option, none, some, ◌++◌, [],
  ◌∷◌, Bytes, length, ltb, leb, if◌then◌else◌, take, drop, arith, take-append, drop-append,
  length-append, length-drop, Option-cases, inl, inr, IsU32, IsU64,
}
use diffkv.Coding.{Coding, IsCoding, Crc, IsCrc, BlockHandle, BlockHandles, IsBlockHandles}
use mathlib.Core.List.{append_assoc}
use native.Mathlib.Nat.{pow-suc}

unfoldable pub put : ℕ → ℕ → Bytes
put zero v = v ∷ []
put (suc k) v = let rest = put k (v / 128) in if ltb v 128 then v ∷ [] else (v % 128 + 128) ∷ rest

abbrev group : ℕ → Option (ℕ × Bytes) → Option (ℕ × Bytes)
group b none = none
group b (some (v, rest)) = some (b - 128 + 128 * v, rest)

unfoldable pub get : ℕ → Bytes → Option (ℕ × Bytes)
get k [] = none
get zero (b ∷ bs) = some (b, bs)
get (suc k) (b ∷ bs) = let more = get k bs in if ltb b 128 then some (b, bs) else group b more

pub get-put : (k v : ℕ) (rest : Bytes) → get k (put k v ++ rest) ≡ some (v, rest)
unfolding put get
get-put zero v rest = refl
get-put (suc k) v rest = ground (arith, get-put k (v / 128) rest)

pub get_takes :
    (k : ℕ) (src : Bytes) (v : ℕ) (rest : Bytes)
    → get k src ≡ some (v, rest)
    → length rest < length src
unfolding get
get_takes zero [] v rest e = cc
get_takes (suc k) [] v rest e = cc
get_takes zero (b ∷ bs) v rest e = ground arith
get_takes (suc k) (b ∷ bs) v rest e = elim (Option-cases (get k bs)) [
  | inl n ↦ ground arith
  | inr ((u, r), q) ↦ ground (arith, get_takes k bs u r q)
]

pub put_some : (k v : ℕ) → 0 < length (put k v)
unfolding put
put_some zero v = omega arith
put_some (suc k) v = ground arith

unfoldable pub put_fixed : ℕ → ℕ → Bytes
put_fixed zero v = []
put_fixed (suc k) v = v % 256 ∷ put_fixed k (v / 256)

abbrev byte : ℕ → Option (ℕ × Bytes) → Option (ℕ × Bytes)
byte b none = none
byte b (some (v, rest)) = some (b + 256 * v, rest)

unfoldable pub get_fixed : ℕ → Bytes → Option (ℕ × Bytes)
get_fixed zero src = some (0, src)
get_fixed (suc k) [] = none
get_fixed (suc k) (b ∷ bs) = byte b (get_fixed k bs)

pub get_fixed-put_fixed :
    (k v : ℕ) (rest : Bytes) → v < 256 ^ k → get_fixed k (put_fixed k v ++ rest) ≡ some (v, rest)
unfolding put_fixed get_fixed
get_fixed-put_fixed zero v rest h = ground arith
get_fixed-put_fixed (suc k) v rest h =
    rw (get_fixed-put_fixed k (v / 256) rest (omega (arith, pow-suc 256 k))) (ground arith)

pub length-put_fixed : (k v : ℕ) → length (put_fixed k v) ≡ k
unfolding put_fixed
length-put_fixed zero v = refl
length-put_fixed (suc k) v = omega (arith, length-put_fixed k (v / 256))

unfoldable pub put_prefixed : Bytes → Bytes
put_prefixed s = put 4 (length s) ++ s

abbrev split : Option (ℕ × Bytes) → Option (Bytes × Bytes)
split none = none
split (some (n, rest)) = if leb n (length rest) then some (take n rest, drop n rest) else none

unfoldable pub get_prefixed : Bytes → Option (Bytes × Bytes)
get_prefixed src = split (get 4 src)

get_prefixed-put_prefixed :
    (s rest : Bytes) → get_prefixed (put_prefixed s ++ rest) ≡ some (s, rest)
unfolding get_prefixed put_prefixed
get_prefixed-put_prefixed s rest =
    rw (append_assoc, get-put 4 (length s) (s ++ rest), length-append)
      (ground (arith, take-append s rest, drop-append s rest))

get_prefixed_takes :
    (src s rest : Bytes) → get_prefixed src ≡ some (s, rest) → length rest < length src
unfolding get_prefixed
get_prefixed_takes src s rest e = elim (Option-cases (get 4 src)) [
  | inl n ↦ ground arith
  | inr ((n, r), q) ↦ ground (arith, get_takes 4 src n r q, length-drop n r)
]

-- An offset in eight bytes and a size in eight.
abbrev size_next : ℕ → Option (ℕ × Bytes) → Option (BlockHandle × Bytes)
size_next o none = none
size_next o (some (n, rest)) = some (record { offset = o; size = n }, rest)

abbrev offset_next : Option (ℕ × Bytes) → Option (BlockHandle × Bytes)
offset_next none = none
offset_next (some (o, rest)) = size_next o (get_fixed 8 rest)

unfoldable pub put_handle : BlockHandle → Bytes
put_handle h = put_fixed 8 h.offset ++ put_fixed 8 h.size

pub get_handle : Bytes → Option (BlockHandle × Bytes)
get_handle src = offset_next (get_fixed 8 src)

abbrev pub leb_coding : Coding
leb_coding = record {
  put_varint32 = put 4;
  get_varint32 = get 4;
  put_varint64 = put 9;
  get_varint64 = get 9;
  put_fixed32 = put_fixed 4;
  get_fixed32 = get_fixed 4;
  put_fixed64 = put_fixed 8;
  get_fixed64 = get_fixed 8;
  put_length_prefixed = put_prefixed;
  get_length_prefixed = get_prefixed;
}

pub leb_coding-IsCoding : IsCoding leb_coding
leb_coding-IsCoding = record {
  varint32_read = λ v rest h. get-put 4 v rest;
  varint64_read = λ v rest h. get-put 9 v rest;
  fixed32_read = λ v rest h. get_fixed-put_fixed 4 v rest (omega arith);
  fixed64_read = λ v rest h. get_fixed-put_fixed 8 v rest (omega arith);
  prefixed_read = λ s rest h. get_prefixed-put_prefixed s rest;
  varint32_takes = λ src v rest e. get_takes 4 src v rest e;
  varint64_takes = λ src v rest e. get_takes 9 src v rest e;
  prefixed_takes = λ src s rest e. get_prefixed_takes src s rest e;
  varint32_some = put_some 4;
  length-fixed32 = length-put_fixed 4;
  length-fixed64 = length-put_fixed 8;
}

-- A sum of the bytes stands in for the checksum.
unfoldable pub sum_bytes : Bytes → ℕ
sum_bytes [] = 0
sum_bytes (b ∷ bs) = (b + sum_bytes bs) % 2 ^ 32

abbrev pub sum_crc : Crc
sum_crc = record { value = sum_bytes; extend = λ n s. (n + sum_bytes s) % 2 ^ 32 }

sum_bytes-IsU32 : (s : Bytes) → IsU32 (sum_bytes s)
unfolding sum_bytes
sum_bytes-IsU32 [] = omega arith
sum_bytes-IsU32 (b ∷ bs) = omega arith

extend_range : (n : ℕ) (s : Bytes) → IsU32 ((n + sum_bytes s) % 2 ^ 32)
extend_range n s = omega arith

pub sum_crc-IsCrc : IsCrc sum_crc
sum_crc-IsCrc = record { value_range = sum_bytes-IsU32; extend_range = extend_range }

abbrev pub fixed_handles : BlockHandles
fixed_handles = record { encode = put_handle; decode = get_handle; max_encoded_length = 20 }

handle_read :
    (h : BlockHandle) (rest : Bytes)
    → IsU64 h.offset
    → IsU64 h.size
    → get_handle (put_handle h ++ rest) ≡ some (h, rest)
unfolding get_handle put_handle
handle_read h rest o s =
    rw (append_assoc, get_fixed-put_fixed 8 h.offset (put_fixed 8 h.size ++ rest) (omega arith))
      (rw (get_fixed-put_fixed 8 h.size rest (omega arith)))

handle_fits : (h : BlockHandle) → length (put_handle h) ≤ 20
unfolding put_handle
handle_fits h = omega (
  arith,
  length-append (put_fixed 8 h.offset) (put_fixed 8 h.size),
  length-put_fixed 8 h.offset,
  length-put_fixed 8 h.size,
)

pub fixed_handles-IsBlockHandles : IsBlockHandles fixed_handles
fixed_handles-IsBlockHandles = record {
  handle_read = handle_read;
  handle_fits = λ h o s. handle_fits h;
  two_varints = refl;
}
