-- ===== src/SizeCollector.antt =====
-- BlobFileSizeCollector of src/blob_file_size_collector.cc: how many bytes of each blob file a table
-- refers to, as a property of the table.
use diffkv.Prelude.{
  ℕ, zero, suc, ◌+◌, ◌%◌, ◌^◌, ◌≡◌, refl, sym, ap, ◌∙◌, ◌==◌, Bool, false, if◌then◌else◌, Option,
  none, some, List, [], ◌∷◌, ◌++◌, Bytes, Outcome, ok, ◌>>=◌, IsU32, IsU64, add64, length, All,
  Option-cases, Bool-cases, ==_iff, inl, inr, is_empty, arith,
}
use mathlib.Core.List.{append_assoc, append-nil}
use diffkv.Prelude.Assoc.{find, has, assign, find-assign, Distinct, Fresh, Fresh-nil, Fresh-next}
use diffkv.Coding.{Coding, IsCoding}
use diffkv.Format.Index.{BlobIndex, decode_index}

-- `if (!Get...(...)) return false;`
abbrev pub and_then {ℓ κ} : {A : Type ℓ} {B : Type κ} → Option A → (A → Option B) → Option B
and_then none next = none
and_then (some a) next = next a

abbrev pub counted : Option ℕ → BlobIndex → ℕ
counted none i = i.blob_handle.size
counted (some old) i = add64 old i.blob_handle.size

-- The size of one more index, for its file.
unfoldable pub count_index : BlobIndex → List (ℕ × ℕ) → List (ℕ × ℕ)
count_index i sizes = assign i.file_number (counted (find i.file_number sizes) i) sizes

module _ (c : Coding) where
  unfoldable pub encode_pairs : List (ℕ × ℕ) → Bytes
  encode_pairs [] = []
  encode_pairs ((number, size) ∷ ps) =
      (c.put_varint64 number ++ c.put_varint64 size) ++ encode_pairs ps

  -- Encode
  unfoldable pub encode_sizes : List (ℕ × ℕ) → Bytes
  unfolding encode_pairs
  encode_sizes sizes = c.put_varint32 (length sizes % 2 ^ 32) ++ encode_pairs sizes

  -- The loop of Decode, and the map and the bytes that it leaves.
  unfoldable pub decode_pairs : ℕ → List (ℕ × ℕ) → Bytes → Option (List (ℕ × ℕ) × Bytes)
  decode_pairs zero sizes src = some (sizes, src)
  decode_pairs (suc n) sizes src =
      and_then (c.get_varint64 src)
        (λ p. and_then (c.get_varint64 p.1) (λ q. decode_pairs n (assign p.0 q.0 sizes) q.1))

  -- Decode
  unfoldable pub decode_sizes : List (ℕ × ℕ) → Bytes → Option (List (ℕ × ℕ) × Bytes)
  unfolding decode_pairs
  decode_sizes sizes src = and_then (c.get_varint32 src) (λ p. decode_pairs p.0 sizes p.1)

  -- AddUserKey; `is_blob_index` is whether the entry's type is kEntryBlobIndex.
  unfoldable pub add_user_key : Bool → Bytes → List (ℕ × ℕ) → Outcome (List (ℕ × ℕ))
  unfolding count_index
  add_user_key is_blob_index value sizes =
      if is_blob_index then (decode_index c value >>= λ p. ok (count_index p.0 sizes)) else ok sizes

  -- Finish: the property, where there is anything to record.
  unfoldable pub finish : List (ℕ × ℕ) → Option Bytes
  unfolding encode_sizes
  finish sizes = if is_empty sizes then none else some (encode_sizes sizes)

assign_new : (k v : ℕ) (m : List (ℕ × ℕ)) → has k m ≡ false → assign k v m ≡ m ++ ((k, v) ∷ [])
unfolding assign find
assign_new k v [] h = refl
assign_new k v ((j, w) ∷ m) h = ground (arith, assign_new k v m)

module _ (c : Coding) (law : IsCoding c) where
  decode_pairs-encode_pairs :
      (sizes acc : List (ℕ × ℕ)) (rest : Bytes)
      → All (λ p. IsU64 p.0 × IsU64 p.1) sizes
      → Distinct sizes
      → Fresh acc sizes
      → decode_pairs c (length sizes) acc (encode_pairs c sizes ++ rest) ≡ some (acc ++ sizes, rest)
  unfolding decode_pairs encode_pairs
  decode_pairs-encode_pairs [] acc rest r d f = ap (λ x. some (x, rest)) (sym (append-nil acc))
  decode_pairs-encode_pairs ((k, v) ∷ ps) acc rest ((rk, rv), r) (new, d) (apart, f) =
      let more = encode_pairs c ps ++ rest in
      rw
        (
          append_assoc,
          append_assoc (c.put_varint64 k) (c.put_varint64 v) more,
          law.varint64_read k (c.put_varint64 v ++ more) rk,
        )
        (rw (law.varint64_read v more rv) (
          rw (assign_new k v acc apart) (
            decode_pairs-encode_pairs ps (acc ++ ((k, v) ∷ [])) rest r d
              (Fresh-next k v acc ps new f)
            ∙ ap (λ x. some (x, rest)) (append_assoc acc ((k, v) ∷ []) ps))))

  -- Decode reads a table's property back into an empty map: up to 2^32 - 1 files, each once.
  pub decode_sizes-encode_sizes :
      (sizes : List (ℕ × ℕ)) (rest : Bytes)
      → IsU32 (length sizes)
      → All (λ p. IsU64 p.0 × IsU64 p.1) sizes
      → Distinct sizes
      → decode_sizes c [] (encode_sizes c sizes ++ rest) ≡ some (sizes, rest)
  unfolding decode_sizes encode_sizes
  decode_sizes-encode_sizes sizes rest n r d =
      let whole : length sizes % 2 ^ 32 ≡ length sizes = omega arith in
      rw (whole, append_assoc, law.varint32_read (length sizes) (encode_pairs c sizes ++ rest) n)
        (decode_pairs-encode_pairs sizes [] rest r d (Fresh-nil sizes))

-- The sizes of the indexes of one file, added up.
abbrev pub sum_of : ℕ → List BlobIndex → ℕ
sum_of n [] = 0
sum_of n (i ∷ is) = (if i.file_number == n then i.blob_handle.size else 0) + sum_of n is

abbrev pub count_indexes : List BlobIndex → List (ℕ × ℕ) → List (ℕ × ℕ)
count_indexes [] sizes = sizes
count_indexes (i ∷ is) sizes = count_indexes is (count_index i sizes)

-- What a map says of a file; 0 for none.
abbrev pub size_of : Option ℕ → ℕ
size_of none = 0
size_of (some v) = v

count_index-size :
    (i : BlobIndex) (n : ℕ) (sizes : List (ℕ × ℕ))
    → IsU64 i.blob_handle.size
    → size_of (find n (count_index i sizes)) % 2 ^ 64
      ≡ (size_of (find n sizes) + (if i.file_number == n then i.blob_handle.size else 0)) % 2 ^ 64
unfolding count_index
count_index-size i n sizes w =
    let k = i.file_number in
    let after = find-assign k n (counted (find k sizes) i) sizes in
    elim (Bool-cases (k == n)) [
      | inr other ↦ ground (arith, after, other)
      | inl same ↦
          let old : find k sizes ≡ find n sizes = ap (λ j. find j sizes) ((==_iff k n).0 same) in
          elim (Option-cases (find n sizes)) [
            | inl none_there ↦ ground (arith, after, same, old, none_there)
            | inr (v, there) ↦ ground (arith, after, same, old, there)
          ]
    ]

-- After the indexes of a table, the map has for every file the sum of the sizes that the indexes of
-- the file name, modulo 2^64.
pub count_indexes-sum_of :
    (is : List BlobIndex) (n : ℕ) (sizes : List (ℕ × ℕ))
    → All (λ i. IsU64 i.blob_handle.size) is
    → size_of (find n (count_indexes is sizes)) % 2 ^ 64
      ≡ (size_of (find n sizes) + sum_of n is) % 2 ^ 64
count_indexes-sum_of [] n sizes w = omega arith
count_indexes-sum_of (i ∷ is) n sizes (w, ws) =
    omega (arith, count_indexes-sum_of is n (count_index i sizes) ws, count_index-size i n sizes w)
