-- ===== src/Storage/Totals.antt =====
-- Sums over the files of a storage, under the map operations.
use diffkv.Prelude.{ℕ, ◌+◌, ◌≡◌, false, some, List, [], ◌∷◌, All, arith}
use diffkv.Prelude.Assoc.{find, emplace, modify, erase, has}

module _ {V : Type 0} (w : V → ℕ) where
  abbrev pub total : List (ℕ × V) → ℕ
  total [] = 0
  total ((k, v) ∷ m) = w v + total m

  pub total-emplace :
      (k : ℕ) (v : V) (m : List (ℕ × V)) → has k m ≡ false → total (emplace k v m) ≡ total m + w v
  unfolding find emplace
  total-emplace k v [] h = omega arith
  total-emplace k v ((j, x) ∷ m) h = ground (arith, total-emplace k v m)

  pub total-modify :
      (k : ℕ) (f : V → V) (m : List (ℕ × V)) (v : V)
      → find k m ≡ some v
      → total (modify k f m) + w v ≡ total m + w (f v)
  unfolding find modify
  total-modify k f [] v h = cc
  total-modify k f ((j, x) ∷ m) v h = ground (arith, total-modify k f m v)

  pub total-erase :
      (k : ℕ) (m : List (ℕ × V)) (v : V) → find k m ≡ some v → total (erase k m) + w v ≡ total m
  unfolding find erase
  total-erase k [] v h = cc
  total-erase k ((j, x) ∷ m) v h = ground (arith, total-erase k m v)

-- A property of every entry, under the same operations.
module _ {V : Type 0} (P : ℕ × V → Type 0) where
  pub All-find : (k : ℕ) (m : List (ℕ × V)) (v : V) → All P m → find k m ≡ some v → P (k, v)
  unfolding find
  All-find k [] v a h = cc
  All-find k ((j, x) ∷ m) v a h = ground (arith, All-find k m v a.1)

  pub All-emplace : (k : ℕ) (v : V) (m : List (ℕ × V)) → All P m → P (k, v) → All P (emplace k v m)
  unfolding emplace
  All-emplace k v [] a p = (p, tt)
  All-emplace k v ((j, x) ∷ m) a p = ground (arith, All-emplace k v m a.1 p)

  pub All-modify :
      (k : ℕ) (v : V) (m : List (ℕ × V)) → All P m → P (k, v) → All P (modify k (λ _. v) m)
  unfolding modify
  All-modify k v [] a p = tt
  All-modify k v ((j, x) ∷ m) a p = ground (arith, All-modify k v m a.1 p)

  pub All-erase : (k : ℕ) (m : List (ℕ × V)) → All P m → All P (erase k m)
  unfolding erase
  All-erase k [] a = tt
  All-erase k ((j, x) ∷ m) a = ground (arith, All-erase k m a.1)
