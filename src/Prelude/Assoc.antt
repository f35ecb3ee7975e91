-- ===== src/Prelude/Assoc.antt =====
-- std::unordered_map and std::map with uint64_t keys, as association lists in insertion order.
use Prim.Native.Nat.{ℕ}
use mathlib.Core.Path.{◌≡◌, refl, sym, ◌∙◌}
use mathlib.Core.Logic.{◌≢◌}
use mathlib.Core.Bool.{Bool, false, not}
use mathlib.Core.Option.{Option, none, some}
use mathlib.Core.List.{List, [], ◌∷◌, ◌++◌, append-nil, append_assoc}
use native.Mathlib.Omega.{arith}
use diffkv.Prelude.Tests.{◌==◌, if◌then◌else◌, is_none}

module _ {ℓ} {V : Type ℓ} where
  unfoldable pub find : ℕ → List (ℕ × V) → Option V
  find k [] = none
  find k ((j, v) ∷ m) = if j == k then some v else find k m

  -- `m.emplace(k, v)`: an entry that is there stays.
  unfoldable pub emplace : ℕ → V → List (ℕ × V) → List (ℕ × V)
  emplace k v [] = (k, v) ∷ []
  emplace k v ((j, w) ∷ m) = if j == k then (j, w) ∷ m else (j, w) ∷ emplace k v m

  -- `m[k] = v`
  unfoldable pub assign : ℕ → V → List (ℕ × V) → List (ℕ × V)
  assign k v [] = (k, v) ∷ []
  assign k v ((j, w) ∷ m) = if j == k then (j, v) ∷ m else (j, w) ∷ assign k v m

  -- A write through a pointer to the entry of `k`.
  unfoldable pub modify : ℕ → (V → V) → List (ℕ × V) → List (ℕ × V)
  modify k f [] = []
  modify k f ((j, w) ∷ m) = if j == k then (j, f w) ∷ m else (j, w) ∷ modify k f m

  -- `m.erase(k)`
  unfoldable pub erase : ℕ → List (ℕ × V) → List (ℕ × V)
  erase k [] = []
  erase k ((j, w) ∷ m) = if j == k then m else (j, w) ∷ erase k m

  -- `m.count(k) > 0`
  abbrev pub has : ℕ → List (ℕ × V) → Bool
  has k m = not (is_none (find k m))

  -- No key twice.
  abbrev pub Distinct : List (ℕ × V) → Type 0
  Distinct [] = Unit {0}
  Distinct ((k, v) ∷ m) = (has k m ≡ false) × Distinct m

  pub find-emplace :
      (k j : ℕ) (v : V) (m : List (ℕ × V))
      → find j (emplace k v m)
        ≡ (if is_none (find k m) then (if k == j then some v else find j m) else find j m)
  unfolding find emplace
  find-emplace k j v [] = refl
  find-emplace k j v ((i, w) ∷ m) = ground (arith, find-emplace k j v m)

  pub find-assign :
      (k j : ℕ) (v : V) (m : List (ℕ × V))
      → find j (assign k v m) ≡ (if k == j then some v else find j m)
  unfolding assign find
  find-assign k j v [] = refl
  find-assign k j v ((i, w) ∷ m) = ground (arith, find-assign k j v m)

  pub find-modify_self :
      (k : ℕ) (f : V → V) (m : List (ℕ × V)) (v : V)
      → find k m ≡ some v
      → find k (modify k f m) ≡ some (f v)
  unfolding find modify
  find-modify_self k f [] v h = ground arith
  find-modify_self k f ((i, w) ∷ m) v h = ground (arith, find-modify_self k f m v)

  pub find-modify_ne :
      (k j : ℕ) (f : V → V) (m : List (ℕ × V)) → k ≢ j → find j (modify k f m) ≡ find j m
  unfolding find modify
  find-modify_ne k j f [] h = refl
  find-modify_ne k j f ((i, w) ∷ m) h = ground (arith, find-modify_ne k j f m h)

  pub find-erase_ne : (k j : ℕ) (m : List (ℕ × V)) → k ≢ j → find j (erase k m) ≡ find j m
  unfolding find erase
  find-erase_ne k j [] h = refl
  find-erase_ne k j ((i, w) ∷ m) h = ground (arith, find-erase_ne k j m h)

  pub find-erase_self : (k : ℕ) (m : List (ℕ × V)) → Distinct m → find k (erase k m) ≡ none
  unfolding find erase
  find-erase_self k [] d = refl
  find-erase_self k ((i, w) ∷ m) d = ground (arith, find-erase_self k m d.1)

  pub emplace_new :
      (k : ℕ) (v : V) (m : List (ℕ × V)) → find k m ≡ none → emplace k v m ≡ m ++ ((k, v) ∷ [])
  unfolding find emplace
  emplace_new k v [] h = refl
  emplace_new k v ((i, w) ∷ m) h = ground (arith, emplace_new k v m)

  pub find-append :
      (k : ℕ) (m n : List (ℕ × V))
      → find k (m ++ n) ≡ (if is_none (find k m) then find k n else find k m)
  unfolding find
  find-append k [] n = refl
  find-append k ((i, w) ∷ m) n = ground (arith, find-append k m n)

  pub emplace-Distinct : (k : ℕ) (v : V) (m : List (ℕ × V)) → Distinct m → Distinct (emplace k v m)
  unfolding emplace find
  emplace-Distinct k v [] d = (refl, tt)
  emplace-Distinct k v ((i, w) ∷ m) d =
      ground (arith, emplace-Distinct k v m d.1, find-emplace k i v m)

  pub find-modify_none :
      (k j : ℕ) (f : V → V) (m : List (ℕ × V)) → has j m ≡ false → has j (modify k f m) ≡ false
  unfolding modify find
  find-modify_none k j f [] h = refl
  find-modify_none k j f ((i, w) ∷ m) h = ground (arith, find-modify_none k j f m)

  pub modify-Distinct :
      (k : ℕ) (f : V → V) (m : List (ℕ × V)) → Distinct m → Distinct (modify k f m)
  unfolding modify find
  modify-Distinct k f [] d = tt
  modify-Distinct k f ((i, w) ∷ m) d =
      ground (arith, modify-Distinct k f m d.1, find-modify_none k i f m d.0)

  pub find-erase_none : (k j : ℕ) (m : List (ℕ × V)) → has j m ≡ false → has j (erase k m) ≡ false
  unfolding erase find
  find-erase_none k j [] h = refl
  find-erase_none k j ((i, w) ∷ m) h = ground (arith, find-erase_none k j m)

  pub erase-Distinct : (k : ℕ) (m : List (ℕ × V)) → Distinct m → Distinct (erase k m)
  unfolding erase find
  erase-Distinct k [] d = tt
  erase-Distinct k ((i, w) ∷ m) d =
      ground (arith, erase-Distinct k m d.1, find-erase_none k i m d.0)

  -- Entries put into a map one by one.
  unfoldable pub emplace_all : List (ℕ × V) → List (ℕ × V) → List (ℕ × V)
  emplace_all [] m = m
  emplace_all ((k, v) ∷ es) m = emplace_all es (emplace k v m)

  abbrev pub Fresh : List (ℕ × V) → List (ℕ × V) → Type 0
  Fresh m [] = Unit {0}
  Fresh m ((k, v) ∷ es) = (has k m ≡ false) × Fresh m es

  pub Fresh-nil : (es : List (ℕ × V)) → Fresh [] es
  unfolding find
  Fresh-nil [] = tt
  Fresh-nil ((k, v) ∷ es) = (refl, Fresh-nil es)

  pub Fresh-next :
      (k : ℕ) (v : V) (m es : List (ℕ × V))
      → has k es ≡ false
      → Fresh m es
      → Fresh (m ++ ((k, v) ∷ [])) es
  unfolding find
  Fresh-next k v m [] h f = tt
  Fresh-next k v m ((j, w) ∷ es) h f =
      ground (arith, find-append j m ((k, v) ∷ []), Fresh-next k v m es (ground arith) f.1)

  emplace_all-append : (es m : List (ℕ × V)) → Distinct es → Fresh m es → emplace_all es m ≡ m ++ es
  unfolding emplace_all
  emplace_all-append [] m d f = sym (append-nil m)
  emplace_all-append ((k, v) ∷ es) m d f = rw (emplace_new k v m (ground arith)) (
      emplace_all-append es (m ++ ((k, v) ∷ [])) d.1 (Fresh-next k v m es d.0 f.1)
      ∙ append_assoc m ((k, v) ∷ []) es)

  -- A map is rebuilt from its entries, in their order.
  pub emplace_all_lem : (es : List (ℕ × V)) → Distinct es → emplace_all es [] ≡ es
  emplace_all_lem es d = emplace_all-append es [] d (Fresh-nil es)
