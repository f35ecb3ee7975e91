-- ===== src/Prelude.antt =====
-- The names that the other modules share, and the outcome of a call of the C++ code.
mod Tests
mod Lists
pub mod Assoc
pub use Tests.*
unfoldable pub use Lists.*
pub use Prim.Native.Nat.{ℕ, zero, suc, ◌+◌, ◌-◌, ◌*◌, ◌/◌, ◌%◌, ◌^◌, ◌≤◌, ◌<◌}
pub use mathlib.Core.Path.{◌≡◌, refl, sym, ap, ◌∙◌}
pub use mathlib.Core.Logic.{◌≢◌, ◌↔◌, ◌⊎◌, inl, inr}
pub use mathlib.Core.Bool.{Bool, true, false, not, ◌&&◌, ◌||◌}
pub use mathlib.Core.Option.{Option, none, some}
pub use mathlib.Core.List.{List, [], ◌∷◌, ◌++◌, map}
pub use native.Mathlib.Omega.{arith}

-- rocksdb::Status, less its message: the code branches on the kind alone.
pub data Status : Type 0 where
  corruption not_found incomplete aborted invalid_argument busy shutdown_in_progress io_error :
      Status

-- A call returns a value, returns a status that is not OK, or fails an assert.
pub data Outcome {ℓ} (A : Type ℓ) : Type ℓ where
  ok : A → Outcome A
  err : Status → Outcome A
  fault : Outcome A

-- `assert(test);`
abbrev pub assert : Bool → Outcome (Unit {0})
assert false = fault
assert true = ok tt

-- `if (!Get...(...)) return s;`
abbrev pub or_err {ℓ} : {A : Type ℓ} → Status → Option A → Outcome A
or_err s none = err s
or_err s (some a) = ok a

-- The next call, with the value of the one before it.
infixl 5 ◌>>=◌
abbrev pub ◌>>=◌ {ℓ κ} : {A : Type ℓ} {B : Type κ} → Outcome A → (A → Outcome B) → Outcome B
fault >>= next = fault
err s >>= next = err s
ok a >>= next = next a

-- `if (!test) return s;`
abbrev pub require : Bool → Status → Outcome (Unit {0})
require false s = err s
require true s = ok tt

-- If a sequence of calls succeeds, its first call did, and so did the others from its value.
pub >>=-eq-ok {ℓ κ} :
    {A : Type ℓ} {B : Type κ} (first : Outcome A) (next : A → Outcome B) {b : B}
    → (first >>= next) ≡ ok b
    → (a : A) × (first ≡ ok a) × (next a ≡ ok b)
>>=-eq-ok fault next e = cc
>>=-eq-ok (err s) next e = cc
>>=-eq-ok (ok a) next e = (a, refl, e)

infixl 5 ◌>>◌
abbrev pub ◌>>◌ {ℓ} : {B : Type ℓ} → Outcome (Unit {0}) → Outcome B → Outcome B
first >> second = first >>= λ _. second

-- To split on the outcome of a call and keep the equation.
pub Outcome-cases {ℓ} :
    {A : Type ℓ} (o : Outcome A)
    → (o ≡ fault) ⊎ (((s : Status) × (o ≡ err s)) ⊎ ((a : A) × (o ≡ ok a)))
Outcome-cases fault = inl refl
Outcome-cases (err s) = inr (inl (s, refl))
Outcome-cases (ok a) = inr (inr (a, refl))

pub ok-injective {ℓ} : {A : Type ℓ} {a b : A} → ok a ≡ ok b → a ≡ b
ok-injective e = cc

abbrev pub Bytes : Type 0
Bytes = List ℕ

-- The ranges of uint32_t and uint64_t.
abbrev pub IsU32 : ℕ → Type 0
IsU32 n = n < 2 ^ 32

abbrev pub IsU64 : ℕ → Type 0
IsU64 n = n < 2 ^ 64

-- uint64_t a + b and a - b, with their wrap-around.
abbrev pub add64 : ℕ → ℕ → ℕ
add64 a b = (a + b) % 2 ^ 64

abbrev pub sub64 : ℕ → ℕ → ℕ
sub64 a b = (a + (2 ^ 64 - b % 2 ^ 64)) % 2 ^ 64
