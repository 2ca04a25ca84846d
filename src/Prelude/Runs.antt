-- ===== src/Prelude/Runs.antt =====
-- Runs of C code: a value, a fault (an access that the C standard leaves undefined), or a loop that
-- was given too few rounds.
use mathlib.Core.Path.{◌≡◌, refl}

pub data Run {ℓ} (A : Type ℓ) : Type ℓ where
  ok : A → Run A
  fault : Run A
  out_of_fuel : Run A

module _ {ℓ κ} {A : Type ℓ} {B : Type κ} where
  infixl 5 ◌>>=◌
  abbrev pub ◌>>=◌ : Run A → (A → Run B) → Run B
  ok a >>= k = k a
  fault >>= k = fault
  out_of_fuel >>= k = out_of_fuel

-- Total correctness: the run returns, and its result satisfies `P`.
pub data Returns {ℓ κ} {A : Type ℓ} (P : A → Type κ) : Run A → Type (ℓ ⊔ κ) where
  returns : {a : A} → P a → Returns P (ok a)

module _ {ℓ κ} {A : Type ℓ} {P : A → Type κ} where
  pub Returns-bind {ν μ} :
      {B : Type ν} {Q : B → Type μ} {r : Run A} {k : A → Run B}
      → Returns P r
      → ((a : A) → P a → Returns Q (k a))
      → Returns Q (r >>= k)
  Returns-bind (returns p) next = next _ p

  pub Returns-mono {μ} :
      {Q : A → Type μ} {r : Run A} → Returns P r → ((a : A) → P a → Q a) → Returns Q r
  Returns-mono (returns p) weaken = returns (weaken _ p)

  pub Returns-value : {r : Run A} → Returns P r → (a : A) × (r ≡ ok a) × P a
  Returns-value (returns {a} p) = (a, refl, p)
