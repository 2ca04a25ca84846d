-- ===== src/Prelude/Tests.antt =====
-- Boolean tests on the native numbers, the conditional, and case splits that keep an equation.
use Prim.Native.Nat.{ℕ, ◌≤◌, ◌<◌, compare, Ordering}
use mathlib.Core.Path.{◌≡◌, refl}
use mathlib.Core.Logic.{◌≢◌, ◌⊎◌, inl, inr}
use mathlib.Core.Bool.{Bool, true, false}
use native.Mathlib.Omega.{arith}

abbrev pub ltb : ℕ → ℕ → Bool
ltb a b = elim (compare a b) [ Ordering.lt ↦ true | _ ↦ false ]

abbrev pub leb : ℕ → ℕ → Bool
leb a b = elim (compare a b) [ Ordering.gt ↦ false | _ ↦ true ]

infix 50 ◌==◌ ◌!=◌
abbrev pub ◌==◌ : ℕ → ℕ → Bool
a == b = elim (compare a b) [ Ordering.eq ↦ true | _ ↦ false ]

abbrev pub ◌!=◌ : ℕ → ℕ → Bool
a != b = elim (compare a b) [ Ordering.eq ↦ false | _ ↦ true ]

infix 1 if◌then◌else◌
abbrev pub if◌then◌else◌ {ℓ} : {A : Type ℓ} → Bool → A → A → A
if true then x else y = x
if false then x else y = y

pub Bool-cases : (b : Bool) → (b ≡ true) ⊎ (b ≡ false)
Bool-cases true = inl refl
Bool-cases false = inr refl

pub eq_of_== : (a b : ℕ) → (a == b) ≡ true → a ≡ b
eq_of_== a b h = ground arith

pub ==-eq_true : (a b : ℕ) → a ≡ b → (a == b) ≡ true
==-eq_true a b h = ground arith

pub ==-eq_false : (a b : ℕ) → a ≢ b → (a == b) ≡ false
==-eq_false a b h = ground arith

pub ltb-eq_true : (a b : ℕ) → a < b → ltb a b ≡ true
ltb-eq_true a b h = ground arith

pub ltb-eq_false : (a b : ℕ) → b ≤ a → ltb a b ≡ false
ltb-eq_false a b h = ground arith

pub lt_of_ltb : (a b : ℕ) → ltb a b ≡ true → a < b
lt_of_ltb a b h = ground arith

pub le_of_ltb : (a b : ℕ) → ltb a b ≡ false → b ≤ a
le_of_ltb a b h = ground arith

pub ne_of_!= : (a b : ℕ) → (a != b) ≡ true → a ≢ b
ne_of_!= a b h = ground arith

pub eq_of_!= : (a b : ℕ) → (a != b) ≡ false → a ≡ b
eq_of_!= a b h = ground arith

pub !=-eq_true : (a b : ℕ) → a ≢ b → (a != b) ≡ true
!=-eq_true a b h = ground arith
