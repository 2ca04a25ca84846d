-- ===== src/Prelude/Tables.antt =====
-- Facts about small numbers, checked by evaluation for every value.
use Prim.Native.Nat.{ℕ, zero, suc, ◌<◌}
use mathlib.Core.Path.{◌≡◌, refl}
use mathlib.Core.Bool.{Bool, true, false, ◌&&◌}
use native.Mathlib.Omega.{arith}

unfoldable pub all_below : ℕ → (ℕ → Bool) → Bool
all_below zero p = true
all_below (suc n) p = p n && all_below n p

pub all_below_lem : (n : ℕ) (p : ℕ → Bool) (x : ℕ) → all_below n p ≡ true → x < n → p x ≡ true
unfolding all_below
all_below_lem zero p x h lt = absurd (omega arith)
all_below_lem (suc n) p x h lt = ground (arith, all_below_lem n p x)

unfoldable pub same : Bool → Bool → Bool
same true b = b
same false true = false
same false false = true

pub eq_of_same : (a b : Bool) → same a b ≡ true → a ≡ b
unfolding same
eq_of_same true true h = refl
eq_of_same true false h = cc
eq_of_same false true h = cc
eq_of_same false false h = refl
