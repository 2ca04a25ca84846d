-- ===== src/Gfx/Line/Error.antt =====
-- The error term `d` of the loops in `line`, read as a signed number: with `major` and `minor` the
-- distances along the two axes, `n` rounds left and `m` steps left along the minor axis, d is
-- 2 minor + 2 major m - 2 minor n - major, and lies between 2 minor - 2 major and 2 minor.
use g15daemon.Prelude.{
  ℕ, zero, suc, ◌+◌, ◌-◌, ◌*◌, ◌/◌, ◌^◌, ◌≤◌, ◌<◌, ◌≡◌, ◌⊎◌, true, false, arith, sym, le_of_ltb,
  lt_of_ltb,
}
use native.Mathlib.Nat.{div-eq_of_lt-le}
use g15daemon.Gfx.{add32, sub32, nonneg}

abbrev pub IsError : (major minor n m d : ℕ) → Type 0
IsError major minor n m d =
    (d < 2 ^ 31) × (d + 2 * (minor * n) + major ≡ 2 * minor + 2 * (major * m)) × (d < 2 * minor)
    ⊎ (2 ^ 31 ≤ d)
      × (d < 2 ^ 32)
      × (d + 2 * (minor * n) + major ≡ 2 * minor + 2 * (major * m) + 2 ^ 32)
      × (2 ^ 32 + 2 * minor ≤ d + 2 * major)

-- Steps along the minor axis that are left when n rounds are left: n * minor / major, rounded.
unfoldable pub steps_left : (major minor n : ℕ) → ℕ
steps_left major minor n = (2 * minor * n + major - 1) / (2 * major)

module _ {major minor : ℕ} (order : minor ≤ major) (pos : 0 < major) (small : major ≤ 160) where
  -- A step along the minor axis is due exactly while one is left.
  pub due : (n m d : ℕ) → IsError major minor (suc n) m d → nonneg d ≡ true → 0 < m
  due n zero d e h = absurd (omega (arith, lt_of_ltb d (2 ^ 31) h))
  due n (suc m) d e h = omega arith

  pub step_true :
      (n m d : ℕ)
      → IsError major minor (suc n) (suc m) d
      → nonneg d ≡ true
      → IsError major minor n m (add32 (sub32 d (2 * major)) (2 * minor))
  unfolding add32 sub32
  step_true n m d e h = omega (arith, lt_of_ltb d (2 ^ 31) h)

  pub step_false :
      (n m d : ℕ)
      → IsError major minor (suc n) m d
      → nonneg d ≡ false
      → IsError major minor n m (add32 d (2 * minor))
  unfolding add32
  step_false n m d e h = omega (arith, le_of_ltb d (2 ^ 31) h)

  pub IsError-steps_left : (n m d : ℕ) → IsError major minor n m d → m ≡ steps_left major minor n
  unfolding steps_left
  IsError-steps_left n m d e = sym (div-eq_of_lt-le {k = m} (2 * major) (omega arith) (omega arith))

  pub IsError-zero : (m d : ℕ) → IsError major minor 0 m d → m ≡ 0
  IsError-zero zero d e = omega arith
  IsError-zero (suc m) d e = absurd (omega arith)
