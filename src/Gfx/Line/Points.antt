-- ===== src/Gfx/Line/Points.antt =====
-- Walking along one axis, and the picture after a sequence of pixels.
use g15daemon.Prelude.{
  ℕ, zero, suc, ◌+◌, ◌-◌, ◌^◌, ◌≤◌, ◌<◌, ◌≡◌, ◌⊎◌, refl, Bool, true, false, ◌&&◌, ◌||◌, ◌==◌, ◌!=◌,
  if◌then◌else◌, arith, inl, inr,
}
use g15daemon.Gfx.{add32}
use g15daemon.Gfx.Pixel.{plot}

-- From `x`, n steps of `s` (1, or the pattern of -1) lead to `to`.
abbrev pub Leads : (s n x to : ℕ) → Type 0
Leads s n x to = (s ≡ 1) × (x + n ≡ to) ⊎ (s ≡ 2 ^ 32 - 1) × (x ≡ to + n)

-- The place from which n steps of `s` lead to `to`.
unfoldable pub before : (s to n : ℕ) → ℕ
before s to n = if s == 1 then to - n else to + n

pub Leads-before : (s n x to : ℕ) → Leads s n x to → x ≡ before s to n
unfolding before
Leads-before s n x to (inl h) = ground arith
Leads-before s n x to (inr h) = ground arith

pub Leads-step :
    (s n x to k : ℕ)
    → Leads s (suc n) x to
    → x < k
    → to < k
    → k ≤ 160
    → Leads s n (add32 x s) to × (add32 x s < k)
unfolding add32
Leads-step s n x to k (inl h) hx hto hk = (omega arith, omega arith)
Leads-step s n x to k (inr h) hx hto hk = (omega arith, omega arith)

pub Leads-ne : (s n x to : ℕ) → Leads s (suc n) x to → (x != to) ≡ true
Leads-ne s n x to (inl h) = ground arith
Leads-ne s n x to (inr h) = ground arith

pub Leads-zero : (s x to : ℕ) → Leads s 0 x to → (x != to) ≡ false
Leads-zero s x to (inl h) = ground arith
Leads-zero s x to (inr h) = ground arith

module _ (px py : ℕ → ℕ) where
  -- The picture after the pixels n - 1, ..., 0 are set.
  unfoldable pub trace : (colour n : ℕ) → (ℕ → ℕ → Bool) → ℕ → ℕ → Bool
  trace colour zero f = f
  trace colour (suc n) f = trace colour n (plot f (px n) (py n) colour)

  -- Is (x, y) one of the pixels n - 1, ..., 0?
  unfoldable pub among : (n x y : ℕ) → Bool
  among zero x y = false
  among (suc n) x y = (x == px n) && (y == py n) || among n x y

  pub trace-among :
      (colour n : ℕ) (f : ℕ → ℕ → Bool) (x y : ℕ)
      → trace colour n f x y ≡ (if among n x y then colour != 0 else f x y)
  unfolding trace among
  trace-among colour zero f x y = refl
  trace-among colour (suc n) f x y =
      ground (arith, trace-among colour n (plot f (px n) (py n) colour) x y)
