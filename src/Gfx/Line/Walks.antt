-- ===== src/Gfx/Line/Walks.antt =====
-- The walk of a loop of `line` towards the end point, with the error term that steers it.
use g15daemon.Prelude.{
  ℕ, zero, suc, ◌*◌, ◌≤◌, ◌<◌, ◌≡◌, true, false, if◌then◌else◌, arith, Bool-cases, inl, inr, ap,
  ◌∙◌,
}
use g15daemon.Gfx.{add32, sub32, nonneg}
use g15daemon.Gfx.Line.Error.{IsError, steps_left, due, step_true, step_false, IsError-steps_left}
use g15daemon.Gfx.Line.Points.{Leads, before, Leads-before, Leads-step}

-- One axis is the major one, u, with coordinates below w; the other is v, with coordinates below h.
-- The walk ends at (u2, v2), by steps su and sv.
pub record March : Type 0 where
  pub major : ℕ
  pub minor : ℕ
  pub su : ℕ
  pub sv : ℕ
  pub u2 : ℕ
  pub v2 : ℕ
  pub w : ℕ
  pub h : ℕ
  pub order : minor ≤ major
  pub pos : 0 < major
  pub small : major ≤ 160
  pub end_u : u2 < w
  pub end_v : v2 < h
  pub small_w : w ≤ 160
  pub small_h : h ≤ 160

module _ (c : March) where
  open c use {major, minor, su, sv, u2, v2, w, h, order, pos, small, end_u, end_v, small_w, small_h}

  abbrev pub u_of : ℕ → ℕ
  u_of n = before su u2 n

  abbrev pub v_of : ℕ → ℕ
  v_of n = before sv v2 (steps_left major minor n)

  -- The state of a loop with n rounds and m steps along v left.
  pub record IsAt (n m u v d : ℕ) : Type 0 where
    pub at_u : Leads su n u u2
    pub at_v : Leads sv m v v2
    pub error : IsError major minor n m d
    pub in_u : u < w
    pub in_v : v < h

  IsAt-step_true :
      (n m u v d : ℕ)
      → IsAt (suc n) (suc m) u v d
      → nonneg d ≡ true
      → IsAt n m (add32 u su) (add32 v sv) (add32 (sub32 d (2 * major)) (2 * minor))
  IsAt-step_true n m u v d s e =
      let (at_u, in_u) = Leads-step su n u u2 w s.at_u s.in_u end_u small_w in
      let (at_v, in_v) = Leads-step sv m v v2 h s.at_v s.in_v end_v small_h in
      record {
        at_u = at_u;
        at_v = at_v;
        error = step_true order pos small n m d s.error e;
        in_u = in_u;
        in_v = in_v;
      }

  IsAt-step_false :
      (n m u v d : ℕ)
      → IsAt (suc n) m u v d
      → nonneg d ≡ false
      → IsAt n m (add32 u su) v (add32 d (2 * minor))
  IsAt-step_false n m u v d s e =
      let (at_u, in_u) = Leads-step su n u u2 w s.at_u s.in_u end_u small_w in
      record {
        at_u = at_u;
        at_v = s.at_v;
        error = step_false order pos small n m d s.error e;
        in_u = in_u;
        in_v = s.in_v;
      }

  -- The next round, whichever way the test goes.
  pub IsAt-step :
      (n m u v d : ℕ)
      → IsAt (suc n) m u v d
      → (m' : ℕ) × IsAt n m'
          (add32 u su)
          (if nonneg d then add32 v sv else v)
          (add32 (if nonneg d then sub32 d (2 * major) else d) (2 * minor))
  IsAt-step n zero u v d s = elim (Bool-cases (nonneg d)) [
    | inl e ↦ absurd (omega (arith, due order pos small n zero d s.error e))
    | inr e ↦ (0, rw e (IsAt-step_false n zero u v d s e))
  ]
  IsAt-step n (suc m) u v d s = elim (Bool-cases (nonneg d)) [
    | inl e ↦ (m, rw e (IsAt-step_true n m u v d s e))
    | inr e ↦ (suc m, rw e (IsAt-step_false n (suc m) u v d s e))
  ]

  pub IsAt-u : {n m u v d : ℕ} → IsAt n m u v d → u ≡ u_of n
  IsAt-u {n} {u} s = Leads-before su n u u2 s.at_u

  pub IsAt-v : {n m u v d : ℕ} → IsAt n m u v d → v ≡ v_of n
  IsAt-v {n} {m} {v} {d} s =
      Leads-before sv m v v2 s.at_v
      ∙ ap (λ m. before sv v2 m) (IsError-steps_left order pos small n m d s.error)
