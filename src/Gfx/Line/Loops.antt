-- ===== src/Gfx/Line/Loops.antt =====
-- The loops of `line` set exactly the pixels of the walk.
use g15daemon.Prelude.{ℕ, zero, suc, ◌*◌, ◌<◌, ◌≡◌, Bool, arith, Returns, returns, Returns-bind}
use mathlib.Core.Path.{subst₂}
use g15daemon.Gfx.{Buf, x_loop, y_loop}
use g15daemon.Gfx.Pixel.{Shows, plot, setpixel-Shows}
use g15daemon.Gfx.Line.Points.{Leads-ne, Leads-zero, trace}
use g15daemon.Gfx.Line.Walks.{March, u_of, v_of, IsAt, IsAt-step, IsAt-u, IsAt-v}

pub Shows-plot :
    {a b : Buf} (f : ℕ → ℕ → Bool) (colour : ℕ) {x y x' y' : ℕ}
    → x ≡ x'
    → y ≡ y'
    → Shows a (plot f x y colour) b
    → Shows a (plot f x' y' colour) b
Shows-plot {a} {b} f colour ex ey sh = subst₂ (λ x y. Shows a (plot f x y colour) b) ex ey sh

module _ (c : March) (colour : ℕ) where
  open c use {major, minor, su, sv, u2, v2, w, h}

  pub x_loop-Shows :
      {a : Buf} (n fuel : ℕ) (b : Buf) (f : ℕ → ℕ → Bool) (m x y d : ℕ)
      → w ≡ 160
      → h ≡ 43
      → n < fuel
      → IsAt c n m x y d
      → Shows a f b
      → Returns
          (Shows a (trace (u_of c) (v_of c) colour n f))
          (x_loop fuel (2 * major) (2 * minor) su sv u2 colour b x y d)
  unfolding x_loop trace
  x_loop-Shows n zero b f m x y d ew eh hf s sh = absurd (omega arith)
  x_loop-Shows zero (suc fuel) b f m x y d ew eh hf s sh =
      rw (Leads-zero su x u2 s.at_u) (returns sh)
  x_loop-Shows (suc n) (suc fuel) b f m x y d ew eh hf s sh =
      let (m', s') = IsAt-step c n m x y d s in
      rw (Leads-ne su n x u2 s.at_u) (
        Returns-bind (setpixel-Shows sh _ _ colour (omega arith) (omega arith)) λ b' sh'.
          x_loop-Shows n fuel b' (plot f (u_of c n) (v_of c n) colour) m' _ _ _ ew eh (omega arith)
            s' (Shows-plot f colour (IsAt-u c s') (IsAt-v c s') sh'))

  pub y_loop-Shows :
      {a : Buf} (n fuel : ℕ) (b : Buf) (f : ℕ → ℕ → Bool) (m y x d : ℕ)
      → w ≡ 43
      → h ≡ 160
      → n < fuel
      → IsAt c n m y x d
      → Shows a f b
      → Returns
          (Shows a (trace (v_of c) (u_of c) colour n f))
          (y_loop fuel (2 * minor) (2 * major) sv su u2 colour b x y d)
  unfolding y_loop trace
  y_loop-Shows n zero b f m y x d ew eh hf s sh = absurd (omega arith)
  y_loop-Shows zero (suc fuel) b f m y x d ew eh hf s sh =
      rw (Leads-zero su y u2 s.at_u) (returns sh)
  y_loop-Shows (suc n) (suc fuel) b f m y x d ew eh hf s sh =
      let (m', s') = IsAt-step c n m y x d s in
      rw (Leads-ne su n y u2 s.at_u) (
        Returns-bind (setpixel-Shows sh _ _ colour (omega arith) (omega arith)) λ b' sh'.
          y_loop-Shows n fuel b' (plot f (v_of c n) (u_of c n) colour) m' _ _ _ ew eh (omega arith)
            s' (Shows-plot f colour (IsAt-v c s') (IsAt-u c s') sh'))
