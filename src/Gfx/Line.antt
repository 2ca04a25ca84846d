-- ===== src/Gfx/Line.antt =====
-- `line` against the ideal line: counted back from its end, the pixels are those at n steps along
-- the longer axis and at n * minor / major steps, rounded, along the other.
pub mod Error
pub mod Points
pub mod Walks
pub mod Loops
use mathlib.Core.Path.{ap₂, fun_ext}
use g15daemon.Prelude.{
  ℕ, zero, suc, ◌+◌, ◌-◌, ◌*◌, ◌/◌, ◌%◌, ◌^◌, ◌≤◌, ◌<◌, ◌≡◌, ◌⊎◌, refl, Bool, true, false, ◌==◌,
  ◌!=◌, ltb, leb, if◌then◌else◌, arith, Run, ok, Returns, returns, ltb-eq_true, ltb-eq_false,
  Returns-bind, Returns-mono, Bool-cases, inl, inr, ap, ◌∙◌, sym, lt_of_ltb, le_of_ltb, ◌>>=◌,
}
use g15daemon.Gfx.{Buf, setpixel, add32, sub32, abs32, sign32, x_loop, y_loop, line_from, line}
use g15daemon.Gfx.Pixel.{Shows, Shows-congr, plot, setpixel-Shows}
use Error.{IsError, steps_left}
use Points.{Leads, before, trace, among, trace-among}
use Walks.{March, IsAt, u_of, v_of, IsAt-u, IsAt-v}
use Loops.{Shows-plot, x_loop-Shows, y_loop-Shows}

abbrev pub dist : ℕ → ℕ → ℕ
dist a b = (a - b) + (b - a)

-- n steps before b on the way from a.
unfoldable pub back : (a b n : ℕ) → ℕ
back a b n = if leb a b then b - n else b + n

-- Is (x, y) on the line from (x1, y1) to (x2, y2)?
unfoldable pub on_line : (x1 y1 x2 y2 : ℕ) → ℕ → ℕ → Bool
on_line x1 y1 x2 y2 x y =
    if ltb (dist y1 y2) (dist x1 x2)
    then among (back x1 x2) (λ n. back y1 y2 (steps_left (dist x1 x2) (dist y1 y2) n))
        (suc (dist x1 x2)) x y
    else among (λ n. back x1 x2 (steps_left (dist y1 y2) (dist x1 x2) n)) (back y1 y2)
        (suc (dist y1 y2)) x y

-- The picture with the pixels of `s` set to `colour`.
abbrev pub over : (s : ℕ → ℕ → Bool) (colour : ℕ) (f : ℕ → ℕ → Bool) → ℕ → ℕ → Bool
over s colour f x y = if s x y then colour != 0 else f x y

module _ (a b : ℕ) (ha : a < 160) (hb : b < 160) where
  abs32-sub32 : abs32 (sub32 b a) ≡ dist a b
  unfolding abs32 sub32
  abs32-sub32 = ground arith

  Leads-sign32 : Leads (sign32 (sub32 b a)) (dist a b) a b
  unfolding sign32 sub32
  Leads-sign32 = ground arith

  before-back : (n : ℕ) → before (sign32 (sub32 b a)) b n ≡ back a b n
  unfolding before back sign32 sub32
  before-back n = ground arith

sub32-add : (n : ℕ) → n < 160 → sub32 (n + 1) 1 ≡ n
unfolding sub32
sub32-add n h = omega arith

IsError-start :
    (major minor : ℕ)
    → minor ≤ major
    → 0 < major
    → major ≤ 160
    → IsError major minor major minor (sub32 (2 * minor) (2 * major / 2))
unfolding sub32
IsError-start major minor h p s = omega arith

module _ {a : Buf} (f : ℕ → ℕ → Bool) (b : Buf) (x1 y1 x2 y2 colour : ℕ) (hx1 : x1 < 160)
    (hy1 : y1 < 43) (hx2 : x2 < 160) (hy2 : y2 < 43) (sh : Shows a f b) where
  abbrev dx : ℕ
  dx = dist x1 x2

  abbrev dy : ℕ
  dy = dist y1 y2

  abbrev sx : ℕ
  sx = sign32 (sub32 x2 x1)

  abbrev sy : ℕ
  sy = sign32 (sub32 y2 y1)

  abbrev flat : dy < dx → March
  flat h = record {
    major = dx;
    minor = dy;
    su = sx;
    sv = sy;
    u2 = x2;
    v2 = y2;
    w = 160;
    h = 43;
    order = omega arith;
    pos = omega arith;
    small = omega arith;
    end_u = hx2;
    end_v = hy2;
    small_w = omega arith;
    small_h = omega arith;
  }

  abbrev steep : dx ≤ dy → 0 < dy → March
  steep h p = record {
    major = dy;
    minor = dx;
    su = sy;
    sv = sx;
    u2 = y2;
    v2 = x2;
    w = 43;
    h = 160;
    order = omega arith;
    pos = omega arith;
    small = omega arith;
    end_u = hy2;
    end_v = hx2;
    small_w = omega arith;
    small_h = omega arith;
  }

  IsAt-flat : (h : dy < dx) → IsAt (flat h) dx dy x1 y1 (sub32 (2 * dy) (2 * dx / 2))
  IsAt-flat h = record {
    at_u = Leads-sign32 x1 x2 hx1 hx2;
    at_v = Leads-sign32 y1 y2 (omega arith) (omega arith);
    error = IsError-start dx dy (omega arith) (omega arith) (omega arith);
    in_u = hx1;
    in_v = hy1;
  }

  IsAt-steep :
      (h : dx ≤ dy) (p : 0 < dy) → IsAt (steep h p) dy dx y1 x1 (sub32 (2 * dx) (2 * dy / 2))
  IsAt-steep h p = record {
    at_u = Leads-sign32 y1 y2 (omega arith) (omega arith);
    at_v = Leads-sign32 x1 x2 hx1 hx2;
    error = IsError-start dy dx h p (omega arith);
    in_u = hy1;
    in_v = hx1;
  }

  flat-Shows :
      (h : dy < dx) (c : Buf)
      → Shows a (plot f x1 y1 colour) c
      → Returns
          (Shows a (trace (u_of (flat h)) (v_of (flat h)) colour (suc dx) f))
          (x_loop (suc dx) (2 * dx) (2 * dy) sx sy x2 colour c x1 y1 (sub32 (2 * dy) (2 * dx / 2)))
  unfolding trace
  flat-Shows h c sc =
      x_loop-Shows (flat h) colour dx (suc dx) c _ dy x1 y1 _ refl refl (omega arith) (IsAt-flat h)
        (Shows-plot f colour (IsAt-u (flat h) (IsAt-flat h)) (IsAt-v (flat h) (IsAt-flat h)) sc)

  steep-Shows :
      (h : dx ≤ dy) (p : 0 < dy) (c : Buf)
      → Shows a (plot f x1 y1 colour) c
      → Returns
          (Shows a (trace (v_of (steep h p)) (u_of (steep h p)) colour (suc dy) f))
          (y_loop (suc dy) (2 * dx) (2 * dy) sx sy y2 colour c x1 y1 (sub32 (2 * dx) (2 * dy / 2)))
  unfolding trace
  steep-Shows h p c sc =
      y_loop-Shows (steep h p) colour dy (suc dy) c _ dx y1 x1 _ refl refl (omega arith)
        (IsAt-steep h p)
        (Shows-plot f colour (IsAt-v (steep h p) (IsAt-steep h p))
          (IsAt-u (steep h p) (IsAt-steep h p)) sc)

  -- The picture that is wanted.
  abbrev drawn : ℕ → ℕ → Bool
  drawn = over (on_line x1 y1 x2 y2) colour f

  double : (n : ℕ) → n ≤ 160 → n * 2 % 2 ^ 32 ≡ 2 * n
  double n h = omega arith

  flat-drawn :
      (h : dy < dx) (x y : ℕ)
      → trace (u_of (flat h)) (v_of (flat h)) colour (suc dx) f x y ≡ drawn x y
  unfolding on_line
  flat-drawn h x y =
      trace-among (u_of (flat h)) (v_of (flat h)) colour (suc dx) f x y
      ∙ rw (ltb-eq_true dy dx h) (
          ap₂ (λ px py. if among px py (suc dx) x y then colour != 0 else f x y)
            (fun_ext (before-back x1 x2 hx1 hx2))
            (fun_ext λ n. before-back y1 y2 (omega arith) (omega arith) (steps_left dx dy n)))

  steep-drawn :
      (h : dx ≤ dy) (p : 0 < dy) (x y : ℕ)
      → trace (v_of (steep h p)) (u_of (steep h p)) colour (suc dy) f x y ≡ drawn x y
  unfolding on_line
  steep-drawn h p x y =
      trace-among (v_of (steep h p)) (u_of (steep h p)) colour (suc dy) f x y
      ∙ rw (ltb-eq_false dy dx h) (
          ap₂ (λ px py. if among px py (suc dy) x y then colour != 0 else f x y)
            (fun_ext λ n. before-back x1 x2 hx1 hx2 (steps_left dy dx n))
            (fun_ext (before-back y1 y2 (omega arith) (omega arith))))

  abbrev loops : Buf → Run Buf
  loops c =
      if ltb (2 * dy) (2 * dx)
      then x_loop (suc dx) (2 * dx) (2 * dy) sx sy x2 colour c x1 y1 (sub32 (2 * dy) (2 * dx / 2))
      else y_loop (suc dy) (2 * dx) (2 * dy) sx sy y2 colour c x1 y1 (sub32 (2 * dx) (2 * dy / 2))

  line_from-eq :
      line_from b x1 y1 x2 y2 (sub32 x2 x1) (sub32 y2 y1) colour
      ≡ (setpixel b x1 y1 colour >>= loops)
  unfolding line_from
  line_from-eq = simp (
    abs32-sub32 x1 x2 hx1 hx2,
    abs32-sub32 y1 y2 (omega arith) (omega arith),
    double dx (omega arith),
    double dy (omega arith),
  )

  point-drawn : dx ≡ 0 → dy ≡ 0 → (x y : ℕ) → plot f x1 y1 colour x y ≡ drawn x y
  unfolding on_line among back steps_left
  point-drawn ex ey x y = rw (ex, ey) (ground arith)

  -- Both distances are 0.
  stop-Shows :
      dx ≡ 0
      → dy ≡ 0
      → (c : Buf) → Shows a (plot f x1 y1 colour) c
      → Returns
          (Shows a drawn)
          (y_loop (suc dy) (2 * dx) (2 * dy) sx sy y2 colour c x1 y1 (sub32 (2 * dx) (2 * dy / 2)))
  unfolding y_loop
  stop-Shows ex ey c sc =
      let stop : (y1 != y2) ≡ false = ground arith in
      rw stop (returns (Shows-congr (point-drawn ex ey) sc))

  loops-Shows : (c : Buf) → Shows a (plot f x1 y1 colour) c → Returns (Shows a drawn) (loops c)
  loops-Shows c sc = elim (Bool-cases (ltb dy dx)) [
    | inl h ↦
        let h' = lt_of_ltb dy dx h in
        rw (ltb-eq_true (2 * dy) (2 * dx) (omega arith))
          (Returns-mono (flat-Shows h' c sc) λ c'. Shows-congr (flat-drawn h'))
    | inr h ↦
        let h' = le_of_ltb dy dx h in
        rw (ltb-eq_false (2 * dy) (2 * dx) (omega arith)) (elim (Bool-cases (ltb 0 dy)) [
          | inl p ↦
              let p' = lt_of_ltb 0 dy p in
              Returns-mono (steep-Shows h' p' c sc) λ c'. Shows-congr (steep-drawn h' p')
          | inr p ↦ let p' = le_of_ltb 0 dy p in stop-Shows (omega arith) (omega arith) c sc
        ])
  ]

  pub line_from-Shows :
      Returns
        (Shows a (over (on_line x1 y1 x2 y2) colour f))
        (line_from b x1 y1 x2 y2 (sub32 x2 x1) (sub32 y2 y1) colour)
  line_from-Shows =
      rw line_from-eq (Returns-bind (setpixel-Shows sh x1 y1 colour hx1 hy1) loops-Shows)

-- `line` between two points of the screen, which it counts from 1, returns and gives the colour to
-- one pixel for each step along the longer side, both ends included, the shorter side's coordinate
-- rounded as `on_line` says, and to no other pixel; the buffer behind the picture stays as it was.
pub line-Shows :
    {a : Buf} (f : ℕ → ℕ → Bool) (b : Buf) (x1 y1 x2 y2 colour : ℕ)
    → x1 < 160
    → y1 < 43
    → x2 < 160
    → y2 < 43
    → Shows a f b
    → Returns
        (Shows a (over (on_line x1 y1 x2 y2) colour f))
        (line b (x1 + 1) (y1 + 1) (x2 + 1) (y2 + 1) colour)
unfolding line
line-Shows f b x1 y1 x2 y2 colour hx1 hy1 hx2 hy2 sh =
    simp
      (
        sub32-add x1 (omega arith),
        sub32-add y1 (omega arith),
        sub32-add x2 (omega arith),
        sub32-add y2 (omega arith),
      )
      (line_from-Shows f b x1 y1 x2 y2 colour hx1 hy1 hx2 hy2 sh)
