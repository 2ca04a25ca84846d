-- ===== src/Gfx/Rectangle.antt =====
-- `rectangle`: a filled one sets exactly the pixels between its corners.
use g15daemon.Prelude.{
  ℕ, zero, suc, ◌+◌, ◌-◌, ◌≤◌, ◌<◌, ◌≡◌, ◌≢◌, Bool, true, false, ◌==◌, ◌!=◌, ◌&&◌, ltb, leb, arith,
  Returns, returns, Returns-bind, Returns-mono, Bool-cases, inl, inr, ◌∙◌, le_of_ltb,
}
use native.Mathlib.Nat.{div-zero, div-eq_of_lt}
use g15daemon.Gfx.{Buf, add32, fill_loop, outline, rectangle}
use g15daemon.Gfx.Pixel.{Shows, Shows-congr}
use g15daemon.Gfx.Line.{on_line, over, back, line-Shows}
use g15daemon.Gfx.Line.Error.{steps_left}
use g15daemon.Gfx.Line.Points.{among}

-- Is (x, y) between the corners?
abbrev pub in_box : (x1 y1 x2 y2 : ℕ) → ℕ → ℕ → Bool
in_box x1 y1 x2 y2 x y = leb x1 x && leb x x2 && leb y1 y && leb y y2

steps_left-zero : (major n : ℕ) → steps_left major 0 n ≡ 0
unfolding steps_left
steps_left-zero zero n = div-zero _
steps_left-zero (suc m) n = div-eq_of_lt (omega arith)

steps_left-point : (minor n : ℕ) → steps_left 0 minor n ≡ 0
unfolding steps_left
steps_left-point minor n = div-zero _

among-row :
    (py : ℕ → ℕ) (y : ℕ)
    → ((k : ℕ) → py k ≡ y)
    → (x1 x2 n x' y' : ℕ) → x1 ≤ x2
    → n ≤ suc x2
    → among (back x1 x2) py n x' y' ≡ (leb (suc x2) (x' + n) && leb x' x2 && (y' == y))
unfolding among back
among-row py y e x1 x2 zero x' y' h hn = ground arith
among-row py y e x1 x2 (suc n) x' y' h hn =
    ground (arith, e n, among-row py y e x1 x2 n x' y' h (omega arith))

back_self : (y n k : ℕ) → steps_left n 0 k ≡ 0 → back y y (steps_left n 0 k) ≡ y
unfolding back
back_self y n k e = rw e (ground arith)

among-one : (px py : ℕ → ℕ) (x y : ℕ) → among px py 1 x y ≡ ((x == px 0) && (y == py 0))
unfolding among
among-one px py x y = ground arith

-- A horizontal line.
on_line-row : (x1 x2 y x' y' : ℕ) → x1 ≤ x2 → on_line x1 y x2 y x' y' ≡ in_box x1 y x2 y x' y'
unfolding on_line
on_line-row x1 x2 y x' y' h =
    let flat : (y - y) + (y - y) ≡ 0 = omega arith in
    rw flat (elim (Bool-cases (ltb 0 ((x1 - x2) + (x2 - x1)))) [
      | inl p ↦ rw p (
          ground (
            arith,
            among-row (λ n. back y y (steps_left ((x1 - x2) + (x2 - x1)) 0 n)) y
                (λ k. back_self y _ k (steps_left-zero _ k)) x1 x2 (suc ((x1 - x2) + (x2 - x1))) x'
                y' h (omega arith),
          ))
      | inr p ↦ rw p (
          among-one _ _ x' y'
          ∙ rw (steps_left-point ((x1 - x2) + (x2 - x1)) 0)
              (unfold back in ground (arith, le_of_ltb 0 ((x1 - x2) + (x2 - x1)) p)))
    ])

fill_loop-Shows :
    {a : Buf} (k fuel : ℕ) (f : ℕ → ℕ → Bool) (b : Buf) (x1 x2 y y2 colour : ℕ)
    → k < fuel
    → y + k ≡ suc y2
    → x1 ≤ x2
    → x2 < 160
    → y2 < 43
    → Shows a f b
    → Returns
        (Shows a (over (in_box x1 y x2 y2) colour f))
        (fill_loop fuel (x1 + 1) (x2 + 1) (y2 + 1) colour b (y + 1))
unfolding fill_loop
fill_loop-Shows k zero f b x1 x2 y y2 colour hk e hx hx2 hy2 sh = absurd (omega arith)
fill_loop-Shows zero (suc fuel) f b x1 x2 y y2 colour hk e hx hx2 hy2 sh =
    let stop : leb (y + 1) (y2 + 1) ≡ false = ground arith in
    rw stop (returns (Shows-congr (λ x' y'. ground arith) sh))
fill_loop-Shows (suc k) (suc fuel) f b x1 x2 y y2 colour hk e hx hx2 hy2 sh =
    let go : leb (y + 1) (y2 + 1) ≡ true = ground arith in
    let next : add32 (y + 1) 1 ≡ y + 1 + 1 = unfold add32 in omega arith in
    rw (go, next)
      (Returns-bind
        (line-Shows f b x1 y x2 y colour (omega arith) (omega arith) hx2 (omega arith) sh)
        λ c sc.
          Returns-mono
            (fill_loop-Shows k fuel _ c x1 x2 (y + 1) y2 colour (omega arith) (omega arith) hx hx2
              hy2 sc)
            λ c'. Shows-congr (λ x' y'. ground (arith, on_line-row x1 x2 y x' y' hx)))

-- A filled rectangle sets the pixels between its corners, those included, and no other.
pub rectangle_filled-Shows :
    {a : Buf} (f : ℕ → ℕ → Bool) (b : Buf) (x1 y1 x2 y2 filled colour : ℕ)
    → x1 < x2
    → y1 < y2
    → x2 < 160
    → y2 < 43
    → filled ≢ 0
    → Shows a f b
    → Returns
        (Shows a (over (in_box x1 y1 x2 y2) colour f))
        (rectangle b (x1 + 1) (y1 + 1) (x2 + 1) (y2 + 1) filled colour)
unfolding rectangle
rectangle_filled-Shows f b x1 y1 x2 y2 filled colour hx hy hx2 hy2 hf sh =
    let tx : ((x1 + 1) != (x2 + 1)) ≡ true = ground arith in
    let ty : ((y1 + 1) != (y2 + 1)) ≡ true = ground arith in
    let tf : (filled == 0) ≡ false = ground arith in
    rw (tx, ty, tf)
      (fill_loop-Shows (y2 + 1 - y1) _ f b x1 x2 y1 y2 colour (omega arith) (omega arith)
        (omega arith) hx2 hy2 sh)

-- An outline, where x1 is also a row of the screen: its first side runs from (x1, y1) to
-- (x2, x1), the other three are the left, bottom and right side.
pub rectangle_outline-Shows :
    {a : Buf} (f : ℕ → ℕ → Bool) (b : Buf) (x1 y1 x2 y2 colour : ℕ)
    → x1 < x2
    → y1 < y2
    → x1 < 43
    → x2 < 160
    → y2 < 43
    → Shows a f b
    → Returns
        (Shows a (
          over (on_line x2 y1 x2 y2) colour (
            over
              (on_line x1 y2 x2 y2)
              colour
              (over (on_line x1 y1 x1 y2) colour (over (on_line x1 y1 x2 x1) colour f)))))
        (rectangle b (x1 + 1) (y1 + 1) (x2 + 1) (y2 + 1) 0 colour)
unfolding rectangle outline
rectangle_outline-Shows f b x1 y1 x2 y2 colour hx hy hx1 hx2 hy2 sh =
    let tx : ((x1 + 1) != (x2 + 1)) ≡ true = ground arith in
    let ty : ((y1 + 1) != (y2 + 1)) ≡ true = ground arith in
    rw (tx, ty)
      (Returns-bind (line-Shows f b x1 y1 x2 x1 colour (omega arith) (omega arith) hx2 hx1 sh)
        λ c sc.
          Returns-bind
            (line-Shows _ c x1 y1 x1 y2 colour (omega arith) (omega arith) (omega arith) hy2 sc)
            λ d sd.
              Returns-bind (line-Shows _ d x1 y2 x2 y2 colour (omega arith) hy2 hx2 hy2 sd)
                λ e se. line-Shows _ e x2 y1 x2 y2 colour hx2 (omega arith) hx2 hy2 se)
