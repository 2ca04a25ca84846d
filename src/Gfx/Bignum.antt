-- ===== src/Gfx/Bignum.antt =====
-- `draw_bignum`: each character is a sequence of filled rectangles.
use g15daemon.Prelude.{
  ℕ, ◌+◌, ◌-◌, ◌≤◌, ◌<◌, ◌≡◌, Bool, List, [], ◌∷◌, arith, Returns, returns, Returns-bind,
}
use g15daemon.Gfx.{Buf, add32, sub32, Rect, rectangle, fill_all, bignum_rects, draw_bignum}
use g15daemon.Gfx.Pixel.{Shows}
use g15daemon.Gfx.Line.{over}
use g15daemon.Gfx.Rectangle.{in_box, rectangle_filled-Shows}

-- A rectangle with distinct corners inside the screen, counted from 1.
pub record IsInside (r : Rect) : Type 0 where
  pub left : 0 < r.x1
  pub top : 0 < r.y1
  pub wide : r.x1 < r.x2
  pub high : r.y1 < r.y2
  pub right : r.x2 ≤ 160
  pub bottom : r.y2 ≤ 43

abbrev pub AllInside : List Rect → Type 0
AllInside [] = Unit {0}
AllInside (r ∷ rs) = IsInside r × AllInside rs

-- The picture after the rectangles are filled one after the other.
unfoldable pub painted : List Rect → (ℕ → ℕ → Bool) → ℕ → ℕ → Bool
painted [] f = f
painted (r ∷ rs) f =
    painted rs (over (in_box (r.x1 - 1) (r.y1 - 1) (r.x2 - 1) (r.y2 - 1)) r.colour f)

one_filled-Shows :
    {a : Buf} (f : ℕ → ℕ → Bool) (b : Buf) (r : Rect)
    → IsInside r
    → Shows a f b
    → Returns
        (Shows a (over (in_box (r.x1 - 1) (r.y1 - 1) (r.x2 - 1) (r.y2 - 1)) r.colour f))
        (rectangle b r.x1 r.y1 r.x2 r.y2 1 r.colour)
one_filled-Shows f b r h sh =
    let e1 : r.x1 - 1 + 1 ≡ r.x1 = omega arith in
    let e2 : r.y1 - 1 + 1 ≡ r.y1 = omega arith in
    let e3 : r.x2 - 1 + 1 ≡ r.x2 = omega arith in
    let e4 : r.y2 - 1 + 1 ≡ r.y2 = omega arith in
    rw (e1, e2, e3, e4) at
      (rectangle_filled-Shows f b (r.x1 - 1) (r.y1 - 1) (r.x2 - 1) (r.y2 - 1) 1 r.colour
        (omega arith) (omega arith) (omega arith) (omega arith) (omega arith) sh)

pub fill_all-Shows :
    {a : Buf} (rs : List Rect) (f : ℕ → ℕ → Bool) (b : Buf)
    → AllInside rs
    → Shows a f b
    → Returns (Shows a (painted rs f)) (fill_all rs b)
unfolding fill_all painted
fill_all-Shows [] f b h sh = returns sh
fill_all-Shows (r ∷ rs) f b h sh =
    Returns-bind (one_filled-Shows f b r h.0 sh) λ c sc. fill_all-Shows rs _ c h.1 sc

-- Room for a character: 20 columns, and the rows of the clock.
abbrev pub Room : (x1 y1 x2 y2 : ℕ) → Type 0
Room x1 y1 x2 y2 = (0 < x1) × (x1 + 12 ≤ x2) × (x2 ≤ 160) × (y1 ≡ 1) × (y2 ≡ 43)

pub bignum_rects-AllInside :
    (x1 y1 x2 y2 num : ℕ) → Room x1 y1 x2 y2 → AllInside (bignum_rects x1 y1 x2 y2 num)
unfolding bignum_rects add32 sub32
bignum_rects-AllInside x1 y1 x2 y2 num h = ground arith

-- A character that is given enough room: its rectangles are filled.
pub draw_bignum-painted :
    {a : Buf} (f : ℕ → ℕ → Bool) (b : Buf) (x1 y1 x2 y2 num : ℕ)
    → 0 < x1
    → x1 + 16 ≤ x2
    → x2 ≤ 162
    → y1 ≡ 1
    → y2 ≡ 43
    → Shows a f b
    → Returns
        (Shows a (painted (bignum_rects (x1 + 2) y1 (x2 - 2) y2 num) f))
        (draw_bignum b x1 y1 x2 y2 num)
unfolding draw_bignum
draw_bignum-painted f b x1 y1 x2 y2 num p w q e1 e2 sh =
    let left : add32 x1 2 ≡ x1 + 2 = unfold add32 in omega arith in
    let right : sub32 x2 2 ≡ x2 - 2 = unfold sub32 in omega arith in
    rw (left, right)
      (fill_all-Shows _ f b
        (bignum_rects-AllInside (x1 + 2) y1 (x2 - 2) y2 num
          (omega arith, omega arith, omega arith, e1, e2))
        sh)
