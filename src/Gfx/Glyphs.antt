-- ===== src/Gfx/Glyphs.antt =====
-- `draw_bignum` draws its characters as the font has them.
use g15daemon.Prelude.{
  ℕ, zero, suc, ◌+◌, ◌-◌, ◌≤◌, ◌<◌, ◌≡◌, refl, Bool, true, false, ◌&&◌, leb, ◌==◌, List, [], ◌∷◌,
  arith, Returns, Returns-mono, Bool-cases, inl, inr, eq_of_==, subst, sym, ap, ◌∙◌, all_below,
  same,
}
use g15daemon.Gfx.{Buf, draw_bignum, Rect, bignum_rects, add32, sub32}
use g15daemon.Gfx.Rectangle.{in_box}
use g15daemon.Gfx.Bignum.{painted, draw_bignum-painted}
use g15daemon.Gfx.Pixel.{Shows, Shows-congr}
use g15daemon.Gfx.Font.{row_of, column_of, written}
use g15daemon.Gfx.Cells.{Zone, zone, covers, paint, agree, agree-at, row_of-lt, column_of-lt}

module _ (x1 x2 : ℕ) (left : 0 < x1) (wide : x1 + 16 ≤ x2) (right : x2 ≤ 162) where
  -- The rectangle consists of the cells.
  abbrev Fits : Rect → Zone → Type 0
  Fits r z =
      (r.colour ≡ z.colour)
      × ((x y : ℕ)
          → in_box (r.x1 - 1) (r.y1 - 1) (r.x2 - 1) (r.y2 - 1) x y
            ≡ covers z (row_of y) (column_of x1 x2 x))

  abbrev AllFit : List Rect → List Zone → Type 0
  AllFit [] [] = Unit {0}
  AllFit [] (z ∷ zs) = zero ≡ suc zero
  AllFit (r ∷ rs) [] = zero ≡ suc zero
  AllFit (r ∷ rs) (z ∷ zs) = Fits r z × AllFit rs zs

  painted-paint :
      (rs : List Rect) (zs : List Zone) (f : ℕ → ℕ → Bool) (x y : ℕ)
      → AllFit rs zs
      → painted rs f x y ≡ paint zs (row_of y) (column_of x1 x2 x) (f x y)
  unfolding painted
  painted-paint [] [] f x y h = refl
  painted-paint [] (z ∷ zs) f x y h = absurd (omega arith)
  painted-paint (r ∷ rs) [] f x y h = absurd (omega arith)
  painted-paint (r ∷ rs) (z ∷ zs) f x y ((colour, fits), rest) =
      painted-paint rs zs _ x y rest
      ∙ ap (paint zs (row_of y) (column_of x1 x2 x)) (rw (fits x y, colour) refl)

  -- The rectangles draw the character.
  Draws : (num : ℕ) → Type 0
  Draws num =
      (f : ℕ → ℕ → Bool) (x y : ℕ)
      → painted (bignum_rects (x1 + 2) 1 (x2 - 2) 43 num) f x y ≡ written x1 x2 num f x y

  digit :
      (num : ℕ) (zs : List Zone)
      → (leb 48 num && leb num 57) ≡ true
      → AllFit (bignum_rects (x1 + 2) 1 (x2 - 2) 43 num) zs
      → agree num zs ≡ true
      → Draws num
  unfolding Draws written
  digit num zs h fits e f x y = rw h (
      painted-paint _ zs f x y fits
      ∙ agree-at num zs (row_of y) (column_of x1 x2 x) (f x y) e (row_of-lt y)
          (column_of-lt x1 x2 x))

  nought : Draws 48
  unfolding bignum_rects add32 sub32 column_of row_of agree all_below same
  nought =
      digit 48 (zone 0 0 2 4 1 ∷ zone 1 1 1 3 0 ∷ []) refl
        ((refl, λ x y. ground arith), ((refl, λ x y. ground arith), tt)) refl

  two : Draws 50
  unfolding bignum_rects add32 sub32 column_of row_of agree all_below same
  two =
      digit 50 (zone 0 0 2 4 1 ∷ zone 0 1 1 1 0 ∷ zone 1 3 2 3 0 ∷ []) refl
        (
          (refl, λ x y. ground arith),
          ((refl, λ x y. ground arith), ((refl, λ x y. ground arith), tt)),
        )
        refl

  three : Draws 51
  unfolding bignum_rects add32 sub32 column_of row_of agree all_below same
  three =
      digit 51 (zone 0 0 2 4 1 ∷ zone 0 1 1 1 0 ∷ zone 0 3 1 3 0 ∷ []) refl
        (
          (refl, λ x y. ground arith),
          ((refl, λ x y. ground arith), ((refl, λ x y. ground arith), tt)),
        )
        refl

  four : Draws 52
  unfolding bignum_rects add32 sub32 column_of row_of agree all_below same
  four =
      digit 52 (zone 0 0 2 4 1 ∷ zone 0 3 1 4 0 ∷ zone 1 0 1 1 0 ∷ []) refl
        (
          (refl, λ x y. ground arith),
          ((refl, λ x y. ground arith), ((refl, λ x y. ground arith), tt)),
        )
        refl

  five : Draws 53
  unfolding bignum_rects add32 sub32 column_of row_of agree all_below same
  five =
      digit 53 (zone 0 0 2 4 1 ∷ zone 1 1 2 1 0 ∷ zone 0 3 1 3 0 ∷ []) refl
        (
          (refl, λ x y. ground arith),
          ((refl, λ x y. ground arith), ((refl, λ x y. ground arith), tt)),
        )
        refl

  six : Draws 54
  unfolding bignum_rects add32 sub32 column_of row_of agree all_below same
  six =
      digit 54 (zone 0 0 2 4 1 ∷ zone 1 1 2 1 0 ∷ zone 1 3 1 3 0 ∷ []) refl
        (
          (refl, λ x y. ground arith),
          ((refl, λ x y. ground arith), ((refl, λ x y. ground arith), tt)),
        )
        refl

  seven : Draws 55
  unfolding bignum_rects add32 sub32 column_of row_of agree all_below same
  seven =
      digit 55 (zone 0 0 2 4 1 ∷ zone 0 1 1 4 0 ∷ []) refl
        ((refl, λ x y. ground arith), ((refl, λ x y. ground arith), tt)) refl

  eight : Draws 56
  unfolding bignum_rects add32 sub32 column_of row_of agree all_below same
  eight =
      digit 56 (zone 0 0 2 4 1 ∷ zone 1 1 1 1 0 ∷ zone 1 3 1 3 0 ∷ []) refl
        (
          (refl, λ x y. ground arith),
          ((refl, λ x y. ground arith), ((refl, λ x y. ground arith), tt)),
        )
        refl

  nine : Draws 57
  unfolding bignum_rects add32 sub32 column_of row_of agree all_below same
  nine =
      digit 57 (zone 0 0 2 4 1 ∷ zone 1 1 1 1 0 ∷ zone 0 3 1 4 0 ∷ []) refl
        (
          (refl, λ x y. ground arith),
          ((refl, λ x y. ground arith), ((refl, λ x y. ground arith), tt)),
        )
        refl

  one : Draws 49
  unfolding Draws written painted bignum_rects add32 sub32 column_of row_of
  one f x y = ground arith

  dash : Draws 45
  unfolding Draws written painted bignum_rects add32 sub32 column_of row_of
  dash f x y = ground arith

  point : Draws 46
  unfolding Draws written painted bignum_rects add32 sub32 column_of row_of
  point f x y = ground arith

  colon : Draws 58
  unfolding Draws written painted bignum_rects add32 sub32 column_of row_of
  colon f x y = ground arith

  none_else :
      (num : ℕ)
      → bignum_rects (x1 + 2) 1 (x2 - 2) 43 num ≡ []
      → (leb 48 num && leb num 57) ≡ false
      → (num == 45) ≡ false
      → (num == 46) ≡ false
      → (num == 58) ≡ false
      → Draws num
  unfolding Draws written painted
  none_else num e digits dash point colon f x y = rw (e, digits, dash, point, colon) refl

  or_else : (num n : ℕ) → Draws n → ((num == n) ≡ false → Draws num) → Draws num
  or_else num n at else_at = elim (Bool-cases (num == n)) [
    | inl e ↦ subst Draws (sym (eq_of_== num n e)) at
    | inr e ↦ else_at e
  ]

  bignum_rects-Draws : (num : ℕ) → Draws num
  unfolding bignum_rects
  bignum_rects-Draws num = or_else num 45 dash λ n45. or_else num 46 point λ n46.
      or_else num 48 nought λ n48. or_else num 49 one λ n49. or_else num 50 two λ n50.
        or_else num 51 three λ n51. or_else num 52 four λ n52. or_else num 53 five λ n53.
          or_else num 54 six λ n54. or_else num 55 seven λ n55. or_else num 56 eight λ n56.
            or_else num 57 nine λ n57. or_else num 58 colon λ n58.
              none_else num
                (rw (n45, n46, n48, n49, n50, n51, n52, n53, n54, n55, n56, n57, n58) refl)
                (ground arith) n45 n46 n58

-- A character that is given room is drawn: where it is a digit, the cells of the font have its ink and
-- nothing else; the dash is the middle row, and the point and the colon are dots at the right; any
-- other character draws nothing. Outside its columns and off the screen nothing changes.
pub draw_bignum-Shows :
    {a : Buf} (f : ℕ → ℕ → Bool) (b : Buf) (x1 y1 x2 y2 num : ℕ)
    → 0 < x1
    → x1 + 16 ≤ x2
    → x2 ≤ 162
    → y1 ≡ 1
    → y2 ≡ 43
    → Shows a f b
    → Returns (Shows a (written x1 x2 num f)) (draw_bignum b x1 y1 x2 y2 num)
unfolding Draws
draw_bignum-Shows f b x1 y1 x2 y2 num left wide right e1 e2 sh =
    Returns-mono (draw_bignum-painted f b x1 y1 x2 y2 num left wide right e1 e2 sh) λ c sc.
      Shows-congr (λ x y. rw (e1, e2) (bignum_rects-Draws x1 x2 left wide right num f x y)) sc
