-- ===== src/Gfx/Cells.antt =====
-- Paintings of whole cells, and whether they agree with the font.
use g15daemon.Prelude.{
  ℕ, ◌<◌, ◌≡◌, Bool, true, false, ◌&&◌, ◌!=◌, if◌then◌else◌, List, [], ◌∷◌, arith, all_below,
  all_below_lem, same, eq_of_same,
}
use g15daemon.Gfx.Rectangle.{in_box}
use g15daemon.Gfx.Font.{ink, in_cell, row_of, column_of}

-- The cells from (c1, r1) to (c2, r2).
pub record Zone : Type 0 where
  pub c1 : ℕ
  pub r1 : ℕ
  pub c2 : ℕ
  pub r2 : ℕ
  pub colour : ℕ

abbrev pub zone : ℕ → ℕ → ℕ → ℕ → ℕ → Zone
zone c1 r1 c2 r2 colour = record { c1 = c1; r1 = r1; c2 = c2; r2 = r2; colour = colour }

abbrev pub covers : Zone → (row column : ℕ) → Bool
covers z row column = in_box z.c1 z.r1 z.c2 z.r2 column row

abbrev pub paint : List Zone → (row column : ℕ) → Bool → Bool
paint [] row column b = b
paint (z ∷ zs) row column b = paint zs row column (if covers z row column then z.colour != 0 else b)

-- A cell behind the painting, as the font has it.
abbrev pub wanted : (num row column : ℕ) → Bool → Bool
wanted num row column b = if in_cell row column then ink num row column else b

abbrev pub agrees : (num : ℕ) → List Zone → (row column : ℕ) → Bool
agrees num zs row column =
    same (paint zs row column true) (wanted num row column true)
    && same (paint zs row column false) (wanted num row column false)

-- Whether the rectangles and the font agree on every cell and outside.
unfoldable pub agree : (num : ℕ) → List Zone → Bool
agree num zs = all_below 6 λ row. all_below 4 λ column. agrees num zs row column

and_left : (a b : Bool) → (a && b) ≡ true → a ≡ true
and_left a b h = ground arith

and_right : (a b : Bool) → (a && b) ≡ true → b ≡ true
and_right a b h = ground arith

pub agree-at :
    (num : ℕ) (zs : List Zone) (row column : ℕ) (b : Bool)
    → agree num zs ≡ true
    → row < 6
    → column < 4
    → paint zs row column b ≡ wanted num row column b
unfolding agree
agree-at num zs row column b h hr hc = by_value b (
    all_below_lem 4 (agrees num zs row) column
      (all_below_lem 6 (λ r. all_below 4 λ c. agrees num zs r c) row h hr) hc)
  where
    by_value :
        (b : Bool)
        → agrees num zs row column ≡ true
        → paint zs row column b ≡ wanted num row column b
    by_value true e = eq_of_same _ _ (and_left _ _ e)
    by_value false e = eq_of_same _ _ (and_right _ _ e)

pub row_of-lt : (y : ℕ) → row_of y < 6
unfolding row_of
row_of-lt y = ground arith

pub column_of-lt : (x1 x2 x : ℕ) → column_of x1 x2 x < 4
unfolding column_of
column_of-lt x1 x2 x = ground arith
