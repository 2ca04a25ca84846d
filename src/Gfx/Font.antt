-- ===== src/Gfx/Font.antt =====
-- The characters of `draw_bignum`, described by a font: a digit is three columns wide and five rows
-- high, and its strokes are five pixels wide.
use Prim.Native.String.{String}
use g15daemon.Prelude.{
  ℕ, zero, suc, ◌+◌, ◌-◌, Bool, ◌&&◌, ◌||◌, ltb, leb, ◌==◌, if◌then◌else◌, List, [], ◌∷◌,
}
use g15daemon.Text.{Text, codes}
use g15daemon.Gfx.Rectangle.{in_box}

abbrev pub picture : (a b c e f : String) → List Text
picture a b c e f = codes a ∷ codes b ∷ codes c ∷ codes e ∷ codes f ∷ []

abbrev pub font : (num : ℕ) → List Text
font num =
    if num == 48
    then picture "###" "#.#" "#.#" "#.#" "###"
    else if num == 49
    then picture "..#" "..#" "..#" "..#" "..#"
    else if num == 50
    then picture "###" "..#" "###" "#.." "###"
    else if num == 51
    then picture "###" "..#" "###" "..#" "###"
    else if num == 52
    then picture "#.#" "#.#" "###" "..#" "..#"
    else if num == 53
    then picture "###" "#.." "###" "..#" "###"
    else if num == 54
    then picture "###" "#.." "###" "#.#" "###"
    else if num == 55
    then picture "###" "..#" "..#" "..#" "..#"
    else if num == 56
    then picture "###" "#.#" "###" "#.#" "###"
    else picture "###" "#.#" "###" "..#" "..#"

abbrev pub char_at : Text → ℕ → ℕ
char_at [] i = 0
char_at (c ∷ cs) zero = c
char_at (c ∷ cs) (suc i) = char_at cs i

abbrev pub line_at : List Text → ℕ → Text
line_at [] i = []
line_at (t ∷ ts) zero = t
line_at (t ∷ ts) (suc i) = line_at ts i

-- Whether the font has ink in the cell.
abbrev pub ink : (num row column : ℕ) → Bool
ink num row column = char_at (line_at (font num) row) column == 35

-- The column of the font that the pixel column `x` belongs to, where the character is drawn between
-- x1 and x2; 3 is outside.
unfoldable pub column_of : (x1 x2 x : ℕ) → ℕ
column_of x1 x2 x =
    if ltb x (x1 + 1)
    then 3
    else if ltb x (x1 + 6)
    then 0
    else if ltb x (x2 - 7)
    then 1
    else if ltb x (x2 - 2)
    then 2
    else 3

unfoldable pub row_of : (y : ℕ) → ℕ
row_of y =
    if ltb y 5
    then 0
    else if ltb y 19
    then 1
    else if ltb y 24
    then 2
    else if ltb y 37
    then 3
    else if ltb y 43
    then 4
    else 5

abbrev pub in_cell : (row column : ℕ) → Bool
in_cell row column = ltb column 3 && ltb row 5

-- The picture `f` with the character `num` drawn on it. A digit covers all of its cells; the dash, the
-- point and the colon leave what is round them.
unfoldable pub written : (x1 x2 num : ℕ) → (ℕ → ℕ → Bool) → ℕ → ℕ → Bool
written x1 x2 num f x y =
    if leb 48 num && leb num 57
    then (if in_cell (row_of y) (column_of x1 x2 x)
        then ink num (row_of y) (column_of x1 x2 x)
        else f x y)
    else if num == 45
    then f x y || (ltb (column_of x1 x2 x) 3 && (row_of y == 2))
    else if num == 46
    then f x y || in_box (x2 - 8) 37 (x2 - 3) 42 x y
    else if num == 58
    then f x y || (in_box (x2 - 8) 5 (x2 - 3) 10 x y || in_box (x2 - 8) 32 (x2 - 3) 37 x y)
    else f x y
