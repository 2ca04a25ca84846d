-- ===== src/Gfx.antt =====
-- g15daemon/g15daemon/gfx_primitives.c: drawing into the 160 x 43 bitmap of an `lcd_t`.
-- The functions touch only `lcd->buf`, so each takes and returns the buffer. `unsigned int` and
-- `int` values are 32-bit patterns, with the wrap-around of the C code written out; an `int` is
-- negative when its pattern is at least 2 ^ 31. `setpixel` has no bounds check: an index outside the
-- array is a fault.
pub mod Pixel
pub mod Line
pub mod Rectangle
pub mod Bignum
pub mod Font
pub mod Cells
pub mod Glyphs
use g15daemon.Prelude.{
  ℕ, zero, suc, ◌+◌, ◌-◌, ◌*◌, ◌/◌, ◌%◌, ◌^◌, Bool, true, false, ◌&&◌, ◌==◌, ◌!=◌, ltb, leb,
  if◌then◌else◌, bit_and, bit_or, Run, ok, fault, out_of_fuel, ◌>>=◌, ◌||◌, not, List, [], ◌∷◌,
}

abbrev pub lcd_width : ℕ
lcd_width = 160

abbrev pub lcd_height : ℕ
lcd_height = 43

-- The length of `lcd->buf`.
abbrev pub lcd_bufsize : ℕ
lcd_bufsize = 1048

abbrev pub black : ℕ
black = 1

abbrev pub white : ℕ
white = 0

-- `unsigned char buf[1048]`: the byte at each index.
abbrev pub Buf : Type 0
Buf = ℕ → ℕ

unfoldable pub write : Buf → ℕ → ℕ → Buf
write buf i v j = if j == i then v else buf j

abbrev pub u32 : ℕ → ℕ
u32 n = n % 2 ^ 32

-- a + b and a - b of two `unsigned int`s.
unfoldable pub add32 : ℕ → ℕ → ℕ
add32 a b = u32 (a + b)

unfoldable pub sub32 : ℕ → ℕ → ℕ
sub32 a b = u32 (a + 2 ^ 32 - b)

-- `d >= 0` of an `int`.
abbrev pub nonneg : ℕ → Bool
nonneg d = ltb d (2 ^ 31)

-- `abs (dx)` of an `int`.
unfoldable pub abs32 : ℕ → ℕ
abs32 d = if nonneg d then d else 2 ^ 32 - d

-- The byte that `setpixel` stores: `v | 1 << bit` or `v & ~(1 << bit)`, cut to an unsigned char.
unfoldable pub put_bit : ℕ → ℕ → ℕ → ℕ
put_bit v bit val =
    if val != 0 then bit_or v (2 ^ bit) % 256 else bit_and v (2 ^ 32 - 1 - 2 ^ bit) % 256

pub setpixel : Buf → (x y val : ℕ) → Run Buf
setpixel buf x y val =
    let pixel_offset = u32 (y * lcd_width + x) in
    let byte_offset = pixel_offset / 8 in
    let bit_offset = 7 - pixel_offset % 8 in
    if ltb byte_offset lcd_bufsize
    then ok (write buf byte_offset (put_bit (buf byte_offset) bit_offset val))
    else fault

-- The loop over x1 of `line`. The C code steps y1 where `d >= 0`, then x1, then sets the pixel.
pub x_loop : (fuel : ℕ) (ax ay sx sy x2 colour : ℕ) → Buf → (x1 y1 d : ℕ) → Run Buf
x_loop zero ax ay sx sy x2 colour buf x1 y1 d = out_of_fuel
x_loop (suc fuel) ax ay sx sy x2 colour buf x1 y1 d =
    let y1' = if nonneg d then add32 y1 sy else y1 in
    let d' = if nonneg d then sub32 d ax else d in
    let x1' = add32 x1 sx in
    let round = setpixel buf x1' y1' colour >>= λ b.
    x_loop fuel ax ay sx sy x2 colour b x1' y1' (add32 d' ay) in
    if x1 != x2 then round else ok buf

-- The loop over y1.
pub y_loop : (fuel : ℕ) (ax ay sx sy y2 colour : ℕ) → Buf → (x1 y1 d : ℕ) → Run Buf
y_loop zero ax ay sx sy y2 colour buf x1 y1 d = out_of_fuel
y_loop (suc fuel) ax ay sx sy y2 colour buf x1 y1 d =
    let x1' = if nonneg d then add32 x1 sx else x1 in
    let d' = if nonneg d then sub32 d ay else d in
    let y1' = add32 y1 sy in
    let round = setpixel buf x1' y1' colour >>= λ b.
    y_loop fuel ax ay sx sy y2 colour b x1' y1' (add32 d' ax) in
    if y1 != y2 then round else ok buf

-- `sx` and `sy`: 1, or the pattern of -1.
unfoldable pub sign32 : ℕ → ℕ
sign32 d = if nonneg d then 1 else 2 ^ 32 - 1

-- `line` behind the four decrements, from the differences `dx` and `dy`.
pub line_from : Buf → (x1 y1 x2 y2 dx dy colour : ℕ) → Run Buf
unfolding x_loop y_loop sign32 abs32
line_from buf x1 y1 x2 y2 dx dy colour =
    let ax = u32 (abs32 dx * 2) in
    let ay = u32 (abs32 dy * 2) in
    setpixel buf x1 y1 colour >>= λ b.
    if ltb ay ax
    then x_loop (suc (abs32 dx)) ax ay (sign32 dx) (sign32 dy) x2 colour b x1 y1 (sub32 ay (ax / 2))
    else y_loop (suc (abs32 dy)) ax ay (sign32 dx) (sign32 dy) y2 colour b x1 y1 (sub32 ax (ay / 2))

pub line : Buf → (x1 y1 x2 y2 colour : ℕ) → Run Buf
unfolding line_from
line buf x1 y1 x2 y2 colour =
    let x1' = sub32 x1 1 in
    let y1' = sub32 y1 1 in
    let x2' = sub32 x2 1 in
    let y2' = sub32 y2 1 in line_from buf x1' y1' x2' y2' (sub32 x2' x1') (sub32 y2' y1') colour

-- The rows of a filled rectangle: `y` is an `int`, compared as unsigned with y2.
pub fill_loop : (fuel : ℕ) (x1 x2 y2 colour : ℕ) → Buf → (y : ℕ) → Run Buf
fill_loop zero x1 x2 y2 colour buf y = out_of_fuel
fill_loop (suc fuel) x1 x2 y2 colour buf y =
    let round = line buf x1 y x2 y colour >>= λ b. fill_loop fuel x1 x2 y2 colour b (add32 y 1) in
    if leb y y2 then round else ok buf

-- The four sides. The first `line` ends at (x2, x1), as in the source.
pub outline : Buf → (x1 y1 x2 y2 colour : ℕ) → Run Buf
outline buf x1 y1 x2 y2 colour = line buf x1 y1 x2 x1 colour >>= λ b.
    line b x1 y1 x1 y2 colour >>= λ b. line b x1 y2 x2 y2 colour >>= λ b. line b x2 y1 x2 y2 colour

pub rectangle : Buf → (x1 y1 x2 y2 filled colour : ℕ) → Run Buf
unfolding outline fill_loop
rectangle buf x1 y1 x2 y2 filled colour =
    if (x1 != x2) && (y1 != y2)
    then if filled == 0
      then outline buf x1 y1 x2 y2 colour
      else fill_loop (y2 - y1 + 2) x1 x2 y2 colour buf y1
    else ok buf

-- The arguments of a `rectangle` call that fills.
pub record Rect : Type 0 where
  pub x1 : ℕ
  pub y1 : ℕ
  pub x2 : ℕ
  pub y2 : ℕ
  pub colour : ℕ

abbrev pub rect : ℕ → ℕ → ℕ → ℕ → ℕ → Rect
rect x1 y1 x2 y2 colour = record { x1 = x1; y1 = y1; x2 = x2; y2 = y2; colour = colour }

pub fill_all : List Rect → Buf → Run Buf
fill_all [] buf = ok buf
fill_all (r ∷ rs) buf = rectangle buf r.x1 r.y1 r.x2 r.y2 1 r.colour >>= fill_all rs

-- The `rectangle` calls of each case of the switch in `draw_bignum`, in order.
pub bignum_rects : (x1 y1 x2 y2 num : ℕ) → List Rect
bignum_rects x1 y1 x2 y2 num =
    let above = add32 y1 (sub32 (y2 / 2) 3) in
    let below = add32 y1 (add32 (y2 / 2) 3) in
    let left = add32 x1 5 in
    let right = sub32 x2 5 in
    let top = add32 y1 5 in
    let bottom = sub32 y2 6 in
    let box = rect x1 y1 x2 y2 black in
    if num == 45
    then rect x1 (add32 y1 (sub32 (y2 / 2) 2)) x2 (add32 y1 (add32 (y2 / 2) 2)) black ∷ []
    else if num == 46
    then rect right (sub32 y2 5) x2 y2 black ∷ []
    else if num == 48
    then box ∷ rect left top right bottom white ∷ []
    else if num == 49
    then rect right y1 x2 y2 black ∷ rect x1 y1 right y2 white ∷ []
    else if num == 50
    then box ∷ rect x1 top right above white ∷ rect left below x2 bottom white ∷ []
    else if num == 51
    then box ∷ rect x1 top right above white ∷ rect x1 below right bottom white ∷ []
    else if num == 52
    then box ∷ rect x1 below right y2 white ∷ rect left y1 right above white ∷ []
    else if num == 53
    then box ∷ rect left top x2 above white ∷ rect x1 below right bottom white ∷ []
    else if num == 54
    then box ∷ rect left top x2 above white ∷ rect left below right bottom white ∷ []
    else if num == 55
    then box ∷ rect x1 top right y2 white ∷ []
    else if num == 56
    then box ∷ rect left top right above white ∷ rect left below right bottom white ∷ []
    else if num == 57
    then box ∷ rect left top right above white ∷ rect x1 below right y2 white ∷ []
    else if num == 58
    then rect right (add32 y1 5) x2 (add32 y1 10) black
      ∷ rect right (sub32 y2 10) x2 (sub32 y2 5) black
      ∷ []
    else []

-- `colour` of the C function is never read.
pub draw_bignum : Buf → (x1 y1 x2 y2 num : ℕ) → Run Buf
unfolding fill_all bignum_rects
draw_bignum buf x1 y1 x2 y2 num = fill_all (bignum_rects (add32 x1 2) y1 (sub32 x2 2) y2 num) buf
