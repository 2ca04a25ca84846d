-- ===== src/Gfx/Pixel.antt =====
-- The picture that a buffer holds, and what `setpixel` does to it.
use g15daemon.Prelude.{
  ℕ, zero, suc, ◌+◌, ◌-◌, ◌*◌, ◌/◌, ◌%◌, ◌^◌, ◌≤◌, ◌<◌, ◌≡◌, refl, Bool, true, false, ◌&&◌, ◌==◌,
  ◌!=◌, ltb, if◌then◌else◌, arith, ok, Returns, returns, ◌∙◌, ltb-eq_true, all_below, all_below_lem,
  same, eq_of_same,
}
use native.Mathlib.Nat.{zero-div}
use g15daemon.Gfx.{Buf, write, put_bit, setpixel}

-- Is bit `bit` of `v` set?
abbrev pub test_bit : ℕ → ℕ → Bool
test_bit v bit = (v / 2 ^ bit) % 2 == 1

-- The pixel at column x and row y: one bit, the most significant first, rows of 20 bytes.
unfoldable pub pixel : Buf → ℕ → ℕ → Bool
pixel buf x y = test_bit (buf ((y * 160 + x) / 8)) (7 - (y * 160 + x) % 8)

abbrev pub IsBytes : Buf → Type 0
IsBytes buf = (i : ℕ) → buf i < 256

-- `b` shows the picture `f`, and differs from `a` only in the 860 bytes of the picture.
pub record Shows (a : Buf) (f : ℕ → ℕ → Bool) (b : Buf) : Type 0 where
  pub bytes : IsBytes b
  pub pixels : (x y : ℕ) → x < 160 → y < 43 → pixel b x y ≡ f x y
  pub rest : (i : ℕ) → 860 ≤ i → b i ≡ a i

-- The table over every byte, every bit that is set, and every bit that is read.
abbrev put_ok : ℕ → ℕ → ℕ → ℕ → Bool
put_ok val v bit j =
    same (test_bit (put_bit v bit val) j) (if j == bit then val != 0 else test_bit v j)

abbrev put_table : ℕ → Bool
put_table val = all_below 256 λ v. all_below 8 λ bit. all_below 8 λ j. put_ok val v bit j

put_table_one : put_table 1 ≡ true
unfolding all_below same put_bit
put_table_one = refl

put_table_zero : put_table 0 ≡ true
unfolding all_below same put_bit
put_table_zero = refl

put_bit-suc : (v bit val : ℕ) → put_bit v bit (suc val) ≡ put_bit v bit 1
unfolding put_bit
put_bit-suc v bit val = ground arith

suc_ne_zero : (val : ℕ) → (suc val != 0) ≡ true
suc_ne_zero val = ground arith

put_row :
    (val v bit j : ℕ)
    → put_table val ≡ true
    → v < 256
    → bit < 8
    → j < 8
    → test_bit (put_bit v bit val) j ≡ (if j == bit then val != 0 else test_bit v j)
put_row val v bit j table hv hb hj =
    let row =
      all_below_lem 256 (λ v. all_below 8 λ bit. all_below 8 λ j. put_ok val v bit j) v table hv in
    let cell = all_below_lem 8 (λ bit. all_below 8 λ j. put_ok val v bit j) bit row hb in
    eq_of_same _ _ (all_below_lem 8 (λ j. put_ok val v bit j) j cell hj)

-- Of a stored byte, the bit that is meant holds the value, and every other bit is as it was.
pub test_bit-put_bit :
    (v bit val j : ℕ)
    → v < 256
    → bit < 8
    → j < 8
    → test_bit (put_bit v bit val) j ≡ (if j == bit then val != 0 else test_bit v j)
test_bit-put_bit v bit zero j hv hb hj = put_row 0 v bit j put_table_zero hv hb hj
test_bit-put_bit v bit (suc val) j hv hb hj =
    rw (put_bit-suc, suc_ne_zero) (put_row 1 v bit j put_table_one hv hb hj)

put_bit-lt : (v bit val : ℕ) → put_bit v bit val < 256
unfolding put_bit
put_bit-lt v bit val = ground arith

-- What the picture becomes when the pixel at (x, y) is set.
abbrev pub plot : (ℕ → ℕ → Bool) → (x y val : ℕ) → ℕ → ℕ → Bool
plot f x y val x' y' = if (x' == x) && (y' == y) then val != 0 else f x' y'

module _ {a b : Buf} {f : ℕ → ℕ → Bool} (s : Shows a f b) (x y val : ℕ) (hx : x < 160)
    (hy : y < 43) where
  abbrev after : Buf
  after = write b ((y * 160 + x) / 8) (put_bit (b ((y * 160 + x) / 8)) (7 - (y * 160 + x) % 8) val)

  setpixel-eq_ok : setpixel b x y val ≡ ok after
  unfolding setpixel
  setpixel-eq_ok =
      let small : (y * 160 + x) % 2 ^ 32 ≡ y * 160 + x = omega arith in
      rw small (rw (ltb-eq_true ((y * 160 + x) / 8) 1048 (omega arith)))

  pixel-after : (x' y' : ℕ) → x' < 160 → y' < 43 → pixel after x' y' ≡ plot f x y val x' y'
  unfolding pixel write
  pixel-after x' y' hx' hy' = ground (
    arith,
    s.pixels x' y' hx' hy',
    test_bit-put_bit (b ((y * 160 + x) / 8)) (7 - (y * 160 + x) % 8) val (7 - (y' * 160 + x') % 8)
        (s.bytes _),
  )

  Shows-after : Shows a (plot f x y val) after
  unfolding write
  Shows-after = record {
    bytes = λ i.
        ground (arith, s.bytes i, put_bit-lt (b ((y * 160 + x) / 8)) (7 - (y * 160 + x) % 8) val);
    pixels = pixel-after;
    rest = λ i h. ground (arith, s.rest i h);
  }

  -- Inside the screen `setpixel` succeeds, sets its pixel, and changes no other.
  pub setpixel-Shows : Returns (Shows a (plot f x y val)) (setpixel b x y val)
  setpixel-Shows = rw setpixel-eq_ok (returns Shows-after)

pub Shows-congr_in :
    {a b : Buf} {f g : ℕ → ℕ → Bool}
    → ((x y : ℕ) → x < 160 → y < 43 → f x y ≡ g x y)
    → Shows a f b
    → Shows a g b
Shows-congr_in e s = record {
  bytes = s.bytes;
  pixels = λ x y hx hy. s.pixels x y hx hy ∙ e x y hx hy;
  rest = s.rest;
}

pub Shows-congr :
    {a b : Buf} {f g : ℕ → ℕ → Bool} → ((x y : ℕ) → f x y ≡ g x y) → Shows a f b → Shows a g b
Shows-congr e s = Shows-congr_in (λ x y _ _. e x y) s

-- Any buffer of bytes shows its own picture.
pub Shows-self : (b : Buf) → IsBytes b → Shows b (pixel b) b
Shows-self b h = record { bytes = h; pixels = λ x y _ _. refl; rest = λ i _. refl }

pub pixel_zero : (b : Buf) (x y : ℕ) → b ((y * 160 + x) / 8) ≡ 0 → pixel b x y ≡ false
unfolding pixel
pixel_zero b x y h = rw (h, zero-div) refl

-- Inside the screen `setpixel` returns, whatever the buffer holds.
pub setpixel-total :
    (b : Buf) (x y v : ℕ) → x < 160 → y < 43 → Returns (λ _. Unit {0}) (setpixel b x y v)
unfolding setpixel
setpixel-total b x y v hx hy =
    let inside : ltb ((y * 160 + x) % 2 ^ 32 / 8) 1048 ≡ true = ltb-eq_true _ _ (omega arith) in
    rw inside (returns tt)
