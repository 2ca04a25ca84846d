-- ===== src/Screen/Clock.antt =====
-- `lcdclock` draws the five characters of a time inside the screen.
use g15daemon.Prelude.{
  ℕ, ◌+◌, ◌-◌, ◌*◌, ◌/◌, ◌<◌, ◌≤◌, ◌≡◌, refl, Bool, false, ltb, if◌then◌else◌, arith, ok, Returns,
  returns, Returns-bind, List, [], ◌∷◌, Bool-cases, inl, inr,
}
use g15daemon.Gfx.{Buf, u32, add32, sub32}
use g15daemon.Gfx.Pixel.{Shows, IsBytes, pixel_zero}
use g15daemon.Gfx.Font.{written}
use g15daemon.Gfx.Glyphs.{draw_bignum-Shows}
use g15daemon.Lcd.{Lcd}
use g15daemon.Screen.{clear_bytes, length, starts_narrow, draw_time, lcdclock}

-- The characters written side by side, each in 20 columns from column `start` on.
unfoldable pub time_written : (start col : ℕ) (text : List ℕ) (f : ℕ → ℕ → Bool) → ℕ → ℕ → Bool
time_written start col [] f = f
time_written start col (c ∷ cs) f =
    time_written start (col + 1) cs (written (start + col * 20) (start + (col + 1) * 20) c f)

draw_time-Shows :
    {a : Buf} (total col : ℕ) (text : List ℕ) (f : ℕ → ℕ → Bool) (b : Buf)
    → 100 ≤ total
    → total < 120
    → col + length text ≤ 5
    → Shows a f b
    → Returns (Shows a (time_written (80 - total / 2) col text f)) (draw_time total col text b)
unfolding draw_time time_written
draw_time-Shows total col [] f b h1 h2 h3 sh = returns sh
draw_time-Shows total col (c ∷ cs) f b h1 h2 h3 sh =
    let left : add32 (sub32 80 (total / 2)) (u32 (col * 20)) ≡ 80 - total / 2 + col * 20 =
      unfold add32 sub32 in omega arith in
    let right : add32 (sub32 80 (total / 2)) (u32 ((col + 1) * 20))
        ≡ 80 - total / 2 + (col + 1) * 20 =
      unfold add32 sub32 in omega arith in
    rw (left, right)
      (Returns-bind
        (draw_bignum-Shows f b (80 - total / 2 + col * 20) 1 (80 - total / 2 + (col + 1) * 20) 43 c
          (omega arith) (omega arith) (omega arith) refl refl sh)
        λ d sd. draw_time-Shows total (col + 1) cs _ d h1 h2 (omega arith) sd)

clear_bytes-Shows :
    (b : Buf) → IsBytes b → Shows (clear_bytes 1024 b) (λ _ _. false) (clear_bytes 1024 b)
clear_bytes-Shows b h = record {
  bytes = unfold clear_bytes in (λ i. ground (arith, h i));
  pixels = λ x y hx hy. pixel_zero (clear_bytes 1024 b) x y (unfold clear_bytes in ground arith);
  rest = λ i _. refl;
}

-- The first column of the time: one of 115 or of 100 pixels, about the middle.
abbrev pub first_column : List ℕ → ℕ
first_column text = 80 - (100 + starts_narrow text) / 2

-- What `lcdclock` leaves behind when a minute has passed: the time on a dark screen, and its moment.
pub record Told (currtime : ℕ) (text : List ℕ) (lcd lcd' : Lcd) : Type 0 where
  pub shown :
      Shows
        (clear_bytes 1024 lcd.buf)
        (time_written (first_column text) 0 text (λ _ _. false))
        lcd'.buf
  pub rest : lcd' ≡ record lcd { buf = lcd'.buf; ident = currtime }

starts_narrow-le : (text : List ℕ) → starts_narrow text ≤ 15
starts_narrow-le [] = omega arith
starts_narrow-le (c ∷ cs) = ground arith

-- Over a minute after the last drawing `lcdclock` draws the five characters of the time, inside the
-- screen whatever they are, on a dark screen, notes the moment, and leaves the other fields; within a
-- minute it changes nothing.
pub lcdclock-Told :
    (currtime : ℕ) (text : List ℕ) (lcd : Lcd)
    → length text ≡ 5
    → IsBytes lcd.buf
    → Returns
        (λ lcd'. if ltb (lcd.ident + 60) currtime then Told currtime text lcd lcd' else lcd' ≡ lcd)
        (lcdclock currtime text lcd)
unfolding lcdclock
lcdclock-Told currtime text lcd h hb = elim (Bool-cases (ltb (lcd.ident + 60) currtime)) [
  | inl p ↦
      let total : length text * 20 + starts_narrow text ≡ 100 + starts_narrow text = omega arith in
      rw (p, total)
        (Returns-bind
          (draw_time-Shows (100 + starts_narrow text) 0 text _ (clear_bytes 1024 lcd.buf)
            (omega arith) (omega (arith, starts_narrow-le text)) (omega arith)
            (clear_bytes-Shows lcd.buf hb))
          λ b sb. returns (record { shown = sb; rest = refl }))
  | inr p ↦ rw p (returns refl)
]

-- Within a minute of the last drawing nothing is drawn.
pub lcdclock-quiet :
    (currtime : ℕ) (text : List ℕ) (lcd : Lcd)
    → ltb (lcd.ident + 60) currtime ≡ false
    → lcdclock currtime text lcd ≡ ok lcd
unfolding lcdclock
lcdclock-quiet currtime text lcd h = rw h refl
