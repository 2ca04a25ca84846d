-- ===== src/Screen.antt =====
-- The screen routines of g15daemon/g15daemon/utility_funcs.c: `convert_buf` packs a picture of one
-- byte per pixel, and `lcdclock` draws the time.
pub mod Convert
pub mod Clock
use g15daemon.Prelude.{
  ℕ, zero, suc, ◌+◌, ◌-◌, ◌*◌, ◌/◌, ◌%◌, ◌^◌, ◌==◌, ltb, if◌then◌else◌, Run, ok, ◌>>=◌, List, [],
  ◌∷◌,
}
use g15daemon.Gfx.{Buf, u32, add32, sub32, setpixel, draw_bignum, lcd_height}
use g15daemon.Lcd.{Lcd}

-- `for(y...)`, with k rows left; `orig` is the byte at each index of the client's buffer.
pub convert_column : (orig : ℕ → ℕ) (k y x : ℕ) → Buf → Run Buf
convert_column orig zero y x buf = ok buf
convert_column orig (suc k) y x buf =
    setpixel buf x y (orig (x + y * 160)) >>= convert_column orig k (y + 1) x

-- `for(x...)`, with k columns left.
pub convert_columns : (orig : ℕ → ℕ) (k x : ℕ) → Buf → Run Buf
unfolding convert_column
convert_columns orig zero x buf = ok buf
convert_columns orig (suc k) x buf =
    convert_column orig 43 0 x buf >>= convert_columns orig k (x + 1)

pub convert_buf : (orig : ℕ → ℕ) → Buf → Run Buf
unfolding convert_columns
convert_buf orig buf = convert_columns orig 160 0 buf

-- `memset(buf, 0, n)`.
unfoldable pub clear_bytes : (n : ℕ) → Buf → Buf
clear_bytes n buf i = if ltb i n then 0 else buf i

abbrev pub length : List ℕ → ℕ
length [] = 0
length (c ∷ cs) = suc (length cs)

abbrev pub starts_narrow : List ℕ → ℕ
starts_narrow [] = 0
starts_narrow (c ∷ cs) = if c == 49 then 15 else 0

-- The loop over the characters of the time, from column `col`.
pub draw_time : (totalwidth col : ℕ) (text : List ℕ) → Buf → Run Buf
draw_time totalwidth col [] buf = ok buf
draw_time totalwidth col (c ∷ cs) buf =
    let start = sub32 80 (totalwidth / 2) in
    draw_bignum buf (add32 start (u32 (col * 20))) 1 (add32 start (u32 ((col + 1) * 20))) lcd_height
      c
    >>= draw_time totalwidth (col + 1) cs

-- `currtime` is the value of `time` and `text` what `strftime` writes for it, both of the C library.
-- `ident` and `currtime` are taken as non-negative.
pub lcdclock : (currtime : ℕ) (text : List ℕ) → Lcd → Run Lcd
unfolding clear_bytes draw_time
lcdclock currtime text lcd =
    if ltb (lcd.ident + 60) currtime
    then (draw_time (length text * 20 + starts_narrow text) 0 text (clear_bytes 1024 lcd.buf)
        >>= λ b. ok (record lcd { buf = b; ident = currtime }))
    else ok lcd
