-- ===== src/Tests/Drawing.antt =====
-- The drawing routines on a blank screen.
use g15daemon.Prelude.{ℕ, ◌+◌, ◌≡◌, refl, List, [], ◌∷◌, arith, Returns, ltb, if◌then◌else◌}
use g15daemon.Gfx.{Buf, setpixel, line, rectangle, draw_bignum}
use g15daemon.Gfx.Pixel.{Shows, pixel, plot, Shows-self, setpixel-Shows}
use g15daemon.Gfx.Line.{on_line, over, line-Shows}
use g15daemon.Gfx.Rectangle.{in_box, rectangle_filled-Shows, rectangle_outline-Shows}
use g15daemon.Gfx.Font.{written}
use g15daemon.Gfx.Glyphs.{draw_bignum-Shows}
use g15daemon.Lcd.{Levels, create_lcd}
use g15daemon.Screen.{convert_buf, lcdclock}
use g15daemon.Screen.Convert.{lit, convert_buf-Shows}
use g15daemon.Screen.Clock.{Told, lcdclock-Told}

abbrev blank : Buf
blank i = 0

blank-Shows : Shows blank (pixel blank) blank
blank-Shows = Shows-self blank (λ i. omega arith)

setpixel-Shows_example :
    Returns (Shows blank (plot (pixel blank) 159 42 1)) (setpixel blank 159 42 1)
setpixel-Shows_example = setpixel-Shows blank-Shows 159 42 1 (omega arith) (omega arith)

line-Shows_example :
    Returns (Shows blank (over (on_line 3 2 50 20) 1 (pixel blank))) (line blank 4 3 51 21 1)
line-Shows_example =
    line-Shows (pixel blank) blank 3 2 50 20 1 (omega arith) (omega arith) (omega arith)
      (omega arith) blank-Shows

rectangle_filled-Shows_example :
    Returns (Shows blank (over (in_box 2 3 10 9) 1 (pixel blank))) (rectangle blank 3 4 11 10 1 1)
rectangle_filled-Shows_example =
    rectangle_filled-Shows (pixel blank) blank 2 3 10 9 1 1 (omega arith) (omega arith)
      (omega arith) (omega arith) (omega arith) blank-Shows

rectangle_outline-Shows_example :
    Returns
      (Shows blank (
        over (on_line 20 3 20 9) 1 (
          over
            (on_line 7 9 20 9)
            1
            (over (on_line 7 3 7 9) 1 (over (on_line 7 3 20 7) 1 (pixel blank))))))
      (rectangle blank 8 4 21 10 0 1)
rectangle_outline-Shows_example =
    rectangle_outline-Shows (pixel blank) blank 7 3 20 9 1 (omega arith) (omega arith) (omega arith)
      (omega arith) (omega arith) blank-Shows

draw_bignum-Shows_example :
    Returns (Shows blank (written 30 50 57 (pixel blank))) (draw_bignum blank 30 1 50 43 57)
draw_bignum-Shows_example =
    draw_bignum-Shows (pixel blank) blank 30 1 50 43 57 (omega arith) (omega arith) (omega arith)
      refl refl blank-Shows

abbrev stripes : ℕ → ℕ
stripes i = i

convert_buf-Shows_example : Returns (Shows blank (lit stripes)) (convert_buf stripes blank)
convert_buf-Shows_example = convert_buf-Shows stripes (pixel blank) blank blank-Shows

abbrev levels : Levels
levels = record { brightness_medium = 1; contrast_medium = 1; led_mr = 8 }

-- 12:57
abbrev noon : List ℕ
noon = 49 ∷ 50 ∷ 58 ∷ 53 ∷ 55 ∷ []

lcdclock-Told_example :
    Returns
      (λ lcd.
        if ltb ((create_lcd levels).ident + 60) 1000
        then Told 1000 noon (create_lcd levels) lcd
        else lcd ≡ create_lcd levels)
      (lcdclock 1000 noon (create_lcd levels))
lcdclock-Told_example =
    lcdclock-Told 1000 noon (create_lcd levels) refl (unfold create_lcd in λ i. omega arith)
