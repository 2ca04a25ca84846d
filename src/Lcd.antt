-- ===== src/Lcd.antt =====
-- `lcd_t` (g15daemon/g15daemon/g15daemon.h) and its creation (g15daemon/g15daemon/linked_lists.c).
-- The brightness and contrast levels are constants of libg15, so they are parameters.
use g15daemon.Prelude.{ℕ}
use g15daemon.Gfx.{Buf, lcd_width, lcd_height}

pub record Lcd : Type 0 where
  pub lcd_type : ℕ
  pub buf : Buf
  pub max_x : ℕ
  pub max_y : ℕ
  pub connection : ℕ
  pub ident : ℕ
  pub backlight_state : ℕ
  pub mkey_state : ℕ
  pub contrast_state : ℕ
  pub state_changed : ℕ
  pub usr_foreground : ℕ

-- The constants of libg15 that the daemon uses for a screen.
pub record Levels : Type 0 where
  pub brightness_medium : ℕ
  pub contrast_medium : ℕ
  pub led_mr : ℕ

-- `create_lcd`: `g15_xmalloc` zeroes the memory.
unfoldable pub create_lcd : Levels → Lcd
create_lcd g = record {
  lcd_type = 0;
  buf = λ _. 0;
  max_x = lcd_width;
  max_y = lcd_height;
  connection = 0;
  ident = 0;
  backlight_state = g.brightness_medium;
  mkey_state = g.led_mr;
  contrast_state = g.contrast_medium;
  state_changed = 1;
  usr_foreground = 0;
}
