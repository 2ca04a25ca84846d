-- ===== src/Threads.antt =====
-- The keyboard and the display thread of g15daemon/g15daemon/main.c, a round at a time, and what is
-- asked of the keyboard's device.
pub mod Draw
pub mod Keyboard
pub mod Dangling
use g15daemon.Prelude.{
  ℕ, Bool, true, false, ◌==◌, ◌!=◌, ltb, if◌then◌else◌, List, [], ◌∷◌, ◌++◌, bit_or, Run, ok, fault,
  ◌>>=◌,
}
use g15daemon.Gfx.{Buf}
use g15daemon.Lcd.{Lcd}
use g15daemon.Screen.{lcdclock}
use g15daemon.Daemon.{Ptr, Daemon, load, set_lcd}
use g15daemon.Keys.{Masks, Event, g15_process_keys}
use g15daemon.Requests.{Reply, word, connection_at, node_size}

-- `writePixmapToLCD`, `setLCDContrast`, `setLEDs` and `setLCDBrightness`.
pub data Device : Type 0 where
  write_pixmap : Buf → Device
  set_contrast set_leds set_brightness : ℕ → Device

-- `lastlcd`, the daemon, and the calls that were made.
pub record Drawn : Type 0 where
  pub lastlcd : ℕ
  pub daemon : Daemon
  pub calls : List Device

-- The clock's screen is drawn where it is shown.
pub clock_face : (now : ℕ) (text : List ℕ) → Daemon → Lcd → Run Lcd
clock_face now text d lcd =
    if d.tail == d.current
    then (do lcd' ← lcdclock now text lcd; ok (record lcd' { mkey_state = 0 }))
    else ok lcd

-- The lights that are set where the state has changed.
abbrev pub lit_keys : (led_mr : ℕ) → Daemon → Lcd → ℕ
lit_keys led_mr d lcd =
    if d.connected_clients != 0 then bit_or lcd.mkey_state led_mr else lcd.mkey_state

abbrev pub pixmap_calls : (lastlcd : ℕ) → Lcd → List Device
pixmap_calls lastlcd lcd = if lcd.ident != lastlcd then write_pixmap lcd.buf ∷ [] else []

abbrev pub state_calls : (led_mr : ℕ) → Daemon → Lcd → List Device
state_calls led_mr d lcd =
    if lcd.state_changed != 0
    then set_contrast lcd.contrast_state
      ∷ set_leds (lit_keys led_mr d lcd)
      ∷ set_brightness lcd.backlight_state
      ∷ []
    else []

abbrev pub settled : (led_mr : ℕ) → Daemon → Lcd → Lcd
settled led_mr d lcd =
    if lcd.state_changed != 0
    then record lcd { mkey_state = lit_keys led_mr d lcd; state_changed = 0 }
    else lcd

-- A round of `lcd_draw_thread`. `now` and `text` are the time and its text.
pub draw_round : (led_mr now : ℕ) (text : List ℕ) (lastlcd : ℕ) → Daemon → Run Drawn
draw_round led_mr now text lastlcd d = do
  n ← load d d.current
  lcd ← clock_face now text d n.lcd
  d' ← set_lcd d d.current (λ _. settled led_mr d lcd)
  ok (record {
    lastlcd = if lcd.ident != lastlcd then lcd.ident else lastlcd;
    daemon = d';
    calls = pixmap_calls lastlcd lcd ++ state_calls led_mr d lcd;
  })

-- `send_keystate(keyhandler)`: `keyhandler->connection` lies behind the node.
pub send_to_handler : Daemon → Run (List Reply × Daemon)
send_to_handler d =
    if ltb connection_at node_size
    then ok (
        if d.current_key_state != 0
        then (word d.current_key_state ∷ [], record d { current_key_state = 0 })
        else ([], d))
    else fault

-- What `getPressedKeys` returns: keys, nothing, or that the keyboard has gone; `back` says whether it
-- is found again before the daemon is leaving, and `random` is the value of `random()`.
pub data Pressed : Type 0 where
  keys : (keypresses : ℕ) → Pressed
  nothing : Pressed
  gone : (back : Bool) (random : ℕ) → Pressed

pub record Watched : Type 0 where
  pub lastkeypresses : ℕ
  pub daemon : Daemon
  pub events : List Event
  pub replies : List Reply

-- A round of `keyboard_watch_thread`.
pub keyboard_round :
    (fuel : ℕ) → Masks → (cycle_key : ℕ) → Pressed → (lastkeypresses : ℕ) → Daemon → Run Watched
keyboard_round fuel k cycle_key nothing lastkeypresses d =
    ok (record { lastkeypresses = lastkeypresses; daemon = d; events = []; replies = [] })
keyboard_round fuel k cycle_key (gone back random) lastkeypresses d = do
  d' ←
      if back
      then set_lcd d d.current (λ lcd. record lcd { state_changed = 1; ident = random })
      else ok d
  ok (record { lastkeypresses = lastkeypresses; daemon = d'; events = []; replies = [] })
keyboard_round fuel k cycle_key (keys keypresses) lastkeypresses d =
    let changed = (do
      r ←
          g15_process_keys fuel k cycle_key (record d { current_key_state = keypresses }) keypresses
            lastkeypresses
      let (events, d1) = r
      s ← if d1.client_handles_keys != 0 then send_to_handler d1 else ok ([], d1)
      let (replies, d2) = s
      ok (record {
        lastkeypresses = keypresses;
        daemon = d2;
        events = events;
        replies = replies;
      })) in
    if keypresses != lastkeypresses
    then changed
    else ok (record { lastkeypresses = lastkeypresses; daemon = d; events = []; replies = [] })
