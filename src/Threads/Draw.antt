-- ===== src/Threads/Draw.antt =====
-- The display thread draws a screen once: what a round leaves behind is settled.
use g15daemon.Prelude.{
  ℕ, ◌+◌, ◌≡◌, ◌≢◌, ◌⊎◌, inl, inr, refl, Bool, true, false, ◌==◌, ◌!=◌, ltb, if◌then◌else◌, List,
  [], ◌++◌, arith, ok, Option, none, some, ◌∷◌, Returns, returns, Returns-bind, Bool-cases, ap, ◌∙◌,
  sym, subst, ltb-eq_false,
}
use mathlib.Core.Bool.{false≢true}
use g15daemon.Gfx.{Buf}
use g15daemon.Gfx.Pixel.{IsBytes}
use g15daemon.Lcd.{Lcd}
use g15daemon.Screen.{length}
use g15daemon.Screen.Clock.{Told, lcdclock-Told, lcdclock-quiet}
use g15daemon.Daemon.{Ptr, null, Node, Daemon, put, load, store}
use g15daemon.LinkedLists.Ring.{Chain-has, links, IsRing}
use g15daemon.LinkedLists.Drawn.{with_lcd, load-store, set_lcd-store, store-IsRing}
use g15daemon.Requests.Edit.{IsRing-load}
use g15daemon.Threads.{
  Device, write_pixmap, set_contrast, set_leds, set_brightness, Drawn, clock_face, pixmap_calls,
  state_calls, settled, draw_round,
}

-- The clock would not be drawn again.
abbrev IsFresh : (now : ℕ) → Daemon → Lcd → Type 0
IsFresh now d lcd = ((d.tail == d.current) ≡ false) ⊎ (ltb (lcd.ident + 60) now ≡ false)

-- A round makes no call, and `lastlcd` stays.
abbrev pub IsIdle : (lastlcd : ℕ) → Drawn → Type 0
IsIdle lastlcd r = (r.calls ≡ []) × (r.lastlcd ≡ lastlcd)

told_lem :
    (now : ℕ) (text : List ℕ) (lcd lcd' : Lcd)
    → (if ltb (lcd.ident + 60) now then Told now text lcd lcd' else lcd' ≡ lcd)
    → ltb (lcd'.ident + 60) now ≡ false
told_lem now text lcd lcd' told = go (ltb (lcd.ident + 60) now) refl told
  where
    go :
        (b : Bool)
        → ltb (lcd.ident + 60) now ≡ b
        → (if b then Told now text lcd lcd' else lcd' ≡ lcd)
        → ltb (lcd'.ident + 60) now ≡ false
    go true e t = ap (λ l. ltb (l.ident + 60) now) t.rest ∙ ltb-eq_false _ _ (omega arith)
    go false e same = ap (λ l. ltb (l.ident + 60) now) same ∙ e

settled-state : (led_mr : ℕ) (d : Daemon) (lcd : Lcd) → (settled led_mr d lcd).state_changed ≡ 0
settled-state led_mr d lcd = ground arith

settled-ident : (led_mr : ℕ) (d : Daemon) (lcd : Lcd) → (settled led_mr d lcd).ident ≡ lcd.ident
settled-ident led_mr d lcd = ground arith

settled-buf : (led_mr : ℕ) (d : Daemon) (lcd : Lcd) → (settled led_mr d lcd).buf ≡ lcd.buf
settled-buf led_mr d lcd = ground arith

-- The picture that calls put on the device.
abbrev pub picture : List Device → Option Buf
picture [] = none
picture (write_pixmap buf ∷ calls) = some buf
picture (set_contrast level ∷ calls) = picture calls
picture (set_leds leds ∷ calls) = picture calls
picture (set_brightness level ∷ calls) = picture calls

-- The picture is put there where it is not the last one.
picture_calls :
    (led_mr lastlcd : ℕ) (d : Daemon) (lcd : Lcd)
    → picture (pixmap_calls lastlcd lcd ++ state_calls led_mr d lcd)
      ≡ (if lcd.ident == lastlcd then none else some lcd.buf)
picture_calls led_mr lastlcd d lcd = ground arith

pixmap_calls-same : (lcd : Lcd) → pixmap_calls lcd.ident lcd ≡ []
pixmap_calls-same lcd = ground arith

state_calls-none :
    (led_mr : ℕ) (d : Daemon) (lcd : Lcd) → lcd.state_changed ≡ 0 → state_calls led_mr d lcd ≡ []
state_calls-none led_mr d lcd h = ground arith

last_ident :
    (lcd : Lcd) (lastlcd : ℕ) → (if lcd.ident != lastlcd then lcd.ident else lastlcd) ≡ lcd.ident
last_ident lcd lastlcd = ground arith

Told-IsBytes :
    (now : ℕ) (text : List ℕ) (lcd lcd' : Lcd)
    → IsBytes lcd.buf
    → (if ltb (lcd.ident + 60) now then Told now text lcd lcd' else lcd' ≡ lcd)
    → IsBytes lcd'.buf
Told-IsBytes now text lcd lcd' bytes told = go (ltb (lcd.ident + 60) now) told
  where
    go : (b : Bool) → (if b then Told now text lcd lcd' else lcd' ≡ lcd) → IsBytes lcd'.buf
    go true t = t.shown.bytes
    go false same = subst (λ (l : Lcd). IsBytes l.buf) (sym same) bytes

module _ (led_mr now : ℕ) (text : List ℕ) where
  -- The clock would not be drawn again, and its picture consists of bytes.
  abbrev Faced : Daemon → Lcd → Type 0
  Faced d lcd = IsFresh now d lcd × ((d.tail == d.current) ≡ true → IsBytes lcd.buf)

  clock_face-Fresh :
      (d : Daemon) (lcd : Lcd)
      → length text ≡ 5
      → ((d.tail == d.current) ≡ true → IsBytes lcd.buf)
      → Returns (Faced d) (clock_face now text d lcd)
  unfolding clock_face
  clock_face-Fresh d lcd five bytes = elim (Bool-cases (d.tail == d.current)) [
    | inl shown ↦ rw shown (
        Returns-bind (lcdclock-Told now text lcd five (bytes shown)) λ lcd' told. returns (
          inr (told_lem now text lcd lcd' told),
          λ _. Told-IsBytes now text lcd lcd' (bytes shown) told,
        ))
    | inr other ↦ rw other (returns (inl other, λ e. absurd (false≢true (sym other ∙ e))))
  ]

  -- A screen that is settled is left alone, but for the lit keys of the clock.
  clock_face-idle :
      (d : Daemon) (lcd : Lcd)
      → IsFresh now d lcd
      → Returns
          (λ lcd'. (lcd'.ident ≡ lcd.ident) × (lcd'.state_changed ≡ lcd.state_changed))
          (clock_face now text d lcd)
  unfolding clock_face
  clock_face-idle d lcd fresh = elim (Bool-cases (d.tail == d.current)) [
    | inl shown ↦
        let quiet : ltb (lcd.ident + 60) now ≡ false = ground (arith, fresh) in
        rw (shown, lcdclock-quiet now text lcd quiet) (returns (refl, refl))
    | inr other ↦ rw other (returns (refl, refl))
  ]

  idle :
      (d : Daemon) (n : Node)
      → load d d.current ≡ ok n
      → IsFresh now d n.lcd
      → n.lcd.state_changed ≡ 0
      → Returns (IsIdle n.lcd.ident) (draw_round led_mr now text n.lcd.ident d)
  unfolding draw_round
  idle d n got fresh same = rw got (
      Returns-bind (clock_face-idle d n.lcd fresh) λ lcd' k.
        rw (set_lcd-store d d.current n (λ _. settled led_mr d lcd') got)
          (returns (ground arith, ground arith)))

  -- What a round leaves: the list as it was, with every screen but the one that is shown; the picture
  -- of that one on the device, where it is not the last one; and nothing for another round to do.
  pub record Steady (xs : List Ptr) (lastlcd : ℕ) (d : Daemon) (r : Drawn) : Type 0 where
    pub ring : IsRing r.daemon xs
    pub current : r.daemon.current ≡ d.current
    pub others : (a : Ptr) → a ≢ d.current → r.daemon.nodes a ≡ d.nodes a
    pub shown : Node
    pub at : r.daemon.nodes d.current ≡ some shown
    pub last : r.lastlcd ≡ shown.lcd.ident
    pub keys : r.daemon.client_handles_keys ≡ d.client_handles_keys
    pub bytes : (d.tail == d.current) ≡ true → IsBytes shown.lcd.buf
    pub unchanged : shown.lcd.state_changed ≡ 0
    pub drawn : picture r.calls ≡ (if shown.lcd.ident == lastlcd then none else some shown.lcd.buf)
    pub again : Returns (IsIdle r.lastlcd) (draw_round led_mr now text r.lastlcd r.daemon)

  settled-Fresh :
      (d : Daemon) (lcd : Lcd) → IsFresh now d lcd → IsFresh now d (settled led_mr d lcd)
  settled-Fresh d lcd (inl other) = inl other
  settled-Fresh d lcd (inr quiet) =
      inr (ap (λ i. ltb (i + 60) now) (settled-ident led_mr d lcd) ∙ quiet)

  store-Steady :
      (xs : List Ptr) (d : Daemon) (lastlcd : ℕ) (n : Node) (lcd : Lcd)
      → IsRing d xs
      → d.current ≢ null
      → d.nodes d.current ≡ some n
      → Faced d lcd
      → Steady xs lastlcd d (record {
        lastlcd = if lcd.ident != lastlcd then lcd.ident else lastlcd;
        daemon = store d d.current (with_lcd n (settled led_mr d lcd));
        calls = pixmap_calls lastlcd lcd ++ state_calls led_mr d lcd;
      })
  unfolding store
  store-Steady xs d lastlcd n lcd r ne at (fresh, bytes) =
      let n' = with_lcd n (settled led_mr d lcd) in
      let d' = store d d.current n' in
      let last : (settled led_mr d lcd).ident
          ≡ (if lcd.ident != lastlcd then lcd.ident else lastlcd) =
        settled-ident led_mr d lcd ∙ sym (last_ident lcd lastlcd) in
      record {
        ring = store-IsRing d xs d.current n (settled led_mr d lcd) r at;
        current = refl;
        others = λ a other. unfold put in ground arith;
        shown = n';
        at = unfold put in ground arith;
        last = sym last;
        keys = refl;
        bytes = λ e. subst IsBytes (sym (settled-buf led_mr d lcd)) (bytes e);
        unchanged = settled-state led_mr d lcd;
        drawn =
            rw (settled-ident led_mr d lcd, settled-buf led_mr d lcd)
              (picture_calls led_mr lastlcd d lcd);
        again =
            subst (λ l. Returns (IsIdle l) (draw_round led_mr now text l d')) last
              (idle d' n' (load-store d d.current n' ne) (settled-Fresh d lcd fresh)
                (settled-state led_mr d lcd));
      }

  pub draw_round-Steady :
      (xs : List Ptr) (lastlcd : ℕ) (d : Daemon)
      → length text ≡ 5
      → IsRing d xs
      → ((d.tail == d.current) ≡ true → (n : Node) → d.nodes d.current ≡ some n → IsBytes n.lcd.buf)
      → Returns (Steady xs lastlcd d) (draw_round led_mr now text lastlcd d)
  unfolding draw_round
  draw_round-Steady xs lastlcd d five r bytes =
      let (n, got, links_n, at) = IsRing-load d xs d.current r r.current in
      let (p, q, linked, ne) = Chain-has (links d.nodes) d.tail d.current xs r.chain r.current in
      rw got (
        Returns-bind (clock_face-Fresh d n.lcd five (λ e. bytes e n at)) λ lcd fresh.
          rw (set_lcd-store d d.current n (λ _. settled led_mr d lcd) got)
            (returns (store-Steady xs d lastlcd n lcd r ne at fresh)))
