-- ===== src/System/Actions.antt =====
-- Each action keeps the invariant of the shared state.
use mathlib.Core.Option
use mathlib.Core.Bool.{false≢true}
use g15daemon.Prelude.{
  ℕ, ◌≡◌, ◌≢◌, refl, Bool, true, false, ◌==◌, if◌then◌else◌, Option, none, some, List, [], ◌∷◌,
  arith, Bool-cases, inl, inr, sym, ap, subst, ◌∙◌, eq_of_==,
}
use g15daemon.Gfx.Pixel.{IsBytes}
use g15daemon.Lcd.{Lcd, Levels, create_lcd}
use g15daemon.Daemon.{Ptr, null, Node, Daemon}
use g15daemon.LinkedLists.Ring.{links, has, erase, last}
use g15daemon.LinkedLists.Access.{shown, screen, change, Wrote}
use g15daemon.LinkedLists.Drawn.{Wrote-IsRing}
use g15daemon.LinkedLists.Cycle.{chosen, Cycled}
use g15daemon.LinkedLists.Cycle.Loop.{background}
use g15daemon.LinkedLists.Remove.Shift.{mark_changed}
use g15daemon.LinkedLists.Remove.Outcome.{Removed}
use g15daemon.LinkedLists.Unlink.{has-erase_ne}
use g15daemon.Requests.Edit.{Kept}
use g15daemon.Threads.{Drawn}
use g15daemon.Threads.Draw.{Steady}
use g15daemon.Session.{Connected}
use g15daemon.Session.Connect.{Joined}
use g15daemon.System.Sound.{BufIsBytes, Sound, same_tail, same_bytes, if_bytes, others-Sound}

last_cons : (c x : Ptr) (xs : List Ptr) → has c xs ≡ true → last xs x ≡ last xs null
last_cons c x [] h = absurd (false≢true h)
last_cons c x (y ∷ ys) h = refl

pub has_cons : (a x : Ptr) (xs : List Ptr) → has a xs ≡ true → has a (x ∷ xs) ≡ true
has_cons a x xs h = ground arith

out_of_cons :
    (a x : Ptr) (xs : List Ptr) → has a (x ∷ xs) ≡ false → ((a == x) ≡ false) × (has a xs ≡ false)
out_of_cons a x xs h = (ground arith, ground arith)

some-IsBytes :
    (g : Levels) (conn_s : ℕ) → IsBytes (record (create_lcd g) { connection = conn_s }).buf
unfolding create_lcd
some-IsBytes g conn_s i = omega arith

-- A new screen.
module _ (g : Levels) (fresh : Ptr) (created : Bool) (d : Daemon) (xs : List Ptr) (conn_s : ℕ)
    (c : Connected) (s : Sound xs d) (j : Joined g fresh created d xs conn_s c) where
  pub Joined-tail : c.daemon.tail ≡ d.tail
  Joined-tail = sym j.ring.tail ∙ last_cons d.current fresh xs s.ring.current ∙ s.ring.tail

  pub Joined-Sound : Sound (fresh ∷ xs) c.daemon
  Joined-Sound = record {
    ring = j.ring;
    full = λ a out.
        let (other, out') = out_of_cons a fresh xs out in j.screens a ∙ rw other (s.full a out');
    free = j.keys ∙ s.free;
    clock =
        subst BufIsBytes (sym (ap (screen c.daemon.nodes) Joined-tail ∙ j.screens d.tail))
          (if_bytes (d.tail == fresh) _ _ (some-IsBytes g conn_s) s.clock);
  }

none_of_ifs :
    (f : Lcd → Lcd) (b c : Bool) (o : Option Lcd)
    → o ≡ none
    → (if b then (if c then Option.map f o else o) else o) ≡ none
none_of_ifs f true true o e = ap (Option.map f) e
none_of_ifs f true false o e = e
none_of_ifs f false c o e = e

bytes_of_ifs :
    (f : Lcd → Lcd)
    → ((lcd : Lcd) → (f lcd).buf ≡ lcd.buf)
    → (b c : Bool) (o : Option Lcd) → BufIsBytes o
    → BufIsBytes (if b then (if c then Option.map f o else o) else o)
bytes_of_ifs f same b c o h = if_bytes b _ o (if_bytes c _ o (same_bytes f same o h) h) h

ne_of_false : (a b : Ptr) → (a == b) ≡ false → a ≢ b
ne_of_false a b h = ground arith

test_ne : (a b : Ptr) → a ≢ b → (b == a) ≡ false
test_ne a b ne = ground arith

zero_of_if : (b : Bool) (n : ℕ) → n ≡ 0 → (if b then 0 else n) ≡ 0
zero_of_if b n e = ground arith

-- A screen is removed.
module _ (node : Ptr) (d d' : Daemon) (xs : List Ptr) (s : Sound xs d) (ne : node ≢ d.tail)
    (m : Removed node xs d d') where
  kept_none :
      (a : Ptr) → has a (erase node xs) ≡ false → (a == node) ≡ false → screen d.nodes a ≡ none
  kept_none a out other = s.full a (sym (has-erase_ne a node xs (ground arith)) ∙ out)

  pub Removed-Sound : Sound (erase node xs) d'
  Removed-Sound = record {
    ring = m.ring;
    full = λ a out. elim (Bool-cases (a == node)) [
      | inl same ↦ m.screens a ∙ rw same refl
      | inr other ↦
          m.screens a
          ∙ rw other (
              none_of_ifs mark_changed (d.current == node) (a == d'.current) (screen d.nodes a)
                (kept_none a out other))
    ];
    free = m.client_handles_keys ∙ zero_of_if (d.keyhandler == node) d.client_handles_keys s.free;
    clock =
        subst BufIsBytes
          (sym (ap (screen d'.nodes) m.tail ∙ m.screens d.tail ∙ rw (test_ne node d.tail ne) refl))
          (bytes_of_ifs mark_changed (λ lcd. refl) (d.current == node) (d.tail == d'.current)
            (screen d.nodes d.tail) s.clock);
  }

-- The cycle key.
pub Cycled-Sound : (xs : List Ptr) (d d' : Daemon) → Sound xs d → Cycled xs d d' → Sound xs d'
Cycled-Sound xs d d' s k = record {
  ring = k.ring;
  full = λ a out.
      k.screens a
      ∙ rw
          (
            test_ne d'.current a
                (λ e. false≢true (sym out ∙ ap (λ x. has x xs) (sym e) ∙ k.ring.current)),
            out,
          )
          (s.full a out);
  free = k.keys ∙ s.free;
  clock =
      subst BufIsBytes (sym (ap (screen d'.nodes) (same_tail s.ring k.ring) ∙ k.screens d.tail)) (
        if_bytes (d.tail == d'.current) _ _
          (same_bytes chosen (λ lcd. refl) (screen d.nodes d.tail) s.clock)
          (if_bytes (has d.tail xs) _ _
            (same_bytes background (λ lcd. refl) (screen d.nodes d.tail) s.clock) s.clock));
}

-- A screen is changed, but not its picture.
pub Wrote-Sound :
    (xs : List Ptr) (d d' : Daemon) (p : Ptr) (f : Lcd → Lcd)
    → ((lcd : Lcd) → (f lcd).buf ≡ lcd.buf)
    → Sound xs d
    → Wrote d (links d.nodes) (change (screen d.nodes) p f) d'
    → Sound xs d'
Wrote-Sound xs d d' p f same s w = record {
  ring = Wrote-IsRing d d' xs s.ring w;
  full = λ a out. w.screens_eq a ∙ none_of_ifs f true (a == p) (screen d.nodes a) (s.full a out);
  free = ap (λ x. x.client_handles_keys) w.same ∙ s.free;
  clock =
      subst BufIsBytes (sym (ap (λ x. screen d'.nodes x.tail) w.same ∙ w.screens_eq d.tail))
        (bytes_of_ifs f same true (d.tail == p) (screen d.nodes d.tail) s.clock);
}

pub screen_of :
    (d d' : Daemon) (a : Ptr) → d'.nodes a ≡ d.nodes a → screen d'.nodes a ≡ screen d.nodes a
unfolding screen
screen_of d d' a e = ap shown e

pub Kept-Sound :
    (node : Ptr) (xs : List Ptr) (d d' : Daemon)
    → Sound xs d
    → has node xs ≡ true
    → node ≢ d.tail
    → Kept node xs d d'
    → Sound xs d'
Kept-Sound node xs d d' s member ne k =
    others-Sound xs d d' node s k.ring member ne (λ a other. screen_of d d' a (k.others a other))
      (ap (λ x. x.client_handles_keys) k.same)

clock-IsBytes :
    (d : Daemon) (n : Node)
    → BufIsBytes (screen d.nodes d.tail)
    → d.nodes d.tail ≡ some n
    → IsBytes n.lcd.buf
unfolding screen
clock-IsBytes d n h e = subst (λ o. BufIsBytes (shown o)) e h

-- The display thread finds bytes where it draws the clock.
pub Sound-IsBytes :
    (xs : List Ptr) (d : Daemon)
    → Sound xs d
    → (d.tail == d.current) ≡ true
    → (n : Node) → d.nodes d.current ≡ some n
    → IsBytes n.lcd.buf
Sound-IsBytes xs d s e n at =
    clock-IsBytes d n s.clock (ap d.nodes (eq_of_== d.tail d.current e) ∙ at)

module _ (led_mr now : ℕ) (text : List ℕ) (xs : List Ptr) (lastlcd : ℕ) (d : Daemon) (r : Drawn)
    (s : Sound xs d) (k : Steady led_mr now text xs lastlcd d r) where
  shown_bytes : (d.tail == d.current) ≡ true → BufIsBytes (screen r.daemon.nodes d.current)
  unfolding screen
  shown_bytes e = subst (λ o. BufIsBytes (shown o)) (sym k.at) (k.bytes e)

  pub Steady-Sound : Sound xs r.daemon
  Steady-Sound = record {
    ring = k.ring;
    full = λ a out.
        screen_of d r.daemon a
          (k.others a (λ e. false≢true (sym out ∙ ap (λ x. has x xs) e ∙ s.ring.current)))
        ∙ s.full a out;
    free = k.keys ∙ s.free;
    clock =
        subst (λ a. BufIsBytes (screen r.daemon.nodes a)) (sym (same_tail s.ring k.ring))
          (elim (Bool-cases (d.tail == d.current)) [
            | inl e ↦
                subst (λ a. BufIsBytes (screen r.daemon.nodes a))
                  (sym (eq_of_== d.tail d.current e)) (shown_bytes e)
            | inr e ↦
                subst BufIsBytes
                  (sym (
                    screen_of d r.daemon d.tail (k.others d.tail (ne_of_false d.tail d.current e))))
                  s.clock
          ]);
  }
