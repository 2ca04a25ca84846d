-- ===== src/System/Sound.antt =====
-- The invariant of the shared state, and what keeps it.
use mathlib.Core.Option
use g15daemon.Prelude.{
  ◌≡◌, ◌≢◌, Bool, true, false, if◌then◌else◌, Option, none, some, List, sym, ap, ◌∙◌, subst,
}
use mathlib.Core.Bool.{false≢true}
use g15daemon.Gfx.Pixel.{IsBytes}
use g15daemon.Lcd.{Lcd}
use g15daemon.Daemon.{Ptr, Daemon}
use g15daemon.LinkedLists.Ring.{has, IsRing}
use g15daemon.LinkedLists.Access.{screen}

abbrev pub BufIsBytes : Option Lcd → Type 0
BufIsBytes none = Unit {0}
BufIsBytes (some lcd) = IsBytes lcd.buf

-- The list is well formed and has every screen; no client handles the keys; and the picture of the
-- clock, at the tail, consists of bytes.
pub record Sound (xs : List Ptr) (d : Daemon) : Type 0 where
  pub ring : IsRing d xs
  pub full : (a : Ptr) → has a xs ≡ false → screen d.nodes a ≡ none
  pub free : d.client_handles_keys ≡ 0
  pub clock : BufIsBytes (screen d.nodes d.tail)

pub same_tail : {d d' : Daemon} {xs : List Ptr} → IsRing d xs → IsRing d' xs → d'.tail ≡ d.tail
same_tail r r' = sym r'.tail ∙ r.tail

-- A change of a screen that leaves its picture alone.
pub same_bytes :
    (f : Lcd → Lcd)
    → ((lcd : Lcd) → (f lcd).buf ≡ lcd.buf)
    → (o : Option Lcd) → BufIsBytes o
    → BufIsBytes (Option.map f o)
same_bytes f same none h = tt
same_bytes f same (some lcd) h = subst IsBytes (sym (same lcd)) h

pub if_bytes :
    (b : Bool) (x y : Option Lcd) → BufIsBytes x → BufIsBytes y → BufIsBytes (if b then x else y)
if_bytes true x y hx hy = hx
if_bytes false x y hx hy = hy

-- The screens are those of before, but for one of the list other than the clock's.
pub others-Sound :
    (xs : List Ptr) (d d' : Daemon) (node : Ptr)
    → Sound xs d
    → IsRing d' xs
    → has node xs ≡ true
    → node ≢ d.tail
    → ((a : Ptr) → a ≢ node → screen d'.nodes a ≡ screen d.nodes a)
    → d'.client_handles_keys ≡ d.client_handles_keys
    → Sound xs d'
others-Sound xs d d' node s r member ne others keys = record {
  ring = r;
  full =
      λ a out. others a (λ e. false≢true (sym out ∙ ap (λ x. has x xs) e ∙ member)) ∙ s.full a out;
  free = keys ∙ s.free;
  clock =
      subst BufIsBytes
        (sym (others d.tail (λ e. ne (sym e))) ∙ ap (screen d'.nodes) (sym (same_tail s.ring r)))
        s.clock;
}
