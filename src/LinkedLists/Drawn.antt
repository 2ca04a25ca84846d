-- ===== src/LinkedLists/Drawn.antt =====
-- A screen of the list that is drawn on: the list stays as it is.
use g15daemon.Prelude.{◌≡◌, ◌≢◌, refl, true, Option, some, List, arith, ok, sym, ap, ◌∙◌, subst}
use g15daemon.Lcd.{Lcd}
use g15daemon.Daemon.{Ptr, null, Node, Daemon, put, load, store, set_lcd}
use g15daemon.LinkedLists.Ring.{links, has, Chain, Chain-frame, IsRing}
use g15daemon.LinkedLists.Access.{Wrote}

-- The node `n` with another screen.
abbrev pub with_lcd : Node → Lcd → Node
with_lcd n lcd = record n { lcd = lcd }

pub load-some : (d : Daemon) (p : Ptr) (n : Node) → p ≢ null → d.nodes p ≡ some n → load d p ≡ ok n
unfolding load
load-some d p n ne at = ground arith

pub load-store : (d : Daemon) (p : Ptr) (n : Node) → p ≢ null → load (store d p n) p ≡ ok n
unfolding load store put
load-store d p n ne = ground arith

pub set_lcd-store :
    (d : Daemon) (p : Ptr) (n : Node) (f : Lcd → Lcd)
    → load d p ≡ ok n
    → set_lcd d p f ≡ ok (store d p (with_lcd n (f n.lcd)))
unfolding set_lcd
set_lcd-store d p n f got = rw got refl

pub store-IsRing :
    (d : Daemon) (xs : List Ptr) (p : Ptr) (n : Node) (lcd : Lcd)
    → IsRing d xs
    → d.nodes p ≡ some n
    → IsRing (store d p (with_lcd n lcd)) xs
unfolding store put links
store-IsRing d xs p n lcd r at = record {
  chain = Chain-frame d.tail xs r.chain (λ a h. ground arith);
  head = r.head;
  tail = r.tail;
  current = r.current;
}

-- A change of the screens alone.
pub Wrote-IsRing :
    (d d' : Daemon) (xs : List Ptr) {s : Ptr → Option Lcd}
    → IsRing d xs
    → Wrote d (links d.nodes) s d'
    → IsRing d' xs
Wrote-IsRing d d' xs r w = record {
  chain =
      subst (λ t. Chain (links d'.nodes) t xs) (sym (ap (λ x. x.tail) w.same))
        (Chain-frame d.tail xs r.chain (λ a h. w.links_eq a));
  head = r.head ∙ sym (ap (λ x. x.head) w.same);
  tail = r.tail ∙ sym (ap (λ x. x.tail) w.same);
  current = subst (λ c. has c xs ≡ true) (sym (ap (λ x. x.current) w.same)) r.current;
}
