-- ===== src/LinkedLists/Access.antt =====
-- Reads and writes of nodes, seen as changes of the links and of the screens.
use g15daemon.Prelude.{
  ◌≡◌, ◌≢◌, refl, ◌==◌, if◌then◌else◌, Option, none, some, arith, ok, Returns, returns,
}
use mathlib.Core.Option
use g15daemon.Lcd.{Lcd}
use g15daemon.Daemon.{Ptr, null, Node, Daemon, put, load, store, free, set_prev, set_next, set_lcd}
use g15daemon.LinkedLists.Ring.{Links, links, link}

-- The screen of the node at an address.
abbrev pub shown : Option Node → Option Lcd
shown none = none
shown (some n) = some n.lcd

unfoldable pub screen : (Ptr → Option Node) → Ptr → Option Lcd
screen nodes a = shown (nodes a)

abbrev pub change : (Ptr → Option Lcd) → Ptr → (Lcd → Lcd) → Ptr → Option Lcd
change s p f a = if a == p then Option.map f (s a) else s a

-- `d'` is `d` but for the nodes, which have the links `l` and the screens `s`.
pub record Wrote (d : Daemon) (l : Links) (s : Ptr → Option Lcd) (d' : Daemon) : Type 0 where
  pub links_eq : (a : Ptr) → links d'.nodes a ≡ l a
  pub screens_eq : (a : Ptr) → screen d'.nodes a ≡ s a
  pub same : d' ≡ record d { nodes = d'.nodes }

module _ (d : Daemon) (p : Ptr) {a b : Ptr} (ne : p ≢ null)
    (e : links d.nodes p ≡ some (a, b)) where
  pub load_lem : (n : Node) × (load d p ≡ ok n) × (n.prev ≡ a) × (n.next ≡ b) × (d.nodes p ≡ some n)
  unfolding load links
  load_lem = go (d.nodes p) refl
    where
      go :
          (o : Option Node)
          → d.nodes p ≡ o
          → (n : Node) × (load d p ≡ ok n) × (n.prev ≡ a) × (n.next ≡ b) × (d.nodes p ≡ some n)
      go none h = absurd (ground arith)
      go (some n) h = (n, ground arith, ground arith, ground arith, h)

  pub set_prev-Wrote :
      (q : Ptr)
      → Returns (Wrote d (link (links d.nodes) p (some (q, b))) (screen d.nodes)) (set_prev d p q)
  unfolding set_prev store links screen put
  set_prev-Wrote q =
      let (n, got, ea, eb, at) = load_lem in
      rw got (
        returns
          (record { links_eq = λ x. ground arith; screens_eq = λ x. ground arith; same = refl }))

  pub set_next-Wrote :
      (q : Ptr)
      → Returns (Wrote d (link (links d.nodes) p (some (a, q))) (screen d.nodes)) (set_next d p q)
  unfolding set_next store links screen put
  set_next-Wrote q =
      let (n, got, ea, eb, at) = load_lem in
      rw got (
        returns
          (record { links_eq = λ x. ground arith; screens_eq = λ x. ground arith; same = refl }))

  pub set_lcd-Wrote :
      (f : Lcd → Lcd)
      → Returns (Wrote d (links d.nodes) (change (screen d.nodes) p f)) (set_lcd d p f)
  unfolding set_lcd store links screen put
  set_lcd-Wrote f =
      let (n, got, ea, eb, at) = load_lem in
      rw got (
        returns
          (record { links_eq = λ x. ground arith; screens_eq = λ x. ground arith; same = refl }))

pub store-Wrote :
    (d : Daemon) (p : Ptr) (n : Node)
    → Wrote d
        (link (links d.nodes) p (some (n.prev, n.next)))
        (λ a. if a == p then some n.lcd else screen d.nodes a)
        (store d p n)
unfolding store links screen put
store-Wrote d p n = record {
  links_eq = λ x. ground arith;
  screens_eq = λ x. ground arith;
  same = refl;
}

pub free-Wrote :
    (d : Daemon) (p : Ptr)
    → Wrote d
        (link (links d.nodes) p none)
        (λ a. if a == p then none else screen d.nodes a)
        (free d p)
unfolding free links screen put
free-Wrote d p = record {
  links_eq = λ x. ground arith;
  screens_eq = λ x. ground arith;
  same = refl;
}
