-- ===== src/LinkedLists/Cycle/Loop.antt =====
-- The loop of the cycle key clears `usr_foreground` all round the list.
use mathlib.Core.Option
use mathlib.Core.Bool.{false≢true}
use g15daemon.Prelude.{
  ℕ, zero, suc, ◌≤◌, ◌≡◌, ◌≢◌, refl, Bool, true, false, ◌||◌, ◌==◌, ◌!=◌, if◌then◌else◌, Option,
  none, some, List, [], ◌∷◌, arith, ok, Returns, returns, Returns-bind, Returns-mono, subst, sym,
  ap, ◌∙◌, !=-eq_true, Bool-cases, inl, inr,
}
use g15daemon.Lcd.{Lcd}
use g15daemon.Text.{length}
use g15daemon.Daemon.{Ptr, null, Daemon}
use g15daemon.LinkedLists.{step_current, clear_loop}
use g15daemon.LinkedLists.Ring.{Links, links, has}
use g15daemon.LinkedLists.Access.{screen, change, Wrote, load_lem, set_lcd-Wrote}
use g15daemon.LinkedLists.Walk.{Steps}

abbrev pub background : Lcd → Lcd
background lcd = record lcd { usr_foreground = 0 }

-- What the loop round the list leaves: the screens `ys` are in the background, and `c` is shown.
pub record Walked (c : Ptr) (ys : List Ptr) (d d' : Daemon) : Type 0 where
  pub links_eq : (a : Ptr) → links d'.nodes a ≡ links d.nodes a
  pub screens_eq :
      (a : Ptr)
      → screen d'.nodes a
        ≡ (if has a ys then Option.map background (screen d.nodes a) else screen d.nodes a)
  pub current : d'.current ≡ c
  pub head : d'.head ≡ d.head
  pub tail : d'.tail ≡ d.tail
  pub keys : d'.client_handles_keys ≡ d.client_handles_keys

pub step_current-eq :
    (d : Daemon) (p q : Ptr)
    → d.current ≢ null
    → links d.nodes d.current ≡ some (p, q)
    → step_current d ≡ ok (record d { current = if d.tail == d.current then d.head else p })
unfolding step_current
step_current-eq d p q ne at =
    let (n, got, en, next, found) = load_lem d d.current ne at in
    elim (Bool-cases (d.tail == d.current)) [
      | inl end ↦ rw end refl
      | inr inside ↦ rw (inside, got, en) refl
    ]

map_twice :
    (b h : Bool) (s t u : Option Lcd)
    → t ≡ (if b then Option.map background s else s)
    → u ≡ (if h then Option.map background t else t)
    → u ≡ (if b || h then Option.map background s else s)
map_twice true true none t u e e' = e' ∙ ap (Option.map background) e
map_twice true true (some lcd) t u e e' = e' ∙ ap (Option.map background) e
map_twice true false s t u e e' = e' ∙ e
map_twice false true s t u e e' = e' ∙ ap (Option.map background) e
map_twice false false s t u e e' = e' ∙ e

!=-eq_false : (a b : ℕ) → a ≡ b → (a != b) ≡ false
!=-eq_false a b h = ground arith

has_tail : (c z : Ptr) (zs : List Ptr) → has c (z ∷ zs) ≡ false → has c zs ≡ false
has_tail c z zs h = ground arith

member_ne : (c z : Ptr) (zs : List Ptr) → has c (z ∷ zs) ≡ false → c ≢ z
member_ne c z zs h e = false≢true (sym h ∙ ground arith)

Steps-cong :
    {l l' : Links} (head tail end : Ptr) (ys : List Ptr)
    → ((a : Ptr) → l' a ≡ l a)
    → Steps l head tail end ys
    → Steps l' head tail end ys
Steps-cong head tail end [] same s = tt
Steps-cong head tail end (y ∷ ys) same ((p, q, ne, at, e), s) =
    ((p, q, ne, same y ∙ at, e), Steps-cong head tail end ys same s)

Steps-moved :
    {s : Ptr → Option Lcd} (d d1 : Daemon) (end : Ptr) (ys : List Ptr)
    → Wrote d (links d.nodes) s d1
    → Steps (links d.nodes) d.head d.tail end ys
    → Steps (links d1.nodes) d1.head d1.tail end ys
Steps-moved d d1 end ys w s =
    subst (λ h. Steps (links d1.nodes) h d1.tail end ys) (sym (ap (λ x. x.head) w.same))
      (subst (λ t. Steps (links d1.nodes) d.head t end ys) (sym (ap (λ x. x.tail) w.same))
        (Steps-cong d.head d.tail end ys w.links_eq s))

-- The first round, and those behind it.
Walked-cons :
    (c y : Ptr) (ys : List Ptr) (d d1 d2 d3 : Daemon)
    → Wrote d (links d.nodes) (change (screen d.nodes) y background) d1
    → (p : Ptr) → d2 ≡ record d1 { current = p }
    → Walked c ys d2 d3
    → Walked c (y ∷ ys) d d3
Walked-cons c y ys d d1 d2 d3 w p e k = record {
  links_eq = λ a. k.links_eq a ∙ ap (λ x. links x.nodes a) e ∙ w.links_eq a;
  screens_eq = λ a.
      map_twice (a == y) (has a ys) (screen d.nodes a) (screen d2.nodes a) (screen d3.nodes a)
        (ap (λ x. screen x.nodes a) e ∙ w.screens_eq a) (k.screens_eq a);
  current = k.current;
  head = k.head ∙ ap (λ x. x.head) e ∙ ap (λ x. x.head) w.same;
  tail = k.tail ∙ ap (λ x. x.tail) e ∙ ap (λ x. x.tail) w.same;
  keys = k.keys ∙ ap (λ x. x.client_handles_keys) e ∙ ap (λ x. x.client_handles_keys) w.same;
}

Walked-nil : (c : Ptr) (d : Daemon) → d.current ≡ c → Walked c [] d d
Walked-nil c d e = record {
  links_eq = λ a. refl;
  screens_eq = λ a. refl;
  current = e;
  head = refl;
  tail = refl;
  keys = refl;
}

-- A round of the loop, and then the test whether it is back at `c`.
first_round :
    {Q : Daemon → Type 0} (fuel : ℕ) (c y p q end : Ptr) (d : Daemon)
    → d.current ≡ y
    → y ≢ null
    → links d.nodes y ≡ some (p, q)
    → (if d.tail == y then d.head else p) ≡ end
    → ((d1 : Daemon) (to : Ptr)
        → Wrote d (links d.nodes) (change (screen d.nodes) y background) d1
        → to ≡ end
        → Returns Q (
            if c != to
            then clear_loop fuel c (record d1 { current = to })
            else ok (record d1 { current = to })))
    → Returns Q (clear_loop (suc fuel) c d)
unfolding clear_loop
first_round fuel c y p q end d e ne at next others =
    let ne' : d.current ≢ null = subst (λ a. a ≢ null) (sym e) ne in
    let at' : links d.nodes d.current ≡ some (p, q) =
      subst (λ a. links d.nodes a ≡ some (p, q)) (sym e) at in
    Returns-bind (set_lcd-Wrote d d.current ne' at' background) λ d1 w.
      let same : d1.current ≡ d.current = ap (λ x. x.current) w.same in
      let w' = subst (λ a. Wrote d (links d.nodes) (change (screen d.nodes) a background) d1) e w in
      let stepped =
        step_current-eq d1 p q (subst (λ a. a ≢ null) (sym same) ne')
          (w.links_eq d1.current ∙ ap (links d.nodes) same ∙ at') in
      let to_eq =
        ap (λ x. if x.tail == x.current then x.head else p) w.same
        ∙ ap (λ a. if d.tail == a then d.head else p) e
        ∙ next in
      rw stepped (others d1 _ w' to_eq)

-- The loop ends when it is back at the screen `c`.
pub clear_loop-Walked :
    (fuel : ℕ) (c y : Ptr) (ys : List Ptr) (d : Daemon)
    → length (y ∷ ys) ≤ fuel
    → d.current ≡ y
    → Steps (links d.nodes) d.head d.tail c (y ∷ ys)
    → has c ys ≡ false
    → Returns (Walked c (y ∷ ys) d) (clear_loop fuel c d)
clear_loop-Walked zero c y ys d enough e s once = absurd (omega arith)
clear_loop-Walked (suc fuel) c y [] d enough e ((p, q, ne, at, next), s) once =
    first_round fuel c y p q c d e ne at next λ d1 to w back. rw (!=-eq_false c to (sym back)) (
      returns
        (Walked-cons c y [] d d1 _ _ w to refl (Walked-nil c (record d1 { current = to }) back)))
clear_loop-Walked (suc fuel) c y (z ∷ zs) d enough e ((p, q, ne, at, next), s) once =
    first_round fuel c y p q z d e ne at next λ d1 to w back.
      let other : c ≢ to = λ h. member_ne c z zs once (h ∙ back) in
      rw (!=-eq_true c to other) (
        Returns-mono
          (clear_loop-Walked fuel c z zs (record d1 { current = to }) (omega arith) back
            (Steps-moved d d1 c (z ∷ zs) w s) (has_tail c z zs once))
          λ d3 k. Walked-cons c y (z ∷ zs) d d1 _ d3 w to refl k)
