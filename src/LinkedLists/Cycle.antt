-- ===== src/LinkedLists/Cycle.antt =====
-- The cycle key: `cycle_screens` shows the next screen of the list.
pub mod Loop
use mathlib.Core.Option
use mathlib.Core.Bool.{false≢true}
use g15daemon.Prelude.{
  ℕ, zero, suc, ◌≤◌, ◌≡◌, ◌≢◌, refl, Bool, true, false, ◌||◌, ◌==◌, ◌!=◌, if◌then◌else◌, Option,
  none, some, List, [], ◌∷◌, arith, ok, Returns, returns, Returns-bind, Returns-mono, subst, sym,
  ap, ◌∙◌, !=-eq_true, Bool-cases, inl, inr, eq_of_==,
}
use g15daemon.Lcd.{Lcd}
use g15daemon.Text.{length}
use g15daemon.Daemon.{Ptr, null, Node, Daemon, load, store, set_lcd}
use g15daemon.LinkedLists.{step_current, clear_loop, select, cycle_screens}
use g15daemon.LinkedLists.Ring.{
  Links, links, ends, first, last, has, Chain, Chain-frame, Chain-has, IsRing,
}
use g15daemon.LinkedLists.Access.{
  shown, screen, change, Wrote, load_lem, set_lcd-Wrote, store-Wrote,
}
use g15daemon.LinkedLists.Walk.{Steps, round_from, round-Steps, round-once, round-has, round-length}
use g15daemon.LinkedLists.Cycle.Loop.{background, Walked, step_current-eq, clear_loop-Walked}

abbrev pub chosen : Lcd → Lcd
chosen lcd = record lcd { usr_foreground = 1; state_changed = 1 }

same_link :
    (l : Links) (p a : Ptr) (c d : Ptr)
    → l p ≡ some (c, d)
    → (if a == p then some (c, d) else l a) ≡ l a
same_link l p a c d e = elim (Bool-cases (a == p)) [
  | inl same ↦ rw same (sym e ∙ ap l (sym (eq_of_== a p same)))
  | inr other ↦ rw other refl
]

same_screen :
    (s : Ptr → Option Lcd) (p a : Ptr) (lcd : Lcd)
    → s p ≡ some lcd
    → (if a == p then some lcd else s a) ≡ s a
same_screen s p a lcd e = elim (Bool-cases (a == p)) [
  | inl same ↦ rw same (sym e ∙ ap s (sym (eq_of_== a p same)))
  | inr other ↦ rw other refl
]

node_screen : (d : Daemon) (p : Ptr) (n : Node) → d.nodes p ≡ some n → screen d.nodes p ≡ some n.lcd
unfolding screen
node_screen d p n e = ap shown e

node_links :
    (d : Daemon) (p : Ptr) (n : Node) → d.nodes p ≡ some n → links d.nodes p ≡ some (n.prev, n.next)
unfolding links
node_links d p n e = ap ends e

abbrev with_nodes : Daemon → (Ptr → Option Node) → Daemon
with_nodes d nodes = record d { nodes = nodes }

select-Wrote :
    (d : Daemon) (p : Ptr) {a b : Ptr}
    → p ≢ null
    → links d.nodes p ≡ some (a, b)
    → Returns (Wrote d (links d.nodes) (change (screen d.nodes) p chosen)) (select p d)
unfolding select
select-Wrote d p ne at = Returns-bind (set_lcd-Wrote d p ne at chosen) λ d1 w.
    let (n, got, prev, next, found) = load_lem d1 p ne (w.links_eq p ∙ at) in
    let k = store-Wrote d1 p (record n { last_priority = p }) in
    rw got (
      returns (record {
        links_eq = λ x.
            k.links_eq x
            ∙ same_link (links d1.nodes) p x n.prev n.next (node_links d1 p n found)
            ∙ w.links_eq x;
        screens_eq = λ x.
            k.screens_eq x
            ∙ same_screen (screen d1.nodes) p x n.lcd (node_screen d1 p n found)
            ∙ w.screens_eq x;
        same =
            k.same
            ∙ ap (λ e. with_nodes e (store d1 p (record n { last_priority = p })).nodes) w.same;
      }))

-- The screen behind `c`: the first one behind the last.
abbrev pub following : Ptr → List Ptr → Ptr
following c xs = first (round_from c xs) c

-- The next screen is shown, by the user's wish and marked as changed; the others of the list are in
-- the background, and the list is as it was.
pub record Cycled (xs : List Ptr) (d d' : Daemon) : Type 0 where
  pub ring : IsRing d' xs
  pub current : d'.current ≡ following d.current xs
  pub keys : d'.client_handles_keys ≡ d.client_handles_keys
  pub screens :
      (a : Ptr)
      → screen d'.nodes a ≡ (
          if a == d'.current
          then Option.map chosen (screen d.nodes a)
          else if has a xs
          then Option.map background (screen d.nodes a)
          else screen d.nodes a)

first-has : (c : Ptr) (ys : List Ptr) → has (first ys c) (c ∷ ys) ≡ true
first-has c [] = ground arith
first-has c (y ∷ ys) = ground arith

chosen_lem :
    (b h : Bool) (s : Option Lcd)
    → (if b
        then Option.map chosen (if h then Option.map background s else s)
        else if h
        then Option.map background s
        else s)
      ≡ (if b then Option.map chosen s else if h then Option.map background s else s)
chosen_lem true true none = refl
chosen_lem true true (some lcd) = refl
chosen_lem true false s = refl
chosen_lem false h s = refl

module _ (d : Daemon) (xs : List Ptr) (r : IsRing d xs) where
  following-has : has (following d.current xs) xs ≡ true
  following-has =
      sym (
        round-has (links d.nodes) d.head d.tail d.tail d.current xs r.chain r.current
          (following d.current xs))
      ∙ first-has d.current (round_from d.current xs)

  Cycled-close :
      (d1 d3 : Daemon) (to : Ptr)
      → Walked d.current (d.current ∷ round_from d.current xs) d d1
      → to ≡ following d.current xs
      → Wrote (record d1 { current = to }) (links d1.nodes) (change (screen d1.nodes) to chosen) d3
      → Cycled xs d d3
  Cycled-close d1 d3 to k e w =
      let at : d3.current ≡ to = ap (λ x. x.current) w.same in
      let all = round-has (links d.nodes) d.head d.tail d.tail d.current xs r.chain r.current in
      record {
        ring = record {
          chain =
              subst (λ t. Chain (links d3.nodes) t xs) (sym (ap (λ x. x.tail) w.same ∙ k.tail))
                (Chain-frame d.tail xs r.chain (λ a h. w.links_eq a ∙ k.links_eq a));
          head = r.head ∙ sym (ap (λ x. x.head) w.same ∙ k.head);
          tail = r.tail ∙ sym (ap (λ x. x.tail) w.same ∙ k.tail);
          current = subst (λ a. has a xs ≡ true) (sym (at ∙ e)) following-has;
        };
        current = at ∙ e;
        keys = ap (λ x. x.client_handles_keys) w.same ∙ k.keys;
        screens = λ a.
            w.screens_eq a
            ∙ ap (λ s. if a == to then Option.map chosen s else s)
                (k.screens_eq a
                  ∙ ap
                      (λ h.
                        if h then Option.map background (screen d.nodes a) else screen d.nodes a)
                      (all a))
            ∙ chosen_lem (a == to) (has a xs) (screen d.nodes a)
            ∙ ap
                (λ t.
                  if a == t
                  then Option.map chosen (screen d.nodes a)
                  else if has a xs
                  then Option.map background (screen d.nodes a)
                  else screen d.nodes a)
                (sym at);
      }

  -- With rounds for every screen of the list, a press of the cycle key shows the next screen, round
  -- the list, marks it as changed and as chosen by the user, and puts all the others in the
  -- background; the list stays as it is.
  pub cycle_screens-Cycled :
      (fuel : ℕ) → length xs ≤ fuel → Returns (Cycled xs d) (cycle_screens fuel d)
  unfolding cycle_screens
  cycle_screens-Cycled fuel enough =
      let c = d.current in
      let ys = round_from c xs in
      let s =
        round-Steps (links d.nodes) d.head d.tail d.tail c xs r.chain r.current r.tail r.head in
      let once = round-once (links d.nodes) d.head d.tail d.tail c xs r.chain r.current in
      let len = round-length (links d.nodes) d.head d.tail d.tail c xs r.chain r.current in
      let (p, q, ne, at, next) = s.0 in
      Returns-bind (clear_loop-Walked fuel c c ys d (omega (arith, len)) refl s once) λ d1 k.
        let there : links d1.nodes d1.current ≡ some (p, q) =
          k.links_eq d1.current ∙ ap (links d.nodes) k.current ∙ at in
        let to = if d1.tail == d1.current then d1.head else p in
        let to_eq : to ≡ following c xs =
          ap (λ t. if t == d1.current then d1.head else p) k.tail
          ∙ ap (λ x. if d.tail == x then d1.head else p) k.current
          ∙ ap (λ h. if d.tail == c then h else p) k.head
          ∙ next in
        let (a, b, linked, ne') =
          Chain-has (links d.nodes) d.tail to xs r.chain
            (subst (λ x. has x xs ≡ true) (sym to_eq) following-has) in
        rw (step_current-eq d1 p q (subst (λ a. a ≢ null) (sym k.current) ne) there) (
          Returns-mono (select-Wrote (record d1 { current = to }) to ne' (k.links_eq to ∙ linked))
            λ d3 w. Cycled-close d1 d3 to k to_eq w)
