-- ===== src/LinkedLists/Remove.antt =====
-- `lcdnode_remove` takes a screen other than the clock's out of the list.
pub mod Shift
mod Rewire
pub mod Outcome
use g15daemon.Prelude.{
  ℕ, ◌≡◌, ◌≢◌, refl, Bool, true, false, ◌==◌, ◌!=◌, if◌then◌else◌, Option, none, some, List, [],
  ◌∷◌, arith, Run, ok, Returns, returns, Returns-bind, Returns-mono, Bool-cases, inl, inr, ap,
  subst, sym, ◌>>=◌, ◌∙◌, eq_of_==,
}
use mathlib.Core.Bool.{false≢true}
use g15daemon.Lcd.{Lcd}
use g15daemon.Daemon.{Ptr, null, Node, Daemon, load, free, set_prev, set_next, set_lcd}
use g15daemon.LinkedLists.{shift_current, release_keys, unlink, lcdnode_remove}
use g15daemon.LinkedLists.Ring.{
  Links, links, link, first, last, has, erase, Chain, Chain-frame, Chain-has, IsRing,
}
use g15daemon.LinkedLists.Access.{
  screen, change, Wrote, load_lem, set_prev-Wrote, set_next-Wrote, set_lcd-Wrote, free-Wrote,
}
use g15daemon.LinkedLists.Unlink.{
  Unlinked, with_prev, with_next, Between, Chain-Between, before, has-last, last-erase, erase_head,
  erase_tail, has-erase_ne, Chain-behead, ne_of_has,
}
use Shift.{mark_changed, Shifted, shift_current-Shifted}
use Rewire.{Rewired, free-Rewired, joined, headed, unlink-middle, unlink-front}
use Outcome.{
  heir_of, Removed, heir_of_front, heir_of_middle, released, release_keys-released, finish,
  heir_front, heir_middle, test_ne, test_eq, pick_front, pick_middle,
}

-- The head goes away.
module _ (d : Daemon) (x y : Ptr) (ys : List Ptr) (r : IsRing d (x ∷ y ∷ ys)) where
  abbrev Place : Ptr → Type 0
  Place a = (p : Ptr) × (q : Ptr) × (links d.nodes a ≡ some (p, q)) × (a ≢ null)

  tail-Place : Place d.tail
  tail-Place =
      Chain-has (links d.nodes) d.tail d.tail (x ∷ y ∷ ys) r.chain
        (subst (λ t. has t (x ∷ y ∷ ys) ≡ true) r.tail (has-last x (y ∷ ys)))

  front-current : (d1 : Daemon) → Shifted x d.tail y d d1 → has d1.current (y ∷ ys) ≡ true
  front-current d1 s =
      pick_front d.current d1.current x y ys
        (subst (λ a. d1.current ≡ (if d.current == x then a else d.current))
          (heir_front x d.head y d.tail r.head) s.current)
        r.current

  front-Removed :
      (d1 d2 : Daemon)
      → Shifted x d.tail y d d1
      → Rewired x y (headed (links d1.nodes) d1.tail y) (released x d1) d2
      → Removed x (x ∷ y ∷ ys) d d2
  front-Removed d1 d2 s w =
      let rest = erase_head x (y ∷ ys) in
      let tails : d1.tail ≡ d.tail = ap (λ (e : Daemon). e.tail) s.same in
      finish x d.tail y y (x ∷ y ∷ ys) (headed (links d1.nodes) d1.tail y) d d1 d2 s w
        (subst (λ zs. Chain (links d2.nodes) d.tail zs) (sym rest)
          (Chain-behead (links d.nodes) (links d2.nodes) d.tail x y ys r.chain
            (λ a. ground (arith, w.links_eq a, s.links_eq a))))
        (ap (λ zs. first zs null) rest) (ap (λ zs. last zs null) rest ∙ r.tail)
        (subst (λ zs. has d1.current zs ≡ true) (sym rest) (front-current d1 s))
        (heir_front x d.head y d.tail r.head ∙ sym (heir_of_front x y ys))

  remove-front : Returns (Removed x (x ∷ y ∷ ys) d) (lcdnode_remove x d)
  unfolding lcdnode_remove
  remove-front =
      let (x_ne, x_at, x_out, rest) = r.chain in
      let (n, got, prev_eq, next_eq, holds) = load_lem d x x_ne x_at in
      let y_ne : y ≢ x = ground arith in
      let (ta, tb, tail_at, tail_ne) = tail-Place in
      rw got (
        Returns-bind
          (shift_current-Shifted x d.tail y d x_ne x_at tail-Place (first ys y, x, rest.1, rest.0))
          λ d1 s. rw (release_keys-released x d1) (
            Returns-bind
              (unlink-front x d.tail y (released x d1) x_ne (ground (arith, s.links_eq x))
                (test_eq d1.head d.head x (ap (λ (e : Daemon). e.head) s.same) r.head) y_ne
                (first ys y) x (ground (arith, s.links_eq y)) rest.0)
              λ d2 w.
                returns (front-Removed d1 (free d2 x) s (free-Rewired x y _ (released x d1) d2 w))))

module _ (old : Ptr) (d : Daemon) (x : Ptr) (xs : List Ptr) (r : IsRing d (x ∷ xs))
    (not_tail : old ≢ d.tail) where
  abbrev l : Links
  l = links d.nodes

  at : (a : Ptr) → has a (x ∷ xs) ≡ true → (p : Ptr) × (q : Ptr) × (l a ≡ some (p, q)) × (a ≢ null)
  at a h = Chain-has l d.tail a (x ∷ xs) r.chain h

  middle-Removed :
      (b : Between l d.tail x old xs)
      → has old xs ≡ true
      → (d1 d2 : Daemon) → Shifted old b.p b.q d d1
      → Rewired old d1.head (joined (links d1.nodes) b.p b.q) (released old d1) d2
      → Removed old (x ∷ xs) d d2
  middle-Removed b h d1 d2 s w =
      let x_ne : old ≢ x = ne_of_has old x xs h r.chain.2 in
      let rest = erase_tail old x xs (λ e. x_ne (sym e)) in
      finish old b.p b.q d1.head (x ∷ xs) (joined (links d1.nodes) b.p b.q) d d1 d2 s w
        (subst (λ zs. Chain (links d2.nodes) d.tail zs) (sym rest)
          (b.rejoin (links d2.nodes) (λ a. ground (arith, w.links_eq a, s.links_eq a))))
        (ap (λ zs. first zs null) rest ∙ r.head ∙ sym (ap (λ (e : Daemon). e.head) s.same))
        (ap (λ zs. last zs null) rest
          ∙ last-erase old x xs (λ e. not_tail (sym e ∙ r.tail))
          ∙ r.tail)
        (pick_middle d.current d1.current old b.p (x ∷ xs)
          (subst (λ a. d1.current ≡ (if d.current == old then a else d.current))
            (heir_middle old d.head b.p b.q (λ e. x_ne (e ∙ sym r.head))) s.current)
          b.p_ne b.has_p r.current)
        (heir_middle old d.head b.p b.q (λ e. x_ne (e ∙ sym r.head))
          ∙ b.p_eq
          ∙ sym (heir_of_middle old x xs x_ne))

  remove-middle :
      Between l d.tail x old xs
      → has old xs ≡ true
      → Returns (Removed old (x ∷ xs) d) (lcdnode_remove old d)
  unfolding lcdnode_remove
  remove-middle b h =
      let x_ne : old ≢ x = ne_of_has old x xs h r.chain.2 in
      let (_, _, _, old_ne) = at old (ground arith) in
      let p_at = at b.p b.has_p in
      let q_at = at b.q (ground (arith, b.has_q)) in
      let (n, got, prev_eq, next_eq, holds) = load_lem d old old_ne b.old_at in
      rw got (
        Returns-bind (shift_current-Shifted old b.p b.q d old_ne b.old_at p_at q_at) λ d1 s.
          rw (release_keys-released old d1) (
            Returns-bind
              (unlink-middle old b.p b.q (released old d1) old_ne (s.links_eq old ∙ b.old_at)
                (test_ne d1.head d.head old (ap (λ (e : Daemon). e.head) s.same)
                  (λ e. x_ne (e ∙ sym r.head)))
                b.p_ne b.q_ne b.p_ne_q p_at.0 p_at.1 q_at.0 q_at.1 (s.links_eq b.p ∙ p_at.2) p_at.3
                (s.links_eq b.q ∙ q_at.2) q_at.3)
              λ d2 w. returns (
                middle-Removed b h d1 (free d2 old) s
                  (free-Rewired old d1.head _ (released old d1) d2 w))))

-- `lcdnode_remove` of a screen of the list other than the tail returns, without touching a freed
-- node: what is left keeps its order, the screen is freed, another of the list is shown if it was
-- shown (the one behind it if it was the head, else the one before it) and marked as changed, and the
-- keys go back to the daemon if it handled them.
pub lcdnode_remove-Removed :
    (old : Ptr) (d : Daemon) (xs : List Ptr)
    → IsRing d xs
    → has old xs ≡ true
    → old ≢ d.tail
    → Returns (Removed old xs d) (lcdnode_remove old d)
lcdnode_remove-Removed old d [] r h ne = absurd (false≢true h)
lcdnode_remove-Removed old d (x ∷ []) r h ne = absurd (ground (arith, r.tail))
lcdnode_remove-Removed old d (x ∷ y ∷ ys) r h ne = elim (Bool-cases (old == x)) [
  | inl e ↦
      subst (λ a. Returns (Removed a (x ∷ y ∷ ys) d) (lcdnode_remove a d)) (sym (eq_of_== old x e))
        (remove-front d x y ys r)
  | inr e ↦
      let h' : has old (y ∷ ys) ≡ true = ground arith in
      remove-middle old d x (y ∷ ys) r ne
        (Chain-Between (links d.nodes) d.tail x old (y ∷ ys) r.chain h' (λ e. ne (sym e ∙ r.tail)))
        h'
]
