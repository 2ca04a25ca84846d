-- ===== src/LinkedLists/Remove/Outcome.antt =====
-- What `lcdnode_remove` leaves, put together from its steps.
use g15daemon.Prelude.{
  ◌≡◌, ◌≢◌, refl, true, false, ◌==◌, if◌then◌else◌, none, List, [], ◌∷◌, arith, Bool-cases, inl,
  inr, ap, subst, sym, ◌∙◌,
}
use g15daemon.Daemon.{Ptr, null, Daemon}
use g15daemon.LinkedLists.{release_keys}
use g15daemon.LinkedLists.Ring.{Links, links, first, last, has, erase, Chain, IsRing}
use g15daemon.LinkedLists.Access.{screen, change}
use g15daemon.LinkedLists.Unlink.{before, has-erase_ne}
use g15daemon.LinkedLists.Remove.Shift.{mark_changed, Shifted}
use g15daemon.LinkedLists.Remove.Rewire.{Rewired}

-- The screen that is shown when `old`, shown, is removed: the one behind it if it is the head, and
-- else the one before it.
unfoldable pub heir_of : (old : Ptr) → List Ptr → Ptr
heir_of old [] = old
heir_of old (x ∷ xs) = if old == x then first xs x else before old x xs

-- The daemon after the screen `old` is removed from the list `xs`.
pub record Removed (old : Ptr) (xs : List Ptr) (d d' : Daemon) : Type 0 where
  pub ring : IsRing d' (erase old xs)
  pub tail : d'.tail ≡ d.tail
  pub current : d'.current ≡ (if d.current == old then heir_of old xs else d.current)
  pub screens :
      (a : Ptr)
      → screen d'.nodes a ≡ (
          if a == old
          then none
          else if d.current == old
          then change (screen d.nodes) d'.current mark_changed a
          else screen d.nodes a)
  pub keyhandler : d'.keyhandler ≡ (if d.keyhandler == old then null else d.keyhandler)
  pub client_handles_keys :
      d'.client_handles_keys ≡ (if d.keyhandler == old then 0 else d.client_handles_keys)

pub heir_of_front : (x y : Ptr) (ys : List Ptr) → heir_of x (x ∷ y ∷ ys) ≡ y
unfolding heir_of
heir_of_front x y ys = ground arith

pub heir_of_middle :
    (old x : Ptr) (xs : List Ptr) → old ≢ x → heir_of old (x ∷ xs) ≡ before old x xs
unfolding heir_of
heir_of_middle old x xs ne = ground arith

-- What `release_keys` leaves.
abbrev pub released : Ptr → Daemon → Daemon
released old d = record d {
  client_handles_keys = if d.keyhandler == old then 0 else d.client_handles_keys;
  keyhandler = if d.keyhandler == old then null else d.keyhandler;
}

pub release_keys-released : (old : Ptr) (d : Daemon) → release_keys old d ≡ released old d
unfolding release_keys
release_keys-released old d = ground arith

module _ (old p q h : Ptr) (xs : List Ptr) (l : Links) (d d1 d2 : Daemon) (s : Shifted old p q d d1)
    (r : Rewired old h l (released old d1) d2) where
  -- A field that `lcdnode_remove` leaves to its last steps.
  after_shift :
      {A : Type 0} (f : Daemon → A) → f d1 ≡ f (record d { nodes = d1.nodes; current = d1.current })
  after_shift f = ap f s.same

  after_unlink :
      {A : Type 0} (f : Daemon → A)
      → f d2 ≡ f (record (released old d1) { nodes = d2.nodes; head = h })
  after_unlink f = ap f r.same

  pub finish :
      Chain (links d2.nodes) d.tail (erase old xs)
      → first (erase old xs) null ≡ h
      → last (erase old xs) null ≡ d.tail
      → has d1.current (erase old xs) ≡ true
      → (if old == d.head then q else p) ≡ heir_of old xs
      → Removed old xs d d2
  finish c eh et ec eheir = record {
    ring = record {
      chain = rw (after_unlink (λ e. e.tail), after_shift (λ e. e.tail)) c;
      head = eh ∙ sym (after_unlink (λ e. e.head));
      tail = rw (after_unlink (λ e. e.tail), after_shift (λ e. e.tail)) et;
      current = rw (after_unlink (λ e. e.current)) ec;
    };
    tail = rw (after_unlink (λ e. e.tail)) (after_shift (λ e. e.tail));
    current = rw (after_unlink (λ e. e.current)) (rw (← eheir) s.current);
    screens = λ a. rw (after_unlink (λ e. e.current)) (ground (arith, r.screens a, s.screens a));
    keyhandler = rw (after_unlink (λ e. e.keyhandler), after_shift (λ e. e.keyhandler)) refl;
    client_handles_keys =
        rw
          (
            after_unlink (λ e. e.client_handles_keys),
            after_shift (λ e. e.client_handles_keys),
            after_shift (λ e. e.keyhandler),
          )
          refl;
  }

pub heir_front : (x h y t : Ptr) → x ≡ h → (if x == h then y else t) ≡ y
heir_front x h y t e = ground arith

pub heir_middle : (old h p q : Ptr) → old ≢ h → (if old == h then q else p) ≡ p
heir_middle old h p q ne = ground arith

pub test_ne : (a b c : Ptr) → a ≡ b → c ≢ b → (a == c) ≡ false
test_ne a b c e ne = ground arith

pub test_eq : (a b c : Ptr) → a ≡ b → c ≡ b → (a == c) ≡ true
test_eq a b c e ne = ground arith

-- The screen that is shown next is in what is left of the list.
pub pick_front :
    (c c' x y : Ptr) (ys : List Ptr)
    → c' ≡ (if c == x then y else c)
    → has c (x ∷ y ∷ ys) ≡ true
    → has c' (y ∷ ys) ≡ true
pick_front c c' x y ys e h = elim (Bool-cases (c == x)) [
  | inl same ↦ ground arith
  | inr other ↦
      let same : c' ≡ c = e ∙ rw other refl in
      subst (λ a. has a (y ∷ ys) ≡ true) (sym same) (ground arith)
]

pub pick_middle :
    (c c' old p : Ptr) (xs : List Ptr)
    → c' ≡ (if c == old then p else c)
    → p ≢ old
    → has p xs ≡ true
    → has c xs ≡ true
    → has c' (erase old xs) ≡ true
pick_middle c c' old p xs e ne hp hc = elim (Bool-cases (c == old)) [
  | inl same ↦
      subst (λ a. has a (erase old xs) ≡ true) (sym (e ∙ rw same refl))
        (has-erase_ne p old xs ne ∙ hp)
  | inr other ↦
      subst (λ a. has a (erase old xs) ≡ true) (sym (e ∙ rw other refl))
        (has-erase_ne c old xs (ground arith) ∙ hc)
]
