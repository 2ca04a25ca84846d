-- ===== src/LinkedLists/Destroy.antt =====
-- `lcdlist_destroy` frees every screen of the list, and touches no freed node.
use g15daemon.Prelude.{
  ℕ, zero, suc, ◌+◌, ◌≤◌, ◌≡◌, ◌≢◌, refl, true, false, ◌==◌, ◌!=◌, if◌then◌else◌, none, List, [],
  ◌∷◌, arith, Returns, returns, Returns-bind, Returns-mono, Bool-cases, inl, inr, sym, subst, ap,
  eq_of_==, ◌∙◌,
}
use mathlib.Core.Bool.{false≢true}
use g15daemon.Daemon.{Ptr, Daemon, free}
use g15daemon.LinkedLists.{destroy_loop, lcdlist_destroy, lcdnode_remove}
use g15daemon.LinkedLists.Ring.{has, IsRing}
use g15daemon.LinkedLists.Access.{screen, load_lem, free-Wrote}
use g15daemon.LinkedLists.Unlink.{has-last, erase_head, ne_of_has}
use g15daemon.LinkedLists.Remove.{lcdnode_remove-Removed}
use g15daemon.LinkedLists.Remove.Outcome.{Removed}

-- The number of screens.
abbrev pub length : List Ptr → ℕ
length [] = 0
length (x ∷ xs) = length xs + 1

-- Only the tail is left of the screens `xs`.
record Alone (xs : List Ptr) (d d' : Daemon) : Type 0 where
  ring : IsRing d' (d'.tail ∷ [])
  tail : has d'.tail xs ≡ true
  others : (a : Ptr) → has a xs ≡ false → screen d'.nodes a ≡ screen d.nodes a
  freed : (a : Ptr) → has a xs ≡ true → a ≢ d'.tail → screen d'.nodes a ≡ none

-- The head is not the tail while the list has two screens.
ends_ne :
    (d : Daemon) (x y : Ptr) (ys : List Ptr) → IsRing d (x ∷ y ∷ ys) → (d.head ≡ x) × (x ≢ d.tail)
ends_ne d x y ys r = (sym r.head, ground (arith, r.tail, has-last y ys, r.chain.2))

-- A screen that is neither removed nor shown next is as it was.
Removed-elsewhere :
    (old : Ptr) (xs : List Ptr) (d d1 : Daemon) (a : Ptr)
    → Removed old xs d d1
    → a ≢ old
    → a ≢ d1.current
    → screen d1.nodes a ≡ screen d.nodes a
Removed-elsewhere old xs d d1 a m ne nc = ground (arith, m.screens a)

Removed-gone :
    (old : Ptr) (xs : List Ptr) (d d1 : Daemon) → Removed old xs d d1 → screen d1.nodes old ≡ none
Removed-gone old xs d d1 m = ground (arith, m.screens old)

has_front : (a x : Ptr) (xs : List Ptr) → has a (x ∷ xs) ≡ false → (a ≢ x) × (has a xs ≡ false)
has_front a x xs h = (ground arith, ground arith)

-- After the head is removed the rest stands as before, but for the mark on the screen shown.
Removed-Alone :
    (d d1 d' : Daemon) (x y : Ptr) (ys : List Ptr)
    → IsRing d (x ∷ y ∷ ys)
    → Removed x (x ∷ y ∷ ys) d d1
    → IsRing d1 (y ∷ ys)
    → Alone (y ∷ ys) d1 d'
    → Alone (x ∷ y ∷ ys) d d'
Removed-Alone d d1 d' x y ys r m r1 a = record {
  ring = a.ring;
  tail = ground (arith, a.tail);
  others = λ b h.
      let out = has_front b x (y ∷ ys) h in
      a.others b out.1
      ∙ Removed-elsewhere x (x ∷ y ∷ ys) d d1 b m out.0
          (λ e. ne_of_has d1.current b (y ∷ ys) r1.current out.1 (sym e));
  freed = λ b h ne. elim (Bool-cases (b == x)) [
    | inl e ↦
        let same = eq_of_== b x e in
        a.others b (subst (λ c. has c (y ∷ ys) ≡ false) (sym same) r.chain.2)
        ∙ ap (screen d1.nodes) same
        ∙ Removed-gone x (x ∷ y ∷ ys) d d1 m
    | inr e ↦ a.freed b (ground arith) ne
  ];
}

heads_ne : (h x t : Ptr) → h ≡ x → x ≢ t → (h != t) ≡ true
heads_ne h x t e ne = ground arith

destroy_loop-Alone :
    (fuel : ℕ) (d : Daemon) (xs : List Ptr)
    → IsRing d xs
    → length xs ≤ fuel
    → Returns (Alone xs d) (destroy_loop fuel d)
unfolding destroy_loop
destroy_loop-Alone fuel d [] r h = absurd (false≢true r.current)
destroy_loop-Alone zero d (x ∷ xs) r h = absurd (omega arith)
destroy_loop-Alone (suc fuel) d (x ∷ []) r h =
    let e : (d.head != d.tail) ≡ false = ground (arith, r.head, r.tail) in
    rw e (
      returns (record {
        ring = subst (λ t. IsRing d (t ∷ [])) r.tail r;
        tail = ground (arith, r.tail);
        others = λ a h'. refl;
        freed = λ a h' ne. absurd (ground (arith, r.tail));
      }))
destroy_loop-Alone (suc fuel) d (x ∷ y ∷ ys) r h =
    let ends = ends_ne d x y ys r in
    let next =
      Returns-bind
        (subst (λ h. Returns (Removed x (x ∷ y ∷ ys) d) (lcdnode_remove h d)) (sym ends.0)
          (lcdnode_remove-Removed x d (x ∷ y ∷ ys) r (ground arith) ends.1))
        λ d1 m.
          let r1 = subst (IsRing d1) (erase_head x (y ∷ ys)) m.ring in
          Returns-mono (destroy_loop-Alone fuel d1 (y ∷ ys) r1 (omega arith))
            λ d' a. Removed-Alone d d1 d' x y ys r m r1 a in
    rw (heads_ne d.head x d.tail ends.0 ends.1) next

-- What the last `free` leaves.
Alone-free :
    (d d' : Daemon) (xs : List Ptr) (a : Ptr)
    → Alone xs d d'
    → screen (free d' d'.tail).nodes a ≡ (if has a xs then none else screen d.nodes a)
Alone-free d d' xs a w = (free-Wrote d' d'.tail).screens_eq a ∙ elim (Bool-cases (a == d'.tail)) [
  | inl e ↦
      let h : has a xs ≡ true = subst (λ b. has b xs ≡ true) (sym (eq_of_== a d'.tail e)) w.tail in
      rw (e, h) refl
  | inr e ↦ elim (Bool-cases (has a xs)) [
    | inl h ↦ rw (e, h) (w.freed a h (ground arith))
    | inr h ↦ rw (e, h) (w.others a h)
  ]
]

-- `lcdlist_destroy` with as much fuel as there are screens returns, touches no freed node, leaves
-- none of the screens of the list, and every screen elsewhere as it was.
pub lcdlist_destroy-frees :
    (fuel : ℕ) (d : Daemon) (xs : List Ptr)
    → IsRing d xs
    → length xs ≤ fuel
    → Returns
        (λ d'. (a : Ptr) → screen d'.nodes a ≡ (if has a xs then none else screen d.nodes a))
        (lcdlist_destroy fuel d)
lcdlist_destroy-frees fuel d xs r h =
    unfold lcdlist_destroy in
    Returns-bind (destroy_loop-Alone fuel d xs r h) λ d' a.
      let (n, got, ep, eq, at) = load_lem d' d'.tail a.ring.chain.0 a.ring.chain.1 in
      rw got (returns (λ b. Alone-free d d' xs b a))
