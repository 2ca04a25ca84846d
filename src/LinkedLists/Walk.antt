-- ===== src/LinkedLists/Walk.antt =====
-- The way round the display list, from a screen through the tail and the head back to it.
use mathlib.Core.Bool.{false≢true}
use g15daemon.Prelude.{
  ◌≡◌, ◌≢◌, refl, Bool, true, false, ◌||◌, ◌==◌, if◌then◌else◌, some, List, [], ◌∷◌, ◌++◌, arith,
  Bool-cases, inl, inr, subst, sym, ap, ◌∙◌, eq_of_==,
}
use g15daemon.Daemon.{Ptr, null}
use g15daemon.LinkedLists.Ring.{Links, first, last, has, Chain}
use g15daemon.Text.{length}
use g15daemon.Text.Laws.{length-append}

-- Each screen of the list is followed by the next one, and the last by `end`: the tail by the head,
-- and another by its `prev`.
abbrev pub Steps : Links → (head tail end : Ptr) → List Ptr → Type 0
Steps l head tail end [] = Unit {0}
Steps l head tail end (y ∷ ys) =
    ((p : Ptr) × (q : Ptr) × (y ≢ null)
      × (l y ≡ some (p, q))
      × ((if tail == y then head else p) ≡ first ys end))
    × Steps l head tail end ys

-- The list before a screen, and behind it.
abbrev pub upto : Ptr → List Ptr → List Ptr
upto c [] = []
upto c (x ∷ xs) = if c == x then [] else x ∷ upto c xs

abbrev pub behind : Ptr → List Ptr → List Ptr
behind c [] = []
behind c (x ∷ xs) = if c == x then xs else behind c xs

-- The list from a screen on, round to the one before it.
abbrev pub round_from : Ptr → List Ptr → List Ptr
round_from c xs = behind c xs ++ upto c xs

last-has : (x : Ptr) (xs : List Ptr) → has (last xs x) (x ∷ xs) ≡ true
last-has x [] = ground arith
last-has x (y ∷ ys) = ground (arith, last-has y ys)

Chain-Steps :
    (l : Links) (head tail up z : Ptr) (xs : List Ptr)
    → Chain l up xs
    → last xs z ≡ tail
    → Steps l head tail head xs
Chain-Steps l head tail up z [] c e = tt
Chain-Steps l head tail up z (x ∷ []) (ne, at, out, c) e = ((x, up, ne, at, ground arith), tt)
Chain-Steps l head tail up z (x ∷ y ∷ ys) (ne, at, out, c) e =
    let inside : has tail (y ∷ ys) ≡ true = subst (λ t. has t (y ∷ ys) ≡ true) e (last-has y ys) in
    let other : tail ≢ x =
      λ same. false≢true (sym out ∙ subst (λ t. has t (y ∷ ys) ≡ true) same inside) in
    ((y, up, ne, at, ground (arith, other)), Chain-Steps l head tail x x (y ∷ ys) c e)

first-append : (ys zs : List Ptr) (end : Ptr) → first (ys ++ zs) end ≡ first ys (first zs end)
first-append [] zs end = refl
first-append (y ∷ ys) zs end = refl

module _ (l : Links) (head tail end : Ptr) where
  Steps-append :
      (ys zs : List Ptr)
      → Steps l head tail (first zs end) ys
      → Steps l head tail end zs
      → Steps l head tail end (ys ++ zs)
  Steps-append [] zs s t = t
  Steps-append (y ∷ ys) zs ((p, q, ne, at, e), s) t =
      ((p, q, ne, at, e ∙ sym (first-append ys zs end)), Steps-append ys zs s t)

  Steps-front :
      (ys zs : List Ptr) → Steps l head tail end (ys ++ zs) → Steps l head tail (first zs end) ys
  Steps-front [] zs s = tt
  Steps-front (y ∷ ys) zs ((p, q, ne, at, e), s) =
      ((p, q, ne, at, e ∙ first-append ys zs end), Steps-front ys zs s)

  Steps-back : (ys zs : List Ptr) → Steps l head tail end (ys ++ zs) → Steps l head tail end zs
  Steps-back [] zs s = s
  Steps-back (y ∷ ys) zs (here, s) = Steps-back ys zs s

split : (c : Ptr) (xs : List Ptr) → has c xs ≡ true → xs ≡ upto c xs ++ (c ∷ behind c xs)
split c [] h = absurd (false≢true h)
split c (x ∷ xs) h = elim (Bool-cases (c == x)) [
  | inl same ↦ rw same (ap (λ a. a ∷ xs) (sym (eq_of_== c x same)))
  | inr other ↦ rw other (ap (λ t. x ∷ t) (split c xs (ground arith)))
]

has-append : (a : Ptr) (ys zs : List Ptr) → has a (ys ++ zs) ≡ (has a ys || has a zs)
has-append a [] zs = refl
has-append a (y ∷ ys) zs = ground (arith, has-append a ys zs)

upto-has : (c : Ptr) (xs : List Ptr) → has c (upto c xs) ≡ false
upto-has c [] = refl
upto-has c (x ∷ xs) = ground (arith, upto-has c xs)

behind-has : (l : Links) (up c : Ptr) (xs : List Ptr) → Chain l up xs → has c (behind c xs) ≡ false
behind-has l up c [] chain = refl
behind-has l up c (x ∷ xs) (ne, at, out, chain) = elim (Bool-cases (c == x)) [
  | inl same ↦ rw same (subst (λ a. has a xs ≡ false) (sym (eq_of_== c x same)) out)
  | inr other ↦ rw other (behind-has l x c xs chain)
]

or_false : (a b : Bool) → a ≡ false → b ≡ false → (b || a) ≡ false
or_false a b h h' = ground arith

or_turn : (a b c : Bool) → (a || (b || c)) ≡ (c || (a || b))
or_turn a b c = ground arith

first_front : (ys zs : List Ptr) (c other : Ptr) → first (ys ++ (c ∷ zs)) other ≡ first ys c
first_front [] zs c other = refl
first_front (y ∷ ys) zs c other = refl

module _ (l : Links) (head tail up c : Ptr) (xs : List Ptr) (chain : Chain l up xs)
    (member : has c xs ≡ true) where
  -- The way round leads through every screen of the list, and back to the one where it starts only at
  -- its end.
  pub round-Steps :
      last xs null ≡ tail → first xs null ≡ head → Steps l head tail c (c ∷ round_from c xs)
  round-Steps et eh =
      let whole =
        subst (Steps l head tail head) (split c xs member)
          (Chain-Steps l head tail up null xs chain et) in
      let start : head ≡ first (upto c xs) c =
        sym eh
        ∙ ap (λ t. first t null) (split c xs member)
        ∙ first_front (upto c xs) (behind c xs) c null in
      let later = Steps-back l head tail head (upto c xs) (c ∷ behind c xs) whole in
      Steps-append l head tail c (c ∷ behind c xs) (upto c xs)
        (subst (λ e. Steps l head tail e (c ∷ behind c xs)) start later)
        (Steps-front l head tail head (upto c xs) (c ∷ behind c xs) whole)

  pub round-once : has c (round_from c xs) ≡ false
  round-once =
      has-append c (behind c xs) (upto c xs)
      ∙ or_false _ _ (upto-has c xs) (behind-has l up c xs chain)

  pub round-has : (a : Ptr) → has a (c ∷ round_from c xs) ≡ has a xs
  round-has a =
      ap (λ b. (a == c) || b) (has-append a (behind c xs) (upto c xs))
      ∙ or_turn (a == c) (has a (behind c xs)) (has a (upto c xs))
      ∙ sym (has-append a (upto c xs) (c ∷ behind c xs))
      ∙ ap (has a) (sym (split c xs member))

  pub round-length : length (c ∷ round_from c xs) ≡ length xs
  round-length = omega (
    arith,
    length-append (behind c xs) (upto c xs),
    length-append (upto c xs) (c ∷ behind c xs),
    ap length (split c xs member),
  )
