-- ===== src/LinkedLists/Unlink.antt =====
-- Taking a node out of a chain, on the links alone.
use g15daemon.Prelude.{
  ◌≡◌, ◌≢◌, refl, true, false, ◌==◌, if◌then◌else◌, Option, none, some, List, [], ◌∷◌, arith,
  Bool-cases, inl, inr, ap, subst, sym, eq_of_==,
}
use mathlib.Core.Bool.{false≢true}
use g15daemon.Daemon.{Ptr}
use g15daemon.LinkedLists.Ring.{Links, last, has, erase, Chain, Chain-frame}

abbrev pub with_prev : Ptr → Option (Ptr × Ptr) → Option (Ptr × Ptr)
with_prev q none = none
with_prev q (some (a, b)) = some (q, b)

abbrev pub with_next : Ptr → Option (Ptr × Ptr) → Option (Ptr × Ptr)
with_next p none = none
with_next p (some (a, b)) = some (a, p)

-- `old`, between p (its `next`) and q (its `prev`), is taken out, and p and q are linked.
abbrev pub Unlinked : (l l' : Links) (p old q : Ptr) → Type 0
Unlinked l l' p old q =
    (a : Ptr)
    → l' a ≡ (
        if a == old
        then none
        else if a == q
        then with_next p (l a)
        else if a == p
        then with_prev q (l a)
        else l a)

pub has-erase_ne : (a old : Ptr) (xs : List Ptr) → a ≢ old → has a (erase old xs) ≡ has a xs
has-erase_ne a old [] h = refl
has-erase_ne a old (x ∷ xs) h = ground (arith, has-erase_ne a old xs h)

pub has_of_erase : (a old : Ptr) (xs : List Ptr) → has a xs ≡ false → has a (erase old xs) ≡ false
has_of_erase a old [] h = refl
has_of_erase a old (x ∷ xs) h = ground (arith, has_of_erase a old xs)

pub last-erase : (old x : Ptr) (xs : List Ptr) → last xs x ≢ old → last (erase old xs) x ≡ last xs x
last-erase old x [] h = refl
last-erase old x (y ∷ []) h = ground arith
last-erase old x (y ∷ z ∷ zs) h = ground (arith, last-erase old y (z ∷ zs))

pub erase_head : (old : Ptr) (xs : List Ptr) → erase old (old ∷ xs) ≡ xs
erase_head old xs = ground arith

pub erase_tail : (old y : Ptr) (ys : List Ptr) → y ≢ old → erase old (y ∷ ys) ≡ y ∷ erase old ys
erase_tail old y ys h = ground arith

pub ne_of_has : (a x : Ptr) (xs : List Ptr) → has a xs ≡ true → has x xs ≡ false → a ≢ x
ne_of_has a x xs h out e = cc (h, out, ap (λ y. has y xs) e)

-- The node before `old` in a list that starts with x.
unfoldable pub before : (old x : Ptr) → List Ptr → Ptr
before old x [] = x
before old x (y ∷ ys) = if y == old then x else before old y ys

-- The neighbours of `old` in a chain that it neither begins nor ends.
pub record Between (l : Links) (up x old : Ptr) (xs : List Ptr) : Type 0 where
  pub p : Ptr
  pub q : Ptr
  pub p_eq : p ≡ before old x xs
  pub old_at : l old ≡ some (q, p)
  pub has_p : has p (x ∷ xs) ≡ true
  pub has_q : has q xs ≡ true
  pub p_ne : p ≢ old
  pub q_ne : q ≢ old
  pub p_ne_q : p ≢ q
  pub rejoin : (l' : Links) → Unlinked l l' p old q → Chain l' up (x ∷ erase old xs)

ne_second : (x y z : Ptr) (zs : List Ptr) → has x (y ∷ z ∷ zs) ≡ false → x ≢ z
ne_second x y z zs h = ground arith

-- p and q are linked when `old` stood between them at the front.
rejoin-here :
    (l l' : Links) (up x old z : Ptr) (zs : List Ptr)
    → Chain l up (x ∷ old ∷ z ∷ zs)
    → Unlinked l l' x old z
    → Chain l' up (x ∷ z ∷ zs)
rejoin-here l l' up x old z zs (nx, ex, ox, (n_old, e_old, o_old, (nz, ez, oz, c))) w = (
  nx,
  ground (arith, w x),
  ground arith,
  (nz, ground (arith, w z), oz, Chain-frame z zs c (λ a h. ground (arith, w a))),
)

Between-here :
    (l : Links) (up x old z : Ptr) (zs : List Ptr)
    → Chain l up (x ∷ old ∷ z ∷ zs)
    → Between l up x old (old ∷ z ∷ zs)
Between-here l up x old z zs c = record {
  p = x;
  q = z;
  p_eq = unfold before in ground arith;
  old_at = ground arith;
  has_p = ground arith;
  has_q = ground arith;
  p_ne = ground arith;
  q_ne = ground arith;
  p_ne_q = ne_second x old z zs c.2;
  rejoin = λ l' w.
      subst (λ ys. Chain l' up (x ∷ ys)) (sym (erase_head old (z ∷ zs)))
        (rejoin-here l l' up x old z zs c w);
}

module _ {l : Links} (up x y old : Ptr) (ys : List Ptr) (c : Chain l up (x ∷ y ∷ ys)) (ne : y ≢ old)
    (x_ne : x ≢ old) (b : Between l x y old ys) where
  -- Away from p, `old` and q the links are as they were.
  rejoin-there : (l' : Links) → Unlinked l l' b.p old b.q → Chain l' up (x ∷ y ∷ erase old ys)
  rejoin-there l' w = (
    c.0,
    ground (
      arith,
      w x,
      ne_of_has b.p x (y ∷ ys) b.has_p c.2,
      ne_of_has b.q x (y ∷ ys) (ground (arith, b.has_q)) c.2,
    ),
    ground (arith, has_of_erase x old ys),
    b.rejoin l' w,
  )

  Between-there : Between l up x old (y ∷ ys)
  Between-there = record {
    p = b.p;
    q = b.q;
    p_eq = unfold before in ground (arith, b.p_eq);
    old_at = b.old_at;
    has_p = ground (arith, b.has_p);
    has_q = ground (arith, b.has_q);
    p_ne = b.p_ne;
    q_ne = b.q_ne;
    p_ne_q = b.p_ne_q;
    rejoin = λ l' w.
        subst (λ ys. Chain l' up (x ∷ ys)) (sym (erase_tail old y ys ne)) (rejoin-there l' w);
  }

pub Chain-Between :
    (l : Links) (up x old : Ptr) (xs : List Ptr)
    → Chain l up (x ∷ xs)
    → has old xs ≡ true
    → last xs x ≢ old
    → Between l up x old xs
Chain-Between l up x old [] c h ne = absurd (false≢true h)
Chain-Between l up x old (y ∷ []) c h ne = absurd (ground arith)
Chain-Between l up x old (y ∷ z ∷ zs) c h ne = elim (Bool-cases (y == old)) [
  | inl e ↦
      subst (λ y. Chain l up (x ∷ y ∷ z ∷ zs) → Between l up x old (y ∷ z ∷ zs))
        (sym (eq_of_== y old e)) (Between-here l up x old z zs) c
  | inr e ↦
      let y_ne : y ≢ old = ground arith in
      let x_ne : x ≢ old = λ same. ne_of_has old x (y ∷ z ∷ zs) h c.2 (sym same) in
      Between-there up x y old (z ∷ zs) c y_ne x_ne
        (Chain-Between l x y old (z ∷ zs) c.3 (ground arith) ne)
]

pub has-last : (x : Ptr) (xs : List Ptr) → has (last xs x) (x ∷ xs) ≡ true
has-last x [] = ground arith
has-last x (y ∷ ys) = ground (arith, has-last y ys)

-- The second node of a chain, with the `next` of the first, heads the rest.
pub Chain-behead :
    (l l' : Links) (up x y : Ptr) (ys : List Ptr)
    → Chain l up (x ∷ y ∷ ys)
    → ((a : Ptr) → l' a ≡ (if a == x then none else if a == y then with_next up (l a) else l a))
    → Chain l' up (y ∷ ys)
Chain-behead l l' up x y ys (ne, e, out, (ny, ey, oy, c)) w =
    (ny, ground (arith, w y), oy, Chain-frame y ys c (λ a h. ground (arith, w a)))
