-- ===== src/LinkedLists/Ring.antt =====
-- The shape of the display list: screens from the head to the tail by `prev`, back by `next`, and
-- the head's `next` is the tail.
use g15daemon.Prelude.{
  ◌≡◌, ◌≢◌, Bool, true, false, ◌||◌, ◌==◌, if◌then◌else◌, Option, none, some, List, [], ◌∷◌, arith,
  Bool-cases, inl, inr,
}
use g15daemon.Daemon.{Ptr, null, Node, Daemon}

-- `prev` and `next` of the node at an address.
abbrev pub Links : Type 0
Links = Ptr → Option (Ptr × Ptr)

abbrev pub ends : Option Node → Option (Ptr × Ptr)
ends none = none
ends (some n) = some (n.prev, n.next)

unfoldable pub links : (Ptr → Option Node) → Links
links nodes a = ends (nodes a)

abbrev pub link : Links → Ptr → Option (Ptr × Ptr) → Links
link l p c a = if a == p then c else l a

abbrev pub first : List Ptr → Ptr → Ptr
first [] d = d
first (x ∷ xs) d = x

abbrev pub last : List Ptr → Ptr → Ptr
last [] d = d
last (x ∷ xs) d = last xs x

abbrev pub has : Ptr → List Ptr → Bool
has a [] = false
has a (x ∷ xs) = (a == x) || has a xs

abbrev pub erase : Ptr → List Ptr → List Ptr
erase a [] = []
erase a (x ∷ xs) = if a == x then xs else x ∷ erase a xs

-- From the first of `xs`, whose `next` is `up`, the `prev` pointers lead through the distinct nodes
-- `xs`; the last one's is its own address.
abbrev pub Chain : Links → Ptr → List Ptr → Type 0
Chain l up [] = Unit {0}
Chain l up (x ∷ xs) = (x ≢ null) × (l x ≡ some (first xs x, up)) × (has x xs ≡ false) × Chain l x xs

pub record IsRing (d : Daemon) (xs : List Ptr) : Type 0 where
  pub chain : Chain (links d.nodes) d.tail xs
  pub head : first xs null ≡ d.head
  pub tail : last xs null ≡ d.tail
  pub current : has d.current xs ≡ true

pub Chain-frame :
    {l l' : Links} (up : Ptr) (xs : List Ptr)
    → Chain l up xs
    → ((a : Ptr) → has a xs ≡ true → l' a ≡ l a)
    → Chain l' up xs
Chain-frame up [] c same = tt
Chain-frame up (x ∷ xs) (ne, e, out, c) same =
    (ne, ground (arith, same x), out, Chain-frame x xs c (λ a h. same a (ground arith)))

-- What a member of a chain points at.
pub Chain-has :
    (l : Links) (up a : Ptr) (xs : List Ptr)
    → Chain l up xs
    → has a xs ≡ true
    → (p : Ptr) × (q : Ptr) × (l a ≡ some (p, q)) × (a ≢ null)
Chain-has l up a [] c h = absurd (ground arith)
Chain-has l up a (x ∷ xs) (ne, e, out, c) h = elim (Bool-cases (a == x)) [
  | inl same ↦ (first xs x, up, ground arith, ground arith)
  | inr other ↦ Chain-has l x a xs c (ground arith)
]
