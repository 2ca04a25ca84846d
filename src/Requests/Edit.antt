-- ===== src/Requests/Edit.antt =====
-- Changes of a node that leave the display list as it is.
use g15daemon.Prelude.{
  ◌≡◌, ◌≢◌, refl, true, ◌==◌, some, List, [], ◌∷◌, arith, ok, Bool-cases, inl, inr, ◌&&◌, not, ◌!=◌,
  false, Option, none, subst, sym, ap, ◌∙◌,
}
use mathlib.Core.Bool.{false≢true}
use g15daemon.Daemon.{Ptr, null, Node, Daemon, put, load, store}
use g15daemon.LinkedLists.Ring.{Links, links, has, Chain, Chain-frame, Chain-has, IsRing}
use g15daemon.LinkedLists.Access.{load_lem}

-- An address that a client can go back to: null, or a screen of the list.
abbrev pub IsBack : List Ptr → Ptr → Type 0
IsBack xs p = ((p != null) && not (has p xs)) ≡ false

-- The screen that a client would go back to is in the list, or there is none.
unfoldable pub Returnable : (node : Ptr) → List Ptr → Daemon → Type 0
Returnable node xs d = (n : Node) → d.nodes node ≡ some n → IsBack xs n.last_priority

-- `d'` is `d` but for the node `node`, which keeps its place in the list `xs`, for the screen shown
-- and for the key state.
pub record Kept (node : Ptr) (xs : List Ptr) (d d' : Daemon) : Type 0 where
  pub ring : IsRing d' xs
  pub returnable : Returnable node xs d'
  pub others : (a : Ptr) → a ≢ node → d'.nodes a ≡ d.nodes a
  pub same : d' ≡ record d {
    nodes = d'.nodes;
    current = d'.current;
    current_key_state = d'.current_key_state;
  }

-- The node of a screen of the list.
pub IsRing-load :
    (d : Daemon) (xs : List Ptr) (p : Ptr)
    → IsRing d xs
    → has p xs ≡ true
    → (n : Node) × (load d p ≡ ok n)
      × (links d.nodes p ≡ some (n.prev, n.next))
      × (d.nodes p ≡ some n)
IsRing-load d xs p r h =
    let (a, b, at, ne) = Chain-has (links d.nodes) d.tail p xs r.chain h in
    let (n, got, ea, eb, found) = load_lem d p ne at in (n, got, ground arith, found)

-- `prev` leads to a screen of the list.
pub Chain-prev :
    (l : Links) (up a p q : Ptr) (xs : List Ptr)
    → Chain l up xs
    → has a xs ≡ true
    → l a ≡ some (p, q)
    → has p xs ≡ true
Chain-prev l up a p q [] c h e = absurd (false≢true h)
Chain-prev l up a p q (x ∷ []) (ne, at, out, c) h e = ground arith
Chain-prev l up a p q (x ∷ y ∷ ys) (ne, at, out, c) h e = elim (Bool-cases (a == x)) [
  | inl same ↦ ground arith
  | inr other ↦
      let deeper = Chain-prev l x a p q (y ∷ ys) c (ground arith) e in ground (arith, deeper)
]

put_same : (nodes : Ptr → Option Node) (p : Ptr) (o : Option Node) → put nodes p o p ≡ o
unfolding put
put_same nodes p o = ground arith

abbrev last_of : Option Node → Ptr
last_of none = null
last_of (some n) = n.last_priority

module _ (node : Ptr) (xs : List Ptr) (d : Daemon) (r : IsRing d xs)
    (back : Returnable node xs d) where
  -- Nothing is written.
  pub same-Kept : Kept node xs d d
  same-Kept = record { ring = r; returnable = back; others = λ a ne. refl; same = refl }

  pub read-Kept : Kept node xs d (record d { current_key_state = 0 })
  unfolding Returnable
  read-Kept = record {
    ring = record { chain = r.chain; head = r.head; tail = r.tail; current = r.current };
    returnable = back;
    others = λ a ne. refl;
    same = refl;
  }

  -- Another screen of the list is shown.
  pub show-Kept : (c : Ptr) → has c xs ≡ true → Kept node xs d (record d { current = c })
  unfolding Returnable
  show-Kept c h = record {
    ring = record { chain = r.chain; head = r.head; tail = r.tail; current = h };
    returnable = back;
    others = λ a ne. refl;
    same = refl;
  }

  -- The node is written with its links as they were.
  pub edit-Kept :
      (n n' : Node)
      → d.nodes node ≡ some n
      → n'.prev ≡ n.prev
      → n'.next ≡ n.next
      → IsBack xs n'.last_priority
      → (c : Ptr) → has c xs ≡ true
      → Kept node xs d (record (store d node n') { current = c })
  unfolding store put links Returnable
  edit-Kept n n' at ep en b c h = record {
    ring = record {
      chain = Chain-frame d.tail xs r.chain (λ a h'. ground arith);
      head = r.head;
      tail = r.tail;
      current = h;
    };
    returnable =
        λ m e. subst (λ p. IsBack xs p) (ap last_of (sym (put_same d.nodes node (some n')) ∙ e)) b;
    others = λ a ne. ground arith;
    same = refl;
  }
