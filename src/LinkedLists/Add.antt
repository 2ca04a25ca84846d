-- ===== src/LinkedLists/Add.antt =====
-- `lcdnode_add` puts a new screen at the head and shows it.
use g15daemon.Prelude.{
  ◌≡◌, ◌≢◌, refl, false, ◌==◌, if◌then◌else◌, none, some, List, [], ◌∷◌, arith, ap, Returns,
  returns, Returns-bind, Bool-cases, inl, inr,
}
use mathlib.Core.Bool.{false≢true}
use g15daemon.Lcd.{Levels, create_lcd}
use g15daemon.Daemon.{Ptr, null, Node, Daemon, store}
use g15daemon.LinkedLists.{lcdlist_init, lcdnode_add}
use g15daemon.LinkedLists.Ring.{
  Links, links, link, first, has, Chain, Chain-frame, Chain-has, IsRing,
}
use g15daemon.LinkedLists.Access.{screen, set_next-Wrote, store-Wrote}

-- An address that holds no node is not in the list.
pub has-unused :
    (d : Daemon) (xs : List Ptr) (a : Ptr) → IsRing d xs → links d.nodes a ≡ none → has a xs ≡ false
has-unused d xs a r e = elim (Bool-cases (has a xs)) [
  | inl h ↦
      let (p, q, found, ne) = Chain-has (links d.nodes) d.tail a xs r.chain h in
      absurd (ground arith)
  | inr h ↦ h
]

-- The list after a screen is added, and the screens that it holds.
pub record Added (g : Levels) (fresh : Ptr) (d : Daemon) (xs : List Ptr) (d' : Daemon)
    : Type 0 where
  pub ring : IsRing d' (fresh ∷ xs)
  pub current : d'.current ≡ fresh
  pub keys : d'.client_handles_keys ≡ d.client_handles_keys
  pub screens :
      (a : Ptr) → screen d'.nodes a ≡ (if a == fresh then some (create_lcd g) else screen d.nodes a)

-- The two writes of `lcdnode_add` put `fresh` in front of a chain.
Chain-push :
    (l l' : Links) (tail fresh x : Ptr) (xs : List Ptr)
    → fresh ≢ null
    → has fresh (x ∷ xs) ≡ false
    → Chain l tail (x ∷ xs)
    → ((a : Ptr) → l' a ≡ link (link l fresh (some (x, tail))) x (some (first xs x, fresh)) a)
    → Chain l' tail (fresh ∷ x ∷ xs)
Chain-push l l' tail fresh x xs ne out (nx, e, outx, c) w = (
  ne,
  ground (arith, w fresh),
  out,
  (nx, ground (arith, w x), outx, Chain-frame x xs c (λ a h. ground (arith, w a))),
)

add-first :
    (g : Levels) (fresh x : Ptr) (d : Daemon) (xs : List Ptr)
    → fresh ≢ null
    → links d.nodes fresh ≡ none
    → IsRing d (x ∷ xs)
    → Returns (Added g fresh d (x ∷ xs)) (lcdnode_add g fresh d)
unfolding lcdnode_add store
add-first g fresh x d xs ne unused r =
    let n : Node = record {
      prev = d.head;
      next = d.tail;
      last_priority = null;
      lcd = create_lcd g;
    } in
    let w = store-Wrote d fresh n in
    let out = has-unused d (x ∷ xs) fresh r unused in
    let at : links (store d fresh n).nodes d.head ≡ some (first xs x, d.tail) =
      ground (arith, w.links_eq d.head) in
    Returns-bind (set_next-Wrote (store d fresh n) d.head (ground arith) at fresh) λ d' w'.
      returns (record {
        ring = record {
          chain = rw (ap (λ (e : Daemon). e.tail) w'.same) (
              Chain-push (links d.nodes) (links d'.nodes) d.tail fresh x xs ne out r.chain
                (λ a. ground (arith, r.head, w'.links_eq a, w.links_eq a)));
          head = refl;
          tail = ground (arith, w'.same);
          current = ground arith;
        };
        current = refl;
        keys = ap (λ (e : Daemon). e.client_handles_keys) w'.same;
        screens = λ a. ground (arith, w'.screens_eq a, w.screens_eq a);
      })

-- Given an unused address, `lcdnode_add` puts a fresh screen at the head of the list, shows it, and
-- leaves the order and the screens of the others.
pub lcdnode_add-Added :
    (g : Levels) (fresh : Ptr) (d : Daemon) (xs : List Ptr)
    → fresh ≢ null
    → d.nodes fresh ≡ none
    → IsRing d xs
    → Returns (Added g fresh d xs) (lcdnode_add g fresh d)
lcdnode_add-Added g fresh d [] ne unused r = absurd (false≢true r.current)
lcdnode_add-Added g fresh d (x ∷ xs) ne unused r =
    add-first g fresh x d xs ne (unfold links in rw unused refl) r

-- The list that `lcdlist_init` makes has the clock's screen alone, shown.
pub lcdlist_init-IsRing :
    (g : Levels) (fresh : Ptr) → fresh ≢ null → IsRing (lcdlist_init g fresh) (fresh ∷ [])
unfolding lcdlist_init links
lcdlist_init-IsRing g fresh ne = record {
  chain = (ne, ground arith, refl, tt);
  head = refl;
  tail = refl;
  current = ground arith;
}
