-- ===== src/Config/Append.antt =====
-- An item is added behind the others of its section.
use g15daemon.Prelude.{
  ◌≡◌, ◌≢◌, refl, sym, ap, subst, ◌∙◌, true, false, ◌==◌, if◌then◌else◌, none, some, List, [], ◌∷◌,
  ◌++◌, arith, Run, ◌>>=◌, Returns, Returns-bind, Returns-mono, Bool-cases, inl, inr, eq_of_==,
  ==-eq_true,
}
use g15daemon.Daemon.{Ptr, null}
use g15daemon.Text.{Text}
use g15daemon.Config.Heap.{Item, Config, update, store_item, edit_item}
use g15daemon.Config.{new_item_of, push_last}
use g15daemon.Config.Items.{
  Cell, item_of, first_at, last_at, has_at, Items, IsSection, find, has_last, ne_of_has, Items-has,
}
use g15daemon.Config.Search.{load_item-eq_ok}
use g15daemon.Config.Cells.{
  add_cell, with_next, with_head, Items-concat, Items-head, entries-add_cell, elsewhere, has_self,
  has_front,
}
use g15daemon.Config.Edit.{Edited, edit_item-Edited, Written, Headed-add_cell}

-- An address that holds no item is not in the list.
pub has_at-unused :
    (c : Config) (section a : Ptr) (cells : List Cell)
    → IsSection c section cells
    → c.items a ≡ none
    → has_at a cells ≡ false
has_at-unused c section a cells s e = elim (Bool-cases (has_at a cells)) [
  | inl h ↦ let (i, found, ne) = Items-has c.items null a cells s.chain h in absurd (ground arith)
  | inr h ↦ h
]

module _ (c : Config) (section fresh : Ptr) (key val : Text) (x : Cell) (xs : List Cell)
    (s : IsSection c section (x ∷ xs)) (fresh_ne : fresh ≢ null)
    (unused : c.items fresh ≡ none) where
  abbrev new_cell : Cell
  new_cell = record { at = fresh; head = fresh; key = key; value = val }

  out : has_at fresh (x ∷ xs) ≡ false
  out = has_at-unused c section fresh (x ∷ xs) s unused

  member_ne : (a : Ptr) → has_at a (x ∷ xs) ≡ true → a ≢ fresh
  member_ne a m = ne_of_has a fresh (x ∷ xs) m out

  c0 : Config
  c0 = store_item c fresh (new_item_of fresh key val)

  c0-eq :
      (a : Ptr) → c0.items a ≡ (if a == fresh then some (new_item_of fresh key val) else c.items a)
  unfolding c0 store_item update
  c0-eq a = refl

  -- The three writes, in terms of the heap before.
  module _ (last : Item) (last_found : c.items (last_at x xs) ≡ some last) (c1 c2 c3 : Config)
      (i : Item)
      (w1 : Edited c0 fresh (record (new_item_of fresh key val) { prev = last_at x xs }) c1)
      (w2 : Edited c1 (last_at x xs) (record last { next = fresh }) c2)
      (w3 : Edited c2 x.at (record i { head = fresh }) c3) (found : c2.items x.at ≡ some i) where
    second-eq :
        (a : Ptr)
        → has_at a (x ∷ xs) ≡ true
        → c2.items a ≡ (if a == last_at x xs then with_next fresh (c.items a) else c.items a)
    second-eq a m = w2.items_eq a ∙ elim (Bool-cases (a == last_at x xs)) [
      | inl e ↦
          let here : c.items a ≡ some last =
            ap c.items (eq_of_== a (last_at x xs) e) ∙ last_found in
          rw (e, here) refl
      | inr e ↦ rw e (
          w1.items_eq a
          ∙ elsewhere a fresh _ _ (member_ne a m)
          ∙ c0-eq a
          ∙ elsewhere a fresh _ _ (member_ne a m))
    ]

    second_new : c2.items fresh ≡ some (item_of (last_at x xs) null new_cell)
    second_new =
        w2.items_eq fresh
        ∙ elsewhere fresh (last_at x xs) _ _ (λ z. member_ne (last_at x xs) (has_last x xs) (sym z))
        ∙ w1.items_eq fresh
        ∙ ground arith

    second-Items : Items c2.items null (x ∷ (xs ++ (new_cell ∷ [])))
    second-Items =
        Items-concat c.items c2.items null x new_cell xs s.chain out fresh_ne second_new second-eq

    third-eq :
        (a : Ptr)
        → (if a == x.at then some (record i { head = fresh }) else c2.items a)
          ≡ (if a == x.at then with_head fresh (c2.items a) else c2.items a)
    third-eq a = elim (Bool-cases (a == x.at)) [
      | inl e ↦
          let here : c2.items a ≡ some i = ap c2.items (eq_of_== a x.at e) ∙ found in
          rw (e, here) refl
      | inr e ↦ rw e refl
    ]

    third-Items : Items c3.items null (record x { head = fresh } ∷ (xs ++ (new_cell ∷ [])))
    third-Items =
        Items-head c2.items c3.items null fresh x (xs ++ (new_cell ∷ [])) second-Items
          (λ a. w3.items_eq a ∙ third-eq a)

    sections_kept : c3.sections ≡ c.sections
    unfolding c0 store_item
    sections_kept =
        ap (λ (x : Config). x.sections) w3.same
        ∙ ap (λ (x : Config). x.sections) w2.same
        ∙ ap (λ (x : Config). x.sections) w1.same

    first_kept : c3.first ≡ c.first
    unfolding c0 store_item
    first_kept =
        ap (λ (x : Config). x.first) w3.same
        ∙ ap (λ (x : Config). x.first) w2.same
        ∙ ap (λ (x : Config). x.first) w1.same

    others_kept : (a : Ptr) → has_at a (x ∷ xs) ≡ false → a ≢ fresh → c3.items a ≡ c.items a
    others_kept a outside apart =
        w3.items_eq a
        ∙ elsewhere a x.at _ _ (has_front a x xs outside).0
        ∙ w2.items_eq a
        ∙ elsewhere a (last_at x xs) _ _
            (λ z. ne_of_has (last_at x xs) a (x ∷ xs) (has_last x xs) outside (sym z))
        ∙ w1.items_eq a
        ∙ elsewhere a fresh _ _ apart
        ∙ c0-eq a
        ∙ elsewhere a fresh _ _ apart

    appended : find key (x ∷ xs) ≡ null → Written section fresh key val (x ∷ xs) c c3
    appended absent = record {
      cells' = add_cell fresh key val (x ∷ xs);
      is_section = record {
        at = s.at;
        ne = s.ne;
        found = ap (λ f. f section) sections_kept ∙ s.found;
        items = s.items;
        chain = third-Items;
        headed = Headed-add_cell fresh key val (x ∷ xs);
      };
      entries_eq =
          entries-add_cell fresh key val (x ∷ xs) absent
            (λ a m. let (i, e, ne) = Items-has c.items null a (x ∷ xs) s.chain m in ne);
      others = λ a outside apart. others_kept a outside apart;
      sections_eq = λ p ne. ap (λ f. f p) sections_kept;
      first_eq = first_kept;
    }

  first_found : c0.items x.at ≡ some (item_of null (first_at xs) x)
  first_found = c0-eq x.at ∙ elsewhere x.at fresh _ _ (member_ne x.at (has_self x xs)) ∙ s.chain.1

  last_kept :
      (last : Item) (c1 : Config)
      → c.items (last_at x xs) ≡ some last
      → Edited c0 fresh (record (new_item_of fresh key val) { prev = last_at x xs }) c1
      → c1.items (last_at x xs) ≡ some last
  last_kept last c1 e w =
      let apart = member_ne (last_at x xs) (has_last x xs) in
      w.items_eq (last_at x xs)
      ∙ elsewhere (last_at x xs) fresh _ _ apart
      ∙ c0-eq (last_at x xs)
      ∙ elsewhere (last_at x xs) fresh _ _ apart
      ∙ e

  -- The first item is still there when its `head` is written.
  first_kept_item :
      (last : Item) (c1 c2 : Config)
      → Edited c0 fresh (record (new_item_of fresh key val) { prev = last_at x xs }) c1
      → Edited c1 (last_at x xs) (record last { next = fresh }) c2
      → (i : Item) × (c2.items x.at ≡ some i)
  first_kept_item last c1 c2 w1 w2 = elim (Bool-cases (x.at == last_at x xs)) [
    | inl e ↦ (record last { next = fresh }, w2.items_eq x.at ∙ rw e refl)
    | inr e ↦ (
      item_of null (first_at xs) x,
      w2.items_eq x.at
          ∙ rw e (
              w1.items_eq x.at
              ∙ elsewhere x.at fresh _ _ (member_ne x.at (has_self x xs))
              ∙ first_found),
    )
  ]

  -- The writes of `push_last`, behind the last item.
  writes : (last : Ptr) → Run Config
  writes last = do
    c1 ← edit_item c0 fresh (λ n. record n { prev = last })
    c2 ← edit_item c1 last (λ l. record l { next = fresh })
    edit_item c2 x.at (λ i. record i { head = fresh })

  writes-Written :
      find key (x ∷ xs) ≡ null
      → Returns (Written section fresh key val (x ∷ xs) c) (writes (last_at x xs))
  unfolding writes
  writes-Written absent =
      let (last, last_found, last_ne) =
        Items-has c.items null (last_at x xs) (x ∷ xs) s.chain (has_last x xs) in
      let new_found : c0.items fresh ≡ some (new_item_of fresh key val) =
        c0-eq fresh ∙ rw (==-eq_true fresh fresh refl) refl in
      Returns-bind
        (edit_item-Edited c0 fresh (new_item_of fresh key val)
          (λ n. record n { prev = last_at x xs }) fresh_ne new_found)
        λ c1 w1.
          Returns-bind
            (edit_item-Edited c1 (last_at x xs) last (λ l. record l { next = fresh }) last_ne
              (last_kept last c1 last_found w1))
            λ c2 w2.
              let (i, found) = first_kept_item last c1 c2 w1 w2 in
              Returns-mono
                (edit_item-Edited c2 x.at i (λ i. record i { head = fresh }) s.chain.0 found)
                (λ c3 w3. appended last last_found c1 c2 c3 i w1 w2 w3 found absent)

  push_last-writes : push_last c0 x.at fresh ≡ writes x.head
  unfolding push_last writes
  push_last-writes =
      rw (load_item-eq_ok c0 x.at (item_of null (first_at xs) x) s.chain.0 first_found) refl

  pub push_last-Written :
      find key (x ∷ xs) ≡ null
      → Returns
          (Written section fresh key val (x ∷ xs) c)
          (push_last (store_item c fresh (new_item_of fresh key val)) x.at fresh)
  unfolding c0
  push_last-Written absent =
      subst (Returns (Written section fresh key val (x ∷ xs) c)) (sym push_last-writes) (
        subst (λ h. Returns (Written section fresh key val (x ∷ xs) c) (writes h)) (sym s.headed)
          (writes-Written absent))
