-- ===== src/Config/Edit.antt =====
-- Writes of one item, and what a section is after its value or its first item is written.
use g15daemon.Prelude.{
  ◌≡◌, ◌≢◌, refl, sym, ap, ◌∙◌, false, ◌==◌, if◌then◌else◌, Option, some, List, [], ◌∷◌, ◌++◌,
  arith, ok, Returns, returns, Returns-mono,
}
use g15daemon.Daemon.{Ptr, null}
use g15daemon.Text.{Text}
use g15daemon.Config.Heap.{
  Item, Section, Config, update, store_item, store_section, edit_item, edit_section,
}
use g15daemon.Config.{new_item_of, new_item, push_first, push_last}
use g15daemon.Config.Items.{
  Cell, first_at, has_at, Headed, IsSection, entries, find, ne_of_has, Items-has,
}
use g15daemon.Config.Search.{load_item-eq_ok, load_section-eq_ok}
use g15daemon.Config.Cells.{
  insert, set_value, add_cell, Items-set_value, entries-set_value, last_at-concat, last_at-head,
  find-has_at, last_at-set_value, last_at-value, first_at-set_value, elsewhere,
}

-- Only the item at p is written.
pub record Edited (c : Config) (p : Ptr) (i : Item) (c' : Config) : Type 0 where
  pub items_eq : (a : Ptr) → c'.items a ≡ (if a == p then some i else c.items a)
  pub same : c' ≡ record c { items = c'.items }

pub edit_item-Edited :
    (c : Config) (p : Ptr) (i : Item) (f : Item → Item)
    → p ≢ null
    → c.items p ≡ some i
    → Returns (Edited c p (f i)) (edit_item c p f)
unfolding edit_item store_item update
edit_item-Edited c p i f ne e =
    rw (load_item-eq_ok c p i ne e) (returns (record { items_eq = λ a. refl; same = refl }))

pub edit_section-eq_ok :
    (c : Config) (p : Ptr) (s : Section) (f : Section → Section)
    → p ≢ null
    → c.sections p ≡ some s
    → edit_section c p f ≡ ok (store_section c p (f s))
unfolding edit_section
edit_section-eq_ok c p s f ne e = rw (load_section-eq_ok c p s ne e) refl

-- The section after a write: its items say what `insert` says, and nothing else has changed.
pub record Written (section fresh : Ptr) (key val : Text) (cells : List Cell) (c c' : Config)
    : Type 0 where
  pub cells' : List Cell
  pub is_section : IsSection c' section cells'
  pub entries_eq : entries cells' ≡ insert key val (entries cells)
  pub others : (a : Ptr) → has_at a cells ≡ false → a ≢ fresh → c'.items a ≡ c.items a
  pub sections_eq : (p : Ptr) → p ≢ section → c'.sections p ≡ c.sections p
  pub first_eq : c'.first ≡ c.first

Headed-set_value : (key val : Text) (cs : List Cell) → Headed cs → Headed (set_value key val cs)
Headed-set_value key val [] h = tt
Headed-set_value key val (c ∷ cs) h =
    ground (arith, last_at-set_value c key val cs, last_at-value c val cs)

pub Headed-add_cell :
    (fresh : Ptr) (key val : Text) (cs : List Cell) → Headed (add_cell fresh key val cs)
Headed-add_cell fresh key val [] = refl
Headed-add_cell fresh key val (c ∷ cs) =
    let d : Cell = record { at = fresh; head = fresh; key = key; value = val } in
    sym (last_at-head fresh c (cs ++ (d ∷ [])) ∙ last_at-concat c d cs)

module _ (c : Config) (section fresh : Ptr) (key val : Text) (cells : List Cell)
    (s : IsSection c section cells) where
  Edited-Written :
      (i : Item) (c' : Config)
      → find key cells ≢ null
      → c.items (find key cells) ≡ some i
      → Edited c (find key cells) (record i { value = val }) c'
      → Written section fresh key val cells c c'
  Edited-Written i c' ne e w = record {
    cells' = set_value key val cells;
    is_section = record {
      at = s.at;
      ne = s.ne;
      found = ap (λ (x : Config). x.sections section) w.same ∙ s.found;
      items = s.items ∙ sym (first_at-set_value key val cells);
      chain =
          Items-set_value c.items c'.items null key val cells s.chain ne
            (λ a. ground (arith, w.items_eq a));
      headed = Headed-set_value key val cells s.headed;
    };
    entries_eq = entries-set_value key val cells ne;
    others = λ a out apart.
        w.items_eq a
        ∙ elsewhere a (find key cells) _ _
            (λ z. ne_of_has (find key cells) a cells (find-has_at key cells ne) out (sym z));
    sections_eq = λ p ne'. ap (λ (x : Config). x.sections p) w.same;
    first_eq = ap (λ (x : Config). x.first) w.same;
  }

  pub update-Written :
      find key cells ≢ null
      → Returns
          (Written section fresh key val cells c)
          (edit_item c (find key cells) (λ i. record i { value = val }))
  update-Written ne =
      let (i, e, p_ne) =
        Items-has c.items null (find key cells) cells s.chain (find-has_at key cells ne) in
      Returns-mono (edit_item-Edited c (find key cells) i (λ i. record i { value = val }) p_ne e)
        (λ c' w. Edited-Written i c' ne e w)

update_same :
    {A : Type 0} (cells : Ptr → Option A) (p : Ptr) (o : Option A) → update cells p o p ≡ o
unfolding update
update_same cells p o = ground arith

pub store_item-sections :
    (c : Config) (p q : Ptr) (i : Item) (s : Section)
    → c.sections q ≡ some s
    → (store_item c p i).sections q ≡ some s
unfolding store_item
store_item-sections c p q i s e = e

module _ (c : Config) (section fresh : Ptr) (key val : Text) (fresh_ne : fresh ≢ null) where
  -- The item is allocated and its section is read.
  pub new_item-eq :
      (cells : List Cell)
      → IsSection c section cells
      → new_item fresh c section key val ≡ (
          if first_at cells == null
          then push_first (store_item c fresh (new_item_of fresh key val)) section fresh
          else push_last (store_item c fresh (new_item_of fresh key val)) (first_at cells) fresh)
  unfolding new_item
  new_item-eq cells s =
      rw
        (
          load_section-eq_ok (store_item c fresh (new_item_of fresh key val)) section s.at s.ne
              (store_item-sections c fresh section (new_item_of fresh key val) s.at s.found),
          s.items,
        )
        refl

  only-Written :
      (s : IsSection c section [])
      → (c' : Config)
      → Edited
          (store_section
            (store_item c fresh (new_item_of fresh key val))
            section
            (record s.at { items = fresh }))
          fresh
          (new_item_of fresh key val)
          c'
      → Written section fresh key val [] c c'
  unfolding store_section store_item update
  only-Written s c' w = record {
    cells' = add_cell fresh key val [];
    is_section = record {
      at = record s.at { items = fresh };
      ne = s.ne;
      found =
          ap (λ (x : Config). x.sections section) w.same
          ∙ update_same c.sections section (some (record s.at { items = fresh }));
      items = refl;
      chain = (fresh_ne, ground (arith, w.items_eq fresh), refl, tt);
      headed = refl;
    };
    entries_eq = refl;
    others = λ a out apart. ground (arith, w.items_eq a);
    sections_eq = λ p ne'. ap (λ (x : Config). x.sections p) w.same ∙ elsewhere p section _ _ ne';
    first_eq = ap (λ (x : Config). x.first) w.same;
  }

  pub push_first-Written :
      IsSection c section []
      → Returns
          (Written section fresh key val [] c)
          (push_first (store_item c fresh (new_item_of fresh key val)) section fresh)
  unfolding push_first
  push_first-Written s =
      let c1 = store_item c fresh (new_item_of fresh key val) in
      let c2 = store_section c1 section (record s.at { items = fresh }) in
      rw
        (edit_section-eq_ok c1 section s.at (λ t. record t { items = fresh }) s.ne
          (store_item-sections c fresh section (new_item_of fresh key val) s.at s.found))
        (Returns-mono
          (edit_item-Edited c2 fresh (new_item_of fresh key val) (λ i. record i { head = fresh })
            fresh_ne (unfold store_section store_item update in ground arith))
          (λ c' w. only-Written s c' w))
