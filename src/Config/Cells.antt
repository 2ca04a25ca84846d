-- ===== src/Config/Cells.antt =====
-- Lists of items that are written: a value replaced, or an item added behind the others.
use g15daemon.Prelude.{
  ◌≡◌, ◌≢◌, refl, sym, ap, ◌∙◌, true, false, ◌==◌, if◌then◌else◌, Option, none, some, List, [], ◌∷◌,
  ◌++◌, arith, Bool-cases, inl, inr,
}
use g15daemon.Daemon.{Ptr, null}
use g15daemon.Text.{Text, equal}
use g15daemon.Text.Laws.{equal_iff}
use g15daemon.Config.Heap.{Item}
use g15daemon.Config.Items.{
  Cell, item_of, first_at, last_at, has_at, Items, entries, find, Items-frame, has_last, ne_of_has,
}

-- What a write does to keys and values.
abbrev pub insert : (key val : Text) → List (Text × Text) → List (Text × Text)
insert key val [] = (key, val) ∷ []
insert key val ((k, v) ∷ es) = if equal k key then (k, val) ∷ es else (k, v) ∷ insert key val es

-- The cells with the first value of a key replaced.
abbrev pub set_value : (key val : Text) → List Cell → List Cell
set_value key val [] = []
set_value key val (c ∷ cs) =
    if equal c.key key then record c { value = val } ∷ cs else c ∷ set_value key val cs

abbrev pub with_value : Text → Option Item → Option Item
with_value val none = none
with_value val (some i) = some (record i { value = val })

pub first_at-set_value :
    (key val : Text) (cs : List Cell) → first_at (set_value key val cs) ≡ first_at cs
first_at-set_value key val [] = refl
first_at-set_value key val (c ∷ cs) = ground arith

pub has_at-set_value :
    (a : Ptr) (key val : Text) (cs : List Cell) → has_at a (set_value key val cs) ≡ has_at a cs
has_at-set_value a key val [] = refl
has_at-set_value a key val (c ∷ cs) = ground (arith, has_at-set_value a key val cs)

pub last_at-value :
    (c : Cell) (val : Text) (cs : List Cell) → last_at (record c { value = val }) cs ≡ last_at c cs
last_at-value c val [] = refl
last_at-value c val (d ∷ ds) = refl

pub last_at-set_value :
    (c : Cell) (key val : Text) (cs : List Cell) → last_at c (set_value key val cs) ≡ last_at c cs
last_at-set_value c key val [] = refl
last_at-set_value c key val (d ∷ ds) =
    ground (arith, last_at-set_value d key val ds, last_at-value d val ds)

pub find-has_at :
    (key : Text) (cs : List Cell) → find key cs ≢ null → has_at (find key cs) cs ≡ true
find-has_at key [] h = absurd (h refl)
find-has_at key (c ∷ cs) h = ground (arith, find-has_at key cs)

pub elsewhere : {A : Type 0} (a b : Ptr) (x y : A) → a ≢ b → (if a == b then x else y) ≡ y
elsewhere a b x y ne = ground arith

-- The write of the value is seen in the list.
pub Items-set_value :
    (h h' : Ptr → Option Item) (prev : Ptr) (key val : Text) (cs : List Cell)
    → Items h prev cs
    → find key cs ≢ null
    → ((a : Ptr) → h' a ≡ (if a == find key cs then with_value val (h a) else h a))
    → Items h' prev (set_value key val cs)
Items-set_value h h' prev key val [] i ne w = tt
Items-set_value h h' prev key val (c ∷ cs) (nc, e, out, i) ne w =
    elim (Bool-cases (equal c.key key)) [
      | inl same ↦
          let w' : (a : Ptr) → h' a ≡ (if a == c.at then with_value val (h a) else h a) =
            λ a. rw same at (w a) in
          rw same (
            nc,
            ground (arith, w' c.at),
            out,
            Items-frame h h' c.at cs i
                (λ a m. w' a ∙ elsewhere a c.at _ _ (ne_of_has a c.at cs m out)),
          )
      | inr other ↦
          let w' : (a : Ptr) → h' a ≡ (if a == find key cs then with_value val (h a) else h a) =
            λ a. rw other at (w a) in
          let ne' : find key cs ≢ null = λ z. ne (rw other z) in
          let apart = ne_of_has (find key cs) c.at cs (find-has_at key cs ne') out in
          rw other (
            nc,
            w' c.at
                ∙ elsewhere c.at (find key cs) _ _ (λ z. apart (sym z))
                ∙ rw (first_at-set_value key val cs) e,
            has_at-set_value c.at key val cs ∙ out,
            Items-set_value h h' c.at key val cs i ne' w',
          )
    ]

pub entries-set_value :
    (key val : Text) (cs : List Cell)
    → find key cs ≢ null
    → entries (set_value key val cs) ≡ insert key val (entries cs)
entries-set_value key val [] ne = absurd (ne refl)
entries-set_value key val (c ∷ cs) ne = elim (Bool-cases (equal c.key key)) [
  | inl same ↦ let e = (equal_iff c.key key).0 same in rw (same, e) refl
  | inr other ↦
      let ne' : find key cs ≢ null = λ z. ne (rw other z) in
      rw other (ap (◌∷◌ (c.key, c.value)) (entries-set_value key val cs ne'))
]

-- A new cell behind the others; the first cell's `head` is the last.
abbrev pub add_cell : (fresh : Ptr) (key val : Text) → List Cell → List Cell
add_cell fresh key val [] = record { at = fresh; head = fresh; key = key; value = val } ∷ []
add_cell fresh key val (c ∷ cs) =
    record c { head = fresh }
    ∷ (cs ++ (record { at = fresh; head = fresh; key = key; value = val } ∷ []))

abbrev pub with_next : Ptr → Option Item → Option Item
with_next p none = none
with_next p (some i) = some (record i { next = p })

abbrev pub with_head : Ptr → Option Item → Option Item
with_head p none = none
with_head p (some i) = some (record i { head = p })

pub has_front :
    (a : Ptr) (c : Cell) (cs : List Cell)
    → has_at a (c ∷ cs) ≡ false
    → (a ≢ c.at) × (has_at a cs ≡ false)
has_front a c cs h = (ground arith, ground arith)

pub has_self : (c : Cell) (cs : List Cell) → has_at c.at (c ∷ cs) ≡ true
has_self c cs = ground arith

pub has_at-concat :
    (a : Ptr) (d : Cell) (cs : List Cell)
    → has_at a cs ≡ false
    → a ≢ d.at
    → has_at a (cs ++ (d ∷ [])) ≡ false
has_at-concat a d [] h ne = ground arith
has_at-concat a d (c ∷ cs) h ne =
    let parts = has_front a c cs h in ground (arith, has_at-concat a d cs parts.1 ne)

-- A cell behind the last: its own item, and the `next` of the last one.
pub Items-concat :
    (h h' : Ptr → Option Item) (prev : Ptr) (c d : Cell) (cs : List Cell)
    → Items h prev (c ∷ cs)
    → has_at d.at (c ∷ cs) ≡ false
    → d.at ≢ null
    → h' d.at ≡ some (item_of (last_at c cs) null d)
    → ((a : Ptr)
        → has_at a (c ∷ cs) ≡ true
        → h' a ≡ (if a == last_at c cs then with_next d.at (h a) else h a))
    → Items h' prev (c ∷ (cs ++ (d ∷ [])))
Items-concat h h' prev c d [] (nc, e, out, i) fresh nd new w =
    (nc, ground (arith, w c.at), ground (arith), (nd, new, refl, tt))
Items-concat h h' prev c d (b ∷ bs) (nc, e, out, i) fresh nd new w =
    let apart = ne_of_has (last_at b bs) c.at (b ∷ bs) (has_last b bs) out in
    let parts = has_front d.at c (b ∷ bs) fresh in
    (
      nc,
      w c.at (has_self c (b ∷ bs)) ∙ elsewhere c.at (last_at b bs) _ _ (λ z. apart (sym z)) ∙ e,
      has_at-concat c.at d (b ∷ bs) out (λ z. parts.0 (sym z)),
      Items-concat h h' c.at b d bs i parts.1 nd new (λ a m. w a (ground arith)),
    )

-- The first cell's `head` is written.
pub Items-head :
    (h h' : Ptr → Option Item) (prev p : Ptr) (c : Cell) (cs : List Cell)
    → Items h prev (c ∷ cs)
    → ((a : Ptr) → h' a ≡ (if a == c.at then with_head p (h a) else h a))
    → Items h' prev (record c { head = p } ∷ cs)
Items-head h h' prev p c cs (nc, e, out, i) w = (
  nc,
  ground (arith, w c.at),
  out,
  Items-frame h h' c.at cs i (λ a m. w a ∙ elsewhere a c.at _ _ (ne_of_has a c.at cs m out)),
)

pub last_at-concat : (c d : Cell) (cs : List Cell) → last_at c (cs ++ (d ∷ [])) ≡ d.at
last_at-concat c d [] = refl
last_at-concat c d (b ∷ bs) = last_at-concat b d bs

pub last_at-head :
    (p : Ptr) (c : Cell) (cs : List Cell) → last_at (record c { head = p }) cs ≡ last_at c cs
last_at-head p c [] = refl
last_at-head p c (b ∷ bs) = refl

entries-concat :
    (fresh : Ptr) (key val : Text) (cs : List Cell)
    → find key cs ≡ null
    → ((a : Ptr) → has_at a cs ≡ true → a ≢ null)
    → entries (cs ++ (record { at = fresh; head = fresh; key = key; value = val } ∷ []))
      ≡ insert key val (entries cs)
entries-concat fresh key val [] e ne = refl
entries-concat fresh key val (c ∷ cs) e ne = elim (Bool-cases (equal c.key key)) [
  | inl same ↦ absurd (ne c.at (has_self c cs) (rw same at e))
  | inr other ↦ rw other (
      ap (◌∷◌ (c.key, c.value))
        (entries-concat fresh key val cs (rw other at e) (λ a m. ne a (ground arith))))
]

pub entries-add_cell :
    (fresh : Ptr) (key val : Text) (cs : List Cell)
    → find key cs ≡ null
    → ((a : Ptr) → has_at a cs ≡ true → a ≢ null)
    → entries (add_cell fresh key val cs) ≡ insert key val (entries cs)
entries-add_cell fresh key val [] e ne = refl
entries-add_cell fresh key val (c ∷ cs) e ne = entries-concat fresh key val (c ∷ cs) e ne
