-- ===== src/Config/Items.antt =====
-- The items of a section as a list: from the first by `next`, back by `prev`, and the first one's
-- `head` is the last.
use g15daemon.Prelude.{
  ℕ, ◌+◌, ◌≡◌, ◌≢◌, Bool, true, false, ◌||◌, ◌==◌, if◌then◌else◌, Option, some, List, [], ◌∷◌,
  arith, Bool-cases, inl, inr, map,
}
use g15daemon.Daemon.{Ptr, null}
use g15daemon.Text.{Text, equal}
use g15daemon.Config.Heap.{Item, Section, Config}

-- An item with its address, but for the links to its neighbours.
pub record Cell : Type 0 where
  pub at : Ptr
  pub head : Ptr
  pub key : Text
  pub value : Text

abbrev pub item_of : (prev next : Ptr) → Cell → Item
item_of prev next c = record {
  next = next;
  prev = prev;
  head = c.head;
  key = c.key;
  value = c.value;
}

abbrev pub first_at : List Cell → Ptr
first_at [] = null
first_at (c ∷ cs) = c.at

abbrev pub last_at : Cell → List Cell → Ptr
last_at c [] = c.at
last_at c (d ∷ ds) = last_at d ds

abbrev pub has_at : Ptr → List Cell → Bool
has_at a [] = false
has_at a (c ∷ cs) = (a == c.at) || has_at a cs

abbrev pub length : List Cell → ℕ
length [] = 0
length (c ∷ cs) = length cs + 1

abbrev pub Items : (Ptr → Option Item) → (prev : Ptr) → List Cell → Type 0
Items h prev [] = Unit {0}
Items h prev (c ∷ cs) =
    (c.at ≢ null)
    × (h c.at ≡ some (item_of prev (first_at cs) c))
    × (has_at c.at cs ≡ false)
    × Items h c.at cs

abbrev pub Headed : List Cell → Type 0
Headed [] = Unit {0}
Headed (c ∷ cs) = c.head ≡ last_at c cs

-- The section at an address has these items.
pub record IsSection (c : Config) (section : Ptr) (cells : List Cell) : Type 0 where
  pub at : Section
  pub ne : section ≢ null
  pub found : c.sections section ≡ some at
  pub items : at.items ≡ first_at cells
  pub chain : Items c.items null cells
  pub headed : Headed cells

-- The keys and values, in order.
abbrev pub entries : List Cell → List (Text × Text)
entries = map (λ c. (c.key, c.value))

-- The address of the first item with a key, or null.
abbrev pub find : (key : Text) → List Cell → Ptr
find key [] = null
find key (c ∷ cs) = if equal c.key key then c.at else find key cs

pub Items-frame :
    (h h' : Ptr → Option Item) (prev : Ptr) (cs : List Cell)
    → Items h prev cs
    → ((a : Ptr) → has_at a cs ≡ true → h' a ≡ h a)
    → Items h' prev cs
Items-frame h h' prev [] i same = tt
Items-frame h h' prev (c ∷ cs) (ne, e, out, i) same =
    (ne, ground (arith, same c.at), out, Items-frame h h' c.at cs i (λ a m. same a (ground arith)))

pub has_last : (c : Cell) (cs : List Cell) → has_at (last_at c cs) (c ∷ cs) ≡ true
has_last c [] = ground arith
has_last c (d ∷ ds) = ground (arith, has_last d ds)

pub ne_of_has : (a b : Ptr) (cs : List Cell) → has_at a cs ≡ true → has_at b cs ≡ false → a ≢ b
ne_of_has a b cs h out e = cc (h, out, map_has e)
  where
    map_has : a ≡ b → has_at a cs ≡ has_at b cs
    map_has e i = has_at (e i) cs

-- What stands in a list is allocated, and not at NULL.
pub Items-has :
    (h : Ptr → Option Item) (prev a : Ptr) (cs : List Cell)
    → Items h prev cs
    → has_at a cs ≡ true
    → (i : Item) × (h a ≡ some i) × (a ≢ null)
Items-has h prev a [] i m = absurd (ground arith)
Items-has h prev a (c ∷ cs) (ne, e, out, i) m = elim (Bool-cases (a == c.at)) [
  | inl here ↦ (item_of prev (first_at cs) c, ground arith, ground arith)
  | inr there ↦ Items-has h c.at a cs i (ground arith)
]
