-- ===== src/Config/Heap.antt =====
-- `config_items_t`, `config_section_t` and `configfile_t` of g15daemon-wip/g15daemon/g15daemon.h on
-- a heap.
use g15daemon.Prelude.{◌==◌, if◌then◌else◌, Option, none, some, Run, ok, fault, ◌>>=◌}
use g15daemon.Daemon.{Ptr, null}
use g15daemon.Text.{Text}

pub record Item : Type 0 where
  pub next : Ptr
  pub prev : Ptr
  pub head : Ptr
  pub key : Text
  pub value : Text

pub record Section : Type 0 where
  pub head : Ptr
  pub next : Ptr
  pub sectionname : Text
  pub items : Ptr

-- `sections` of the C code is `first`.
pub record Config : Type 0 where
  pub items : Ptr → Option Item
  pub sections : Ptr → Option Section
  pub first : Ptr

unfoldable pub update : {A : Type 0} → (Ptr → Option A) → Ptr → Option A → Ptr → Option A
update cells p c a = if a == p then c else cells a

abbrev pub from : {A : Type 0} → Option A → Run A
from none = fault
from (some a) = ok a

-- `*p`: a fault at NULL and where nothing is allocated.
unfoldable pub load_item : Config → Ptr → Run Item
load_item c p = if p == null then fault else from (c.items p)

unfoldable pub load_section : Config → Ptr → Run Section
load_section c p = if p == null then fault else from (c.sections p)

unfoldable pub store_item : Config → Ptr → Item → Config
store_item c p i = record c { items = update c.items p (some i) }

unfoldable pub store_section : Config → Ptr → Section → Config
store_section c p s = record c { sections = update c.sections p (some s) }

-- `p->... = ...`
unfoldable pub edit_item : Config → Ptr → (Item → Item) → Run Config
edit_item c p f = do i ← load_item c p; ok (store_item c p (f i))

unfoldable pub edit_section : Config → Ptr → (Section → Section) → Run Config
edit_section c p f = do s ← load_section c p; ok (store_section c p (f s))

-- `free(p)`: nothing at NULL, and a fault where nothing is allocated.
unfoldable pub free_item : Config → Ptr → Run Config
free_item c p =
    if p == null
    then ok c
    else (do i ← from (c.items p); ok (record c { items = update c.items p none }))

unfoldable pub free_section : Config → Ptr → Run Config
free_section c p =
    if p == null
    then ok c
    else (do s ← from (c.sections p); ok (record c { sections = update c.sections p none }))
