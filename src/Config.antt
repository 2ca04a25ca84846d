-- ===== src/Config.antt =====
-- The configuration of g15daemon-wip/g15daemon/utility_funcs.c as the C code keeps it: sections and
-- items at their addresses, linked by `next` and `prev`, where the `head` of the first is meant to
-- be the last. `fresh` is the address that `g15daemon_xmalloc` returns, and `fuel` bounds each walk
-- over a list. The strings of an item are allocated and freed with it, so they stand in it.
pub mod Heap
pub mod Items
pub mod Search
pub mod Cells
pub mod Edit
pub mod Append
pub mod Write
pub mod Read
pub mod File
pub mod Remove
use g15daemon.Prelude.{
  ℕ, zero, suc, Bool, ◌==◌, ◌!=◌, if◌then◌else◌, [], ◌∷◌, Run, ok, out_of_fuel, ◌>>=◌,
}
use g15daemon.Daemon.{Ptr, null}
use g15daemon.Text.{Text, equal, starts_with}
use g15daemon.Config.Heap.{
  Item, Section, Config, load_item, load_section, store_item, store_section, edit_item,
  edit_section, free_item, free_section,
}

-- 0 and -1.
pub data Status : Type 0 where
  done missing : Status

pub search_sections : (fuel : ℕ) → Config → (sectionname : Text) → Ptr → Run Ptr
search_sections zero c sectionname p = out_of_fuel
search_sections (suc fuel) c sectionname p =
    let more = (do
      s ← load_section c p
      let rest = search_sections fuel c sectionname s.next
      if equal s.sectionname sectionname then ok p else rest) in
    if p == null then ok null else more

pub uf_search_confsection : (fuel : ℕ) → Config → (sectionname : Text) → Run Ptr
uf_search_confsection fuel c sectionname = search_sections fuel c sectionname c.first

pub search_items : (fuel : ℕ) → Config → (key : Text) → Ptr → Run Ptr
search_items zero c key p = out_of_fuel
search_items (suc fuel) c key p =
    let more = (do
      i ← load_item c p
      let rest = search_items fuel c key i.next
      if equal i.key key then ok p else rest) in
    if p == null then ok null else more

pub uf_search_confitem : (fuel : ℕ) → Config → (section : Ptr) (key : Text) → Run Ptr
uf_search_confitem fuel c section key =
    if section == null
    then ok null
    else (do s ← load_section c section; search_items fuel c key s.items)

pub new_section : (fresh : Ptr) → Config → (name : Text) → Run (Ptr × Config)
new_section fresh c name = do
  let c' =
      store_section c fresh (record { head = fresh; next = null; sectionname = name; items = null })
  if c.first == null
      then (do
        c'' ← edit_section (record c' { first = fresh }) fresh (λ s. record s { head = fresh })
        ok (fresh, c''))
      else (do
        s ← load_section c' c.first
        c'' ← edit_section c' s.head (λ s. record s { next = fresh })
        c''' ← edit_section c'' c.first (λ s. record s { head = fresh })
        ok (fresh, c'''))

pub g15daemon_cfg_load_section :
    (fuel : ℕ) (fresh : Ptr) → Config → (name : Text) → Run (Ptr × Config)
g15daemon_cfg_load_section fuel fresh c name = do
  p ← uf_search_confsection fuel c name
  if p != null then ok (p, c) else new_section fresh c name

-- The new item is the section's only one, ...
pub push_first : Config → (section fresh : Ptr) → Run Config
push_first c section fresh = do
  c' ← edit_section c section (λ s. record s { items = fresh })
  edit_item c' fresh (λ i. record i { head = fresh })

-- ... or stands behind the one that the first item has for its `head`.
pub push_last : Config → (first fresh : Ptr) → Run Config
push_last c first fresh = do
  i ← load_item c first
  c' ← edit_item c fresh (λ n. record n { prev = i.head })
  c'' ← edit_item c' i.head (λ l. record l { next = fresh })
  edit_item c'' first (λ i. record i { head = fresh })

abbrev pub new_item_of : (fresh : Ptr) (key val : Text) → Item
new_item_of fresh key val = record {
  next = null;
  prev = null;
  head = fresh;
  key = key;
  value = val;
}

pub new_item : (fresh : Ptr) → Config → (section : Ptr) (key val : Text) → Run Config
new_item fresh c section key val = do
  let c' = store_item c fresh (new_item_of fresh key val)
  s ← load_section c' section
  if s.items == null then push_first c' section fresh else push_last c' s.items fresh

pub g15daemon_cfg_write_string :
    (fuel : ℕ) (fresh : Ptr) → Config → (section : Ptr) (key val : Text) → Run (Status × Config)
g15daemon_cfg_write_string fuel fresh c section key val =
    if section == null then ok (missing, c) else (do
      p ← uf_search_confitem fuel c section key
      c' ←
          if p != null
          then edit_item c p (λ i. record i { value = val })
          else new_item fresh c section key val
      ok (done, c'))

-- The links of the neighbours of an item that is removed, and the section's first item.
pub unlink_item : Config → (section prev next : Ptr) → Run Config
unlink_item c section prev next =
    if prev != null
    then edit_item c prev (λ i. record i { next = next })
    else if next == null
    then (do
      s ← load_section c section
      c' ← free_item c s.items
      edit_section c' section (λ s. record s { items = null }))
    else edit_section c section (λ s. record s { items = next })

-- `if(new->head==new)`
pub move_head : Config → (section p prev next : Ptr) → Run Config
move_head c section p prev next = do
  i ← load_item c p
  if i.head == p
      then if prev != null
        then (do
          c' ← edit_item c prev (λ i. record i { head = prev })
          s ← load_section c' section
          edit_item c' s.items (λ i. record i { head = prev }))
        else if next == null
        then (do
          s ← load_section c section
          c' ← free_item c s.items
          edit_section c' section (λ s. record s { items = null }))
        else ok c
      else ok c

pub remove_item : Config → (section p : Ptr) → Run Config
remove_item c section p = do
  i ← load_item c p
  c' ← unlink_item c section i.prev i.next
  c'' ← move_head c' section p i.prev i.next
  c''' ← if i.next != null then edit_item c'' i.next (λ n. record n { prev = i.prev }) else ok c''
  free_item c''' p

pub g15daemon_cfg_remove_key :
    (fuel : ℕ) → Config → (section : Ptr) (key : Text) → Run (Status × Config)
g15daemon_cfg_remove_key fuel c section key = if section == null then ok (missing, c) else (do
  p ← uf_search_confitem fuel c section key
  c' ← if p != null then remove_item c section p else ok c
  ok (done, c'))

-- "On" and "Off".
abbrev pub on_text : Text
on_text = 79 ∷ 110 ∷ []

abbrev pub off_text : Text
off_text = 79 ∷ 102 ∷ 102 ∷ []

pub g15daemon_cfg_write_bool :
    (fuel : ℕ) (fresh : Ptr)
    → Config
    → (section : Ptr) (key : Text) (val : ℕ) → Run (Status × Config)
g15daemon_cfg_write_bool fuel fresh c section key val =
    g15daemon_cfg_write_string fuel fresh c section key (if val != 0 then on_text else off_text)

-- 1 if the value begins with "On".
pub g15daemon_cfg_read_bool :
    (fuel : ℕ) (fresh : Ptr)
    → Config
    → (section : Ptr) (key : Text) (defaultval : ℕ) → Run (ℕ × Config)
g15daemon_cfg_read_bool fuel fresh c section key defaultval = do
  p ← uf_search_confitem fuel c section key
  if p != null
      then (do i ← load_item c p; ok (if starts_with on_text i.value then 1 else 0, c))
      else (do
        r ← g15daemon_cfg_write_bool fuel fresh c section key defaultval
        ok (defaultval, r.1))

pub g15daemon_cfg_read_string :
    (fuel : ℕ) (fresh : Ptr)
    → Config
    → (section : Ptr) (key defaultval : Text) → Run (Text × Config)
g15daemon_cfg_read_string fuel fresh c section key defaultval = do
  p ← uf_search_confitem fuel c section key
  if p != null then (do i ← load_item c p; ok (i.value, c)) else (do
    r ← g15daemon_cfg_write_string fuel fresh c section key defaultval
    ok (defaultval, r.1))

-- The items of a section, each freed behind the step to the next.
pub free_items : (fuel : ℕ) → Config → (section : Ptr) → Run Config
free_items zero c section = out_of_fuel
free_items (suc fuel) c section = do
  s ← load_section c section
  let round = (do
    i ← load_item c s.items
    c' ← free_item c s.items
    c'' ← edit_section c' section (λ s. record s { items = i.next })
    free_items fuel c'' section)
  if s.items != null then round else ok c

pub free_sections : (fuel : ℕ) → Config → (section : Ptr) → Run Config
free_sections zero c section = out_of_fuel
free_sections (suc fuel) c section =
    let round = (do
      c' ← free_items fuel c section
      s ← load_section c' section
      c'' ← free_section c' section
      free_sections fuel c'' s.next) in
    if section != null then round else ok c

pub uf_conf_free : (fuel : ℕ) → Config → Run Config
uf_conf_free fuel c = free_sections fuel c c.first
