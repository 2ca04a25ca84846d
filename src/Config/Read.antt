-- ===== src/Config/Read.antt =====
-- `g15daemon_cfg_read_string` returns the value of the key, or the default, which it writes.
use g15daemon.Prelude.{
  ℕ, ◌+◌, ◌≤◌, ◌<◌, ◌≡◌, ◌≢◌, refl, sym, ap, ◌∙◌, ◌!=◌, if◌then◌else◌, Option, none, some, List, [],
  ◌∷◌, arith, Returns, returns, Returns-bind, Returns-mono, Bool-cases, inl, inr, ne_of_!=,
  eq_of_!=,
}
use g15daemon.Daemon.{Ptr, null}
use g15daemon.Text.{Text, equal}
use g15daemon.Text.Laws.{equal_iff}
use g15daemon.Config.Heap.{Item, Config}
use g15daemon.Config.{g15daemon_cfg_write_string, g15daemon_cfg_read_string}
use g15daemon.Config.Items.{Cell, item_of, first_at, length, Items, IsSection, entries, find}
use g15daemon.Config.Search.{load_item-eq_ok, uf_search_confitem-find}
use g15daemon.Config.Cells.{insert}
use g15daemon.Config.Append.{has_at-unused}
use g15daemon.Config.Write.{g15daemon_cfg_write_string-Written}

-- The first value of a key.
abbrev pub value_of : (default key : Text) → List (Text × Text) → Text
value_of default key [] = default
value_of default key ((k, v) ∷ es) = if equal k key then v else value_of default key es

abbrev size : List (Text × Text) → ℕ
size [] = 0
size (e ∷ es) = size es + 1

size-insert : (key val : Text) (es : List (Text × Text)) → size (insert key val es) ≤ size es + 1
size-insert key val [] = omega arith
size-insert key val ((k, v) ∷ es) = ground (arith, size-insert key val es)

length-entries : (cells : List Cell) → length cells ≡ size (entries cells)
length-entries [] = refl
length-entries (c ∷ cs) = ap (λ n. n + 1) (length-entries cs)

pub value_of-insert :
    (default key val k : Text) (es : List (Text × Text))
    → value_of default k (insert key val es) ≡ (if equal key k then val else value_of default k es)
value_of-insert default key val k [] = refl
value_of-insert default key val k ((j, v) ∷ es) =
    ground
      (arith, value_of-insert default key val k es, equal_iff j key, equal_iff j k, equal_iff key k)

-- The item that is found holds the value.
find-value :
    (h : Ptr → Option Item) (default key : Text) (prev : Ptr) (cells : List Cell)
    → Items h prev cells
    → find key cells ≢ null
    → (i : Item) × (h (find key cells) ≡ some i) × (i.value ≡ value_of default key (entries cells))
find-value h default key prev [] i ne = absurd (ne refl)
find-value h default key prev (c ∷ cs) (nc, e, out, i) ne = elim (Bool-cases (equal c.key key)) [
  | inl same ↦ (item_of prev (first_at cs) c, rw same e, rw same refl)
  | inr other ↦
      let (j, found, v) = find-value h default key c.at cs i (λ z. ne (rw other z)) in
      (j, rw other found, rw other v)
]

find_none :
    (default key : Text) (cells : List Cell) (h : Ptr → Option Item) (prev : Ptr)
    → Items h prev cells
    → find key cells ≡ null
    → value_of default key (entries cells) ≡ default
find_none default key [] h prev i e = refl
find_none default key (c ∷ cs) h prev (nc, f, out, i) e = elim (Bool-cases (equal c.key key)) [
  | inl same ↦ absurd (nc (rw same at e))
  | inr other ↦ rw other (find_none default key cs h c.at i (rw other at e))
]

-- What is read, whether the key is there or not.
pub read_string-value :
    (fuel : ℕ) (fresh : Ptr) (c : Config) (section : Ptr) (key default : Text) (cells : List Cell)
    → IsSection c section cells
    → length cells < fuel
    → fresh ≢ null
    → c.items fresh ≡ none
    → Returns
        (λ r. r.0 ≡ value_of default key (entries cells))
        (g15daemon_cfg_read_string fuel fresh c section key default)
unfolding g15daemon_cfg_read_string
read_string-value fuel fresh c section key default cells s h fresh_ne unused =
    rw (uf_search_confitem-find fuel c section key cells s h)
      (elim (Bool-cases (find key cells != null)) [
        | inl found ↦
            let ne = ne_of_!= (find key cells) null found in
            let (i, at, v) = find-value c.items default key null cells s.chain ne in
            rw (found, load_item-eq_ok c (find key cells) i ne at) (returns v)
        | inr absent ↦
            let e = eq_of_!= (find key cells) null absent in
            rw absent (
              Returns-bind
                (g15daemon_cfg_write_string-Written fuel fresh c section key default cells s h
                  fresh_ne unused)
                λ r w. returns (sym (find_none default key cells c.items null s.chain e)))
      ])

-- A value that is written is read back, and every other key reads as before, the default where the
-- key is not there; both calls return, given unused addresses and more fuel than there are items.
pub read_string-write_string :
    (fuel : ℕ) (fresh fresh' : Ptr) (c : Config) (section : Ptr) (key val k default : Text)
    (cells : List Cell)
    → IsSection c section cells
    → length cells + 1 < fuel
    → fresh ≢ null
    → fresh' ≢ null
    → fresh' ≢ fresh
    → c.items fresh ≡ none
    → c.items fresh' ≡ none
    → Returns
        (λ r.
          Returns
            (λ q. q.0 ≡ (if equal key k then val else value_of default k (entries cells)))
            (g15daemon_cfg_read_string fuel fresh' r.1 section k default))
        (g15daemon_cfg_write_string fuel fresh c section key val)
read_string-write_string fuel fresh fresh' c section key val k default cells s h ne ne' apart un
      un' =
    Returns-mono
      (g15daemon_cfg_write_string-Written fuel fresh c section key val cells s (omega arith) ne un)
      λ r (e, w).
        let short : length w.cells' < fuel = omega (
          arith,
          length-entries w.cells',
          ap size w.entries_eq,
          size-insert key val (entries cells),
          length-entries cells,
        ) in
        let unused = w.others fresh' (has_at-unused c section fresh' cells s un') apart ∙ un' in
        Returns-mono
          (read_string-value fuel fresh' r.1 section k default w.cells' w.is_section short ne'
            unused)
          λ q v.
            v
            ∙ ap (value_of default k) w.entries_eq
            ∙ value_of-insert default key val k (entries cells)
