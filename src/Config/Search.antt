-- ===== src/Config/Search.antt =====
-- `uf_search_confitem` finds the first item with the key.
use g15daemon.Prelude.{
  ℕ, zero, suc, ◌<◌, ◌≡◌, ◌≢◌, refl, false, ◌==◌, some, List, [], ◌∷◌, arith, ok,
}
use g15daemon.Daemon.{Ptr, null}
use g15daemon.Text.{Text}
use g15daemon.Config.Heap.{Item, Section, Config, load_item, load_section}
use g15daemon.Config.{search_items, uf_search_confitem}
use g15daemon.Config.Items.{Cell, item_of, first_at, length, Items, IsSection, find}

pub load_item-eq_ok :
    (c : Config) (p : Ptr) (i : Item) → p ≢ null → c.items p ≡ some i → load_item c p ≡ ok i
unfolding load_item
load_item-eq_ok c p i ne e = ground arith

pub load_section-eq_ok :
    (c : Config) (p : Ptr) (s : Section)
    → p ≢ null
    → c.sections p ≡ some s
    → load_section c p ≡ ok s
unfolding load_section
load_section-eq_ok c p s ne e = ground arith

search_items-find :
    (fuel : ℕ) (c : Config) (key : Text) (prev : Ptr) (cells : List Cell)
    → Items c.items prev cells
    → length cells < fuel
    → search_items fuel c key (first_at cells) ≡ ok (find key cells)
unfolding search_items
search_items-find zero c key prev cells i h = absurd (omega arith)
search_items-find (suc fuel) c key prev [] i h = refl
search_items-find (suc fuel) c key prev (x ∷ xs) (ne, e, out, i) h =
    let got = load_item-eq_ok c x.at (item_of prev (first_at xs) x) ne e in
    let tail = search_items-find fuel c key x.at xs i (omega arith) in rw got (ground arith)

-- With more fuel than the section has items.
pub uf_search_confitem-find :
    (fuel : ℕ) (c : Config) (section : Ptr) (key : Text) (cells : List Cell)
    → IsSection c section cells
    → length cells < fuel
    → uf_search_confitem fuel c section key ≡ ok (find key cells)
unfolding uf_search_confitem
uf_search_confitem-find fuel c section key cells s h =
    let got = load_section-eq_ok c section s.at s.ne s.found in
    let look = search_items-find fuel c key null cells s.chain h in
    let there : (section == null) ≡ false = ground (arith, s.ne) in rw (there, got, s.items) look
