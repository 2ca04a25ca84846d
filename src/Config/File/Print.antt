-- ===== src/Config/File/Print.antt =====
-- `uf_conf_write` prints the sections and items that stand on the heap.
use g15daemon.Prelude.{
  ℕ, zero, suc, ◌+◌, ◌≤◌, ◌<◌, ◌≡◌, ◌≢◌, refl, ap, ◌∙◌, ◌==◌, if◌then◌else◌, some, List, [], ◌∷◌,
  map, arith, ok, Returns, returns,
}
use g15daemon.Daemon.{Ptr, null}
use g15daemon.Text.{Text, lines_from}
use g15daemon.Config.Heap.{Config}
use g15daemon.Config.Items.{Cell, item_of, first_at, length, Items, entries}
use g15daemon.Config.Search.{load_item-eq_ok, load_section-eq_ok}
use g15daemon.Config.File.{ignored, read_line, write_items, write_sections, uf_conf_write}
use g15daemon.Config.File.RoundTrip.{Contents, print_items, print, said, IsPrintable, meaning-file}

-- A section with its address and its items.
pub record Place : Type 0 where
  pub at : Ptr
  pub head : Ptr
  pub name : Text
  pub cells : List Cell

abbrev pub first_place : List Place → Ptr
first_place [] = null
first_place (s ∷ ss) = s.at

-- The sections from the first by `next`, each with its items; `most` bounds their numbers.
abbrev pub Sections : Config → (most : ℕ) → List Place → Type 0
Sections c most [] = Unit {0}
Sections c most (s ∷ ss) =
    (s.at ≢ null)
    × (c.sections s.at
        ≡ some (record {
          head = s.head;
          next = first_place ss;
          sectionname = s.name;
          items = first_at s.cells;
        }))
    × Items c.items null s.cells
    × (length s.cells ≤ most)
    × Sections c most ss

abbrev pub contents : List Place → Contents
contents [] = []
contents (s ∷ ss) = (s.name, entries s.cells) ∷ contents ss

abbrev pub count : List Place → ℕ
count [] = 0
count (s ∷ ss) = count ss + 1

at_null : {A : Type 0} (p : Ptr) (x y : A) → p ≢ null → (if p == null then x else y) ≡ y
at_null p x y ne = ground arith

write_items-print :
    (fuel : ℕ) (c : Config) (prev : Ptr) (cells : List Cell)
    → Items c.items prev cells
    → length cells < fuel
    → write_items fuel c (first_at cells) ≡ ok (print_items (entries cells))
unfolding write_items
write_items-print zero c prev cells i h = absurd (omega arith)
write_items-print (suc fuel) c prev [] i h = refl
write_items-print (suc fuel) c prev (x ∷ xs) (ne, e, out, i) h =
    at_null x.at _ _ ne
    ∙ rw
        (
          load_item-eq_ok c x.at (item_of prev (first_at xs) x) ne e,
          write_items-print fuel c x.at xs i (omega arith),
        )
        refl

write_sections-print :
    (fuel most : ℕ) (c : Config) (ss : List Place)
    → Sections c most ss
    → most + count ss < fuel
    → write_sections fuel c (first_place ss) ≡ ok (print (contents ss))
unfolding write_sections
write_sections-print zero most c ss i h = absurd (omega arith)
write_sections-print (suc fuel) most c [] i h = refl
write_sections-print (suc fuel) most c (s ∷ ss) (ne, e, i, le, rest) h =
    at_null s.at _ _ ne
    ∙ rw
        (
          load_section-eq_ok c s.at _ ne e,
          write_items-print fuel c null s.cells i (omega arith),
          write_sections-print fuel most c ss rest (omega arith),
        )
        refl

-- With fuel for the sections and the items of each, `uf_conf_write` returns a file in which, behind
-- the four lines of the header that are ignored, `uf_conf_open` reads the name of each section and
-- then the key and value of each of its items, in order, where these can be expressed: a name of one
-- line, a key and value without newline, `:`, `=` and `]`, a key that does not begin with a space, `#`
-- or `;` and a value that does not begin with a space, or a comment without a value, each within the
-- buffer of a line.
pub uf_conf_write-read_line :
    (fuel most : ℕ) (c : Config) (ss : List Place)
    → Sections c most ss
    → c.first ≡ first_place ss
    → most + count ss < fuel
    → IsPrintable (contents ss)
    → Returns
        (λ text.
          map read_line (lines_from [] text)
          ≡ ignored ∷ ignored ∷ ignored ∷ ignored ∷ said (contents ss))
        (uf_conf_write fuel c)
unfolding uf_conf_write
uf_conf_write-read_line fuel most c ss i e h ok_contents =
    let printed = ap (write_sections fuel c) e ∙ write_sections-print fuel most c ss i h in
    rw printed (returns (meaning-file (contents ss) ok_contents))
