-- ===== src/Config/File.antt =====
-- `uf_conf_write` and `uf_conf_open` of g15daemon-wip/g15daemon/utility_funcs.c. A file is its text,
-- which holds no NUL; `none` stands for a file that cannot be read.
pub mod RoundTrip
pub mod Print
use g15daemon.Prelude.{
  ℕ, zero, suc, ◌+◌, ◌-◌, Bool, false, ◌&&◌, ◌||◌, ◌==◌, ◌!=◌, leb, if◌then◌else◌, Option, none,
  some, List, [], ◌∷◌, ◌++◌, Run, ok, fault, out_of_fuel, ◌>>=◌,
}
use g15daemon.Daemon.{Ptr, null}
use g15daemon.Text.{
  Text, codes, occurs, skip_space, skip_delims, token, behind, length, take, tail, lines_from,
}
use g15daemon.Config.Heap.{Config, Item, Section, load_item, load_section}
use g15daemon.Config.{Status, done, missing, g15daemon_cfg_load_section, g15daemon_cfg_write_string}

-- `snprintf(line, 1024, ...)`
abbrev pub cut : Text → Text
cut = take 1023

abbrev pub header : Text
header =
    codes
      "# G15Daemon Configuration File\n# any items entered before a [section] header\n# will be in the Global config space\n# comments you wish to keep should start with a semicolon';'\n"

-- The line of an item: a comment is its key alone.
abbrev pub is_comment : Text → Bool
is_comment [] = false
is_comment (c ∷ cs) = c == 59

unfoldable pub item_line : (key value : Text) → Text
item_line key value =
    if is_comment key then cut (key ++ (10 ∷ [])) else cut (key ++ (58 ∷ 32 ∷ (value ++ (10 ∷ []))))

unfoldable pub section_line : (sectionname : Text) → Text
section_line sectionname = cut (10 ∷ 91 ∷ (sectionname ++ (93 ∷ 10 ∷ [])))

pub write_items : (fuel : ℕ) → Config → Ptr → Run Text
write_items zero c p = out_of_fuel
write_items (suc fuel) c p =
    let more = (do
      i ← load_item c p
      rest ← write_items fuel c i.next
      ok (item_line i.key i.value ++ rest)) in
    if p == null then ok [] else more

pub write_sections : (fuel : ℕ) → Config → Ptr → Run Text
write_sections zero c p = out_of_fuel
write_sections (suc fuel) c p =
    let more = (do
      s ← load_section c p
      items ← write_items fuel c s.items
      rest ← write_sections fuel c s.next
      ok (section_line s.sectionname ++ (items ++ rest))) in
    if p == null then ok [] else more

-- The text of the file that is written.
pub uf_conf_write : (fuel : ℕ) → Config → Run Text
uf_conf_write fuel c = do rest ← write_sections fuel c c.first; ok (header ++ rest)

-- What a line says. A title that does not fit the buffer of 1024 bytes is `unfit`.
pub data Line : Type 0 where
  ignored unfit : Line
  title : Text → Line
  entry : (key val : Text) → Line

-- `:` and `=`
abbrev pub is_delim : ℕ → Bool
is_delim c = (c == 58) || (c == 61)

-- `uf_remove_whitespace`: NULL, which `strtok_r` returns at the end, becomes the empty string.
abbrev pub uf_remove_whitespace : Text → Text
uf_remove_whitespace str = skip_space str

abbrev pub read_entry : Text → Line
read_entry start =
    let rest = skip_delims is_delim start in
    entry (uf_remove_whitespace (token is_delim rest))
      (uf_remove_whitespace (token is_delim (skip_delims is_delim (behind is_delim rest))))

-- `strncpy(sectiontitle, start+1, strlen(start)-2)`
abbrev pub read_title : Text → Line
read_title start =
    if leb 2 (length start) && leb (length start) 1025
    then title (take (length start - 2) (tail start))
    else unfit

abbrev pub starts_hash : Text → Bool
starts_hash [] = false
starts_hash (c ∷ cs) = c == 35

unfoldable pub read_line : Text → Line
read_line line =
    let start = skip_space line in
    if starts_hash start
    then ignored
    else if occurs 93 start
    then read_title start
    else read_entry start

abbrev pub global_text : Text
global_text = codes "Global"

-- One round of the loop, with two addresses that `g15daemon_xmalloc` may return.
pub open_line :
    (fuel : ℕ) (fresh fresh' : Ptr) → Line → (section : Ptr) → Config → Run (Ptr × Config)
open_line fuel fresh fresh' ignored section c = ok (section, c)
open_line fuel fresh fresh' unfit section c = fault
open_line fuel fresh fresh' (title name) section c = g15daemon_cfg_load_section fuel fresh c name
open_line fuel fresh fresh' (entry key val) section c = do
  r ←
      if section == null
      then g15daemon_cfg_load_section fuel fresh c global_text
      else ok (section, c)
  w ← g15daemon_cfg_write_string fuel fresh' r.1 r.0 key val
  ok (r.0, w.1)

-- The addresses are `alloc n`, `alloc (n + 1)`, ...
pub open_lines :
    (fuel : ℕ) (alloc : ℕ → Ptr) (n : ℕ) → List Text → (section : Ptr) → Config → Run Config
open_lines fuel alloc n [] section c = ok c
open_lines fuel alloc n (l ∷ ls) section c = do
  r ← open_line fuel (alloc n) (alloc (n + 1)) (read_line l) section c
  open_lines fuel alloc (n + 2) ls r.0 r.1

abbrev pub empty_config : Config
empty_config = record { items = λ _. none; sections = λ _. none; first = null }

pub uf_conf_open : (fuel : ℕ) (alloc : ℕ → Ptr) → (file : Option Text) → Run (Status × Config)
uf_conf_open fuel alloc none = ok (missing, empty_config)
uf_conf_open fuel alloc (some file) = do
  c ← open_lines fuel alloc 0 (lines_from [] file) null empty_config
  ok (done, c)
