-- ===== src/Config/File/RoundTrip.antt =====
-- Each line of a file that is printed says what was printed there.
use mathlib.Core.List.{append_assoc}
use g15daemon.Prelude.{
  ℕ, ◌+◌, ◌-◌, ◌≤◌, ◌≡◌, ◌≢◌, refl, sym, ap, subst, ◌∙◌, Bool, true, false, ◌||◌, ◌==◌, leb, List,
  [], ◌∷◌, ◌++◌, map, arith,
}
use g15daemon.Text.{
  Text, isspace, occurs, skip_space, skip_delims, token, length, has_byte, lines_from,
}
use g15daemon.Text.Laws.{
  token-append, behind-append, token_all, behind_all, length-append, take_all, take-append,
  has_byte-append, lines_from-append, skip_space-cons, skip_delims-cons,
}
use g15daemon.Config.File.{
  header, item_line, section_line, Line, ignored, title, entry, is_delim, read_title, read_entry,
  read_line,
}

-- The bytes that a key or value loses or that end its line.
abbrev pub special : ℕ → Bool
special c = (c == 10) || ((c == 58) || ((c == 61) || (c == 93)))

-- A key and a value that the format can express: a comment has no value.
pub data IsItem : (key value : Text) → Type 0 where
  plain :
      {c : ℕ} {cs value : Text}
      → isspace c ≡ false
      → c ≢ 35
      → c ≢ 59
      → has_byte special (c ∷ cs) ≡ false
      → has_byte special value ≡ false
      → skip_space value ≡ value
      → length cs + length value ≤ 1019
      → IsItem (c ∷ cs) value
  comment :
      {c : ℕ} {cs : Text}
      → c ≡ 59
      → has_byte special cs ≡ false
      → length cs ≤ 1021
      → IsItem (c ∷ cs) []

pub record IsName (name : Text) : Type 0 where
  pub one_line : has_byte (λ c. c == 10) name ≡ false
  pub fits : length name ≤ 1019

not_newline : (a : Text) → has_byte special a ≡ false → has_byte (λ c. c == 10) a ≡ false
not_newline [] h = refl
not_newline (c ∷ cs) h = ground (arith, not_newline cs)

not_delim : (a : Text) → has_byte special a ≡ false → has_byte is_delim a ≡ false
not_delim [] h = refl
not_delim (c ∷ cs) h = ground (arith, not_delim cs)

not_bracket : (a : Text) → has_byte special a ≡ false → occurs 93 a ≡ false
not_bracket [] h = refl
not_bracket (c ∷ cs) h = ground (arith, not_bracket cs)

occurs-append : (c : ℕ) (a b : Text) → occurs c (a ++ b) ≡ (occurs c a || occurs c b)
occurs-append c [] b = refl
occurs-append c (d ∷ ds) b = ground (arith, occurs-append c ds b)

-- A line in front of the others.
abbrev pub meaning : Text → List Line
meaning text = map read_line (lines_from [] text)

meaning-cons :
    (c : ℕ) (line rest : Text)
    → has_byte (λ c. c == 10) (c ∷ line) ≡ false
    → meaning ((c ∷ line) ++ (10 ∷ rest)) ≡ read_line (c ∷ line) ∷ meaning rest
meaning-cons c line rest h = ap (map read_line) (lines_from-append [] (c ∷ line) rest h)

read_line-read_entry :
    (c : ℕ) (cs : Text)
    → isspace c ≡ false
    → c ≢ 35
    → occurs 93 (c ∷ cs) ≡ false
    → read_line (c ∷ cs) ≡ read_entry (c ∷ cs)
unfolding read_line
read_line-read_entry c cs space hash bracket =
    let mark : (c == 35) ≡ false = ground arith in
    rw (skip_space-cons c cs space, mark, bracket) refl

-- The key ends at the colon, and the value at the end of the line.
read_entry-plain :
    (c : ℕ) (cs value : Text)
    → isspace c ≡ false
    → has_byte is_delim (c ∷ cs) ≡ false
    → has_byte is_delim value ≡ false
    → read_entry ((c ∷ cs) ++ (58 ∷ 32 ∷ value)) ≡ entry (c ∷ cs) (skip_space value)
read_entry-plain c cs value space key_ok value_ok =
    let front : is_delim c ≡ false = ground arith in
    rw
      (
        skip_delims-cons is_delim c (cs ++ (58 ∷ 32 ∷ value)) front,
        token-append is_delim (c ∷ cs) 58 (32 ∷ value) key_ok refl,
        behind-append is_delim (c ∷ cs) 58 (32 ∷ value) key_ok refl,
        skip_delims-cons is_delim 32 value refl,
        token_all is_delim (32 ∷ value) value_ok,
        skip_space-cons c cs space,
      )
      (unfold skip_space in refl)

read_entry_all :
    (c : ℕ) (cs : Text)
    → isspace c ≡ false
    → has_byte is_delim (c ∷ cs) ≡ false
    → read_entry (c ∷ cs) ≡ entry (c ∷ cs) []
read_entry_all c cs space ok =
    let front : is_delim c ≡ false = ground arith in
    rw
      (
        skip_delims-cons is_delim c cs front,
        token_all is_delim (c ∷ cs) ok,
        behind_all is_delim (c ∷ cs) ok,
        skip_space-cons c cs space,
      )
      (unfold skip_delims token skip_space in refl)

read_line-plain :
    (c : ℕ) (cs value : Text)
    → isspace c ≡ false
    → c ≢ 35
    → has_byte special (c ∷ cs) ≡ false
    → has_byte special value ≡ false
    → skip_space value ≡ value
    → read_line ((c ∷ cs) ++ (58 ∷ 32 ∷ value)) ≡ entry (c ∷ cs) value
read_line-plain c cs value space hash key_ok value_ok trimmed =
    let bracket : occurs 93 ((c ∷ cs) ++ (58 ∷ 32 ∷ value)) ≡ false =
      occurs-append 93 (c ∷ cs) (58 ∷ 32 ∷ value)
      ∙ rw (not_bracket (c ∷ cs) key_ok) (not_bracket value value_ok) in
    read_line-read_entry c (cs ++ (58 ∷ 32 ∷ value)) space hash bracket
    ∙ read_entry-plain c cs value space (not_delim (c ∷ cs) key_ok) (not_delim value value_ok)
    ∙ ap (entry (c ∷ cs)) trimmed

read_line-comment :
    (cs : Text) → has_byte special cs ≡ false → read_line (59 ∷ cs) ≡ entry (59 ∷ cs) []
read_line-comment cs ok =
    read_line-read_entry 59 cs refl (omega arith) (not_bracket cs ok)
    ∙ read_entry_all 59 cs refl (not_delim cs ok)

-- The text between the brackets.
read_title-name :
    (name : Text) → length name ≤ 1019 → read_title (91 ∷ (name ++ (93 ∷ []))) ≡ title name
read_title-name name fits =
    let e : length (name ++ (93 ∷ [])) ≡ length name + 1 = length-append name (93 ∷ []) in
    let low : leb 2 (length name + 1 + 1) ≡ true = ground arith in
    let high : leb (length name + 1 + 1) 1025 ≡ true = ground arith in
    let cut_at : length name + 1 + 1 - 2 ≡ length name = omega arith in
    rw (e, low, high, cut_at) (ap title (take-append name (93 ∷ [])))

read_line-title :
    (name : Text) → length name ≤ 1019 → read_line (91 ∷ (name ++ (93 ∷ []))) ≡ title name
unfolding read_line
read_line-title name fits =
    let bracket : occurs 93 (name ++ (93 ∷ [])) ≡ true =
      occurs-append 93 name (93 ∷ []) ∙ ground arith in
    rw (skip_space-cons 91 (name ++ (93 ∷ [])) refl, bracket) (read_title-name name fits)

item_line-plain :
    (c : ℕ) (cs value rest : Text)
    → c ≢ 59
    → length cs + length value ≤ 1019
    → item_line (c ∷ cs) value ++ rest ≡ ((c ∷ cs) ++ (58 ∷ 32 ∷ value)) ++ (10 ∷ rest)
unfolding item_line
item_line-plain c cs value rest ne fits =
    let other : (c == 59) ≡ false = ground arith in
    let short : length ((c ∷ cs) ++ (58 ∷ 32 ∷ (value ++ (10 ∷ [])))) ≤ 1023 =
      omega
        (arith, length-append cs (58 ∷ 32 ∷ (value ++ (10 ∷ []))), length-append value (10 ∷ [])) in
    rw other (
      ap (λ t. t ++ rest) (take_all 1023 ((c ∷ cs) ++ (58 ∷ 32 ∷ (value ++ (10 ∷ [])))) short)
      ∙ simp append_assoc)

item_line-comment :
    (cs rest : Text) → length cs ≤ 1021 → item_line (59 ∷ cs) [] ++ rest ≡ (59 ∷ cs) ++ (10 ∷ rest)
unfolding item_line
item_line-comment cs rest fits =
    let short : length ((59 ∷ cs) ++ (10 ∷ [])) ≤ 1023 =
      omega (arith, length-append cs (10 ∷ [])) in
    ap (λ t. t ++ rest) (take_all 1023 ((59 ∷ cs) ++ (10 ∷ [])) short) ∙ simp append_assoc

section_line-eq :
    (name rest : Text)
    → length name ≤ 1019
    → section_line name ++ rest ≡ 10 ∷ ((91 ∷ (name ++ (93 ∷ []))) ++ (10 ∷ rest))
unfolding section_line
section_line-eq name rest fits =
    let short : length (10 ∷ 91 ∷ (name ++ (93 ∷ 10 ∷ []))) ≤ 1023 =
      omega (arith, length-append name (93 ∷ 10 ∷ [])) in
    ap (λ t. t ++ rest) (take_all 1023 (10 ∷ 91 ∷ (name ++ (93 ∷ 10 ∷ []))) short)
    ∙ simp append_assoc

meaning-item :
    {key value : Text} (rest : Text)
    → IsItem key value
    → meaning (item_line key value ++ rest) ≡ entry key value ∷ meaning rest
meaning-item rest (plain {c} {cs} {value} space hash semi key_ok value_ok trimmed fits) =
    ap meaning (item_line-plain c cs value rest semi fits)
    ∙ meaning-cons c (cs ++ (58 ∷ 32 ∷ value)) rest (
        has_byte-append (λ c. c == 10) (c ∷ cs) (58 ∷ 32 ∷ value)
        ∙ rw (not_newline (c ∷ cs) key_ok) (not_newline value value_ok))
    ∙ ap (λ l. l ∷ meaning rest) (read_line-plain c cs value space hash key_ok value_ok trimmed)
meaning-item rest (comment {c} {cs} semi ok fits) =
    subst (λ c. meaning (item_line (c ∷ cs) [] ++ rest) ≡ entry (c ∷ cs) [] ∷ meaning rest)
      (sym semi)
      (ap meaning (item_line-comment cs rest fits)
        ∙ meaning-cons 59 cs rest (not_newline cs ok)
        ∙ ap (λ l. l ∷ meaning rest) (read_line-comment cs ok))

meaning_blank : (text : Text) → meaning (10 ∷ text) ≡ meaning text
unfolding lines_from
meaning_blank text = refl

meaning-section :
    (name rest : Text)
    → IsName name
    → meaning (section_line name ++ rest) ≡ title name ∷ meaning rest
meaning-section name rest n =
    ap meaning (section_line-eq name rest n.fits)
    ∙ meaning_blank ((91 ∷ (name ++ (93 ∷ []))) ++ (10 ∷ rest))
    ∙ meaning-cons 91 (name ++ (93 ∷ [])) rest
        (has_byte-append (λ c. c == 10) name (93 ∷ []) ∙ rw n.one_line refl)
    ∙ ap (λ l. l ∷ meaning rest) (read_line-title name n.fits)

meaning-header :
    (rest : Text) → meaning (header ++ rest) ≡ ignored ∷ ignored ∷ ignored ∷ ignored ∷ meaning rest
unfolding lines_from read_line skip_space
meaning-header rest = refl

-- Sections with their items, as they are printed, ...
abbrev pub Contents : Type 0
Contents = List (Text × List (Text × Text))

abbrev pub print_items : List (Text × Text) → Text
print_items [] = []
print_items ((key, value) ∷ es) = item_line key value ++ print_items es

abbrev pub print : Contents → Text
print [] = []
print ((name, es) ∷ secs) = section_line name ++ (print_items es ++ print secs)

-- ... and as they are read.
abbrev pub said_items : List (Text × Text) → List Line → List Line
said_items [] rest = rest
said_items ((key, value) ∷ es) rest = entry key value ∷ said_items es rest

abbrev pub said : Contents → List Line
said [] = []
said ((name, es) ∷ secs) = title name ∷ said_items es (said secs)

abbrev pub AreItems : List (Text × Text) → Type 0
AreItems [] = Unit {0}
AreItems ((key, value) ∷ es) = IsItem key value × AreItems es

abbrev pub IsPrintable : Contents → Type 0
IsPrintable [] = Unit {0}
IsPrintable ((name, es) ∷ secs) = IsName name × AreItems es × IsPrintable secs

meaning-print_items :
    (es : List (Text × Text)) (rest : Text)
    → AreItems es
    → meaning (print_items es ++ rest) ≡ said_items es (meaning rest)
meaning-print_items [] rest ok = refl
meaning-print_items ((key, value) ∷ es) rest (item, ok) =
    ap meaning (append_assoc (item_line key value) (print_items es) rest)
    ∙ meaning-item (print_items es ++ rest) item
    ∙ ap (◌∷◌ (entry key value)) (meaning-print_items es rest ok)

meaning-print : (secs : Contents) → IsPrintable secs → meaning (print secs) ≡ said secs
meaning-print [] ok = unfold lines_from in refl
meaning-print ((name, es) ∷ secs) (n, items, ok) =
    meaning-section name (print_items es ++ print secs) n
    ∙ ap (◌∷◌ (title name))
        (meaning-print_items es (print secs) items ∙ ap (said_items es) (meaning-print secs ok))

-- The four lines of the header are ignored, and each other line says what was printed.
pub meaning-file :
    (secs : Contents)
    → IsPrintable secs
    → meaning (header ++ print secs) ≡ ignored ∷ ignored ∷ ignored ∷ ignored ∷ said secs
meaning-file secs ok =
    meaning-header (print secs)
    ∙ ap (λ ls. ignored ∷ ignored ∷ ignored ∷ ignored ∷ ls) (meaning-print secs ok)
