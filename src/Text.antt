-- ===== src/Text.antt =====
-- C strings as lists of bytes, without the NUL at the end, and the functions of the C library that the
-- configuration uses on them.
pub mod Laws
use Prim.Native.Char.{code}
use Prim.Native.String.{String}
use g15daemon.Prelude.{
  ℕ, zero, suc, ◌+◌, Bool, true, false, ◌&&◌, ◌||◌, not, ◌==◌, leb, if◌then◌else◌, List, [], ◌∷◌,
  ◌++◌,
}

abbrev pub Text : Type 0
Text = List ℕ

-- `strcmp(a, b) == 0`
unfoldable pub equal : Text → Text → Bool
equal [] [] = true
equal [] (y ∷ ys) = false
equal (x ∷ xs) [] = false
equal (x ∷ xs) (y ∷ ys) = x == y && equal xs ys

-- `strncmp(a, p, strlen(p)) == 0`
abbrev pub starts_with : (p a : Text) → Bool
starts_with [] a = true
starts_with (x ∷ p) [] = false
starts_with (x ∷ p) (y ∷ a) = x == y && starts_with p a

-- `isspace` of the C locale.
abbrev pub isspace : ℕ → Bool
isspace c = c == 32 || (leb 9 c && leb c 13)

-- `while(isspace(str[z])) z++`
unfoldable pub skip_space : Text → Text
skip_space [] = []
skip_space (c ∷ cs) = let rest = skip_space cs in if isspace c then rest else c ∷ cs

abbrev pub occurs : ℕ → Text → Bool
occurs a [] = false
occurs a (c ∷ cs) = (c == a) || occurs a cs

-- The delimiters of a call of `strtok_r` that stand at the front are passed over, ...
unfoldable pub skip_delims : (is_delim : ℕ → Bool) → Text → Text
skip_delims is_delim [] = []
skip_delims is_delim (c ∷ cs) =
    let rest = skip_delims is_delim cs in if is_delim c then rest else c ∷ cs

-- ... and the token ends before the next one, ...
unfoldable pub token : (is_delim : ℕ → Bool) → Text → Text
token is_delim [] = []
token is_delim (c ∷ cs) = let rest = token is_delim cs in if is_delim c then [] else c ∷ rest

-- ... behind which the next call starts.
unfoldable pub behind : (is_delim : ℕ → Bool) → Text → Text
behind is_delim [] = []
behind is_delim (c ∷ cs) = let rest = behind is_delim cs in if is_delim c then cs else rest

abbrev pub has_byte : (ℕ → Bool) → Text → Bool
has_byte p [] = false
has_byte p (c ∷ cs) = p c || has_byte p cs

abbrev pub codes : String → Text
codes String.[] = []
codes (String.◌∷◌ c s) = code c ∷ codes s

abbrev pub length : Text → ℕ
length [] = 0
length (c ∷ cs) = length cs + 1

abbrev pub take : ℕ → Text → Text
take zero cs = []
take (suc n) [] = []
take (suc n) (c ∷ cs) = c ∷ take n cs

abbrev pub drop : ℕ → Text → Text
drop zero cs = cs
drop (suc n) [] = []
drop (suc n) (c ∷ cs) = drop n cs

abbrev pub tail : Text → Text
tail [] = []
tail (c ∷ cs) = cs

-- The lines that `strtok_r(..., "\n", ...)` gives: those that are not empty; `line` is what has been
-- read of the first.
abbrev pub whole : Text → List Text
whole [] = []
whole (c ∷ cs) = (c ∷ cs) ∷ []

unfoldable pub lines_from : (line : Text) → Text → List Text
lines_from line [] = whole line
lines_from line (c ∷ cs) =
    let ended = whole line ++ lines_from [] cs in
    let more = lines_from (line ++ (c ∷ [])) cs in if c == 10 then ended else more
