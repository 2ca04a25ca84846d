-- ===== src/Text/Laws.antt =====
-- Laws of the functions on strings.
use mathlib.Core.List.{append-nil, append_assoc}
use g15daemon.Prelude.{
  ℕ, zero, suc, ◌+◌, ◌≤◌, ◌==◌, ◌≡◌, ◌↔◌, Bool, true, false, ◌||◌, [], ◌∷◌, ◌++◌, refl, arith, ap,
  ◌∙◌,
}
use g15daemon.Text.{
  Text, equal, isspace, skip_space, skip_delims, token, behind, has_byte, length, take, drop, whole,
  lines_from,
}

pub equal_iff : (a b : Text) → (equal a b ≡ true) ↔ (a ≡ b)
unfolding equal
equal_iff [] [] = ground arith
equal_iff [] (y ∷ ys) = ground arith
equal_iff (x ∷ xs) [] = ground arith
equal_iff (x ∷ xs) (y ∷ ys) = ground (arith, equal_iff xs ys)

pub equal_refl : (a : Text) → equal a a ≡ true
equal_refl a = (equal_iff a a).1 refl

-- A token that a delimiter ends.
pub token-append :
    (p : ℕ → Bool) (a : Text) (d : ℕ) (rest : Text)
    → has_byte p a ≡ false
    → p d ≡ true
    → token p (a ++ (d ∷ rest)) ≡ a
unfolding token
token-append p [] d rest h e = rw e refl
token-append p (c ∷ cs) d rest h e = ground (arith, token-append p cs d rest)

pub behind-append :
    (p : ℕ → Bool) (a : Text) (d : ℕ) (rest : Text)
    → has_byte p a ≡ false
    → p d ≡ true
    → behind p (a ++ (d ∷ rest)) ≡ rest
unfolding behind
behind-append p [] d rest h e = rw e refl
behind-append p (c ∷ cs) d rest h e = ground (arith, behind-append p cs d rest)

-- A token that the end of the string ends.
pub token_all : (p : ℕ → Bool) (a : Text) → has_byte p a ≡ false → token p a ≡ a
unfolding token
token_all p [] h = refl
token_all p (c ∷ cs) h = ground (arith, token_all p cs)

pub behind_all : (p : ℕ → Bool) (a : Text) → has_byte p a ≡ false → behind p a ≡ []
unfolding behind
behind_all p [] h = refl
behind_all p (c ∷ cs) h = ground (arith, behind_all p cs)

pub length-append : (a b : Text) → length (a ++ b) ≡ length a + length b
length-append [] b = omega arith
length-append (c ∷ cs) b = omega (arith, length-append cs b)

pub take_all : (n : ℕ) (a : Text) → length a ≤ n → take n a ≡ a
take_all zero [] h = refl
take_all zero (c ∷ cs) h = absurd (omega arith)
take_all (suc n) [] h = refl
take_all (suc n) (c ∷ cs) h = ap (◌∷◌ c) (take_all n cs (omega arith))

pub take-append : (a b : Text) → take (length a) (a ++ b) ≡ a
take-append [] b = refl
take-append (c ∷ cs) b =
    let e : length cs + 1 ≡ suc (length cs) = omega arith in rw e (ap (◌∷◌ c) (take-append cs b))

pub has_byte-append :
    (p : ℕ → Bool) (a b : Text) → has_byte p (a ++ b) ≡ (has_byte p a || has_byte p b)
has_byte-append p [] b = refl
has_byte-append p (c ∷ cs) b = ground (arith, has_byte-append p cs b)

-- A line that a newline ends.
pub lines_from-append :
    (line a rest : Text)
    → has_byte (λ c. c == 10) a ≡ false
    → lines_from line (a ++ (10 ∷ rest)) ≡ whole (line ++ a) ++ lines_from [] rest
unfolding lines_from
lines_from-append line [] rest h = rw append-nil refl
lines_from-append line (c ∷ cs) rest h =
    let next : (c == 10) ≡ false = ground arith in
    rw next (lines_from-append (line ++ (c ∷ [])) cs rest (ground arith) ∙ rw append_assoc refl)

pub skip_space-cons : (c : ℕ) (cs : Text) → isspace c ≡ false → skip_space (c ∷ cs) ≡ c ∷ cs
unfolding skip_space
skip_space-cons c cs h = rw h refl

pub skip_delims-cons :
    (p : ℕ → Bool) (c : ℕ) (cs : Text) → p c ≡ false → skip_delims p (c ∷ cs) ≡ c ∷ cs
unfolding skip_delims
skip_delims-cons p c cs h = rw h refl

pub take-append-drop : (n : ℕ) (a : Text) → take n a ++ drop n a ≡ a
take-append-drop zero a = refl
take-append-drop (suc n) [] = refl
take-append-drop (suc n) (c ∷ cs) = ap (◌∷◌ c) (take-append-drop n cs)

pub length-take : (n : ℕ) (a : Text) → n ≤ length a → length (take n a) ≡ n
length-take zero a h = refl
length-take (suc n) [] h = absurd (omega arith)
length-take (suc n) (c ∷ cs) h = omega (arith, length-take n cs (omega arith))

pub length-take-le : (n : ℕ) (a : Text) → length (take n a) ≤ n
length-take-le zero a = omega arith
length-take-le (suc n) [] = omega arith
length-take-le (suc n) (c ∷ cs) = omega (arith, length-take-le n cs)
