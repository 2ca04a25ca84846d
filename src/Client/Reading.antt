-- ===== src/Client/Reading.antt =====
-- The loop of the `g15_recv` of the client library.
use mathlib.Core.List.{append_assoc}
use g15daemon.Prelude.{
  ℕ, ◌+◌, ◌-◌, ◌≤◌, ◌<◌, ◌≡◌, inl, inr, refl, sym, ap, ◌∙◌, subst, Bool, true, false, ◌&&◌, ◌||◌,
  not, ◌==◌, ltb, if◌then◌else◌, List, [], ◌∷◌, ◌++◌, arith, ok, Returns, returns, Bool-cases,
  lt_of_ltb, le_of_ltb,
}
use g15daemon.Text.{Text, length, take, drop}
use g15daemon.Text.Laws.{length-append, take-append, take-append-drop, length-take}
use g15daemon.Transfer.{least}
use g15daemon.Client.Connect.{PollTurn, leaving, quiet, ready, client_recv_loop}

abbrev pub reads : PollTurn → ℕ
reads leaving = 0
reads quiet = 0
reads (ready readable n) = if readable && ltb 0 n then 1 else 0

-- In how many rounds a byte comes.
abbrev pub count : List PollTurn → ℕ
count [] = 0
count (t ∷ ts) = reads t + count ts

abbrev pub goes_on : PollTurn → Bool
goes_on leaving = false
goes_on quiet = true
goes_on (ready readable n) = not readable || ltb 0 n

-- No round in which the program leaves or `recv` gives nothing.
abbrev pub all_go_on : List PollTurn → Bool
all_go_on [] = true
all_go_on (t ∷ ts) = goes_on t && all_go_on ts

pub same_start : (a b x y : Text) → a ++ x ≡ b ++ y → length a ≡ length b → a ≡ b
same_start a b x y e len =
    sym (take-append a x)
    ∙ (ap (take (length a)) e ∙ (ap (λ n. take n (b ++ y)) len ∙ take-append b y))

-- The first `len` bytes of the stream.
pub record Whole (len : ℕ) (stream r : Text) : Type 0 where
  pub size : length r ≡ len
  pub rest : Text
  pub in_order : stream ≡ r ++ rest

length-parts : (n : ℕ) (a : Text) → length (take n a) ≡ n → length (drop n a) + n ≡ length a
length-parts n a h =
    let parts = length-append (take n a) (drop n a) in
    let whole = ap length (take-append-drop n a) in omega arith

by_one : (n : ℕ) → ltb 0 n ≡ true → reads (ready true n) ≡ 1
by_one n h = rw h refl

stopped :
    (len : ℕ) (buf incoming : Text)
    → length buf ≤ len
    → ltb (length buf) len ≡ false
    → Returns (Whole len (buf ++ incoming)) (ok buf)
stopped len buf incoming le e =
    let full = le_of_ltb (length buf) len e in
    returns (record { size = omega arith; rest = incoming; in_order = refl })

and_true : (a b : Bool) → (a && b) ≡ true → (a ≡ true) × (b ≡ true)
and_true a b h = (ground arith, ground arith)

pub recv_loop-Whole :
    (turns : List PollTurn) (len : ℕ) (buf incoming : Text)
    → len ≤ length buf + length incoming
    → length buf ≤ len
    → len ≤ length buf + count turns
    → all_go_on turns ≡ true
    → Returns (Whole len (buf ++ incoming)) (client_recv_loop turns len buf incoming)
unfolding client_recv_loop
recv_loop-Whole [] len buf incoming long le enough on =
    let full : ltb (length buf) len ≡ false = ground (arith, enough) in
    rw full (stopped len buf incoming le full)
recv_loop-Whole (leaving ∷ ts) len buf incoming long le enough on = absurd (ground (arith, on))
recv_loop-Whole (quiet ∷ ts) len buf incoming long le enough on =
    elim (Bool-cases (ltb (length buf) len)) [
      | inl e ↦ rw e (recv_loop-Whole ts len buf incoming long le (omega (arith, enough)) on)
      | inr e ↦ rw e (stopped len buf incoming le e)
    ]
recv_loop-Whole (ready false n ∷ ts) len buf incoming long le enough on =
    elim (Bool-cases (ltb (length buf) len)) [
      | inl e ↦ rw e (recv_loop-Whole ts len buf incoming long le (omega (arith, enough)) on)
      | inr e ↦ rw e (stopped len buf incoming le e)
    ]
recv_loop-Whole (ready true n ∷ ts) len buf incoming long le enough on =
    elim (Bool-cases (ltb (length buf) len)) [
      | inl e ↦
          let retval = least n (len - length buf) in
          let room = lt_of_ltb (length buf) len e in
          let moves : ltb 0 n ≡ true = (and_true _ _ on).0 in
          let short : retval ≤ len - length buf = ground arith in
          let some : 0 < retval = ground (arith, moves, room) in
          let got = length-take retval incoming (omega arith) in
          let went : (length (take retval incoming) == 0) ≡ false = ground (arith, got, some) in
          let grown = length-append buf (take retval incoming) in
          let left : length (drop retval incoming) + retval ≡ length incoming =
            length-parts retval incoming got in
          let joined : (buf ++ take retval incoming) ++ drop retval incoming ≡ buf ++ incoming =
            append_assoc buf (take retval incoming) (drop retval incoming)
            ∙ ap (λ x. buf ++ x) (take-append-drop retval incoming) in
          rw (e, went)
            (subst
              (λ s.
                Returns (Whole len s)
                  (client_recv_loop ts len (buf ++ take retval incoming) (drop retval incoming)))
              joined
              (recv_loop-Whole ts len (buf ++ take retval incoming) (drop retval incoming)
                (omega arith) (omega arith)
                (omega (arith, enough, by_one n moves, grown, got, some)) (and_true _ _ on).1))
      | inr e ↦ rw e (stopped len buf incoming le e)
    ]
