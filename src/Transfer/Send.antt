-- ===== src/Transfer/Send.antt =====
-- A buffer is sent whole, unless a round fails or the program is leaving.
use g15daemon.Prelude.{
  ℕ, ◌+◌, ◌-◌, ◌≤◌, ◌<◌, ◌≡◌, ◌⊎◌, refl, Bool, true, false, ◌&&◌, ◌||◌, not, ltb, if◌then◌else◌,
  List, [], ◌∷◌, arith, Returns, returns, Returns-mono, Bool-cases, inl, inr,
}
use g15daemon.Text.{Text, length}
use g15daemon.Transfer.{
  Accept, failed, accepts, SendTurn, leaving, quiet, ready, Step, again, error, moves, least,
  daemon_round, client_round, Sent, Round, continue, send_loop, g15_send, client_g15_send,
}

-- A round in which the socket takes at least one byte.
abbrev pub takes_some : (writable bad : Bool) → Accept → Bool
takes_some writable bad failed = false
takes_some writable bad (accepts n) = writable && (not bad && ltb 0 n)

abbrev pub is_moving : SendTurn → Bool
is_moving leaving = false
is_moving quiet = false
is_moving (ready writable bad a) = takes_some writable bad a

-- A round in which `send` fails or the socket has an error.
abbrev pub fails : (bad : Bool) → Accept → Bool
fails bad failed = true
fails bad (accepts n) = bad

abbrev pub is_failing : SendTurn → Bool
is_failing leaving = false
is_failing quiet = false
is_failing (ready writable bad a) = fails bad a

abbrev pub is_leaving : SendTurn → Bool
is_leaving leaving = true
is_leaving quiet = false
is_leaving (ready writable bad a) = false

abbrev pub some_turn : (SendTurn → Bool) → List SendTurn → Bool
some_turn p [] = false
some_turn p (t ∷ ts) = p t || some_turn p ts

abbrev pub count : List SendTurn → ℕ
count [] = 0
count (t ∷ ts) = (if is_moving t then 1 else 0) + count ts

-- All bytes and 0; or -1, where a round failed; or fewer bytes and 0, where the program was leaving.
abbrev pub Outcome : List SendTurn → (len : ℕ) → Sent → Type 0
Outcome turns len r =
    (r.total ≤ len)
    × (((r.total ≡ len) × (r.is_error ≡ false))
        ⊎ (((r.is_error ≡ true) × (some_turn is_failing turns ≡ true))
            ⊎ ((r.is_error ≡ false) × (some_turn is_leaving turns ≡ true))))

-- What a round may do.
abbrev Allowed : (writable bad : Bool) → Accept → (bytesleft : ℕ) → Step → Type 0
Allowed writable bad a bytesleft again = takes_some writable bad a ≡ false
Allowed writable bad a bytesleft error = fails bad a ≡ true
Allowed writable bad a bytesleft (moves n) =
    (n ≤ bytesleft) × ((if takes_some writable bad a then least 1 bytesleft else 0) ≤ n)

abbrev IsLawful : Round → Type 0
IsLawful round =
    (writable bad : Bool) (a : Accept) (bytesleft : ℕ)
    → Allowed writable bad a bytesleft (round writable bad a bytesleft)

daemon_round-IsLawful : IsLawful daemon_round
unfolding daemon_round
daemon_round-IsLawful true true failed left = refl
daemon_round-IsLawful true true (accepts n) left = refl
daemon_round-IsLawful true false failed left = refl
daemon_round-IsLawful true false (accepts n) left = ground arith
daemon_round-IsLawful false true failed left = refl
daemon_round-IsLawful false true (accepts n) left = refl
daemon_round-IsLawful false false failed left = refl
daemon_round-IsLawful false false (accepts n) left = refl

client_round-IsLawful : IsLawful client_round
unfolding client_round
client_round-IsLawful true true failed left = refl
client_round-IsLawful true true (accepts n) left = ground arith
client_round-IsLawful true false failed left = refl
client_round-IsLawful true false (accepts n) left = ground arith
client_round-IsLawful false true failed left = refl
client_round-IsLawful false true (accepts n) left = refl
client_round-IsLawful false false failed left = refl
client_round-IsLawful false false (accepts n) left = refl

Outcome-cons :
    (t : SendTurn) (ts : List SendTurn) (len : ℕ) (r : Sent)
    → Outcome ts len r
    → Outcome (t ∷ ts) len r
Outcome-cons t ts len r o = ground arith

module _ (round : Round) (lawful : IsLawful round) (len : ℕ) where
  -- The loop behind a round, given the loop for the other turns.
  step-Outcome :
      (writable bad : Bool) (a : Accept) (ts : List SendTurn) (total : ℕ) (s : Step)
      → total < len
      → len ≤ total + count (ready writable bad a ∷ ts)
      → Allowed writable bad a (len - total) s
      → ((t : ℕ)
          → t ≤ len
          → len ≤ t + count ts
          → Returns (Outcome ts len) (send_loop round ts len t))
      → Returns
          (Outcome (ready writable bad a ∷ ts) len)
          (continue s total (send_loop round ts len))
  step-Outcome writable bad a ts total again lt h allowed rest =
      Returns-mono (rest total (omega arith) (ground arith))
        (Outcome-cons (ready writable bad a) ts len)
  step-Outcome writable bad a ts total error lt h allowed rest =
      returns (ground arith, inr (inl (refl, ground arith)))
  step-Outcome writable bad a ts total (moves n) lt h (le, enough) rest =
      Returns-mono (rest (total + n) (omega arith) (ground arith))
        (Outcome-cons (ready writable bad a) ts len)

  send_loop-Outcome :
      (turns : List SendTurn) (total : ℕ)
      → total ≤ len
      → len ≤ total + count turns
      → Returns (Outcome turns len) (send_loop round turns len total)
  unfolding send_loop
  send_loop-Outcome [] total le h =
      let e : ltb total len ≡ false = ground arith in rw e (returns (le, inl (omega arith, refl)))
  send_loop-Outcome (leaving ∷ ts) total le h = returns (le, inr (inr (refl, refl)))
  send_loop-Outcome (quiet ∷ ts) total le h = elim (Bool-cases (ltb total len)) [
    | inl e ↦
        rw e
          (Returns-mono (send_loop-Outcome ts total le (omega arith)) (Outcome-cons quiet ts len))
    | inr e ↦ rw e (returns (le, inl (ground arith, refl)))
  ]
  send_loop-Outcome (ready writable bad a ∷ ts) total le h = elim (Bool-cases (ltb total len)) [
    | inl e ↦ rw e (
        step-Outcome writable bad a ts total (round writable bad a (len - total)) (ground arith) h
          (lawful writable bad a (len - total)) (λ t le' h'. send_loop-Outcome ts t le' h'))
    | inr e ↦ rw e (returns (le, inl (ground arith, refl)))
  ]

-- If the socket takes a byte in as many rounds as there are bytes, `g15_send` of the daemon returns:
-- 0 and the whole buffer is sent; or -1, and a round failed; or 0 with a part of the buffer, and the
-- program was leaving.
pub g15_send-Outcome :
    (turns : List SendTurn) (buf : Text)
    → length buf ≤ count turns
    → Returns (Outcome turns (length buf)) (g15_send turns buf)
unfolding g15_send
g15_send-Outcome turns buf h =
    send_loop-Outcome daemon_round daemon_round-IsLawful (length buf) turns 0 (omega arith)
      (omega arith)

-- The same holds of the `g15_send` of the client library.
pub client_g15_send-Outcome :
    (turns : List SendTurn) (buf : Text)
    → length buf ≤ count turns
    → Returns (Outcome turns (length buf)) (client_g15_send turns buf)
unfolding client_g15_send
client_g15_send-Outcome turns buf h =
    send_loop-Outcome client_round client_round-IsLawful (length buf) turns 0 (omega arith)
      (omega arith)
