-- ===== src/Transfer/Receive.antt =====
-- A buffer is received whole, unless a round ends the loop, while the client's requests are handled.
use mathlib.Core.List.{append_assoc}
use g15daemon.Prelude.{
  ℕ, zero, suc, ◌≢◌, ◌+◌, ◌-◌, ◌≤◌, ◌<◌, ◌≡◌, ◌⊎◌, refl, sym, ap, ◌∙◌, Bool, true, false, ◌&&◌,
  ◌||◌, not, ◌==◌, ltb, if◌then◌else◌, List, [], ◌∷◌, ◌++◌, arith, ok, Returns, returns,
  Returns-bind, Returns-mono, Bool-cases, inl, inr, lt_of_ltb, eq_of_==,
}
use g15daemon.Text.{Text, length, take, drop}
use g15daemon.Text.Laws.{length-append, take-append-drop, length-take-le}
use g15daemon.Daemon.{Ptr, Daemon}
use g15daemon.LinkedLists.Ring.{has, IsRing}
use g15daemon.Requests.{Reply}
use g15daemon.Requests.Edit.{Returnable}
use g15daemon.Requests.Outcome.{takes_keys, process_client_cmds-Kept}
use g15daemon.Transfer.{
  RecvTurn, leaving, quiet, urgent, urgent_end, ready, Received, received, least, recv_loop,
  g15_recv,
}

abbrev pub is_moving : RecvTurn → Bool
is_moving leaving = false
is_moving quiet = false
is_moving (urgent bad word) = false
is_moving urgent_end = false
is_moving (ready readable bad n) = readable && (not bad && ltb 0 n)

-- A round behind which the loop ends: the program is leaving, the socket has an error, or nothing is
-- there to be read.
abbrev pub is_ending : RecvTurn → Bool
is_ending leaving = true
is_ending quiet = false
is_ending (urgent bad word) = bad
is_ending urgent_end = true
is_ending (ready readable bad n) = bad || (n == 0)

-- A request to handle the keys.
abbrev pub is_takeover : RecvTurn → Bool
is_takeover leaving = false
is_takeover quiet = false
is_takeover (urgent bad word) = takes_keys word
is_takeover urgent_end = false
is_takeover (ready readable bad n) = false

abbrev pub some_turn : (RecvTurn → Bool) → List RecvTurn → Bool
some_turn p [] = false
some_turn p (t ∷ ts) = p t || some_turn p ts

abbrev pub count : List RecvTurn → ℕ
count [] = 0
count (t ∷ ts) = (if is_moving t then 1 else 0) + count ts

or_false : (a b : Bool) → (a || b) ≡ false → (a ≡ false) × (b ≡ false)
or_false a b h = (ground arith, ground arith)

-- Nothing is taken, although bytes are wanted, only if nothing is given.
ends : (n k len : ℕ) → k < len → least n (len - k) ≡ 0 → (n == 0) ≡ true
ends n k len lt e = ground arith

-- The buffer holds the first bytes of the stream, and all that were asked for unless a round ended the
-- loop; the list is well formed.
pub record Outcome (node : Ptr) (xs : List Ptr) (turns : List RecvTurn) (len : ℕ) (stream : Text)
    (r : Received) : Type 0 where
  pub rest : Text
  pub in_order : stream ≡ r.buf ++ rest
  pub most : length r.buf ≤ len
  pub whole : (length r.buf ≡ len) ⊎ (some_turn is_ending turns ≡ true)
  pub ring : IsRing r.daemon xs
  pub returnable : Returnable node xs r.daemon

-- The same of a client that may send less.
pub record Progress (node : Ptr) (xs : List Ptr) (turns : List RecvTurn) (len : ℕ) (stream : Text)
    (r : Received) : Type 0 where
  pub rest : Text
  pub in_order : stream ≡ r.buf ++ rest
  pub most : length r.buf ≤ len
  pub whole : (length r.buf ≡ len) ⊎ ((some_turn is_ending turns ≡ true) ⊎ (rest ≡ []))
  pub ring : IsRing r.daemon xs
  pub returnable : Returnable node xs r.daemon

whole_cons :
    (t : RecvTurn) (ts : List RecvTurn) (buf rest : Text) {len : ℕ}
    → (length buf ≡ len) ⊎ ((some_turn is_ending ts ≡ true) ⊎ (rest ≡ []))
    → (length buf ≡ len) ⊎ ((some_turn is_ending (t ∷ ts) ≡ true) ⊎ (rest ≡ []))
whole_cons t ts buf rest (inl e) = inl e
whole_cons t ts buf rest (inr (inl e)) = inr (inl (ground (arith, e)))
whole_cons t ts buf rest (inr (inr e)) = inr (inr e)

take_none : (n c : ℕ) (cs : Text) → length (take n (c ∷ cs)) ≡ 0 → n ≡ 0
take_none zero c cs e = refl
take_none (suc n) c cs e = absurd (omega arith)

-- Nothing comes: the round gives nothing, or all has been read.
nothing_left :
    (n len : ℕ) (buf incoming : Text) (ts : List RecvTurn)
    → length buf < len
    → length (take (least n (len - length buf)) incoming) ≡ 0
    → (some_turn is_ending (ready true false n ∷ ts) ≡ true) ⊎ (incoming ≡ [])
nothing_left n len buf [] ts lt e = inr refl
nothing_left n len buf (c ∷ cs) ts lt e =
    let none : least n (len - length buf) ≡ 0 = take_none (least n (len - length buf)) c cs e in
    inl (rw (ends n (length buf) len lt none) refl)

module _ (node : Ptr) (xs : List Ptr) (member : has node xs ≡ true) (len : ℕ) (stream : Text) where
  Progress-cons :
      (t : RecvTurn) (ts : List RecvTurn) (r : Received)
      → Progress node xs ts len stream r
      → Progress node xs (t ∷ ts) len stream r
  Progress-cons t ts r o = record {
    rest = o.rest;
    in_order = o.in_order;
    most = o.most;
    whole = whole_cons t ts r.buf o.rest o.whole;
    ring = o.ring;
    returnable = o.returnable;
  }

  -- The loop ends with what has been read.
  stop :
      (turns : List RecvTurn) (buf incoming : Text) (replies : List Reply) (d : Daemon)
      → stream ≡ buf ++ incoming
      → length buf ≤ len
      → (length buf ≡ len) ⊎ ((some_turn is_ending turns ≡ true) ⊎ (incoming ≡ []))
      → IsRing d xs
      → Returnable node xs d
      → Returns (Progress node xs turns len stream) (ok (received buf replies d))
  stop turns buf incoming replies d e le w r b =
      returns
        (record { rest = incoming; in_order = e; most = le; whole = w; ring = r; returnable = b })

  grown-le :
      (buf incoming : Text) (n : ℕ)
      → length buf ≤ len
      → length (buf ++ take (least n (len - length buf)) incoming) ≤ len
  grown-le buf incoming n le =
      let retval = least n (len - length buf) in
      let short : retval ≤ len - length buf = ground arith in
      omega (arith, length-append buf (take retval incoming), length-take-le retval incoming)

  grown-count :
      (buf got : Text) (n rounds : ℕ)
      → length got ≢ 0
      → len ≤ length buf + ((if ltb 0 n then 1 else 0) + rounds)
      → len ≤ length (buf ++ got) + rounds
  grown-count buf got n rounds some h = rw (length-append buf got) (ground arith)

  recv_loop-Progress :
      (turns : List RecvTurn) (buf incoming : Text) (replies : List Reply) (d : Daemon)
      → stream ≡ buf ++ incoming
      → length buf ≤ len
      → len ≤ length buf + count turns
      → some_turn is_takeover turns ≡ false
      → IsRing d xs
      → Returnable node xs d
      → Returns
          (Progress node xs turns len stream)
          (recv_loop node turns len buf incoming replies d)
  unfolding recv_loop
  recv_loop-Progress [] buf incoming replies d e le h no_key r b =
      let full : ltb (length buf) len ≡ false = ground arith in
      rw full (stop [] buf incoming replies d e le (inl (omega arith)) r b)
  recv_loop-Progress (leaving ∷ ts) buf incoming replies d e le h no_key r b =
      stop (leaving ∷ ts) buf incoming replies d e le (inr (inl refl)) r b
  recv_loop-Progress (urgent_end ∷ ts) buf incoming replies d e le h no_key r b =
      stop (urgent_end ∷ ts) buf incoming replies d e le (inr (inl refl)) r b
  recv_loop-Progress (quiet ∷ ts) buf incoming replies d e le h no_key r b =
      elim (Bool-cases (ltb (length buf) len)) [
        | inl more ↦ rw more (
            Returns-mono
              (recv_loop-Progress ts buf incoming replies d e le (omega arith) no_key r b)
              (Progress-cons quiet ts))
        | inr full ↦
            rw full (stop (quiet ∷ ts) buf incoming replies d e le (inl (ground arith)) r b)
      ]
  recv_loop-Progress (urgent true word ∷ ts) buf incoming replies d e le h no_key r b =
      elim (Bool-cases (ltb (length buf) len)) [
        | inl more ↦
            rw more (stop (urgent true word ∷ ts) buf incoming replies d e le (inr (inl refl)) r b)
        | inr full ↦
            rw full (stop (urgent true word ∷ ts) buf incoming replies d e le (inr (inl refl)) r b)
      ]
  recv_loop-Progress (urgent false word ∷ ts) buf incoming replies d e le h no_key r b =
      elim (Bool-cases (ltb (length buf) len)) [
        | inl more ↦
            let (known, others) = or_false (takes_keys word) (some_turn is_takeover ts) no_key in
            let kept = rw known at (process_client_cmds-Kept node xs d word r member b) in
            rw more (
              Returns-bind kept λ q k.
                Returns-mono
                  (recv_loop-Progress ts buf incoming (replies ++ q.0) q.1 e le (omega arith) others
                    k.ring k.returnable)
                  (Progress-cons (urgent false word) ts))
        | inr full ↦
            rw full
              (stop (urgent false word ∷ ts) buf incoming replies d e le (inl (ground arith)) r b)
      ]
  recv_loop-Progress (ready readable true n ∷ ts) buf incoming replies d e le h no_key r b =
      elim (Bool-cases (ltb (length buf) len)) [
        | inl more ↦
            rw more
              (stop (ready readable true n ∷ ts) buf incoming replies d e le (inr (inl refl)) r b)
        | inr full ↦
            rw full
              (stop (ready readable true n ∷ ts) buf incoming replies d e le (inr (inl refl)) r b)
      ]
  recv_loop-Progress (ready false false n ∷ ts) buf incoming replies d e le h no_key r b =
      elim (Bool-cases (ltb (length buf) len)) [
        | inl more ↦ rw more (
            Returns-mono
              (recv_loop-Progress ts buf incoming replies d e le (omega arith) no_key r b)
              (Progress-cons (ready false false n) ts))
        | inr full ↦
            rw full
              (stop (ready false false n ∷ ts) buf incoming replies d e le (inl (ground arith)) r b)
      ]
  recv_loop-Progress (ready true false n ∷ ts) buf incoming replies d e le h no_key r b =
      let retval = least n (len - length buf) in
      let got = take retval incoming in
      elim (Bool-cases (ltb (length buf) len)) [
        | inl more ↦ elim (Bool-cases (length got == 0)) [
          | inl end ↦
              rw (more, end)
                (stop (ready true false n ∷ ts) buf incoming replies d e le
                  (inr (nothing_left n len buf incoming ts (lt_of_ltb _ _ more) (eq_of_== _ _ end)))
                  r b)
          | inr some_left ↦
              let e' : stream ≡ (buf ++ got) ++ drop retval incoming =
                e
                ∙ ap (λ t. buf ++ t) (sym (take-append-drop retval incoming))
                ∙ sym (append_assoc buf got (drop retval incoming)) in
              let some : length got ≢ 0 = ground (arith, some_left) in
              rw (more, some_left)
                (Returns-mono
                  (recv_loop-Progress ts (buf ++ got) (drop retval incoming) replies d e'
                    (grown-le buf incoming n le) (grown-count buf got n (count ts) some h) no_key r
                    b)
                  (Progress-cons (ready true false n) ts))
        ]
        | inr full ↦
            rw full
              (stop (ready true false n ∷ ts) buf incoming replies d e le (inl (ground arith)) r b)
      ]

-- Where the socket gives a byte in as many rounds, or ends the loop, and no request asks to handle the
-- keys, `g15_recv` returns, also where the client sends less than `len` bytes.
pub g15_recv-Progress :
    (node : Ptr) (xs : List Ptr) (turns : List RecvTurn) (len : ℕ) (stream : Text) (d : Daemon)
    → len ≤ count turns
    → some_turn is_takeover turns ≡ false
    → IsRing d xs
    → has node xs ≡ true
    → Returnable node xs d
    → Returns (Progress node xs turns len stream) (g15_recv node turns len stream d)
unfolding g15_recv
g15_recv-Progress node xs turns len stream d h no_key r member b =
    recv_loop-Progress node xs member len stream turns [] stream [] d refl (omega arith)
      (omega arith) no_key r b

-- Of a stream that is long enough all is received.
whole_stream :
    (node : Ptr) (xs : List Ptr) (turns : List RecvTurn) (len : ℕ) (stream : Text) (r : Received)
    → len ≤ length stream
    → Progress node xs turns len stream r
    → Outcome node xs turns len stream r
whole_stream node xs turns len stream r long p = record {
  rest = p.rest;
  in_order = p.in_order;
  most = p.most;
  whole = whole_of p.whole;
  ring = p.ring;
  returnable = p.returnable;
}
  where
    whole_of :
        (length r.buf ≡ len) ⊎ ((some_turn is_ending turns ≡ true) ⊎ (p.rest ≡ []))
        → (length r.buf ≡ len) ⊎ (some_turn is_ending turns ≡ true)
    whole_of (inl e) = inl e
    whole_of (inr (inl e)) = inr e
    whole_of (inr (inr e)) =
        let all = ap length p.in_order ∙ length-append r.buf p.rest in
        let none = ap length e in inl (omega (arith, p.most, all, none, long))

pub g15_recv-Outcome :
    (node : Ptr) (xs : List Ptr) (turns : List RecvTurn) (len : ℕ) (stream : Text) (d : Daemon)
    → len ≤ length stream
    → len ≤ count turns
    → some_turn is_takeover turns ≡ false
    → IsRing d xs
    → has node xs ≡ true
    → Returnable node xs d
    → Returns (Outcome node xs turns len stream) (g15_recv node turns len stream d)
g15_recv-Outcome node xs turns len stream d long h no_key r member b =
    Returns-mono (g15_recv-Progress node xs turns len stream d h no_key r member b)
      (λ q p. whole_stream node xs turns len stream q long p)
