-- ===== src/Client/Handshake.antt =====
-- The greeting between the daemon and the client library.
use mathlib.Core.List.{append-nil}
use g15daemon.Prelude.{
  ℕ, ◌≤◌, ◌≡◌, ◌≢◌, ◌⊎◌, inl, inr, refl, sym, ap, ◌∙◌, subst, Bool, true, false, ◌==◌,
  if◌then◌else◌, List, [], ◌∷◌, ◌++◌, arith, Run, Returns, returns, Returns-bind, Returns-mono,
  Bool-cases, ◌>>=◌,
}
use g15daemon.Text.{Text, length, take, equal, codes}
use g15daemon.Text.Laws.{take_all, equal_iff, equal_refl}
use g15daemon.Daemon.{Ptr, Daemon}
use g15daemon.LinkedLists.Ring.{has, IsRing}
use g15daemon.Requests.Edit.{Returnable}
use g15daemon.Transfer.{SendTurn, RecvTurn, Sent, Received, g15_send, g15_recv}
use g15daemon.Transfer.Send
use g15daemon.Transfer.Receive
use g15daemon.Session.{serv_helo}
use g15daemon.Client.Connect.{
  PollTurn, client_g15_recv, c_string, buffer_name, Screen, no_screen, new_g15_screen,
}
use g15daemon.Client.Reading.{count, all_go_on, same_start, recv_loop-Whole}

c_string-le : (a : Text) → length (c_string a) ≤ length a
unfolding c_string
c_string-le [] = omega arith
c_string-le (c ∷ cs) = ground (arith, c_string-le cs)

c_string-full : (a : Text) → length (c_string a) ≡ length a → c_string a ≡ a
unfolding c_string
c_string-full [] h = refl
c_string-full (c ∷ cs) h = elim (Bool-cases (c == 0)) [
  | inl e ↦ absurd (ground (arith, e, h))
  | inr e ↦
      let rest : length (c_string cs) ≡ length cs = ground (arith, e, h) in
      rw e (ap (λ x. c ∷ x) (c_string-full cs rest))
]

is_greeting : (b : Text) → b ≡ serv_helo → equal (c_string b) serv_helo ≡ true
unfolding c_string
is_greeting b same = ap (λ x. equal (c_string x) serv_helo) same ∙ equal_refl serv_helo

-- The screen is opened where the server greets as the daemon does, and the name of the buffer is sent,
-- as far as the rounds allow.
pub data Greeted (turns : List SendTurn) (screentype : ℕ) (incoming : Text) : Screen → Type 0 where
  greeted :
      (rest : Text) (s : Sent)
      → incoming ≡ serv_helo ++ rest
      → Send.Outcome turns 4 s
      → Greeted turns screentype incoming
          (record { opened = true; sent = take s.total (buffer_name screentype) })
  other_server :
      ((rest : Text) → incoming ≢ serv_helo ++ rest) → Greeted turns screentype incoming no_screen

length-buffer_name : (screentype : ℕ) → length (buffer_name screentype) ≡ 4
length-buffer_name screentype = by_type (screentype == 1) (screentype == 2) (screentype == 3)
  where
    by_type :
        (a b c : Bool)
        → length (
            if a
            then codes "TBUF"
            else if b
            then codes "WBUF"
            else if c
            then codes "RBUF"
            else codes "GBUF")
          ≡ 4
    by_type true b c = refl
    by_type false true c = refl
    by_type false false true = refl
    by_type false false false = refl

-- Where the server sends at least 16 bytes and the socket gives and takes enough, the library opens a
-- screen if and only if they begin with the daemon's greeting, and then sends the name of the buffer.
pub new_g15_screen-Greeted :
    (polls : List PollTurn) (turns : List SendTurn) (screentype : ℕ) (incoming : Text)
    → 16 ≤ length incoming
    → 16 ≤ count polls
    → all_go_on polls ≡ true
    → 4 ≤ Send.count turns
    → Returns
        (Greeted turns screentype incoming)
        (new_g15_screen true true polls turns screentype incoming)
unfolding new_g15_screen client_g15_recv
new_g15_screen-Greeted polls turns screentype incoming long enough on room =
    Returns-bind (recv_loop-Whole polls 16 [] incoming (omega arith) (omega arith) (omega arith) on)
      λ buffer w. elim (Bool-cases (equal (c_string buffer) serv_helo)) [
        | inl e ↦
            let same = (equal_iff (c_string buffer) serv_helo).0 e in
            let full = c_string-full buffer (ap length same ∙ sym w.size) in
            let start : incoming ≡ serv_helo ++ w.rest =
              w.in_order ∙ ap (λ x. x ++ w.rest) (sym full ∙ same) in
            let four = length-buffer_name screentype in
            rw e (
              Returns-bind
                (Send.client_g15_send-Outcome turns (buffer_name screentype) (omega arith))
                λ s o.
                  returns (greeted w.rest s start (subst (λ n. Send.Outcome turns n s) four o)))
        | inr e ↦ rw e (
            returns (
              other_server λ rest start.
                let same =
                  same_start buffer serv_helo w.rest rest (sym w.in_order ∙ start) w.size in
                absurd (ground (arith, e, is_greeting buffer same))))
      ]

-- The start of a connection: the daemon greets, the library answers, and the daemon reads the name of
-- the buffer.
unfoldable pub handshake :
    (node : Ptr) (greeting : List SendTurn) (polls : List PollTurn) (turns : List SendTurn)
    (choice : List RecvTurn) (screentype : ℕ)
    → Daemon
    → Run Received
handshake node greeting polls turns choice screentype d = g15_send greeting serv_helo >>= λ s.
    new_g15_screen true true polls turns screentype (take s.total serv_helo) >>= λ c.
    g15_recv node choice 4 c.sent d

-- No round fails and the program is not leaving.
abbrev pub IsSteady : List SendTurn → Type 0
IsSteady turns =
    (Send.some_turn Send.is_failing turns ≡ false) × (Send.some_turn Send.is_leaving turns ≡ false)

all_sent :
    (turns : List SendTurn) (len : ℕ) (s : Sent)
    → IsSteady turns
    → Send.Outcome turns len s
    → s.total ≡ len
all_sent turns len s steady (le, inl o) = o.0
all_sent turns len s steady (le, inr (inl o)) = absurd (ground (arith, steady.0, o.1))
all_sent turns len s steady (le, inr (inr o)) = absurd (ground (arith, steady.1, o.1))

module _ (node : Ptr) (xs : List Ptr) (choice : List RecvTurn)
    (steady : Receive.some_turn Receive.is_ending choice ≡ false) where
  all_received :
      (r : Received)
      → (length r.buf ≡ 4) ⊎ (Receive.some_turn Receive.is_ending choice ≡ true)
      → length r.buf ≡ 4
  all_received r (inl e) = e
  all_received r (inr e) = absurd (ground (arith, e, steady))

  named :
      (r : Received) (name : Text)
      → length name ≡ 4
      → Receive.Outcome node xs choice 4 name r
      → name ≡ r.buf
  named r name four got =
      same_start name r.buf [] got.rest (append-nil name ∙ got.in_order)
        (four ∙ sym (all_received r got.whole))

-- Over a connection without errors and with rounds enough, while no request interrupts, the daemon gets
-- the name of the buffer that the client asks for.
pub handshake-named :
    (node : Ptr) (xs : List Ptr) (greeting : List SendTurn) (polls : List PollTurn)
    (turns : List SendTurn) (choice : List RecvTurn) (screentype : ℕ) (d : Daemon)
    → 16 ≤ Send.count greeting
    → IsSteady greeting
    → 16 ≤ count polls
    → all_go_on polls ≡ true
    → 4 ≤ Send.count turns
    → IsSteady turns
    → 4 ≤ Receive.count choice
    → Receive.some_turn Receive.is_ending choice ≡ false
    → Receive.some_turn Receive.is_takeover choice ≡ false
    → IsRing d xs
    → has node xs ≡ true
    → Returnable node xs d
    → Returns
        (λ r. (r.buf ≡ buffer_name screentype) × IsRing r.daemon xs)
        (handshake node greeting polls turns choice screentype d)
unfolding handshake
handshake-named node xs greeting polls turns choice screentype d g1 g2 p1 p2 t1 t2 c1 c2 c3 ring
      member back =
    Returns-bind (Send.g15_send-Outcome greeting serv_helo g1) λ s o.
      rw (all_sent greeting 16 s g2 o) (
        Returns-bind
          (new_g15_screen-Greeted polls turns screentype serv_helo (omega arith) p1 p2 t1)
          λ c answer. answered c answer)
  where
    answered :
        (c : Screen)
        → Greeted turns screentype serv_helo c
        → Returns
            (λ r. (r.buf ≡ buffer_name screentype) × IsRing r.daemon xs)
            (g15_recv node choice 4 c.sent d)
    answered c (other_server not_ours) = absurd (not_ours [] refl)
    answered c (greeted rest s start o) =
        let name = buffer_name screentype in
        let four = length-buffer_name screentype in
        let sent : take s.total name ≡ name =
          take_all s.total name (omega (arith, all_sent turns 4 s t2 o, four)) in
        rw sent (
          Returns-mono
            (Receive.g15_recv-Outcome node xs choice 4 name d (omega arith) c1 c3 ring member back)
            λ r got. (sym (named node xs choice c2 r name four got), got.ring))
