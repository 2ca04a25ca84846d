-- ===== src/Client/Connect.antt =====
-- `new_g15_screen` and `g15_recv` of the client library,
-- g15daemon/libg15daemon_client/g15daemon_net.c.
use g15daemon.Prelude.{
  ℕ, ◌-◌, Bool, true, false, not, ◌==◌, ltb, if◌then◌else◌, List, [], ◌∷◌, ◌++◌, Run, ok,
  out_of_fuel, ◌>>=◌,
}
use g15daemon.Text.{Text, equal, codes, length, take, drop}
use g15daemon.Transfer.{SendTurn, least, client_g15_send}
use g15daemon.Session.{serv_helo}

-- What happens in a round of the library's `g15_recv`; `recv` gives at most `n` bytes, and 0 at the end
-- or for an error.
pub data PollTurn : Type 0 where
  leaving quiet : PollTurn
  ready : (readable : Bool) (n : ℕ) → PollTurn

-- The loop, with what has been read and what the server has sent behind it.
unfoldable pub client_recv_loop : List PollTurn → (len : ℕ) → (buf incoming : Text) → Run Text
client_recv_loop [] len buf incoming = if ltb (length buf) len then out_of_fuel else ok buf
client_recv_loop (leaving ∷ turns) len buf incoming = ok buf
client_recv_loop (quiet ∷ turns) len buf incoming =
    let next = client_recv_loop turns len buf incoming in
    if ltb (length buf) len then next else ok buf
client_recv_loop (ready readable n ∷ turns) len buf incoming =
    let retval = least n (len - length buf) in
    let got = take retval incoming in
    let next = client_recv_loop turns len (buf ++ got) (drop retval incoming) in
    let idle = client_recv_loop turns len buf incoming in
    if ltb (length buf) len
    then if readable then if length got == 0 then ok buf else next else idle
    else ok buf

unfoldable pub client_g15_recv : List PollTurn → (len : ℕ) → (incoming : Text) → Run Text
client_g15_recv turns len incoming = client_recv_loop turns len [] incoming

-- The buffer as a C string: its 256 bytes are 0 before.
unfoldable pub c_string : Text → Text
c_string [] = []
c_string (c ∷ cs) = let rest = c_string cs in if c == 0 then [] else c ∷ rest

-- G15_TEXTBUF, G15_WBMPBUF and G15_G15RBUF are 1, 2 and 3.
abbrev pub buffer_name : (screentype : ℕ) → Text
buffer_name screentype =
    if screentype == 1
    then codes "TBUF"
    else if screentype == 2
    then codes "WBUF"
    else if screentype == 3
    then codes "RBUF"
    else codes "GBUF"

-- Whether a socket is returned rather than -1, and what has been sent over it.
pub record Screen : Type 0 where
  pub opened : Bool
  pub sent : Text

abbrev pub no_screen : Screen
no_screen = record { opened = false; sent = [] }

-- `created` and `connected` are whether `socket` and `connect` succeed. `g15_recv` is never negative,
-- and what `g15_send` returns is not looked at.
unfoldable pub new_g15_screen :
    (created connected : Bool)
    → List PollTurn
    → List SendTurn
    → (screentype : ℕ) → (incoming : Text) → Run Screen
new_g15_screen created connected polls turns screentype incoming =
    if not created
    then ok no_screen
    else if not connected
    then ok no_screen
    else (client_g15_recv polls 16 incoming >>= λ buffer.
        if not (equal (c_string buffer) serv_helo)
        then ok no_screen
        else (client_g15_send turns (buffer_name screentype) >>= λ s.
            ok (record { opened = true; sent = take s.total (buffer_name screentype) })))
