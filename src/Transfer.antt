-- ===== src/Transfer.antt =====
-- The loops that move a buffer over a socket: `g15_send` and `g15_recv` of
-- g15daemon/g15daemon/g15_net.c and of g15daemon/libg15daemon_client/g15daemon_net.c. What happens in
-- a round, the answers of `poll`, `send` and `recv`, is a `Turn` of the environment; the run is out of
-- fuel where the turns end before the loop does.
pub mod Send
pub mod Receive
use g15daemon.Prelude.{
  ℕ, zero, suc, ◌+◌, ◌-◌, Bool, true, false, ◌&&◌, not, ◌==◌, ltb, leb, if◌then◌else◌, List, [],
  ◌∷◌, ◌++◌, Run, ok, out_of_fuel, ◌>>=◌,
}
use g15daemon.Text.{Text, length, take, drop}
use g15daemon.Daemon.{Ptr, Daemon}
use g15daemon.Requests.{Reply, process_client_cmds}

-- `send` takes at most `n` bytes of those that are left, or fails with -1.
pub data Accept : Type 0 where
  failed : Accept
  accepts : (n : ℕ) → Accept

-- `leaving` is set, `poll` gives nothing, or the socket is ready: `bad` is POLLERR, POLLHUP or
-- POLLNVAL.
pub data SendTurn : Type 0 where
  leaving quiet : SendTurn
  ready : (writable bad : Bool) → Accept → SendTurn

-- What a round does to the loop.
pub data Step : Type 0 where
  again error : Step
  moves : (n : ℕ) → Step

abbrev pub least : ℕ → ℕ → ℕ
least a b = if leb a b then a else b

abbrev pub step_of : Accept → (bytesleft : ℕ) → Step
step_of failed bytesleft = error
step_of (accepts n) bytesleft = moves (least n bytesleft)

-- The daemon's round: with POLLOUT and none of the others it sends, and with one of the others it
-- stops.
pub daemon_round : (writable bad : Bool) → Accept → (bytesleft : ℕ) → Step
daemon_round writable bad a bytesleft =
    if writable && not bad then step_of a bytesleft else if bad then error else again

-- The library's round.
pub client_round : (writable bad : Bool) → Accept → (bytesleft : ℕ) → Step
client_round writable bad a bytesleft = if writable then step_of a bytesleft else again

-- How many bytes were taken, and whether the value is -1.
pub record Sent : Type 0 where
  pub total : ℕ
  pub is_error : Bool

abbrev pub Round : Type 0
Round = (writable bad : Bool) → Accept → (bytesleft : ℕ) → Step

abbrev pub continue : Step → (total : ℕ) → (ℕ → Run Sent) → Run Sent
continue again total loop = loop total
continue error total loop = ok (record { total = total; is_error = true })
continue (moves n) total loop = loop (total + n)

-- The loop for `len` bytes, of which `total` have been taken.
pub send_loop : Round → List SendTurn → (len total : ℕ) → Run Sent
send_loop round [] len total =
    if ltb total len then out_of_fuel else ok (record { total = total; is_error = false })
send_loop round (leaving ∷ turns) len total = ok (record { total = total; is_error = false })
send_loop round (quiet ∷ turns) len total =
    let next = send_loop round turns len total in
    if ltb total len then next else ok (record { total = total; is_error = false })
send_loop round (ready writable bad a ∷ turns) len total =
    let next = continue (round writable bad a (len - total)) total (send_loop round turns len) in
    if ltb total len then next else ok (record { total = total; is_error = false })

-- `g15_send` of the daemon, and of the library.
pub g15_send : List SendTurn → (buf : Text) → Run Sent
g15_send turns buf = send_loop daemon_round turns (length buf) 0

pub client_g15_send : List SendTurn → (buf : Text) → Run Sent
client_g15_send turns buf = send_loop client_round turns (length buf) 0

-- `pri` is POLLPRI, and `word` the request that is then read; `urgent_end` stands for none. `recv`
-- gives at most `n` bytes, and 0 at the end or for an error.
pub data RecvTurn : Type 0 where
  leaving quiet : RecvTurn
  urgent : (bad : Bool) (word : ℕ) → RecvTurn
  urgent_end : RecvTurn
  ready : (readable bad : Bool) (n : ℕ) → RecvTurn

-- The bytes in the buffer, the answers to the requests, and the daemon behind them.
pub record Received : Type 0 where
  pub buf : Text
  pub replies : List Reply
  pub daemon : Daemon

abbrev pub received : Text → List Reply → Daemon → Received
received buf replies d = record { buf = buf; replies = replies; daemon = d }

-- `g15_recv` of the daemon for `len` bytes: `buf` has been read and `incoming` is what the client has
-- sent behind it.
pub recv_loop :
    (node : Ptr)
    → List RecvTurn
    → (len : ℕ) → (buf incoming : Text) → List Reply
    → Daemon
    → Run Received
recv_loop node [] len buf incoming replies d =
    if ltb (length buf) len then out_of_fuel else ok (received buf replies d)
recv_loop node (leaving ∷ turns) len buf incoming replies d = ok (received buf replies d)
recv_loop node (quiet ∷ turns) len buf incoming replies d =
    let next = recv_loop node turns len buf incoming replies d in
    if ltb (length buf) len then next else ok (received buf replies d)
recv_loop node (urgent bad word ∷ turns) len buf incoming replies d =
    let next = (do
      r ← process_client_cmds node word d
      recv_loop node turns len buf incoming (replies ++ r.0) r.1) in
    if ltb (length buf) len && not bad then next else ok (received buf replies d)
recv_loop node (urgent_end ∷ turns) len buf incoming replies d = ok (received buf replies d)
recv_loop node (ready readable bad n ∷ turns) len buf incoming replies d =
    let retval = least n (len - length buf) in
    let got = take retval incoming in
    let next = recv_loop node turns len (buf ++ got) (drop retval incoming) replies d in
    let idle = recv_loop node turns len buf incoming replies d in
    if ltb (length buf) len && not bad
    then if not readable
      then idle
      else if length got == 0
      then ok (received buf replies d)
      else next
    else ok (received buf replies d)

pub g15_recv : (node : Ptr) → List RecvTurn → (len : ℕ) (incoming : Text) → Daemon → Run Received
g15_recv node turns len incoming d = recv_loop node turns len [] incoming [] d
