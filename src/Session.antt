-- ===== src/Session.antt =====
-- The server's side of a client: `g15_clientconnect` and `lcd_client_thread` of
-- g15daemon/g15daemon/utility_funcs.c. What the sockets answer, the random numbers and the client's
-- bytes are arguments.
pub mod Connect
pub mod Pictures
pub mod Life
use g15daemon.Prelude.{
  ℕ, zero, suc, ◌+◌, ◌-◌, ◌*◌, ◌/◌, ◌^◌, Bool, true, false, ◌==◌, ◌!=◌, ltb, if◌then◌else◌, Option,
  none, some, List, [], ◌∷◌, ◌++◌, bit_and, bit_or, bit_xor, Run, ok, fault, out_of_fuel, ◌>>=◌,
}
use g15daemon.Gfx.{Buf, add32, sub32, u32}
use g15daemon.Lcd.{Lcd, Levels}
use g15daemon.Screen.{convert_buf, clear_bytes}
use g15daemon.Daemon.{Ptr, Daemon, load, store, set_lcd}
use g15daemon.LinkedLists.{lcdnode_add, lcdnode_remove}
use g15daemon.Requests.{Reply}
use g15daemon.Text.{Text, codes, length, drop}
use g15daemon.Transfer.{SendTurn, RecvTurn, g15_send, g15_recv}
use g15daemon.Threads.{Device, set_leds}

-- What `poll` and `accept` give. Where `accept` would block it has returned -1.
pub data Offer : Type 0 where
  nothing not_readable would_block refused : Offer
  accepted : (conn_s : ℕ) → Offer

-- The value, the screen for which a thread was started, if one was, and whether the id that
-- `pthread_detach` is called with has been set, where it is called.
pub record Connected : Type 0 where
  pub is_error : Bool
  pub daemon : Daemon
  pub started : Option Ptr
  pub detached : Option Bool

-- `created` is whether `pthread_create` succeeds, and `closed` whether `close` does.
pub connect : Levels → (fresh : Ptr) (conn_s : ℕ) (created closed : Bool) → Daemon → Run Connected
connect g fresh conn_s created closed d = do
  d' ← lcdnode_add g fresh d
  d'' ← set_lcd d' fresh (λ lcd. record lcd { connection = conn_s })
  ok (
      if created
      then record { is_error = false; daemon = d''; started = some fresh; detached = some true }
      else if closed
      then record { is_error = false; daemon = d''; started = none; detached = some false }
      else record { is_error = true; daemon = d''; started = none; detached = none })

pub g15_clientconnect :
    Levels → (fresh : Ptr) → Offer → (created closed : Bool) → Daemon → Run Connected
g15_clientconnect g fresh nothing created closed d =
    ok (record { is_error = false; daemon = d; started = none; detached = none })
g15_clientconnect g fresh not_readable created closed d =
    ok (record { is_error = false; daemon = d; started = none; detached = none })
g15_clientconnect g fresh refused created closed d =
    ok (record { is_error = true; daemon = d; started = none; detached = none })
g15_clientconnect g fresh would_block created closed d =
    connect g fresh (2 ^ 32 - 1) created closed d
g15_clientconnect g fresh (accepted conn_s) created closed d =
    connect g fresh conn_s created closed d

-- `tmpbuf`: the bytes that were received, and behind them what was there before.
abbrev pub fill : Text → Buf → Buf
fill [] old i = old i
fill (c ∷ cs) old zero = c
fill (c ∷ cs) old (suc i) = fill cs (λ j. old (suc j)) i

-- A screen that the client has sent is put into its buffer.
abbrev pub Picture : Type 0
Picture = (tmpbuf : Buf) (random : ℕ) → Lcd → Run Lcd

pub show_pixels : Picture
show_pixels tmpbuf random lcd = do
  b ← convert_buf tmpbuf (clear_bytes 1024 lcd.buf)
  ok (record lcd { buf = b; ident = random })

-- `memcpy(client_lcd->buf, tmpbuf + from, n)`
abbrev pub copy_bytes : (n from : ℕ) (tmpbuf buf : Buf) → Buf
copy_bytes n from tmpbuf buf i = if ltb i n then tmpbuf (i + from) else buf i

pub show_render : Picture
show_render tmpbuf random lcd =
    ok (record lcd { buf = copy_bytes 1048 0 tmpbuf lcd.buf; ident = random })

pub update_screen : Picture → (node : Ptr) (tmpbuf : Buf) (random : ℕ) → Daemon → Run Daemon
update_screen picture node tmpbuf random d = do
  n ← load d node
  lcd ← picture tmpbuf random n.lcd
  ok (store d node (record n { lcd = lcd }))

-- A round of a loop: what happens while a screen is received, and the next random number. `none` is
-- a round before which the daemon is leaving.
abbrev pub Rounds : Type 0
Rounds = List (Option (List RecvTurn × ℕ))

-- The loops for 'G' and 'R', with `size` bytes for a screen.
pub screen_loop :
    Picture
    → (size : ℕ) (node : Ptr) → Rounds
    → (tmpbuf : Buf) (incoming : Text) → List Reply
    → Daemon
    → Run (List Reply × Daemon)
screen_loop picture size node [] tmpbuf incoming replies d = out_of_fuel
screen_loop picture size node (none ∷ rounds) tmpbuf incoming replies d = ok (replies, d)
screen_loop picture size node (some (turns, random) ∷ rounds) tmpbuf incoming replies d = do
  r ← g15_recv node turns size incoming d
  let tmpbuf' = fill r.buf tmpbuf
  let next = (do
    d' ← update_screen picture node tmpbuf' random r.daemon
    screen_loop picture size node rounds tmpbuf' (drop (length r.buf) incoming)
        (replies ++ r.replies) d')
  if length r.buf != size then ok (replies ++ r.replies, r.daemon) else next

-- The header of a wbmp picture: its width, its height and its length.
pub record Wbmp : Type 0 where
  pub width : ℕ
  pub height : ℕ
  pub header : ℕ

pub read_wbmp : Buf → Wbmp
read_wbmp tmpbuf =
    if bit_and (tmpbuf 2) 1 != 0
    then record { width = bit_or (bit_xor (tmpbuf 2) 1) (tmpbuf 3); height = tmpbuf 4; header = 5 }
    else record { width = tmpbuf 2; height = tmpbuf 3; header = 4 }

pub show_wbmp : (buflen header : ℕ) → Picture
show_wbmp buflen header tmpbuf random lcd =
    ok (record lcd { buf = copy_bytes (buflen + header) header tmpbuf lcd.buf; ident = random })

-- The bytes beyond 860 are received at NULL.
pub skip_excess :
    (node : Ptr)
    → List RecvTurn
    → (buflen : ℕ) (incoming : Text) → Daemon
    → Run (List Reply × Daemon)
skip_excess node turns buflen incoming d = do
  r ← g15_recv node turns (buflen - 860) incoming d
  if length r.buf == 0 then ok (r.replies, r.daemon) else fault

-- The loop for 'W'; each round has the turns of both calls of `g15_recv`.
pub wbmp_loop :
    (node : Ptr)
    → List (Option (List RecvTurn × List RecvTurn × ℕ))
    → (tmpbuf : Buf) (incoming : Text) → List Reply
    → Daemon
    → Run (List Reply × Daemon)
wbmp_loop node [] tmpbuf incoming replies d = out_of_fuel
wbmp_loop node (none ∷ rounds) tmpbuf incoming replies d = ok (replies, d)
wbmp_loop node (some (turns, more, random) ∷ rounds) tmpbuf incoming replies d = do
  r ← g15_recv node turns 865 incoming d
  let tmpbuf' = fill r.buf tmpbuf
  let w = read_wbmp tmpbuf'
  let buflen = w.width / 8 * w.height
  let incoming' = drop (length r.buf) incoming
  let next = (do
    e ←
        if ltb 860 buflen
        then skip_excess node more buflen incoming' r.daemon
        else ok ([], r.daemon)
    let buflen' = if ltb 860 buflen then 860 else buflen
    let replies' = replies ++ (r.replies ++ e.0)
    let shown = (do
      d' ← update_screen (show_wbmp buflen' w.header) node tmpbuf' random e.1
      wbmp_loop node rounds tmpbuf' incoming' replies' d')
    if w.width != 160 then ok (replies', e.1) else shown)
  if length r.buf == 0 then ok (replies ++ r.replies, r.daemon) else next

-- What happens to a client: while the greeting is sent, while the kind of its screens is received,
-- and in the rounds behind it; its bytes; and what was in `tmpbuf`.
pub record Client : Type 0 where
  pub greeting : List SendTurn
  pub choice : List RecvTurn
  pub rounds : Rounds
  pub wbmp_rounds : List (Option (List RecvTurn × List RecvTurn × ℕ))
  pub incoming : Text
  pub tmpbuf : Buf

abbrev pub serv_helo : Text
serv_helo = codes "G15 daemon HELLO"

-- The loop that the first byte asks for.
pub serve :
    (node : Ptr) → Client → (chosen : Text) → List Reply → Daemon → Run (List Reply × Daemon)
serve node c chosen replies d =
    let tmpbuf = fill chosen c.tmpbuf in
    let incoming = drop (length chosen) c.incoming in
    if tmpbuf 0 == 71
    then screen_loop show_pixels 6880 node c.rounds tmpbuf incoming replies d
    else if tmpbuf 0 == 82
    then screen_loop show_render 1048 node c.rounds tmpbuf incoming replies d
    else if tmpbuf 0 == 87
    then wbmp_loop node c.wbmp_rounds tmpbuf incoming replies d
    else ok (replies, d)

pub converse : (node : Ptr) → Client → Daemon → Run (List Reply × Daemon)
converse node c d = do
  s ← g15_send c.greeting serv_helo
  let chosen = (do
    r ← g15_recv node c.choice 4 c.incoming d
    if ltb (length r.buf) 4
        then ok (r.replies, r.daemon)
        else serve node c r.buf r.replies r.daemon)
  if s.is_error then ok ([], d) else chosen

-- What is left behind a client: the answers to its requests, the lights that were set, and the
-- daemon.
pub record Ended : Type 0 where
  pub replies : List Reply
  pub calls : List Device
  pub daemon : Daemon

-- The client is counted, and the lights of the first one are set.
unfoldable pub enter : (led_mr : ℕ) → Daemon → List Device × Daemon
enter led_mr d = (
  if d.connected_clients == 0 then set_leds led_mr ∷ [] else [],
  record d { connected_clients = add32 d.connected_clients 1 },
)

-- From `exitthread` on.
pub leave : (node : Ptr) → Daemon → Run (List Device × Daemon)
leave node d = do
  d' ← lcdnode_remove node d
  let left = sub32 d'.connected_clients 1
  ok (if left == 0 then set_leds 0 ∷ [] else [], record d' { connected_clients = left })

pub lcd_client_thread : (led_mr : ℕ) (node : Ptr) → Client → Daemon → Run Ended
lcd_client_thread led_mr node c d = do
  let entered = enter led_mr d
  r ← converse node c entered.1
  l ← leave node r.1
  ok (record { replies = r.0; calls = entered.0 ++ l.0; daemon = l.1 })
