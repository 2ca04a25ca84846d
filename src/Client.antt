-- ===== src/Client.antt =====
-- The client library, libg15daemon_client/g15daemon_net.c of g15daemon: `g15_send_cmd`. The sockets
-- are the environment: what `send` and `recv` answer is an argument.
pub mod Levels
pub mod Queries
pub mod Connect
pub mod Reading
pub mod Handshake
use g15daemon.Prelude.{ℕ, ◌-◌, ◌^◌, ◌==◌, ltb, if◌then◌else◌, Option, none, some, bit_or}
use g15daemon.Gfx.{sub32}

-- The largest values of libg15 that the library passes on.
pub record Limits : Type 0 where
  pub led_mr : ℕ
  pub contrast_high : ℕ
  pub brightness_bright : ℕ

-- What `send` returns for a byte, and the word or byte that is received behind it, if one is.
pub record Peer : Type 0 where
  pub send : ℕ → ℕ
  pub recv_word : ℕ → Option ℕ
  pub recv_byte : ℕ → Option ℕ

-- The byte that is sent, if any, and the value returned.
pub record Call : Type 0 where
  pub packet : Option ℕ
  pub retval : ℕ

-- `if(value > limit) value = limit`.
abbrev pub clamp : (limit value : ℕ) → ℕ
clamp limit value = if ltb limit value then limit else value

-- The byte stays 0 where nothing is received.
abbrev pub received : Option ℕ → ℕ
received none = 0
received (some v) = v

pub send_value : Peer → (command limit value : ℕ) → Call
send_value peer command limit value =
    let byte = bit_or command (clamp limit value) in
    record { packet = some byte; retval = peer.send byte }

-- `retval = packet[0] - 48` behind the answer.
pub query : Peer → (command : ℕ) → Call
query peer command = record {
  packet = some command;
  retval = sub32 (received (peer.recv_byte command)) 48;
}

-- G15DAEMON_KEY_HANDLER is 0x10, MKEYLEDS 0x20, CONTRAST 0x40, BACKLIGHT 0x80, and the others are
-- 'p', 'k', 'v' and 'u'.
pub g15_send_cmd : Limits → Peer → (command value : ℕ) → Call
g15_send_cmd k peer command value =
    if command == 16
    then send_value peer command k.led_mr value
    else if command == 64
    then send_value peer command k.contrast_high value
    else if command == 128
    then send_value peer command k.brightness_bright value
    else if command == 32
    then send_value peer command k.led_mr value
    else if command == 112
    then record { packet = some command; retval = peer.send command }
    else if command == 107
    then record { packet = some command; retval = received (peer.recv_word command) }
    else if command == 118
    then query peer command
    else if command == 117
    then query peer command
    else record { packet = none; retval = 2 ^ 32 - 1 }
