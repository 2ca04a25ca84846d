-- ===== src/Requests.antt =====
-- The requests of clients: `send_keystate` and `process_client_cmds` of
-- g15daemon/g15daemon/g15_net.c. `msg` is the word `msgbuf[0]`. What is sent to the client is a
-- `Reply`; that a `send` fails is only logged.
pub mod Edit
pub mod Outcome
pub mod Switch
pub mod Dangling
pub mod Decode
pub mod Answers
use g15daemon.Prelude.{
  ℕ, ◌+◌, ◌*◌, Bool, ◌==◌, ◌!=◌, ltb, if◌then◌else◌, List, [], ◌∷◌, bit_and, Run, ok, fault, ◌>>=◌,
}
use g15daemon.Gfx.{sub32, lcd_bufsize}
use g15daemon.Lcd.{Lcd}
use g15daemon.Daemon.{Ptr, null, Daemon, load, store, set_lcd}

-- Four bytes with the state of the keys, or one byte.
pub data Reply : Type 0 where
  word : ℕ → Reply
  byte : ℕ → Reply

-- 'k', 'p', 'v' and 'u', and the bits of the other requests.
abbrev pub get_keystate : ℕ
get_keystate = 107

abbrev pub switch_request : ℕ
switch_request = 112

abbrev pub is_foreground : ℕ
is_foreground = 118

abbrev pub is_user_selected : ℕ
is_user_selected = 117

abbrev pub backlight : ℕ
backlight = 128

abbrev pub contrast : ℕ
contrast = 64

abbrev pub mkey_lights : ℕ
mkey_lights = 32

abbrev pub key_handler : ℕ
key_handler = 16

-- `msgbuf[0] & bit`, as a test.
unfoldable pub has_bit : (msg bit : ℕ) → Bool
has_bit msg bit = bit_and msg bit != 0

-- The key state goes out once.
pub send_keystate : Daemon → List Reply × Daemon
send_keystate d =
    if d.current_key_state != 0
    then (word d.current_key_state ∷ [], record d { current_key_state = 0 })
    else ([], d)

pub answer_keys : Ptr → Daemon → Run (List Reply × Daemon)
answer_keys node d = do
  n ← load d node
  if d.current == node
      then ok (word d.current_key_state ∷ [], record d { current_key_state = 0 })
      else ok (word 0 ∷ [], d)

-- `current = current->prev`.
pub show_prev : Daemon → Run Daemon
show_prev d = do n ← load d d.current; ok (record d { current = n.prev })

pub switch_priorities : Ptr → Daemon → Run Daemon
switch_priorities node d = do
  n ← load d node
  if d.current != node
      then ok (record (store d node (record n { last_priority = d.current })) { current = node })
      else if d.current == n.last_priority
      then show_prev d
      else if n.last_priority != null
      then ok
          (record (store d node (record n { last_priority = null })) { current = n.last_priority })
      else show_prev d

-- '1' and '0'.
abbrev pub digit : Bool → ℕ
digit b = if b then 49 else 48

pub answer_foreground : Ptr → Daemon → Run (List Reply × Daemon)
answer_foreground node d = do n ← load d node; ok (byte (digit (d.current == node)) ∷ [], d)

pub answer_selected : Ptr → Daemon → Run (List Reply × Daemon)
answer_selected node d = do n ← load d node; ok (byte (digit (n.lcd.usr_foreground != 0)) ∷ [], d)

-- The bytes of a node, five pointers of eight, and where `keyhandler->connection` lies in it:
-- `keyhandler` is the address of the last pointer, taken as that of an `lcd_t`, in which `lcd_type`,
-- `buf`, `max_x` and `max_y` come first.
abbrev pub node_size : ℕ
node_size = 5 * 8

abbrev pub connection_at : ℕ
connection_at = 4 * 8 + (4 + lcd_bufsize + 4 + 4)

-- The write to `keyhandler->connection` is inside the node or faults.
pub take_keys : Ptr → Daemon → Run Daemon
take_keys node d =
    let taken = record d { client_handles_keys = 1; keyhandler = node } in
    if ltb connection_at node_size then ok taken else fault

abbrev pub quiet : Run Daemon → Run (List Reply × Daemon)
quiet r = r >>= λ d. ok ([], d)

pub process_client_cmds : Ptr → (msg : ℕ) → Daemon → Run (List Reply × Daemon)
process_client_cmds node msg d =
    if msg == get_keystate
    then answer_keys node d
    else if msg == switch_request
    then quiet (switch_priorities node d)
    else if msg == is_foreground
    then answer_foreground node d
    else if msg == is_user_selected
    then answer_selected node d
    else if has_bit msg backlight
    then quiet (
        set_lcd d node
          (λ lcd. record lcd { backlight_state = sub32 msg backlight; state_changed = 1 }))
    else if has_bit msg contrast
    then quiet (
        set_lcd d node
          (λ lcd. record lcd { contrast_state = sub32 msg contrast; state_changed = 1 }))
    else if has_bit msg mkey_lights
    then quiet (
        set_lcd d node
          (λ lcd. record lcd { mkey_state = sub32 msg mkey_lights; state_changed = 1 }))
    else if has_bit msg key_handler
    then quiet (take_keys node d)
    else ok ([], d)
