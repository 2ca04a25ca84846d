-- ===== src/Keys.antt =====
-- `g15_process_keys` of g15daemon/g15daemon/utility_funcs.c: the keys that changed become input
-- events, and the cycle key moves on to the next screen. The masks of the keys are constants of
-- libg15, so they are parameters. What the C code writes out for each key is one `edge` here.
pub mod Edges
pub mod Tracking
pub mod Cycling
use g15daemon.Prelude.{
  ℕ, zero, suc, ◌+◌, Bool, true, false, ◌&&◌, not, ◌==◌, ◌!=◌, if◌then◌else◌, List, [], ◌∷◌, ◌++◌,
  bit_and, Run, ok, ◌>>=◌,
}
use g15daemon.Daemon.{Daemon}
use g15daemon.LinkedLists.{cycle_screens}

abbrev pub gkey_offset : ℕ
gkey_offset = 167

abbrev pub mkey_offset : ℕ
mkey_offset = 185

abbrev pub lkey_offset : ℕ
lkey_offset = 189

-- `G15_KEY_G1` is `g 0`, `G15_KEY_M1` is `m 0` and `G15_KEY_L1` is `l 0`.
pub record Masks : Type 0 where
  pub g : ℕ → ℕ
  pub m : ℕ → ℕ
  pub mr : ℕ
  pub l : ℕ → ℕ

-- `keydown` and `keyup` of a code of the kernel.
pub data Event : Type 0 where
  down : ℕ → Event
  up : ℕ → Event

-- `keys & mask`, as a test.
unfoldable pub pressed : (keys mask : ℕ) → Bool
pressed keys mask = bit_and keys mask != 0

-- The two tests that the C code makes for a key.
pub edge : (currentkeys lastkeys mask code : ℕ) → List Event
edge currentkeys lastkeys mask code =
    if pressed currentkeys mask && not (pressed lastkeys mask)
    then down code ∷ []
    else if not (pressed currentkeys mask) && pressed lastkeys mask
    then up code ∷ []
    else []

-- The tests for n keys with the masks `mask i`, ... and the codes `code`, ..., in order.
pub edges : (currentkeys lastkeys : ℕ) (mask : ℕ → ℕ) (n i code : ℕ) → List Event
edges currentkeys lastkeys mask zero i code = []
edges currentkeys lastkeys mask (suc n) i code =
    edge currentkeys lastkeys (mask i) code ++ edges currentkeys lastkeys mask n (i + 1) (code + 1)

-- The G and M keys.
pub game_events : Masks → Daemon → (currentkeys lastkeys : ℕ) → List Event
game_events k d currentkeys lastkeys =
    if d.client_handles_keys == 0
    then edges currentkeys lastkeys k.g 18 0 gkey_offset
      ++ edges currentkeys lastkeys k.m 3 0 mkey_offset
    else []

-- The MR key, where no client is connected and it does not cycle the screens.
pub record_events : Masks → (cycle_key : ℕ) → Daemon → (currentkeys lastkeys : ℕ) → List Event
record_events k cycle_key d currentkeys lastkeys =
    if (d.connected_clients == 0) && (cycle_key != k.mr) && (d.client_handles_keys == 0)
    then edge currentkeys lastkeys k.mr (mkey_offset + 3)
    else []

-- The L keys.
pub menu_events : Masks → (cycle_key currentkeys lastkeys : ℕ) → List Event
menu_events k cycle_key currentkeys lastkeys =
    (if cycle_key != k.l 0 then edge currentkeys lastkeys (k.l 0) lkey_offset else [])
    ++ edges currentkeys lastkeys k.l 4 1 (lkey_offset + 1)

-- The screens after the keys: `fuel` bounds the loop over the list.
pub cycle_on_key : (fuel cycle_key : ℕ) → Daemon → (currentkeys lastkeys : ℕ) → Run Daemon
cycle_on_key fuel cycle_key d currentkeys lastkeys =
    if (d.connected_clients != 0)
      && (pressed currentkeys cycle_key && not (pressed lastkeys cycle_key))
    then cycle_screens fuel d
    else ok d

-- The events in the order in which they are written.
pub key_events : Masks → (cycle_key : ℕ) → Daemon → (currentkeys lastkeys : ℕ) → List Event
key_events k cycle_key d currentkeys lastkeys =
    game_events k d currentkeys lastkeys
    ++ (record_events k cycle_key d currentkeys lastkeys
        ++ menu_events k cycle_key currentkeys lastkeys)

pub g15_process_keys :
    (fuel : ℕ)
    → Masks
    → (cycle_key : ℕ) → Daemon
    → (currentkeys lastkeys : ℕ) → Run (List Event × Daemon)
g15_process_keys fuel k cycle_key d currentkeys lastkeys = do
  d' ← cycle_on_key fuel cycle_key d currentkeys lastkeys
  ok (key_events k cycle_key d currentkeys lastkeys, d')
