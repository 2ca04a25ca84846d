-- ===== src/OsKeys.antt =====
-- The key mapping of the next daemon's plugin, g15daemon-wip/plugins/g15_plugin_uinput.c. What the C
-- code writes out for each key is one `edge`, as in Keys.
pub mod Tracking
use g15daemon.Prelude.{ℕ, ◌%◌, ◌^◌, ◌==◌, ◌!=◌, if◌then◌else◌, List, [], ◌∷◌, ◌++◌}
use g15daemon.Keys.{Masks, Event, edges, gkey_offset, mkey_offset, lkey_offset}

-- `G15_EVENT_KEYPRESS`
abbrev pub event_keypress : ℕ
event_keypress = 1

pub record PluginEvent : Type 0 where
  pub event : ℕ
  pub value : ℕ

-- The M keys, and behind them MR.
abbrev pub m_and_mr : Masks → ℕ → ℕ
m_and_mr k i = if i == 3 then k.mr else k.m i

-- `g15_process_keys` of the plugin; `map_Lkeys` comes from the configuration.
pub process_keys : Masks → (map_lkeys currentkeys lastkeys : ℕ) → List Event
process_keys k map_lkeys currentkeys lastkeys =
    edges currentkeys lastkeys k.g 18 0 gkey_offset
    ++ (edges currentkeys lastkeys (m_and_mr k) 4 0 mkey_offset
        ++ (if map_lkeys != 0 then edges currentkeys lastkeys k.l 5 0 lkey_offset else []))

-- The handler: the events that are written, and `lastkeys` behind it. The value, an unsigned long, is
-- cut to an int.
pub keyevents : Masks → (map_lkeys : ℕ) → PluginEvent → (lastkeys : ℕ) → List Event × ℕ
keyevents k map_lkeys e lastkeys =
    let keys = e.value % 2 ^ 32 in
    if e.event == event_keypress
    then (process_keys k map_lkeys keys lastkeys, keys)
    else ([], lastkeys)

-- The handler on a sequence of events.
pub all_keyevents : Masks → (map_lkeys : ℕ) → List PluginEvent → (lastkeys : ℕ) → List Event
all_keyevents k map_lkeys [] lastkeys = []
all_keyevents k map_lkeys (e ∷ es) lastkeys =
    let r = keyevents k map_lkeys e lastkeys in r.0 ++ all_keyevents k map_lkeys es r.1
