-- ===== src/Stats/Keyboard.antt =====
-- The keys of the statistics client, `keyboard_watch` of g15daemon-clients/g15stats/g15stats.c.
use g15daemon.Prelude.{
  ℕ, ◌*◌, ◌%◌, ◌^◌, Bool, true, false, not, ◌==◌, if◌then◌else◌, List, Run, ok, ◌>>=◌,
}
use g15daemon.Keys.{Masks, pressed}
use g15daemon.Stats.{
  read_at, write_at, negative, int_gtb, int_suc, int_pred, max_sensor, sensor_error, max_screens,
  pause, get_next, Stats,
}

-- The keys, `keyboard_watch`.
pub data Change : Type 0 where
  unchanged down up changed_mode changed_submode : Change

abbrev pub to_screen : Stats → ℕ → Stats
to_screen s cycle = record s { cycle = cycle }

unfoldable pub read_key : Masks → (keystate : ℕ) → Stats → Run (Change × Stats)
read_key k keystate s =
    if pressed keystate (k.l 0)
    then ok (unchanged, s)
    else if pressed keystate (k.l 1)
    then ok (down, to_screen s (int_pred s.cycle))
    else if pressed keystate (k.l 2)
    then ok (up, to_screen s (int_suc s.cycle))
    else if pressed keystate (k.l 3)
    then (read_at s.mode s.cycle >>= λ m.
        write_at s.mode s.cycle (int_suc m) >>= λ mode. ok (changed_mode, record s { mode = mode }))
    else if pressed keystate (k.l 4)
    then ok (changed_submode, record s { submode = int_suc s.submode })
    else ok (unchanged, s)

-- The screens that there are not are passed over, upwards ...
abbrev pub up_fan : Stats → ℕ → ℕ
up_fan s cycle = if s.have_fan then cycle else 0

abbrev pub up_temp : Stats → ℕ → ℕ
up_temp s cycle = if s.have_temp then cycle else up_fan s (int_suc cycle)

abbrev pub up_bat : Stats → ℕ → ℕ
up_bat s cycle = if s.have_bat then cycle else up_temp s (int_suc cycle)

abbrev pub up_net : Stats → ℕ → ℕ
up_net s cycle = if s.have_nic then cycle else up_bat s (int_suc cycle)

abbrev pub up_from : Stats → ℕ → ℕ
up_from s cycle =
    if cycle == 5
    then up_net s cycle
    else if cycle == 6
    then up_bat s cycle
    else if cycle == 7
    then up_temp s cycle
    else if cycle == 8
    then up_fan s cycle
    else cycle

-- ... and downwards.
abbrev pub down_net : Stats → ℕ → ℕ
down_net s cycle = if s.have_nic then cycle else int_pred cycle

abbrev pub down_bat : Stats → ℕ → ℕ
down_bat s cycle = if s.have_bat then cycle else down_net s (int_pred cycle)

abbrev pub down_temp : Stats → ℕ → ℕ
down_temp s cycle = if s.have_temp then cycle else down_bat s (int_pred cycle)

abbrev pub down_fan : Stats → ℕ → ℕ
down_fan s cycle = if s.have_fan then cycle else down_temp s (int_pred cycle)

abbrev pub down_from : Stats → ℕ → ℕ
down_from s cycle =
    if cycle == 8
    then down_fan s cycle
    else if cycle == 7
    then down_temp s cycle
    else if cycle == 6
    then down_bat s cycle
    else if cycle == 5
    then down_net s cycle
    else cycle

-- The new screen, with the timer of its turn.
abbrev pub turn_to : Stats → ℕ → Stats
turn_to s cycle = record s { cycle = cycle; info_cycle_timer = (cycle * pause) % 2 ^ 32 }

-- `sensor_id = get_next(...)`, and 0 where it finds none.
abbrev pub next_or_first : (sensor_id : ℕ) → (sensor_lost : List ℕ) → Run ℕ
next_or_first sensor_id sensor_lost =
    get_next max_sensor sensor_id sensor_lost >>= λ id. ok (if id == sensor_error then 0 else id)

abbrev pub change_mode : Stats → Run (Bool × Stats)
change_mode s =
    if s.cycle == 5
    then (if s.have_nic
        then ok (true, record s { net_scale_absolute = not s.net_scale_absolute })
        else ok (false, s))
    else if s.cycle == 7
    then (next_or_first s.sensor_temp_id s.sensor_lost_temp >>= λ id.
        ok (true, record s { sensor_temp_id = id }))
    else if s.cycle == 8
    then (next_or_first s.sensor_fan_id s.sensor_lost_fan >>= λ id.
        ok (true, record s { sensor_fan_id = id }))
    else if s.cycle == 4
    then ok (false, s)
    else if s.cycle == 3
    then ok (false, s)
    else if s.cycle == 6
    then ok (false, s)
    else ok (true, s)

-- The switch by what is changed: whether the display is to be woken, and the variables.
abbrev pub apply_change : Change → Stats → Run (Bool × Stats)
apply_change unchanged s = ok (false, s)
apply_change up s =
    ok (true, turn_to s (up_from s (if int_gtb s.cycle max_screens then 0 else s.cycle)))
apply_change down s =
    ok (true, turn_to s (down_from s (if negative s.cycle then max_screens else s.cycle)))
apply_change changed_mode s = change_mode s
apply_change changed_submode s = ok (true, s)

-- What follows it: the wrap-around of the screen, of its mode and of the submode. `MAX_MODE` and
-- `MAX_SUB_MODE` are 1.
abbrev pub wrap : Stats → Run Stats
wrap s =
    let cycle = if int_gtb s.cycle max_screens then 0 else s.cycle in
    read_at s.mode cycle >>= λ m.
    (if int_gtb m 1 then write_at s.mode cycle 0 else ok s.mode) >>= λ mode. ok (record s {
      cycle = cycle;
      mode = mode;
      submode = if int_gtb s.submode 1 then 0 else s.submode;
    })

abbrev pub finish : Change → Stats → Run (Bool × Stats)
finish unchanged s = ok (false, s)
finish change s = apply_change change s >>= λ r. wrap r.1 >>= λ t. ok (r.0, t)

-- A round, on what the buffer of the keys holds behind `recv`: whether `wake_now` is signalled, and the
-- variables.
unfoldable pub keyboard_watch : Masks → (keystate : ℕ) → Stats → Run (Bool × Stats)
keyboard_watch k keystate s = read_key k keystate s >>= λ r. finish r.0 r.1
