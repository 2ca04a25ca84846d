-- ===== src/Stats.antt =====
-- The statistics client, g15daemon-clients/g15stats/g15stats.c: its variables, the choice of a sensor, and
-- the rotation of the line at the bottom. An int is a number
-- below 2 ^ 32, and is negative from 2 ^ 31 on.
pub mod Next
pub mod Keyboard
pub mod Choice
pub mod Arrays
pub mod Sound
pub mod Moves
pub mod Modes
pub mod Keys
pub mod Rotation
pub mod Rounds
pub mod Probes
pub mod Traffic
use g15daemon.Prelude.{
  ℕ, zero, suc, ◌+◌, ◌-◌, ◌*◌, ◌/◌, ◌%◌, ◌^◌, Bool, true, false, ◌&&◌, not, ltb, leb, ◌==◌, ◌!=◌,
  if◌then◌else◌, List, [], ◌∷◌, Run, ok, fault, out_of_fuel, ◌>>=◌,
}

-- An array: an access outside is a fault.
abbrev pub read_at {ℓ} : {A : Type ℓ} → List A → ℕ → Run A
read_at [] i = fault
read_at (x ∷ xs) zero = ok x
read_at (x ∷ xs) (suc i) = read_at xs i

abbrev pub write_at {ℓ} : {A : Type ℓ} → List A → ℕ → A → Run (List A)
write_at [] i a = fault
write_at (x ∷ xs) zero a = ok (a ∷ xs)
write_at (x ∷ xs) (suc i) a = write_at xs i a >>= λ ys. ok (x ∷ ys)

abbrev pub negative : ℕ → Bool
negative n = leb (2 ^ 31) n

-- `a >= b` and `a > b` of an int `a`, where `b` is not negative.
abbrev pub int_geb : (a b : ℕ) → Bool
int_geb a b = not (negative a) && leb b a

abbrev pub int_gtb : (a b : ℕ) → Bool
int_gtb a b = not (negative a) && ltb b a

abbrev pub int_suc : ℕ → ℕ
int_suc a = (a + 1) % 2 ^ 32

abbrev pub int_pred : ℕ → ℕ
int_pred a = (a + (2 ^ 32 - 1)) % 2 ^ 32

-- `MAX_SENSOR`, `SENSOR_ERROR` (-100), `MAX_SCREENS` and `PAUSE`
abbrev pub max_sensor : ℕ
max_sensor = 4

abbrev pub sensor_error : ℕ
sensor_error = 2 ^ 32 - 100

abbrev pub max_screens : ℕ
max_screens = 8

abbrev pub pause : ℕ
pause = 6

-- The loop of `get_next`.
unfoldable pub next_loop : (fuel : ℕ) → (sensor_lost : List ℕ) → (sensor_id id : ℕ) → Run ℕ
next_loop zero sensor_lost sensor_id id = out_of_fuel
next_loop (suc fuel) sensor_lost sensor_id id =
    let new = if int_geb (int_suc id) max_sensor then 0 else int_suc id in
    let more = next_loop fuel sensor_lost sensor_id new in
    read_at sensor_lost new >>= λ lost.
    if lost != 0 then ok new else if sensor_id == new then ok sensor_error else more

unfoldable pub get_next : (fuel : ℕ) → (sensor_id : ℕ) → (sensor_lost : List ℕ) → Run ℕ
get_next fuel sensor_id sensor_lost = next_loop fuel sensor_lost sensor_id sensor_id

-- The global variables.
pub record Stats : Type 0 where
  pub cycle : ℕ
  pub info_cycle : ℕ
  pub info_cycle_timer : ℕ
  pub mode : List ℕ
  pub submode : ℕ
  pub have_freq : ℕ
  pub have_temp : Bool
  pub have_fan : Bool
  pub have_bat : Bool
  pub have_nic : Bool
  pub net_scale_absolute : Bool
  pub sensor_temp_id : ℕ
  pub sensor_fan_id : ℕ
  pub sensor_lost_temp : List ℕ
  pub sensor_lost_fan : List ℕ

-- `calc_info_cycle`: the switch by the screen whose turn it is. A screen that there is not hands on to
-- the next case, with the timer moved on.
abbrev pub show : Stats → (timer screen : ℕ) → Stats
show s timer screen = record s { info_cycle = screen; info_cycle_timer = timer }

abbrev pub later : ℕ → ℕ
later timer = (timer + pause) % 2 ^ 32

abbrev pub info_net2 : Stats → (timer : ℕ) → Stats
info_net2 s timer = if s.have_nic then show s timer 9 else show s 0 0

abbrev pub info_fan : Stats → (timer : ℕ) → Stats
info_fan s timer = if s.have_fan then show s timer 8 else info_net2 s (later timer)

abbrev pub info_temp : Stats → (timer : ℕ) → Stats
info_temp s timer = if s.have_temp then show s timer 7 else info_fan s (later timer)

abbrev pub info_bat : Stats → (timer : ℕ) → Stats
info_bat s timer = if s.have_bat then show s timer 6 else info_temp s (later timer)

abbrev pub info_net : Stats → (timer : ℕ) → Stats
info_net s timer = if s.have_nic then show s timer 5 else info_bat s (later timer)

abbrev pub info_freq : Stats → (timer : ℕ) → Stats
info_freq s timer = if s.have_freq != 0 then show s timer 2 else show s (later timer) 3

-- The quotient of the timer by `PAUSE` is rounded to 0, so that of -5 is 0; a smaller one, which is
-- negative, has no case of its own.
abbrev pub turn : (timer : ℕ) → ℕ
turn timer =
    if not (negative timer) then timer / pause else if ltb (2 ^ 32 - timer) pause then 0 else 2 ^ 31

abbrev pub info_switch : Stats → (timer turn : ℕ) → Stats
info_switch s timer turn =
    if turn == 0
    then show s timer 0
    else if turn == 1
    then show s timer 1
    else if turn == 2
    then info_freq s timer
    else if turn == 3
    then show s timer 3
    else if turn == 4
    then show s timer 4
    else if turn == 5
    then info_net s timer
    else if turn == 6
    then info_bat s timer
    else if turn == 7
    then info_temp s timer
    else if turn == 8
    then info_fan s timer
    else if turn == 9
    then info_net2 s timer
    else show s 0 0

unfoldable pub calc_info_cycle : Stats → Stats
calc_info_cycle s =
    let timer = int_suc s.info_cycle_timer in
    if s.submode == 0 then info_switch s timer (turn timer) else show s timer s.cycle
