-- ===== src/Start.antt =====
-- The arguments of the daemon and its start: `main` of g15daemon/g15daemon/main.c. What the system
-- answers is an argument.
pub mod Arguments
use g15daemon.Prelude.{
  ℕ, zero, suc, ◌+◌, ◌-◌, ◌*◌, Bool, true, false, ◌&&◌, ◌||◌, not, ◌==◌, leb, if◌then◌else◌, Option,
  none, some, List, [], ◌∷◌,
}
use g15daemon.Text.{Text, codes, take, starts_with}

-- `strncmp(daemonargs, ..., 2)` and the long form; `daemonargs` holds the first 19 bytes.
abbrev pub is_option : (short long arg : Text) → Bool
is_option short long arg = starts_with short (take 19 arg) || starts_with long (take 19 arg)

pub data CycleKey : Type 0 where
  unset mr l1 : CycleKey

abbrev pub isdigit : ℕ → Bool
isdigit c = leb 48 c && leb c 57

-- `atoi` of digits.
abbrev pub atoi_from : (n : ℕ) → Text → ℕ
atoi_from n [] = n
atoi_from n (c ∷ cs) = let more = atoi_from (n * 10 + (c - 48)) cs in if isdigit c then more else n

-- The level of debugging that the next argument gives, which is at least 1.
abbrev pub debug_level : List Text → ℕ
debug_level [] = 1
debug_level ([] ∷ args) = 1
debug_level ((c ∷ cs) ∷ args) =
    if isdigit c then if atoi_from 0 (c ∷ cs) == 0 then 1 else atoi_from 0 (c ∷ cs) else 1

pub data Action : Type 0 where
  kill kill_dark version help : Action
  run : (cycle_key : CycleKey) (debug : ℕ) → Action

-- The loop over the arguments, the program's name first. The first of -k, -K, -v and -h ends it.
unfoldable pub read_arguments : List Text → CycleKey → (debug : ℕ) → Action
read_arguments [] cycle_key debug = run cycle_key debug
read_arguments (arg ∷ args) cycle_key debug =
    let cycle_key' = if is_option (codes "-s") (codes "--switch") arg then l1 else mr in
    let debug' = if is_option (codes "-d") (codes "--debug") arg then debug_level args else debug in
    let rest = read_arguments args cycle_key' debug' in
    if is_option (codes "-k") (codes "--kill") arg
    then kill
    else if is_option (codes "-K") (codes "--KILL") arg
    then kill_dark
    else if is_option (codes "-v") (codes "--version") arg
    then version
    else if is_option (codes "-h") (codes "--help") arg
    then help
    else rest

-- `argv`, with the values of the globals before.
pub arguments : List Text → Action
arguments argv = read_arguments argv unset 0

-- Whether each step of the start succeeds.
pub record System : Type 0 where
  pub pid_file : Bool
  pub keyboard : Bool
  pub uinput : Bool
  pub signals : Bool
  pub keyboard_thread : Bool
  pub lcd_thread : Bool
  pub server_thread : Bool

-- What `daemon_retval_send` sends: 0 where all is up.
pub start : System → ℕ
start s =
    if not s.pid_file
    then 1
    else if not s.keyboard
    then 2
    else if not s.uinput
    then 3
    else if not s.signals
    then 4
    else if not s.keyboard_thread
    then 5
    else if not s.lcd_thread
    then 6
    else if not s.server_thread
    then 7
    else 0

-- The signals of the loop behind the start.
pub data Signal : Type 0 where
  usr1 int quit pipe hup : Signal

-- `leaving`, and `disable_kb_backlight_onexit`.
pub record Flags : Type 0 where
  pub leaving : Bool
  pub dark : Bool

-- The loop ends with the signal that sets `leaving`, or with the signals.
pub signal_loop : List Signal → Flags → Flags
signal_loop [] f = f
signal_loop (usr1 ∷ signals) f = record { leaving = true; dark = true }
signal_loop (int ∷ signals) f = record f { leaving = true }
signal_loop (quit ∷ signals) f = record f { leaving = true }
signal_loop (pipe ∷ signals) f = signal_loop signals f
signal_loop (hup ∷ signals) f = signal_loop signals f
