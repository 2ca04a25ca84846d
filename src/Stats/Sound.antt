-- ===== src/Stats/Sound.antt =====
-- The variables of the statistics client between two keys, and what a round of the keys may come to.
use g15daemon.Prelude.{
  ℕ, ◌+◌, ◌-◌, ◌≤◌, ◌<◌, ◌≡◌, refl, Bool, true, false, ◌==◌, if◌then◌else◌, arith, Run, ok, fault,
  Returns,
}
use g15daemon.Keys.{Masks, pressed}
use g15daemon.Stats.{Stats, read_at, int_gtb, max_screens}
use g15daemon.Stats.Arrays.{length, read_at-Returns, read_at-out}
use g15daemon.Stats.Next.{Four, list_of}
use g15daemon.Stats.Choice.{available, Lowest, Highest}
use g15daemon.Stats.Keyboard.{
  Change, unchanged, up, down, changed_mode, changed_submode, turn_to, wrap,
}

-- The variables between two keys: the screen is one that there is and has a mode.
pub record IsSound (s : Stats) : Type 0 where
  pub screen : s.cycle < 8
  pub there : available s s.cycle ≡ true
  pub modes : length s.mode ≡ 8
  pub small : (i m : ℕ) → read_at s.mode i ≡ ok m → m ≤ 1
  pub sub : s.submode ≤ 1
  pub temp_id : s.sensor_temp_id < 4
  pub fan_id : s.sensor_fan_id < 4
  pub lost_temp : (f : Four) × (s.sensor_lost_temp ≡ list_of f)
  pub lost_fan : (f : Four) × (s.sensor_lost_fan ≡ list_of f)

abbrev pub asked_by : (a b c e f : Bool) → Change
asked_by a b c e f =
    if a
    then unchanged
    else if b
    then down
    else if c
    then up
    else if e
    then changed_mode
    else if f
    then changed_submode
    else unchanged

-- What the keys ask for: the first of L1 to L5 that is pressed decides.
unfoldable pub asked : Masks → (keystate : ℕ) → Change
asked k keystate =
    asked_by (pressed keystate (k.l 0)) (pressed keystate (k.l 1)) (pressed keystate (k.l 2))
      (pressed keystate (k.l 3)) (pressed keystate (k.l 4))

-- The screen before: from the first one, the last that there is.
abbrev pub before : ℕ → ℕ
before cycle = if cycle == 0 then 8 else cycle - 1

-- The screen that is chosen, and which screens there are.
pub record Stays (s s' : Stats) : Type 0 where
  pub cycle : s'.cycle ≡ s.cycle
  pub screens : (i : ℕ) → available s' i ≡ available s i

-- The outcome of a round.
pub data Outcome (s : Stats) : Change → Run (Bool × Stats) → Type 0 where
  none : Outcome s unchanged (ok (false, s))
  went_up :
      (c : ℕ)
      → Lowest s (s.cycle + 1) c
      → IsSound (turn_to s c)
      → Outcome s up (ok (true, turn_to s c))
  went_down :
      (c : ℕ)
      → Highest s (before s.cycle) c
      → IsSound (turn_to s c)
      → Outcome s down (ok (true, turn_to s c))
  up_to_fan : Lowest s (s.cycle + 1) 8 → Outcome s up fault
  down_to_fan : Highest s (before s.cycle) 8 → Outcome s down fault
  new_mode :
      (wake : Bool) (s' : Stats)
      → IsSound s'
      → Stays s s'
      → ((i m : ℕ)
          → read_at s.mode i ≡ ok m
          → read_at s'.mode i ≡ ok (if i == s.cycle then 1 - m else m))
      → Outcome s changed_mode (ok (wake, s'))
  new_submode :
      IsSound (record s { submode = 1 - s.submode })
      → Outcome s changed_submode (ok (true, record s { submode = 1 - s.submode }))

-- Where the modes are in order, only the submode wraps around.
pub wrap-lem :
    (t : Stats)
    → t.cycle < 8
    → length t.mode ≡ 8
    → ((i m : ℕ) → read_at t.mode i ≡ ok m → m ≤ 1)
    → wrap t ≡ ok (record t { submode = if int_gtb t.submode 1 then 0 else t.submode })
wrap-lem t h len small =
    let (m, at) = read_at-Returns t.mode t.cycle (omega arith) in
    let low : int_gtb m 1 ≡ false = ground (arith, small t.cycle m at) in
    let inside : int_gtb t.cycle max_screens ≡ false = ground (arith, h) in
    rw (inside, at, low) refl

pub wrap-fault : (t : Stats) → t.cycle ≡ 8 → length t.mode ≡ 8 → wrap t ≡ fault
wrap-fault t h len =
    let inside : int_gtb t.cycle max_screens ≡ false = ground (arith, h) in
    rw (inside, read_at-out t.mode t.cycle (omega arith)) refl

pub either {ℓ κ} :
    {A : Type ℓ} {P : A → Type κ} (b : Bool) {x y : Run A}
    → Returns P x
    → Returns P y
    → Returns P (if b then x else y)
either true x y = x
either false x y = y
