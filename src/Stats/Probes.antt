-- ===== src/Stats/Probes.antt =====
-- `get_sensors` of the statistics client: the probes of a sensor of the temperature or the fans are
-- read, and a sensor without any is given up for the next. What a file of the kernel says and the
-- arithmetic of floats are arguments.
pub mod Weigh
pub mod Read
pub mod Sensed
use g15daemon.Prelude.{
  ℕ, zero, suc, ◌+◌, ◌≤◌, ◌<◌, Bool, true, false, ◌&&◌, ◌||◌, not, ltb, leb, ◌==◌, ◌!=◌,
  if◌then◌else◌, List, [], ◌∷◌, ◌++◌, Run, ok, fault, out_of_fuel, ◌>>=◌,
}
use g15daemon.Stats.{read_at, write_at, negative, int_pred, max_sensor, sensor_error, get_next}

-- `SCREEN_TEMP` and `SCREEN_FAN`
pub data Kind : Type 0 where
  temp fan : Kind

-- The file of a probe: `input`, and `max` or `alarm`.
pub data Which : Type 0 where
  input limit : Which

pub record Machine (Float : Type 0) : Type 0 where
  pub equal : Float → Float → Bool
  pub less : Float → Float → Bool
  pub over_1000 : Float → Float
  pub times_1_2 : Float → Float
  pub nothing : Float
  pub error : Float
  -- `get_hwmon(sensor_id, ..., which, id, sensor_type)`
  pub get_hwmon : (sensor_id : ℕ) → Which → (id : ℕ) → (sensor_type : Bool) → Float

-- The variables of the sensors of one kind.
pub record Sensors (Float : Type 0) : Type 0 where
  pub sensor_id : ℕ
  pub sensor_type : List Bool
  pub sensor_lost : List ℕ
  pub have : Bool
  pub tot_cur : Float
  pub tot_max : Float

-- `g15_stats_info`
pub record Info (Float : Type 0) : Type 0 where
  pub cur : Float
  pub max : Float

-- The loop's outcome: `count`, `sensors[count].cur` (of the last probe where all are read), the probes
-- that are read, and the variables.
pub record Reading (Float : Type 0) : Type 0 where
  pub count : ℕ
  pub cur : Float
  pub infos : List (Info Float)
  pub state : Sensors Float

-- What `get_sensors` returns and leaves.
pub record Result (Float : Type 0) : Type 0 where
  pub count : ℕ
  pub infos : List (Info Float)
  pub state : Sensors Float

module _ {Float : Type 0} (m : Machine Float) where
  -- `get_sensor_cur` and `get_sensor_max`
  abbrev pub get_sensor : Which → (id : ℕ) → Sensors Float → Run Float
  get_sensor which id s =
      read_at s.sensor_type s.sensor_id >>= λ type. ok (m.get_hwmon s.sensor_id which id type)

  -- The unit of the display.
  abbrev pub scaled : Kind → Info Float → Info Float
  scaled temp i = record { cur = m.over_1000 i.cur; max = m.over_1000 i.max }
  scaled fan i = i

  -- The greatest values; `main` is `sensor_temp_main`.
  abbrev pub totals : Kind → (main id : ℕ) → Info Float → Sensors Float → Sensors Float
  totals temp main id i s = record s {
    tot_max = if m.less s.tot_max i.max then i.max else s.tot_max;
    tot_cur = if (main == id) || ((main == 0) && m.less s.tot_cur i.cur) then i.cur else s.tot_cur;
  }
  totals fan main id i s =
      let cur = if m.less s.tot_cur i.cur then i.cur else s.tot_cur in
      record s {
        tot_cur = cur;
        tot_max = if m.less s.tot_max cur then m.times_1_2 cur else s.tot_max;
      }

  -- The loop over the probes; `left` of the `NUM_PROBES` are still to come.
  unfoldable pub read_probes :
      Kind
      → (main : ℕ) → (left count : ℕ) → (cur : Float) → List (Info Float)
      → Sensors Float
      → Run (Reading Float)
  read_probes kind main zero count cur infos s =
      ok (record { count = count; cur = cur; infos = infos; state = s })
  read_probes kind main (suc left) count cur infos s = get_sensor input (count + 1) s >>= λ now.
      if m.equal now m.error
      then ok (record { count = count; cur = now; infos = infos; state = s })
      else (get_sensor limit (count + 1) s >>= λ max.
          let i = scaled kind (record { cur = now; max = max }) in
          read_probes kind main left (count + 1) i.cur (infos ++ (i ∷ []))
            (totals kind main (count + 1) i s))

  -- `count` at the end; `NUM_PROBES` is 4.
  abbrev pub final_count : Reading Float → ℕ
  final_count r =
      if leb 4 r.count then 4 else if not (m.equal r.cur m.error) then r.count + 1 else r.count

  -- `sensor_lost[sensor_id]--`, and 0 where that is negative.
  abbrev pub give_up : ℕ → ℕ
  give_up lost = if negative (int_pred lost) then 0 else int_pred lost

  -- The end of `get_sensors` where no probe can be read; `again` is its call of itself.
  abbrev pub next_sensor :
      (again : ℕ → Sensors Float → Run (Result Float))
      → (sensor_id : ℕ) → Sensors Float
      → Run (Result Float)
  next_sensor again sensor_id s = read_at s.sensor_type sensor_id >>= λ type.
      if type
      then (read_at s.sensor_lost sensor_id >>= λ lost.
          write_at s.sensor_lost sensor_id (give_up lost) >>= λ sensor_lost.
          get_next max_sensor sensor_id sensor_lost >>= λ new.
          let s' = record s { sensor_lost = sensor_lost; sensor_id = new } in
          if new != sensor_error
          then again new s'
          else ok (record { count = 0; infos = []; state = record s' { have = false } }))
      else (write_at s.sensor_type sensor_id true >>= λ sensor_type.
          again sensor_id (record s { sensor_type = sensor_type }))

  unfoldable pub get_sensors :
      (fuel : ℕ) → Kind → (main : ℕ) → (sensor_id : ℕ) → Sensors Float → Run (Result Float)
  get_sensors zero kind main sensor_id s = out_of_fuel
  get_sensors (suc fuel) kind main sensor_id s =
      read_probes kind main 4 0 m.nothing [] (record s { tot_cur = m.nothing }) >>= λ r.
      if (r.count == 0) && m.equal r.cur m.error
      then next_sensor (get_sensors fuel kind main) sensor_id r.state
      else ok (record { count = final_count r; infos = r.infos; state = r.state })
