-- ===== src/Tests/Statistics.antt =====
-- The statistics client with sensors and no network: L3 on the screen of the temperatures, the rotation
-- behind the screen of the swap space, a sensor with one probe, and four loads.
use g15daemon.Prelude.{
  ℕ, zero, suc, ◌+◌, ◌^◌, ◌≤◌, ◌≡◌, refl, Bool, true, false, ◌==◌, ltb, if◌then◌else◌, List, [],
  ◌∷◌, arith, ok, Returns,
}
use g15daemon.Keys.{Masks}
use g15daemon.Stats.{Stats, read_at, calc_info_cycle}
use g15daemon.Stats.Arrays.{ok-injective}
use g15daemon.Stats.Next.{Four, list_of}
use g15daemon.Stats.Choice.{available}
use g15daemon.Stats.Rotation.{Turn, calc_info_cycle-Turn}
use g15daemon.Stats.Keyboard.{keyboard_watch}
use g15daemon.Stats.Sound.{IsSound, asked, Outcome}
use g15daemon.Stats.Keys.{keyboard_watch-Outcome}
use g15daemon.Stats.Rounds.{Course, keyboard_rounds, keyboard_rounds-Course}
use g15daemon.Stats.Probes.{Machine, Sensors, temp, get_sensors}
use g15daemon.Stats.Probes.Sensed.{Sensed, get_sensors-Sensed}
use g15daemon.Stats.Traffic.{Load, Traffic}
use g15daemon.Stats.Traffic.History
use g15daemon.Tests.Service.{repeat}

abbrev once_each : Four
once_each = record { a = 1; b = 1; c = 1; e = 1 }

abbrev at_the_temperatures : Stats
at_the_temperatures = record {
  cycle = 7;
  info_cycle = 4;
  info_cycle_timer = 29;
  mode = 0 ∷ 0 ∷ 0 ∷ 0 ∷ 0 ∷ 0 ∷ 0 ∷ 0 ∷ [];
  submode = 0;
  have_freq = 2;
  have_temp = true;
  have_fan = true;
  have_bat = false;
  have_nic = false;
  net_scale_absolute = false;
  sensor_temp_id = 0;
  sensor_fan_id = 0;
  sensor_lost_temp = list_of once_each;
  sensor_lost_fan = list_of once_each;
}

zeros_small : (n i m : ℕ) → read_at (repeat n 0) i ≡ ok m → m ≤ 1
unfolding repeat
zeros_small zero i m h = absurd (ground arith)
zeros_small (suc n) zero m h = let same : 0 ≡ m = ok-injective h in omega (arith, same)
zeros_small (suc n) (suc i) m h = zeros_small n i m h

at_the_temperatures-IsSound : IsSound at_the_temperatures
unfolding available repeat
at_the_temperatures-IsSound = record {
  screen = omega arith;
  there = refl;
  modes = refl;
  small = zeros_small 8;
  sub = omega arith;
  temp_id = omega arith;
  fan_id = omega arith;
  lost_temp = (once_each, refl);
  lost_fan = (once_each, refl);
}

abbrev g15 : Masks
g15 = record { g = λ i. 2 ^ i; m = λ i. 2 ^ (18 + i); mr = 2 ^ 21; l = λ i. 2 ^ (22 + i) }

keyboard_watch-Outcome_example :
    Outcome at_the_temperatures
      (asked g15 (2 ^ 24))
      (keyboard_watch g15 (2 ^ 24) at_the_temperatures)
keyboard_watch-Outcome_example =
    keyboard_watch-Outcome g15 (2 ^ 24) at_the_temperatures at_the_temperatures-IsSound

keyboard_rounds-Course_example :
    Course at_the_temperatures
      (keyboard_rounds g15 (2 ^ 23 ∷ 2 ^ 25 ∷ 2 ^ 26 ∷ []) at_the_temperatures)
keyboard_rounds-Course_example =
    keyboard_rounds-Course g15 (2 ^ 23 ∷ 2 ^ 25 ∷ 2 ^ 26 ∷ []) at_the_temperatures
      at_the_temperatures-IsSound

calc_info_cycle-Turn_example : Turn at_the_temperatures 30 (calc_info_cycle at_the_temperatures)
calc_info_cycle-Turn_example = calc_info_cycle-Turn at_the_temperatures refl (omega arith)

-- Sensor 2 has one probe, behind the directory of its device. Floats are numbers here.
abbrev one_probe : Machine ℕ
one_probe = record {
  equal = λ a b. a == b;
  less = ltb;
  over_1000 = λ a. a;
  times_1_2 = λ a. a + a;
  nothing = 0;
  error = 1000;
  get_hwmon = λ sensor which id type.
      if sensor == 2 then if type then if id == 1 then 40 else 1000 else 1000 else 1000;
}

abbrev fresh : Sensors ℕ
fresh = record {
  sensor_id = 0;
  sensor_type = false ∷ false ∷ false ∷ false ∷ [];
  sensor_lost = list_of once_each;
  have = true;
  tot_cur = 1;
  tot_max = 1;
}

get_sensors-Sensed_example :
    Returns (Sensed one_probe temp 0 true) (get_sensors one_probe 10 temp 0 0 fresh)
get_sensors-Sensed_example =
    get_sensors-Sensed one_probe temp 0 10 fresh (omega arith) refl refl (omega arith) (omega arith)

abbrev at_start : Traffic
at_start = record {
  i = 0;
  previous_in = 0;
  previous_out = 0;
  net_hist = repeat 107 (record { bytes_in = 0; bytes_out = 0 });
  net_cur_in = 0;
  net_cur_out = 0;
  net_max_in = 100;
  net_max_out = 100;
  net_rr_index = 0;
}

abbrev address : List ℕ
address = 0 ∷ 26 ∷ 43 ∷ 60 ∷ 77 ∷ 94 ∷ 0 ∷ 0 ∷ []

abbrev loads : List (Bool × Load)
loads =
    (false, record { bytes_in = 5; bytes_out = 2 })
    ∷ (true, record { bytes_in = 7; bytes_out = 2 })
    ∷ (true, record { bytes_in = 9; bytes_out = 4 })
    ∷ []
