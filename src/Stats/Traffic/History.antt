-- ===== src/Stats/Traffic/History.antt =====
-- The history of the statistics client: when a round writes behind its end.
use g15daemon.Prelude.{
  ℕ, zero, ◌+◌, ◌%◌, ◌^◌, ◌≤◌, ◌<◌, ◌≡◌, ◌≢◌, Bool, false, ◌-◌, List, [], ◌∷◌, Run, ok, fault,
}
use g15daemon.Stats.Arrays.{length}
use g15daemon.Stats.Traffic.{Load, Traffic, Watched}

-- Counters that show that something was carried.
abbrev pub Counts : (bytes_in bytes_out : ℕ) → Type 0
Counts bytes_in bytes_out = (bytes_in + bytes_out) % 2 ^ 64 ≢ 0

abbrev pub AllCount : List (Bool × Load) → Type 0
AllCount [] = zero ≡ zero
AllCount ((absolute, load) ∷ rounds) = Counts load.bytes_in load.bytes_out × AllCount rounds

-- The variables behind `n` rounds.
pub record Recorded (t : Traffic) (n : ℕ) (t' : Traffic) : Type 0 where
  pub at : t'.i ≡ t.i + n
  pub size : length t'.net_hist ≡ 107
  pub counting : Counts t'.previous_in t'.previous_out

-- How far the rounds come.
data Filled (t : Traffic) (rounds : List (Bool × Load)) : Run Traffic → Type 0 where
  in_time :
      (t' : Traffic)
      → t.i + length rounds ≤ 107
      → Recorded t (length rounds) t'
      → Filled t rounds (ok t')
  behind_the_end : 107 < t.i + length rounds → Filled t rounds fault

-- What a thread comes to that watches an interface: up to the 100th round it has returned, and each
-- round but the first has filled a place, from the 8th on.
pub data Course (rounds : ℕ) : Run Watched → Type 0 where
  in_time :
      (w : Watched)
      → rounds ≤ 100
      → w.no_nic ≡ false
      → w.traffic.i ≡ 8 + (rounds - 1)
      → length w.traffic.net_hist ≡ 107
      → Course rounds (ok w)
  behind_the_end : 100 < rounds → Course rounds fault
