-- ===== src/Stats/Choice.antt =====
-- Which screen a key chooses, out of those that there are.
use g15daemon.Prelude.{
  ℕ, zero, suc, ◌+◌, ◌≤◌, ◌<◌, ◌≡◌, inl, inr, refl, Bool, true, false, ltb, ◌==◌, if◌then◌else◌,
  arith, Bool-cases,
}
use g15daemon.Stats.{Stats, int_gtb, max_screens}
use g15daemon.Stats.Keyboard.{
  up_fan, up_temp, up_bat, up_net, up_from, down_fan, down_temp, down_bat, down_net, down_from,
}

-- Whether there is the screen: the first five always are.
unfoldable pub available : Stats → ℕ → Bool
available s i =
    if i == 5
    then s.have_nic
    else if i == 6
    then s.have_bat
    else if i == 7
    then s.have_temp
    else if i == 8
    then s.have_fan
    else ltb i 5

-- The first screen from `from` on that there is, or screen 0 behind the last.
pub data Lowest (s : Stats) (from c : ℕ) : Type 0 where
  lowest :
      from ≤ c
      → c ≤ 8
      → available s c ≡ true
      → ((i : ℕ) → from ≤ i → i < c → available s i ≡ false)
      → Lowest s from c
  around : c ≡ 0 → ((i : ℕ) → from ≤ i → i ≤ 8 → available s i ≡ false) → Lowest s from c

-- The last screen up to `upto` that there is.
pub record Highest (s : Stats) (upto c : ℕ) : Type 0 where
  pub below : c ≤ upto
  pub there : available s c ≡ true
  pub none_above : (i : ℕ) → c < i → i ≤ upto → available s i ≡ false

module _ (s : Stats) where
  pub available-low : (i : ℕ) → i < 5 → available s i ≡ true
  unfolding available
  available-low i h = ground arith

  -- No screen from `from` to before `upto`.
  NoneIn : (from upto : ℕ) → Type 0
  NoneIn from upto = (i : ℕ) → from ≤ i → i < upto → available s i ≡ false

  NoneIn-empty : (from upto : ℕ) → upto ≤ from → NoneIn from upto
  unfolding NoneIn
  NoneIn-empty from upto h i low high = absurd (omega arith)

  NoneIn-suc : (from c : ℕ) → NoneIn from c → available s c ≡ false → NoneIn from (c + 1)
  unfolding NoneIn
  NoneIn-suc from c none off i low high = elim (Bool-cases (ltb i c)) [
    | inl e ↦ none i low (ground (arith, e))
    | inr e ↦ let same : i ≡ c = ground (arith, e, high) in rw same off
  ]

  NoneIn-pred : (c upto : ℕ) → NoneIn (c + 1) upto → available s c ≡ false → NoneIn c upto
  unfolding NoneIn
  NoneIn-pred c upto none off i low high = elim (Bool-cases (ltb c i)) [
    | inl e ↦ none i (ground (arith, e)) high
    | inr e ↦ let same : i ≡ c = ground (arith, e, low) in rw same off
  ]

  -- One case of the switch upwards.
  pick_up :
      (from c : ℕ) (b : Bool) (next : ℕ)
      → available s c ≡ b
      → from ≤ c
      → c ≤ 8
      → NoneIn from c
      → (NoneIn from (c + 1) → Lowest s from next)
      → Lowest s from (if b then c else next)
  unfolding NoneIn
  pick_up from c true next at h le none more = lowest h le at none
  pick_up from c false next at h le none more = more (NoneIn-suc from c none at)

  fan-Lowest : (from : ℕ) → from ≤ 8 → NoneIn from 8 → Lowest s from (up_fan s 8)
  unfolding available NoneIn
  fan-Lowest from h none =
      pick_up from 8 s.have_fan 0 refl h (omega arith) none
        λ all. around refl λ i low high. all i low (omega arith)

  temp-Lowest : (from : ℕ) → from ≤ 7 → NoneIn from 7 → Lowest s from (up_temp s 7)
  unfolding available
  temp-Lowest from h none =
      pick_up from 7 s.have_temp (up_fan s 8) refl h (omega arith) none
        (fan-Lowest from (omega arith))

  bat-Lowest : (from : ℕ) → from ≤ 6 → NoneIn from 6 → Lowest s from (up_bat s 6)
  unfolding available
  bat-Lowest from h none =
      pick_up from 6 s.have_bat (up_temp s 7) refl h (omega arith) none
        (temp-Lowest from (omega arith))

  net-Lowest : (from : ℕ) → from ≤ 5 → NoneIn from 5 → Lowest s from (up_net s 5)
  unfolding available
  net-Lowest from h none =
      pick_up from 5 s.have_nic (up_bat s 6) refl h (omega arith) none
        (bat-Lowest from (omega arith))

  low-Lowest : (from : ℕ) → from < 5 → Lowest s from from
  unfolding NoneIn
  low-Lowest from h =
      lowest (omega arith) (omega arith) (available-low from h)
        (NoneIn-empty from from (omega arith))

  -- The switch upwards finds the next screen.
  pub up_from-Lowest :
      (from : ℕ)
      → from ≤ 9
      → Lowest s from (up_from s (if int_gtb from max_screens then 0 else from))
  up_from-Lowest zero h = low-Lowest 0 (omega arith)
  up_from-Lowest (suc zero) h = low-Lowest 1 (omega arith)
  up_from-Lowest (suc (suc zero)) h = low-Lowest 2 (omega arith)
  up_from-Lowest (suc (suc (suc zero))) h = low-Lowest 3 (omega arith)
  up_from-Lowest (suc (suc (suc (suc zero)))) h = low-Lowest 4 (omega arith)
  up_from-Lowest (suc (suc (suc (suc (suc zero))))) h =
      net-Lowest 5 (omega arith) (NoneIn-empty 5 5 (omega arith))
  up_from-Lowest (suc (suc (suc (suc (suc (suc zero)))))) h =
      bat-Lowest 6 (omega arith) (NoneIn-empty 6 6 (omega arith))
  up_from-Lowest (suc (suc (suc (suc (suc (suc (suc zero))))))) h =
      temp-Lowest 7 (omega arith) (NoneIn-empty 7 7 (omega arith))
  up_from-Lowest (suc (suc (suc (suc (suc (suc (suc (suc zero)))))))) h =
      fan-Lowest 8 (omega arith) (NoneIn-empty 8 8 (omega arith))
  up_from-Lowest (suc (suc (suc (suc (suc (suc (suc (suc (suc zero))))))))) h =
      around refl λ i low high. absurd (omega arith)
  up_from-Lowest (suc (suc (suc (suc (suc (suc (suc (suc (suc (suc i)))))))))) h =
      absurd (omega arith)

  -- One case of the switch downwards.
  pick_down :
      (upto c : ℕ) (b : Bool) (next : ℕ)
      → available s c ≡ b
      → c ≤ upto
      → NoneIn (c + 1) (upto + 1)
      → (NoneIn c (upto + 1) → Highest s upto next)
      → Highest s upto (if b then c else next)
  unfolding NoneIn
  pick_down upto c true next at h none more = record {
    below = h;
    there = at;
    none_above = λ i low high. none i (omega arith) (omega arith);
  }
  pick_down upto c false next at h none more = more (NoneIn-pred c (upto + 1) none at)

  low-Highest : (upto c : ℕ) → c < 5 → c ≤ upto → NoneIn (c + 1) (upto + 1) → Highest s upto c
  unfolding NoneIn
  low-Highest upto c h le none = record {
    below = le;
    there = available-low c h;
    none_above = λ i low high. none i (omega arith) (omega arith);
  }

  net-Highest : (upto : ℕ) → 5 ≤ upto → NoneIn 6 (upto + 1) → Highest s upto (down_net s 5)
  unfolding available
  net-Highest upto h none =
      pick_down upto 5 s.have_nic 4 refl h none (low-Highest upto 4 (omega arith) (omega arith))

  bat-Highest : (upto : ℕ) → 6 ≤ upto → NoneIn 7 (upto + 1) → Highest s upto (down_bat s 6)
  unfolding available
  bat-Highest upto h none =
      pick_down upto 6 s.have_bat (down_net s 5) refl h none (net-Highest upto (omega arith))

  temp-Highest : (upto : ℕ) → 7 ≤ upto → NoneIn 8 (upto + 1) → Highest s upto (down_temp s 7)
  unfolding available
  temp-Highest upto h none =
      pick_down upto 7 s.have_temp (down_bat s 6) refl h none (bat-Highest upto (omega arith))

  fan-Highest : Highest s 8 (down_fan s 8)
  unfolding available
  fan-Highest =
      pick_down 8 8 s.have_fan (down_temp s 7) refl (omega arith) (NoneIn-empty 9 9 (omega arith))
        (temp-Highest 8 (omega arith))

  -- The switch downwards finds the screen before.
  pub down_from-Highest : (upto : ℕ) → upto ≤ 8 → Highest s upto (down_from s upto)
  down_from-Highest zero h =
      low-Highest 0 0 (omega arith) (omega arith) (NoneIn-empty 1 1 (omega arith))
  down_from-Highest (suc zero) h =
      low-Highest 1 1 (omega arith) (omega arith) (NoneIn-empty 2 2 (omega arith))
  down_from-Highest (suc (suc zero)) h =
      low-Highest 2 2 (omega arith) (omega arith) (NoneIn-empty 3 3 (omega arith))
  down_from-Highest (suc (suc (suc zero))) h =
      low-Highest 3 3 (omega arith) (omega arith) (NoneIn-empty 4 4 (omega arith))
  down_from-Highest (suc (suc (suc (suc zero)))) h =
      low-Highest 4 4 (omega arith) (omega arith) (NoneIn-empty 5 5 (omega arith))
  down_from-Highest (suc (suc (suc (suc (suc zero))))) h =
      net-Highest 5 (omega arith) (NoneIn-empty 6 6 (omega arith))
  down_from-Highest (suc (suc (suc (suc (suc (suc zero)))))) h =
      bat-Highest 6 (omega arith) (NoneIn-empty 7 7 (omega arith))
  down_from-Highest (suc (suc (suc (suc (suc (suc (suc zero))))))) h =
      temp-Highest 7 (omega arith) (NoneIn-empty 8 8 (omega arith))
  down_from-Highest (suc (suc (suc (suc (suc (suc (suc (suc zero)))))))) h = fan-Highest
  down_from-Highest (suc (suc (suc (suc (suc (suc (suc (suc (suc i))))))))) h = absurd (omega arith)
