-- ===== src/Stats/Rotation.antt =====
-- Which screen the line at the bottom is about, where it rotates.
use g15daemon.Prelude.{
  ℕ, zero, suc, ◌+◌, ◌-◌, ◌*◌, ◌/◌, ◌^◌, ◌≤◌, ◌<◌, ◌≡◌, inl, inr, refl, Bool, true, false, ltb,
  ◌==◌, ◌!=◌, if◌then◌else◌, arith, Bool-cases, ==-eq_true, ==-eq_false, subst, sym,
}
use g15daemon.Stats.{
  Stats, int_suc, pause, show, later, info_net2, info_fan, info_temp, info_bat, info_net, info_freq,
  turn, info_switch, calc_info_cycle,
}

-- Whether the line may be about the screen.
unfoldable pub has_info : Stats → ℕ → Bool
has_info s i =
    if i == 2
    then s.have_freq != 0
    else if i == 5
    then s.have_nic
    else if i == 6
    then s.have_bat
    else if i == 7
    then s.have_temp
    else if i == 8
    then s.have_fan
    else if i == 9
    then s.have_nic
    else ltb i 5

-- What becomes of a timer that stands at `timer`: the first screen from the one whose turn it is, with
-- the timer as far into its turn, or the start.
pub data Turn (s : Stats) (timer : ℕ) (s' : Stats) : Type 0 where
  shown :
      (screen : ℕ)
      → timer / pause ≤ screen
      → screen ≤ 9
      → has_info s screen ≡ true
      → ((i : ℕ) → timer / pause ≤ i → i < screen → has_info s i ≡ false)
      → s' ≡ show s (timer + (screen - timer / pause) * pause) screen
      → Turn s timer s'
  restarted :
      ((i : ℕ) → timer / pause ≤ i → i ≤ 9 → has_info s i ≡ false)
      → s' ≡ show s 0 0
      → Turn s timer s'

if-eq_then {ℓ} : {A : Type ℓ} (b : Bool) {x : A} (y : A) → b ≡ true → (if b then x else y) ≡ x
if-eq_then b y h = rw h refl

info_switch-beyond : (s : Stats) (timer c : ℕ) → 10 ≤ c → info_switch s timer c ≡ show s 0 0
info_switch-beyond s timer c h =
    let not_at : (i : ℕ) → i < 10 → (c == i) ≡ false = λ i hi. ==-eq_false c i (omega arith) in
    rw
      (
        not_at 0 (omega arith),
        not_at 1 (omega arith),
        not_at 2 (omega arith),
        not_at 3 (omega arith),
        not_at 4 (omega arith),
        not_at 5 (omega arith),
        not_at 6 (omega arith),
        not_at 7 (omega arith),
        not_at 8 (omega arith),
        not_at 9 (omega arith),
      )
      refl

module _ (s : Stats) (timer : ℕ) (small : timer < 2 ^ 31) where
  NoneTo : ℕ → Type 0
  NoneTo c = (i : ℕ) → timer / pause ≤ i → i < c → has_info s i ≡ false

  NoneTo-suc : (c : ℕ) → NoneTo c → has_info s c ≡ false → NoneTo (c + 1)
  unfolding NoneTo
  NoneTo-suc c none off i low high = elim (Bool-cases (ltb i c)) [
    | inl e ↦ none i low (ground (arith, e))
    | inr e ↦ let same : i ≡ c = ground (arith, e, high) in rw same off
  ]

  NoneTo-start : (c : ℕ) → c ≤ timer / pause → NoneTo c
  unfolding NoneTo
  NoneTo-start c h i low high = absurd (omega arith)

  -- The timer where the switch is at the screen `c`.
  moved : ℕ → ℕ
  moved c = timer + (c - timer / pause) * pause

  later-moved : (c : ℕ) → timer / pause ≤ c → c ≤ 9 → later (moved c) ≡ moved (c + 1)
  unfolding moved
  later-moved c h le = omega arith

  show-Turn :
      (c : ℕ)
      → timer / pause ≤ c
      → c ≤ 9
      → has_info s c ≡ true
      → NoneTo c
      → Turn s timer (show s (moved c) c)
  unfolding NoneTo moved
  show-Turn c h le at none = shown c h le at none refl

  -- One case of the switch.
  pick_info :
      (c : ℕ) (b : Bool) (next : ℕ → Stats)
      → has_info s c ≡ b
      → timer / pause ≤ c
      → c ≤ 9
      → NoneTo c
      → (NoneTo (c + 1) → Turn s timer (next (moved (c + 1))))
      → Turn s timer (if b then show s (moved c) c else next (later (moved c)))
  pick_info c true next at h le none more = show-Turn c h le at none
  pick_info c false next at h le none more = rw (later-moved c h le) (more (NoneTo-suc c none at))

  net2-Turn : timer / pause ≤ 9 → NoneTo 9 → Turn s timer (info_net2 s (moved 9))
  unfolding has_info NoneTo
  net2-Turn h none =
      pick_info 9 s.have_nic (λ t. show s 0 0) refl h (omega arith) none
        λ all. restarted (λ i low high. all i low (omega arith)) refl

  fan-Turn : timer / pause ≤ 8 → NoneTo 8 → Turn s timer (info_fan s (moved 8))
  unfolding has_info
  fan-Turn h none =
      pick_info 8 s.have_fan (info_net2 s) refl h (omega arith) none (net2-Turn (omega arith))

  temp-Turn : timer / pause ≤ 7 → NoneTo 7 → Turn s timer (info_temp s (moved 7))
  unfolding has_info
  temp-Turn h none =
      pick_info 7 s.have_temp (info_fan s) refl h (omega arith) none (fan-Turn (omega arith))

  bat-Turn : timer / pause ≤ 6 → NoneTo 6 → Turn s timer (info_bat s (moved 6))
  unfolding has_info
  bat-Turn h none =
      pick_info 6 s.have_bat (info_temp s) refl h (omega arith) none (temp-Turn (omega arith))

  net-Turn : timer / pause ≤ 5 → NoneTo 5 → Turn s timer (info_net s (moved 5))
  unfolding has_info
  net-Turn h none =
      pick_info 5 s.have_nic (info_bat s) refl h (omega arith) none (bat-Turn (omega arith))

  freq-Turn : timer / pause ≤ 2 → NoneTo 2 → Turn s timer (info_freq s (moved 2))
  unfolding has_info
  freq-Turn h none =
      pick_info 2 (s.have_freq != 0) (λ t. show s t 3) refl h (omega arith) none
        (show-Turn 3 (omega arith) (omega arith) refl)

  moved-turn : moved (timer / pause) ≡ timer
  unfolding moved
  moved-turn = omega arith

  switch_from : (c : ℕ) → timer / pause ≡ c → Turn s timer (info_switch s (moved c) c)
  unfolding has_info
  switch_from zero h = show-Turn 0 (omega arith) (omega arith) refl (NoneTo-start 0 (omega arith))
  switch_from (suc zero) h =
      show-Turn 1 (omega arith) (omega arith) refl (NoneTo-start 1 (omega arith))
  switch_from (suc (suc zero)) h = freq-Turn (omega arith) (NoneTo-start 2 (omega arith))
  switch_from (suc (suc (suc zero))) h =
      show-Turn 3 (omega arith) (omega arith) refl (NoneTo-start 3 (omega arith))
  switch_from (suc (suc (suc (suc zero)))) h =
      show-Turn 4 (omega arith) (omega arith) refl (NoneTo-start 4 (omega arith))
  switch_from (suc (suc (suc (suc (suc zero))))) h =
      net-Turn (omega arith) (NoneTo-start 5 (omega arith))
  switch_from (suc (suc (suc (suc (suc (suc zero)))))) h =
      bat-Turn (omega arith) (NoneTo-start 6 (omega arith))
  switch_from (suc (suc (suc (suc (suc (suc (suc zero))))))) h =
      temp-Turn (omega arith) (NoneTo-start 7 (omega arith))
  switch_from (suc (suc (suc (suc (suc (suc (suc (suc zero)))))))) h =
      fan-Turn (omega arith) (NoneTo-start 8 (omega arith))
  switch_from (suc (suc (suc (suc (suc (suc (suc (suc (suc zero))))))))) h =
      net2-Turn (omega arith) (NoneTo-start 9 (omega arith))
  switch_from (suc (suc (suc (suc (suc (suc (suc (suc (suc (suc i)))))))))) h =
      restarted (λ j low high. absurd (omega arith))
        (info_switch-beyond s (moved (suc (suc (suc (suc (suc (suc (suc (suc (suc (suc i)))))))))))
          (suc (suc (suc (suc (suc (suc (suc (suc (suc (suc i)))))))))) (omega arith))

  switch-Turn : Turn s timer (info_switch s timer (turn timer))
  switch-Turn =
      let at : timer / pause ≡ turn timer = ground (arith, small) in
      let from = switch_from (timer / pause) refl in
      let there = subst (λ t. Turn s timer (info_switch s t (timer / pause))) moved-turn from in
      subst (λ c. Turn s timer (info_switch s timer c)) at there

-- Where the line rotates and the timer does not overflow, it is about the first screen there is from
-- the one whose turn it is, with the timer in that screen's turn, or starts again behind the last.
pub calc_info_cycle-Turn :
    (s : Stats)
    → s.submode ≡ 0
    → int_suc s.info_cycle_timer < 2 ^ 31
    → Turn s (int_suc s.info_cycle_timer) (calc_info_cycle s)
unfolding calc_info_cycle
calc_info_cycle-Turn s rotates small =
    let timer = int_suc s.info_cycle_timer in
    subst (Turn s timer) (sym (if-eq_then _ _ (==-eq_true s.submode 0 rotates)))
      (switch-Turn s timer small)
