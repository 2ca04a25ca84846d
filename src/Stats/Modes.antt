-- ===== src/Stats/Modes.antt =====
-- The key that changes the mode of the screen.
use g15daemon.Prelude.{
  ℕ, ◌-◌, ◌≤◌, ◌<◌, ◌≡◌, inl, inr, refl, Bool, false, ◌==◌, if◌then◌else◌, arith, Bool-cases,
  eq_of_==, ==-eq_true, subst, sym, ap, ◌∙◌, not, List, Run, ok, Returns, returns, Returns-bind,
  ◌>>=◌,
}
use g15daemon.Stats.{Stats, read_at, write_at, int_suc, int_gtb, max_screens, sensor_error}
use g15daemon.Stats.Arrays.{read_at-Returns, Written, write_at-Written, ok-injective, overwrite}
use g15daemon.Stats.Sound.{IsSound, Stays, Outcome, new_mode, either}
use g15daemon.Stats.Next.{Four, list_of, Found, nearest, none_left, get_next-Found}
use g15daemon.Stats.Choice.{available}
use g15daemon.Stats.Keyboard.{changed_mode, next_or_first, change_mode, wrap, finish}

module _ (s : Stats) (sound : IsSound s) where
  next_or_first-low :
      (id : ℕ) (lost : List ℕ)
      → id < 4
      → (f : Four) × (lost ≡ list_of f)
      → Returns (λ new. new < 4) (next_or_first id lost)
  next_or_first-low id lost h (f, e) =
      rw e (Returns-bind (get_next-Found f id h) λ new found. returns (low new found))
    where
      low : (new : ℕ) → Found (list_of f) id new → (if new == sensor_error then 0 else new) < 4
      low new (nearest h there gap) = ground (arith, h)
      low new (none_left e all) = ground (arith, e)

  choices_kept :
      (absolute : Bool) (temp_id fan_id : ℕ)
      → temp_id < 4
      → fan_id < 4
      → IsSound (record s {
        net_scale_absolute = absolute;
        sensor_temp_id = temp_id;
        sensor_fan_id = fan_id;
      })
  unfolding available
  choices_kept absolute temp_id fan_id temp fan = record {
    screen = sound.screen;
    there = sound.there;
    modes = sound.modes;
    small = sound.small;
    sub = sound.sub;
    temp_id = temp;
    fan_id = fan;
    lost_temp = sound.lost_temp;
    lost_fan = sound.lost_fan;
  }

  Kept : List ℕ → Stats → Type 0
  Kept mode t = IsSound (record t { mode = s.mode }) × Stays s t × (t.mode ≡ mode)

  as_it_was : (mode : List ℕ) → Kept mode (record s { mode = mode })
  unfolding Kept available
  as_it_was mode = (sound, record { cycle = refl; screens = λ i. refl }, refl)

  -- `change_mode` behind the change of the mode itself.
  change_mode-Kept :
      (mode : List ℕ) → Returns (λ r. Kept mode r.1) (change_mode (record s { mode = mode }))
  unfolding Kept available
  change_mode-Kept mode =
      either (s.cycle == 5)
        (either (s.have_nic)
          (returns (
            choices_kept (not s.net_scale_absolute) _ _ sound.temp_id sound.fan_id,
            record { cycle = refl; screens = λ i. refl },
            refl,
          ))
          (returns (as_it_was mode)))
        (either (s.cycle == 7)
          (Returns-bind
            (next_or_first-low s.sensor_temp_id s.sensor_lost_temp sound.temp_id sound.lost_temp)
            λ id low. returns (
              choices_kept _ id _ low sound.fan_id,
              record { cycle = refl; screens = λ i. refl },
              refl,
            ))
          (either (s.cycle == 8)
            (Returns-bind
              (next_or_first-low s.sensor_fan_id s.sensor_lost_fan sound.fan_id sound.lost_fan)
              λ id low. returns (
                choices_kept _ _ id sound.temp_id low,
                record { cycle = refl; screens = λ i. refl },
                refl,
              ))
            (either (s.cycle == 4) (returns (as_it_was mode)) (
              either (s.cycle == 3) (returns (as_it_was mode))
                (either (s.cycle == 6) (returns (as_it_was mode)) (returns (as_it_was mode)))))))

  -- What becomes of the modes.
  Toggled : List ℕ → Type 0
  Toggled mode =
      (i m : ℕ) → read_at s.mode i ≡ ok m → read_at mode i ≡ ok (if i == s.cycle then 1 - m else m)

  Changed : Stats → Type 0
  Changed t = IsSound t × Stays s t × Toggled t.mode

  module _ (m : ℕ) (at : read_at s.mode s.cycle ≡ ok m) where
    Written-Toggled : (mode : List ℕ) → Written s.mode s.cycle (1 - m) mode → Toggled mode
    unfolding Toggled
    Written-Toggled mode w i n e = elim (Bool-cases (i == s.cycle)) [
      | inl h ↦
          let same = eq_of_== i s.cycle h in
          let n_eq : m ≡ n = ok-injective (sym at ∙ subst (λ j. read_at s.mode j ≡ ok n) same e) in
          w.reads i ∙ rw (h, n_eq) refl
      | inr h ↦ w.reads i ∙ rw h e
    ]

    Written-small :
        (mode : List ℕ)
        → Written s.mode s.cycle (1 - m) mode
        → (i n : ℕ) → read_at mode i ≡ ok n
        → n ≤ 1
    Written-small mode w i n e = elim (Bool-cases (i == s.cycle)) [
      | inl h ↦ let n_eq : 1 - m ≡ n = ok-injective (sym (w.reads i ∙ rw h refl) ∙ e) in omega arith
      | inr h ↦ sound.small i n (sym (w.reads i ∙ rw h refl) ∙ e)
    ]

    wrapped-Changed :
        (t : Stats) (mode : List ℕ)
        → IsSound (record t { mode = s.mode })
        → Stays s t
        → Written s.mode s.cycle (1 - m) mode
        → Changed (record t { mode = mode })
    unfolding Changed available
    wrapped-Changed t mode old here w = (
      record {
        screen = old.screen;
        there = old.there;
        modes = w.size ∙ sound.modes;
        small = Written-small mode w;
        sub = old.sub;
        temp_id = old.temp_id;
        fan_id = old.fan_id;
        lost_temp = old.lost_temp;
        lost_fan = old.lost_fan;
      },
      record { cycle = here.cycle; screens = here.screens },
      Written-Toggled mode w,
    )

    wrap-Changed :
        (t : Stats)
        → IsSound (record t { mode = s.mode })
        → Stays s t
        → Written s.mode s.cycle (int_suc m) t.mode
        → Returns Changed (wrap t)
    wrap-Changed t old here w =
        let inside : int_gtb t.cycle max_screens ≡ false = ground (arith, old.screen) in
        let submode : int_gtb t.submode 1 ≡ false = ground (arith, old.sub) in
        let now : read_at t.mode t.cycle ≡ ok (int_suc m) =
          ap (read_at t.mode) here.cycle
          ∙ w.reads s.cycle
          ∙ rw (==-eq_true s.cycle s.cycle refl) refl in
        let low = sound.small s.cycle m at in
        rw (inside, now, submode)
          (elim (Bool-cases (int_gtb (int_suc m) 1)) [
            | inl e ↦
                let one : 0 ≡ 1 - m = ground (arith, e, low) in
                rw e (
                  Returns-bind
                    (write_at-Written t.mode t.cycle 0
                      (omega (arith, w.size, sound.modes, old.screen)))
                    λ mode w'.
                      let over = overwrite w (subst (λ i. Written t.mode i 0 mode) here.cycle w') in
                      returns (
                        wrapped-Changed t mode old here
                          (subst (λ v. Written s.mode s.cycle v mode) one over)))
            | inr e ↦
                let one : int_suc m ≡ 1 - m = ground (arith, e, low) in
                rw e (
                  returns (
                    wrapped-Changed t t.mode old here
                      (subst (λ v. Written s.mode s.cycle v t.mode) one w)))
          ])

  Changed-Outcome :
      {r : Run (Bool × Stats)} → Returns (λ p. Changed p.1) r → Outcome s changed_mode r
  unfolding Changed Toggled
  Changed-Outcome (returns (a, b, c)) = new_mode _ _ a b c

  pub mode-Outcome : Outcome s changed_mode (
      read_at s.mode s.cycle >>= λ m. write_at s.mode s.cycle (int_suc m) >>= λ mode.
      finish changed_mode (record s { mode = mode }))
  unfolding Kept
  mode-Outcome =
      let (m, at) = read_at-Returns s.mode s.cycle (omega (arith, sound.modes, sound.screen)) in
      Changed-Outcome (
        rw at (
          Returns-bind
            (write_at-Written s.mode s.cycle (int_suc m) (omega (arith, sound.modes, sound.screen)))
            λ mode w. Returns-bind (change_mode-Kept mode) λ p kept.
              Returns-bind
                (wrap-Changed m at p.1 kept.0 kept.1
                  (subst (Written s.mode s.cycle (int_suc m)) (sym kept.2) w))
                λ t changed. returns changed))
