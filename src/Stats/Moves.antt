-- ===== src/Stats/Moves.antt =====
-- The keys that change the screen, and the one that changes the submode.
use g15daemon.Prelude.{
  ℕ, ◌+◌, ◌-◌, ◌≤◌, ◌<◌, ◌≡◌, ◌⊎◌, inl, inr, true, ◌==◌, if◌then◌else◌, arith, Bool-cases, eq_of_==,
  subst, ap, ◌∙◌, ok, fault, ◌>>=◌,
}
use g15daemon.Stats.{Stats, int_suc, int_pred, int_gtb, negative, max_screens}
use g15daemon.Stats.Sound.{
  IsSound, before, Outcome, went_up, went_down, up_to_fan, down_to_fan, new_submode, wrap-lem,
  wrap-fault,
}
use g15daemon.Stats.Choice.{
  available, available-low, Lowest, lowest, around, Highest, up_from-Lowest, down_from-Highest,
}
use g15daemon.Stats.Keyboard.{up, down, changed_submode, turn_to, to_screen, wrap, finish}

module _ (s : Stats) (sound : IsSound s) where
  turn_to-IsSound : (c : ℕ) → c < 8 → available s c ≡ true → IsSound (turn_to s c)
  unfolding available
  turn_to-IsSound c h at = record {
    screen = h;
    there = at;
    modes = sound.modes;
    small = sound.small;
    sub = sound.sub;
    temp_id = sound.temp_id;
    fan_id = sound.fan_id;
    lost_temp = sound.lost_temp;
    lost_fan = sound.lost_fan;
  }

  same_submode :
      (c : ℕ)
      → ok (record (turn_to s c) { submode = if int_gtb s.submode 1 then 0 else s.submode })
        ≡ ok (turn_to s c)
  same_submode c =
      let same : (if int_gtb s.submode 1 then 0 else s.submode) ≡ s.submode =
        ground (arith, sound.sub) in
      ap (λ x. ok (record (turn_to s c) { submode = x })) same

  turn_to-wrap :
      (c : ℕ)
      → c ≤ 8
      → available s c ≡ true
      → (IsSound (turn_to s c) × (wrap (turn_to s c) ≡ ok (turn_to s c)))
        ⊎ ((c ≡ 8) × (wrap (turn_to s c) ≡ fault))
  turn_to-wrap c h at = elim (Bool-cases (c == 8)) [
    | inl e ↦ inr (eq_of_== c 8 e, wrap-fault (turn_to s c) (eq_of_== c 8 e) sound.modes)
    | inr e ↦
        let low : c < 8 = ground (arith, e, h) in
        inl (
          turn_to-IsSound c low at,
          wrap-lem (turn_to s c) low sound.modes sound.small ∙ same_submode c,
        )
  ]

  up-reached :
      (c : ℕ)
      → Lowest s (s.cycle + 1) c
      → c ≤ 8
      → available s c ≡ true
      → Outcome s up (wrap (turn_to s c) >>= λ t. ok (true, t))
  up-reached c l h at = elim (turn_to-wrap c h at) [
    | inl (new, e) ↦ rw e (went_up c l new)
    | inr (last, e) ↦ rw e (up_to_fan (subst (Lowest s (s.cycle + 1)) last l))
  ]

  up-by_Lowest :
      (c : ℕ) → Lowest s (s.cycle + 1) c → Outcome s up (wrap (turn_to s c) >>= λ t. ok (true, t))
  up-by_Lowest c (lowest low high at gap) = up-reached c (lowest low high at gap) high at
  up-by_Lowest c (around start gap) =
      up-reached c (around start gap) (omega arith) (available-low s c (omega arith))

  pub up-Outcome : Outcome s up (finish up (to_screen s (int_suc s.cycle)))
  up-Outcome =
      let inside = sound.screen in
      let next : s.cycle + 1 ≡ int_suc s.cycle = omega arith in
      subst (λ n. Outcome s up (finish up (to_screen s n))) next
        (up-by_Lowest _ (up_from-Lowest s (s.cycle + 1) (omega arith)))

  down-reached :
      (c : ℕ)
      → Highest s (before s.cycle) c
      → c ≤ 8
      → Outcome s down (wrap (turn_to s c) >>= λ t. ok (true, t))
  down-reached c l h = elim (turn_to-wrap c h l.there) [
    | inl (new, e) ↦ rw e (went_down c l new)
    | inr (last, e) ↦ rw e (down_to_fan (subst (Highest s (before s.cycle)) last l))
  ]

  pub down-Outcome : Outcome s down (finish down (to_screen s (int_pred s.cycle)))
  down-Outcome =
      let inside = sound.screen in
      let from : (if negative (int_pred s.cycle) then max_screens else int_pred s.cycle)
          ≡ before s.cycle =
        ground (arith, inside) in
      let low : before s.cycle ≤ 8 = ground (arith, inside) in
      let l = down_from-Highest s (before s.cycle) low in
      rw from (down-reached _ l (omega (arith, l.below)))

  pub submode-Outcome :
      Outcome s changed_submode (finish changed_submode (record s { submode = int_suc s.submode }))
  unfolding available
  submode-Outcome =
      let new : (if int_gtb (int_suc s.submode) 1 then 0 else int_suc s.submode) ≡ 1 - s.submode =
        ground (arith, sound.sub) in
      rw
        (
          wrap-lem (record s { submode = int_suc s.submode }) sound.screen sound.modes sound.small,
          new,
        )
        (new_submode (record {
          screen = sound.screen;
          there = sound.there;
          modes = sound.modes;
          small = sound.small;
          sub = omega arith;
          temp_id = sound.temp_id;
          fan_id = sound.fan_id;
          lost_temp = sound.lost_temp;
          lost_fan = sound.lost_fan;
        }))
