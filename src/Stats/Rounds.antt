-- ===== src/Stats/Rounds.antt =====
-- Any sequence of keys, from the variables as the statistics client starts with them.
use g15daemon.Prelude.{
  ℕ, ◌≡◌, refl, sym, ◌∙◌, Bool, true, List, [], ◌∷◌, arith, Run, ok, fault, ◌>>=◌,
}
use g15daemon.Keys.{Masks}
use g15daemon.Stats.{Stats}
use g15daemon.Stats.Choice.{available, lowest, around}
use g15daemon.Stats.Keyboard.{Change, keyboard_watch}
use g15daemon.Stats.Sound.{
  IsSound, asked, Outcome, none, went_up, went_down, up_to_fan, down_to_fan, new_mode, new_submode,
}
use g15daemon.Stats.Keys.{keyboard_watch-Outcome}

-- The loop of `keyboard_watch`, on what each `recv` leaves in the buffer.
unfoldable pub keyboard_rounds : Masks → List ℕ → Stats → Run Stats
keyboard_rounds k [] s = ok s
keyboard_rounds k (keystate ∷ keystates) s =
    keyboard_watch k keystate s >>= λ r. keyboard_rounds k keystates r.1

-- What a sequence of keys comes to.
pub data Course (s : Stats) : Run Stats → Type 0 where
  in_order :
      (s' : Stats) → IsSound s' → ((i : ℕ) → available s' i ≡ available s i) → Course s (ok s')
  at_the_fans : available s 8 ≡ true → Course s fault

module _ (k : Masks) (keystates : List ℕ)
    (rest : (t : Stats) → IsSound t → Course t (keyboard_rounds k keystates t)) where
  goes_on :
      (s t : Stats)
      → IsSound t
      → ((i : ℕ) → available t i ≡ available s i)
      → Course s (keyboard_rounds k keystates t)
  goes_on s t sound same = later (keyboard_rounds k keystates t) (rest t sound)
    where
      later : (r : Run Stats) → Course t r → Course s r
      later r (in_order s' sound' same') = in_order s' sound' λ i. same' i ∙ same i
      later r (at_the_fans h) = at_the_fans (sym (same 8) ∙ h)

  Outcome-Course :
      (s : Stats) (c : Change) (r : Run (Bool × Stats))
      → IsSound s
      → Outcome s c r
      → Course s (r >>= λ p. keyboard_rounds k keystates p.1)
  unfolding available
  Outcome-Course s c r sound none = goes_on s s sound λ i. refl
  Outcome-Course s c r sound (went_up screen l new) = goes_on s _ new λ i. refl
  Outcome-Course s c r sound (went_down screen l new) = goes_on s _ new λ i. refl
  Outcome-Course s c r sound (up_to_fan (lowest low high there gap)) = at_the_fans there
  Outcome-Course s c r sound (up_to_fan (around e gap)) = absurd (omega arith)
  Outcome-Course s c r sound (down_to_fan l) = at_the_fans l.there
  Outcome-Course s c r sound (new_mode wake s' new stays toggled) = goes_on s s' new stays.screens
  Outcome-Course s c r sound (new_submode new) = goes_on s _ new λ i. refl

-- From variables in order, any sequence of keys leaves them in order, with the screens that there are
-- the same; or a round accesses an array outside, and then there is a screen of the fans.
pub keyboard_rounds-Course :
    (k : Masks) (keystates : List ℕ) (s : Stats)
    → IsSound s
    → Course s (keyboard_rounds k keystates s)
unfolding keyboard_rounds
keyboard_rounds-Course k [] s sound = in_order s sound λ i. refl
keyboard_rounds-Course k (keystate ∷ keystates) s sound =
    Outcome-Course k keystates (keyboard_rounds-Course k keystates) s (asked k keystate)
      (keyboard_watch k keystate s) sound (keyboard_watch-Outcome k keystate s sound)
