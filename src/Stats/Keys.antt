-- ===== src/Stats/Keys.antt =====
-- What a key does to the variables of the statistics client.
use g15daemon.Prelude.{
  ℕ, ◌≡◌, refl, Bool, true, false, if◌then◌else◌, subst, sym, List, Run, ok, fault, out_of_fuel,
  ◌>>=◌,
}
use g15daemon.Keys.{Masks, pressed}
use g15daemon.Stats.{Stats, read_at, write_at, int_suc, int_pred}
use g15daemon.Stats.Sound.{IsSound, asked_by, asked, Outcome, none}
use g15daemon.Stats.Moves.{up-Outcome, down-Outcome, submode-Outcome}
use g15daemon.Stats.Modes.{mode-Outcome}
use g15daemon.Stats.Keyboard.{
  Change, unchanged, up, down, changed_mode, changed_submode, to_screen, read_key, finish,
  keyboard_watch,
}

rebind_ok :
    (r : Run (List ℕ)) (g : List ℕ → Change × Stats) (k : Change × Stats → Run (Bool × Stats))
    → ((r >>= λ x. ok (g x)) >>= k) ≡ (r >>= λ x. k (g x))
rebind_ok (ok x) g k = refl
rebind_ok fault g k = refl
rebind_ok out_of_fuel g k = refl

rebind :
    (r : Run ℕ) (f : ℕ → Run (List ℕ)) (g : List ℕ → Change × Stats)
    (k : Change × Stats → Run (Bool × Stats))
    → ((r >>= λ m. f m >>= λ x. ok (g x)) >>= k) ≡ (r >>= λ m. f m >>= λ x. k (g x))
rebind (ok m) f g k = rebind_ok (f m) g k
rebind fault f g k = refl
rebind out_of_fuel f g k = refl

abbrev read_mode : Stats → Run (Change × Stats)
read_mode s = read_at s.mode s.cycle >>= λ m.
    write_at s.mode s.cycle (int_suc m) >>= λ mode. ok (changed_mode, record s { mode = mode })

abbrev read_by : (a b c e f : Bool) → Stats → Run (Change × Stats)
read_by a b c e f s =
    if a
    then ok (unchanged, s)
    else if b
    then ok (down, to_screen s (int_pred s.cycle))
    else if c
    then ok (up, to_screen s (int_suc s.cycle))
    else if e
    then read_mode s
    else if f
    then ok (changed_submode, record s { submode = int_suc s.submode })
    else ok (unchanged, s)

-- One round of the keys from variables in order. Without a key nothing changes. L3 shows the next
-- screen that there is and L2 the one before, round all of them, with the timer of its turn; but where
-- that is the screen of the fans, number 8, the round reads its mode behind the end of the array. L4
-- switches the mode of the screen and L5 the submode between 0 and 1. Otherwise the variables are in
-- order again.
pub keyboard_watch-Outcome :
    (k : Masks) (keystate : ℕ) (s : Stats)
    → IsSound s
    → Outcome s (asked k keystate) (keyboard_watch k keystate s)
unfolding asked keyboard_watch read_key
keyboard_watch-Outcome k keystate s sound =
    by_keys (pressed keystate (k.l 0)) (pressed keystate (k.l 1)) (pressed keystate (k.l 2))
      (pressed keystate (k.l 3)) (pressed keystate (k.l 4))
  where
    by_keys :
        (a b c e f : Bool)
        → Outcome s (asked_by a b c e f) (read_by a b c e f s >>= λ r. finish r.0 r.1)
    by_keys true b c e f = none
    by_keys false true c e f = down-Outcome s sound
    by_keys false false true e f = up-Outcome s sound
    by_keys false false false true f =
        subst (Outcome s changed_mode)
          (sym (
            rebind (read_at s.mode s.cycle) (λ m. write_at s.mode s.cycle (int_suc m))
              (λ mode. (changed_mode, record s { mode = mode })) (λ r. finish r.0 r.1)))
          (mode-Outcome s sound)
    by_keys false false false false true = submode-Outcome s sound
    by_keys false false false false false = none
