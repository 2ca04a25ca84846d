-- ===== src/Start/Arguments.antt =====
-- What the loop over the arguments makes of `cycle_key`.
use g15daemon.Prelude.{
  ℕ, ◌≡◌, Bool, true, false, if◌then◌else◌, List, [], ◌∷◌, ◌++◌, ap, sym, arith,
}
use g15daemon.Text.{Text, codes}
use g15daemon.Start.{
  is_option, CycleKey, mr, l1, Action, run, kill, kill_dark, version, help, read_arguments,
}

abbrev first_of : (a b c e : Bool) → Action → Action
first_of a b c e rest =
    if a then kill else if b then kill_dark else if c then version else if e then help else rest

key_of_run : Action → CycleKey → CycleKey
key_of_run (run k n) other = k
key_of_run kill other = other
key_of_run kill_dark other = other
key_of_run version other = other
key_of_run help other = other

-- An option that ends the loop does not start the daemon.
first_of-run :
    (a b c e : Bool) (rest : Action) {k : CycleKey} {n : ℕ}
    → first_of a b c e rest ≡ run k n
    → rest ≡ run k n
first_of-run true b c e rest h = ground (arith, h)
first_of-run false true c e rest h = ground (arith, h)
first_of-run false false true e rest h = ground (arith, h)
first_of-run false false false true rest h = ground (arith, h)
first_of-run false false false false rest h = h

-- The key that the last argument alone gives.
abbrev pub key_of : Text → CycleKey
key_of arg = if is_option (codes "-s") (codes "--switch") arg then l1 else mr

run-key : {k k' : CycleKey} {n n' : ℕ} → run k' n' ≡ run k n → k ≡ k'
unfolding key_of_run
run-key {k'} h = sym (ap (λ a. key_of_run a k') h)

-- Whatever the arguments and the values before, when the daemon is to run, the last argument alone
-- has chosen the key that cycles the screens: L1 where it is the option -s, and MR where it is any
-- other argument, also behind an option -s.
pub read_arguments-last :
    (before : List Text) (arg : Text) (cycle_key : CycleKey) (debug : ℕ) {k : CycleKey} {n : ℕ}
    → read_arguments (before ++ (arg ∷ [])) cycle_key debug ≡ run k n
    → k ≡ key_of arg
unfolding read_arguments
read_arguments-last [] arg cycle_key debug h = run-key (first_of-run _ _ _ _ _ h)
read_arguments-last (x ∷ before) arg cycle_key debug h =
    read_arguments-last before arg _ _ (first_of-run _ _ _ _ _ h)
