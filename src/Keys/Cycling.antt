-- ===== src/Keys/Cycling.antt =====
-- What `g15_process_keys` does to the display list.
use g15daemon.Prelude.{
  ℕ, ◌≤◌, ◌≡◌, ◌⊎◌, refl, Bool, true, false, ◌&&◌, not, ◌!=◌, List, Returns, returns, Returns-bind,
  Bool-cases, inl, inr,
}
use g15daemon.Text.{length}
use g15daemon.Daemon.{Ptr, Daemon}
use g15daemon.LinkedLists.Ring.{IsRing}
use g15daemon.LinkedLists.Cycle.{Cycled, cycle_screens-Cycled}
use g15daemon.Keys.{Masks, pressed, key_events, cycle_on_key, g15_process_keys}

-- The cycle key has just been pressed, and there is a client.
abbrev pub cycles : (cycle_key : ℕ) → Daemon → (currentkeys lastkeys : ℕ) → Bool
cycles cycle_key d cur last =
    (d.connected_clients != 0) && (pressed cur cycle_key && not (pressed last cycle_key))

-- The events are those of `key_events`. The next screen is shown if the cycle key has just been
-- pressed and there is a client, and else the list stays as it is.
pub g15_process_keys-Cycled :
    (fuel : ℕ) (k : Masks) (cycle_key : ℕ) (d : Daemon) (cur last : ℕ) (xs : List Ptr)
    → IsRing d xs
    → length xs ≤ fuel
    → Returns
        (λ r.
          (r.0 ≡ key_events k cycle_key d cur last)
          × (((cycles cycle_key d cur last ≡ true) × Cycled xs d r.1)
              ⊎ ((cycles cycle_key d cur last ≡ false) × (r.1 ≡ d))))
        (g15_process_keys fuel k cycle_key d cur last)
unfolding g15_process_keys cycle_on_key
g15_process_keys-Cycled fuel k cycle_key d cur last xs r enough =
    elim (Bool-cases (cycles cycle_key d cur last)) [
      | inl e ↦ rw e (
          Returns-bind (cycle_screens-Cycled d xs r fuel enough)
            λ d' c. returns (refl, inl (refl, c)))
      | inr e ↦ rw e (returns (refl, inr (refl, refl)))
    ]
