-- ===== src/Threads/Keyboard.antt =====
-- What a round of the keyboard thread does to the display list.
use g15daemon.Prelude.{
  ℕ, ◌≤◌, ◌≡◌, refl, true, false, ◌!=◌, List, Returns, returns, Returns-bind, Bool-cases, inl, inr,
  arith, ap, ◌∙◌,
}
use g15daemon.Text.{length}
use g15daemon.Lcd.{Lcd}
use g15daemon.Daemon.{Ptr, Daemon}
use g15daemon.LinkedLists.Ring.{links, Chain-has, IsRing}
use g15daemon.LinkedLists.Access.{screen, change, Wrote, set_lcd-Wrote}
use g15daemon.LinkedLists.Cycle.{Cycled}
use g15daemon.Keys.{Masks}
use g15daemon.Keys.Cycling.{g15_process_keys-Cycled}
use g15daemon.Threads.{Pressed, keys, nothing, gone, keyboard_round}

abbrev pub with_keys : Daemon → ℕ → Daemon
with_keys d keypresses = record d { current_key_state = keypresses }

-- What is written where the keyboard is found again.
abbrev pub refreshed : (random : ℕ) → Lcd → Lcd
refreshed random lcd = record lcd { state_changed = 1; ident = random }

-- The list after a round: as it was, with the shown screen to be drawn again, or cycled.
pub data Turned (xs : List Ptr) (d d' : Daemon) : Type 0 where
  kept : d' ≡ d → Turned xs d d'
  found_again :
      (random : ℕ)
      → Wrote d (links d.nodes) (change (screen d.nodes) d.current (refreshed random)) d'
      → Turned xs d d'
  noted : (keypresses : ℕ) → d' ≡ with_keys d keypresses → Turned xs d d'
  cycled : (keypresses : ℕ) → Cycled xs (with_keys d keypresses) d' → Turned xs d d'

pub with_keys-IsRing :
    (d : Daemon) (keypresses : ℕ) (xs : List Ptr) → IsRing d xs → IsRing (with_keys d keypresses) xs
with_keys-IsRing d keypresses xs r = record {
  chain = r.chain;
  head = r.head;
  tail = r.tail;
  current = r.current;
}

-- While no client handles the keys, a round of the keyboard thread returns.
pub keyboard_round-Turned :
    (fuel : ℕ) (k : Masks) (cycle_key : ℕ) (pressed : Pressed) (lastkeypresses : ℕ) (d : Daemon)
    (xs : List Ptr)
    → IsRing d xs
    → length xs ≤ fuel
    → d.client_handles_keys ≡ 0
    → Returns (λ w. Turned xs d w.daemon) (keyboard_round fuel k cycle_key pressed lastkeypresses d)
unfolding keyboard_round
keyboard_round-Turned fuel k cycle_key nothing lastkeypresses d xs r enough free =
    returns (kept refl)
keyboard_round-Turned fuel k cycle_key (gone false random) lastkeypresses d xs r enough free =
    returns (kept refl)
keyboard_round-Turned fuel k cycle_key (gone true random) lastkeypresses d xs r enough free =
    let (p, q, linked, ne) = Chain-has (links d.nodes) d.tail d.current xs r.chain r.current in
    Returns-bind (set_lcd-Wrote d d.current ne linked (refreshed random))
      λ d' w. returns (found_again random w)
keyboard_round-Turned fuel k cycle_key (keys keypresses) lastkeypresses d xs r enough free =
    elim (Bool-cases (keypresses != lastkeypresses)) [
      | inr same ↦ rw same (returns (kept refl))
      | inl changed ↦ rw changed (
          Returns-bind
            (g15_process_keys-Cycled fuel k cycle_key (with_keys d keypresses) keypresses
              lastkeypresses xs (with_keys-IsRing d keypresses xs r) enough)
            λ p c. elim c.1 [
              | inl (e, cy) ↦
                  rw (none_handles p.1 (cy.keys ∙ free)) (returns (cycled keypresses cy))
              | inr (e, same) ↦
                  rw (none_handles p.1 (ap (λ x. x.client_handles_keys) same ∙ free))
                    (returns (noted keypresses same))
            ])
    ]
  where
    none_handles : (e : Daemon) → e.client_handles_keys ≡ 0 → (e.client_handles_keys != 0) ≡ false
    none_handles e h = ground arith
