-- ===== src/Requests/Outcome.antt =====
-- What a request does to the display list, whatever the client sends.
use g15daemon.Prelude.{
  ℕ, ◌≡◌, refl, Bool, true, false, ◌&&◌, ◌||◌, not, ◌==◌, ◌!=◌, if◌then◌else◌, some, List, arith,
  Run, fault, Returns, returns, Returns-bind, Bool-cases, inl, inr,
}
use g15daemon.Lcd.{Lcd}
use g15daemon.Daemon.{Ptr, null, Node, Daemon, set_lcd, store}
use g15daemon.LinkedLists.Ring.{links, has, IsRing}
use g15daemon.Requests.{
  Reply, has_bit, show_prev, switch_priorities, answer_keys, answer_foreground, answer_selected,
  take_keys, quiet, process_client_cmds, backlight, contrast, mkey_lights, key_handler,
}
use g15daemon.Requests.Edit.{
  IsBack, Returnable, Kept, IsRing-load, Chain-prev, same-Kept, read-Kept, show-Kept, edit-Kept,
}

-- A request to handle the keys.
abbrev pub takes_keys : (msg : ℕ) → Bool
takes_keys msg =
    not ((msg == 107) || (msg == 112) || (msg == 118) || (msg == 117))
    && not (has_bit msg backlight || has_bit msg contrast || has_bit msg mkey_lights)
    && has_bit msg key_handler

abbrev Keeps : (node : Ptr) → List Ptr → Daemon → Run (List Reply × Daemon) → Type 0
Keeps node xs d run = Returns (λ r. Kept node xs d r.1) run

module _ (node : Ptr) (xs : List Ptr) (d : Daemon) (r : IsRing d xs) (h : has node xs ≡ true)
    (back : Returnable node xs d) where
  was : (n : Node) → d.nodes node ≡ some n → IsBack xs n.last_priority
  unfolding Returnable
  was n e = back n e

  current_IsBack : IsBack xs d.current
  current_IsBack = ground (arith, r.current)

  set_lcd-Kept : (f : Lcd → Lcd) → Keeps node xs d (quiet (set_lcd d node f))
  unfolding set_lcd store
  set_lcd-Kept f =
      let (n, got, at, found) = IsRing-load d xs node r h in
      rw got (
        returns (
          edit-Kept node xs d r back n (record n { lcd = f n.lcd }) found refl refl (was n found)
            d.current r.current))

  show_prev-Kept : Returns (Kept node xs d) (show_prev d)
  unfolding show_prev
  show_prev-Kept =
      let (n, got, at, found) = IsRing-load d xs d.current r r.current in
      rw got (
        returns (
          show-Kept node xs d r back n.prev
            (Chain-prev (links d.nodes) d.tail d.current n.prev n.next xs r.chain r.current at)))

  answer_keys-Kept : Keeps node xs d (answer_keys node d)
  unfolding answer_keys
  answer_keys-Kept =
      let (n, got, at, found) = IsRing-load d xs node r h in
      rw got (elim (Bool-cases (d.current == node)) [
        | inl e ↦ rw e (returns (read-Kept node xs d r back))
        | inr e ↦ rw e (returns (same-Kept node xs d r back))
      ])

  answer_foreground-Kept : Keeps node xs d (answer_foreground node d)
  unfolding answer_foreground
  answer_foreground-Kept =
      let (n, got, at, found) = IsRing-load d xs node r h in
      rw got (returns (same-Kept node xs d r back))

  answer_selected-Kept : Keeps node xs d (answer_selected node d)
  unfolding answer_selected
  answer_selected-Kept =
      let (n, got, at, found) = IsRing-load d xs node r h in
      rw got (returns (same-Kept node xs d r back))

  switch_priorities-Kept : Returns (Kept node xs d) (switch_priorities node d)
  unfolding switch_priorities store
  switch_priorities-Kept =
      let (n, got, at, found) = IsRing-load d xs node r h in
      rw got (elim (Bool-cases (d.current != node)) [
        | inl e ↦ rw e (
            returns (
              edit-Kept node xs d r back n (record n { last_priority = d.current }) found refl refl
                (current_IsBack) node h))
        | inr e ↦ rw e (elim (Bool-cases (d.current == n.last_priority)) [
          | inl f ↦ rw f show_prev-Kept
          | inr f ↦ rw f (elim (Bool-cases (n.last_priority != null)) [
            | inl g ↦
                let there : has n.last_priority xs ≡ true = ground (arith, was n found) in
                rw g (
                  returns (
                    edit-Kept node xs d r back n (record n { last_priority = null }) found refl refl
                      refl n.last_priority there))
            | inr g ↦ rw g show_prev-Kept
          ])
        ])
      ])

  quiet-Kept : (run : Run Daemon) → Returns (Kept node xs d) run → Keeps node xs d (quiet run)
  quiet-Kept run k = Returns-bind k λ d' k'. returns k'

  if-Keeps :
      (b : Bool) (x y : Run (List Reply × Daemon))
      → Keeps node xs d x
      → (b ≡ false → Keeps node xs d y)
      → Keeps node xs d (if b then x else y)
  if-Keeps true x y f g = f
  if-Keeps false x y f g = g refl

  other-Kept : (msg : ℕ) → takes_keys msg ≡ false → Keeps node xs d (process_client_cmds node msg d)
  unfolding process_client_cmds
  other-Kept msg e = if-Keeps (msg == 107) _ _ answer_keys-Kept λ e1.
      if-Keeps (msg == 112) _ _ (quiet-Kept _ switch_priorities-Kept) λ e2.
        if-Keeps (msg == 118) _ _ answer_foreground-Kept λ e3.
          if-Keeps (msg == 117) _ _ answer_selected-Kept λ e4.
            if-Keeps (has_bit msg 128) _ _ (set_lcd-Kept _) λ e5.
              if-Keeps (has_bit msg 64) _ _ (set_lcd-Kept _) λ e6.
                if-Keeps (has_bit msg 32) _ _ (set_lcd-Kept _) λ e7.
                  let none_left : has_bit msg 16 ≡ false = cc (e, e1, e2, e3, e4, e5, e6, e7) in
                  rw none_left (returns (same-Kept node xs d r back))

take_keys-fault : (node : Ptr) (d : Daemon) → quiet (take_keys node d) ≡ fault
unfolding take_keys
take_keys-fault node d = refl

takes-fault :
    (node : Ptr) (d : Daemon) (msg : ℕ)
    → takes_keys msg ≡ true
    → process_client_cmds node msg d ≡ fault
unfolding process_client_cmds
takes-fault node d msg e = ground (arith, take_keys-fault node d)

-- Where the client's screen is in the list, and the screen to go back to, if there is one, is too:
-- every request but one returns, leaves every other screen and the order of the list as they were,
-- shows a screen of the list, and leaves none or one of the list to go back to. The request to
-- handle the keys writes outside the client's node.
pub process_client_cmds-Kept :
    (node : Ptr) (xs : List Ptr) (d : Daemon) (msg : ℕ)
    → IsRing d xs
    → has node xs ≡ true
    → Returnable node xs d
    → if takes_keys msg
      then process_client_cmds node msg d ≡ fault
      else Returns (λ r. Kept node xs d r.1) (process_client_cmds node msg d)
process_client_cmds-Kept node xs d msg r h back = elim (Bool-cases (takes_keys msg)) [
  | inl e ↦ rw e (takes-fault node d msg e)
  | inr e ↦ rw e (other-Kept node xs d r h back msg e)
]
