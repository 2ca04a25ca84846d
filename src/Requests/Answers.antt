-- ===== src/Requests/Answers.antt =====
-- What is answered to each question of a client.
use g15daemon.Prelude.{
  ℕ, ◌≡◌, refl, true, ◌==◌, ◌!=◌, if◌then◌else◌, Option, some, List, [], ◌∷◌, ok, none, ap, sym,
  ◌∙◌,
}
use g15daemon.Daemon.{Ptr, Node, Daemon}
use g15daemon.LinkedLists.Ring.{has, IsRing}
use g15daemon.Requests.{
  word, byte, digit, answer_keys, answer_foreground, answer_selected, process_client_cmds,
}
use g15daemon.Requests.Edit.{IsRing-load}

abbrev chosen : Option Node → ℕ
chosen none = 0
chosen (some n) = n.lcd.usr_foreground

module _ (node : Ptr) (xs : List Ptr) (d : Daemon) (r : IsRing d xs) (h : has node xs ≡ true) where
  pub answers_keys : process_client_cmds node 107 d ≡ (
      if d.current == node
      then ok (word d.current_key_state ∷ [], record d { current_key_state = 0 })
      else ok (word 0 ∷ [], d))
  unfolding process_client_cmds answer_keys
  answers_keys = let (n, got, at, found) = IsRing-load d xs node r h in rw got refl

  pub answers_foreground :
      process_client_cmds node 118 d ≡ ok (byte (digit (d.current == node)) ∷ [], d)
  unfolding process_client_cmds answer_foreground
  answers_foreground = let (n, got, at, found) = IsRing-load d xs node r h in rw got refl

  pub answers_selected :
      (n : Node)
      → d.nodes node ≡ some n
      → process_client_cmds node 117 d ≡ ok (byte (digit (n.lcd.usr_foreground != 0)) ∷ [], d)
  unfolding process_client_cmds answer_selected
  answers_selected n e =
      let (m, got, at, found) = IsRing-load d xs node r h in
      rw (got, ap chosen (sym found ∙ e)) refl
