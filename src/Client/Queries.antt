-- ===== src/Client/Queries.antt =====
-- The questions of a client: what `g15_send_cmd` returns for the daemon's answer.
use g15daemon.Prelude.{
  ℕ, ◌≡◌, refl, Bool, true, false, ◌||◌, ◌==◌, ◌!=◌, if◌then◌else◌, some, List, [], ◌∷◌, Returns,
  returns, Bool-cases, inl, inr, sym, subst, eq_of_==,
}
use g15daemon.Gfx.{sub32}
use g15daemon.Daemon.{Ptr, Node, Daemon}
use g15daemon.LinkedLists.Ring.{has, IsRing}
use g15daemon.Requests.{Reply, word, byte, digit, process_client_cmds}
use g15daemon.Requests.Answers.{answers_keys, answers_foreground, answers_selected}
use g15daemon.Client.{Limits, Peer, query, g15_send_cmd}

abbrev pub truth : Bool → ℕ
truth b = if b then 1 else 0

-- The answer to each question: the keys that are pressed, if the client's screen is shown; whether it
-- is shown; and whether the user chose it.
abbrev pub answer : (node : Ptr) → Daemon → Node → (command : ℕ) → ℕ
answer node d n command =
    if command == 107
    then if d.current == node then d.current_key_state else 0
    else if command == 118
    then truth (d.current == node)
    else truth (n.lcd.usr_foreground != 0)

module _ (node : Ptr) (xs : List Ptr) (d : Daemon) (n : Node) (k : Limits)
    (wire : List Reply → Peer) (value : ℕ) (r : IsRing d xs) (h : has node xs ≡ true)
    (found : d.nodes node ≡ some n) (words : (w c : ℕ) → (wire (word w ∷ [])).recv_word c ≡ some w)
    (bytes : (b c : ℕ) → (wire (byte b ∷ [])).recv_byte c ≡ some b) where
  Told : (command : ℕ) → Type 0
  Told command =
      Returns (λ r. (g15_send_cmd k (wire r.0) command value).retval ≡ answer node d n command)
        (process_client_cmds node command d)

  digit_value : (b : Bool) (c : ℕ) → (query (wire (byte (digit b) ∷ [])) c).retval ≡ truth b
  unfolding query sub32
  digit_value true c = rw (bytes 49 c) refl
  digit_value false c = rw (bytes 48 c) refl

  keys-Told : Told 107
  unfolding Told g15_send_cmd
  keys-Told = rw (answers_keys node xs d r h) (elim (Bool-cases (d.current == node)) [
    | inl e ↦ rw e (returns (rw (words d.current_key_state 107) refl))
    | inr e ↦ rw e (returns (rw (words 0 107) refl))
  ])

  foreground-Told : Told 118
  unfolding Told g15_send_cmd
  foreground-Told =
      rw (answers_foreground node xs d r h) (returns (digit_value (d.current == node) 118))

  selected-Told : Told 117
  unfolding Told g15_send_cmd
  selected-Told =
      rw (answers_selected node xs d r h n found)
        (returns (digit_value (n.lcd.usr_foreground != 0) 117))

  question-Told :
      (command : ℕ)
      → ((command == 107) || (command == 118) || (command == 117)) ≡ true
      → Told command
  question-Told command e = elim (Bool-cases (command == 107)) [
    | inl e107 ↦ subst Told (sym (eq_of_== command 107 e107)) keys-Told
    | inr n107 ↦ elim (Bool-cases (command == 118)) [
      | inl e118 ↦ subst Told (sym (eq_of_== command 118 e118)) foreground-Told
      | inr n118 ↦
          let e117 : (command == 117) ≡ true = cc (e, n107, n118) in
          subst Told (sym (eq_of_== command 117 e117)) selected-Told
    ]
  ]

-- Over a wire that delivers each answer, the library's question of a client of the list returns the
-- keys that are pressed (0 if its screen is not shown), whether its screen is shown, or whether the
-- user chose it.
pub g15_send_cmd-answer :
    (node : Ptr) (xs : List Ptr) (d : Daemon) (n : Node) (k : Limits) (wire : List Reply → Peer)
    (command value : ℕ)
    → IsRing d xs
    → has node xs ≡ true
    → d.nodes node ≡ some n
    → ((w c : ℕ) → (wire (word w ∷ [])).recv_word c ≡ some w)
    → ((b c : ℕ) → (wire (byte b ∷ [])).recv_byte c ≡ some b)
    → ((command == 107) || (command == 118) || (command == 117)) ≡ true
    → Returns
        (λ r. (g15_send_cmd k (wire r.0) command value).retval ≡ answer node d n command)
        (process_client_cmds node command d)
unfolding Told
g15_send_cmd-answer node xs d n k wire command value r h found words bytes e =
    question-Told node xs d n k wire value r h found words bytes command e
