-- ===== src/Tests/Clients.antt =====
-- Requests of the client of a screen that is not shown, in a list of three screens.
use g15daemon.Prelude.{
  ℕ, ◌≡◌, ◌&&◌, ◌!=◌, not, Bool, false, refl, sym, ap, Option, none, some, List, [], ◌∷◌, arith,
  Returns,
}
use g15daemon.Daemon.{Ptr, null, Node, put}
use g15daemon.LinkedLists.Ring.{has}
use g15daemon.LinkedLists.Access.{screen, change}
use g15daemon.Requests.{Reply, word, byte, process_client_cmds, switch_priorities}
use g15daemon.Requests.Edit.{Kept}
use g15daemon.Requests.Edit.{Returnable}
use g15daemon.Requests.Outcome.{process_client_cmds-Kept}
use g15daemon.Requests.Switch.{Restored, switch_priorities-Restored}
use g15daemon.Client.{Limits, Peer, g15_send_cmd}
use g15daemon.Client.Levels.{deliver, with_level, g15_send_cmd-level}
use g15daemon.Client.Queries.{answer, g15_send_cmd-answer}
use g15daemon.Tests.Screens.{node, three, three-IsRing}

abbrev lost : Option Node → Bool
lost none = false
lost (some n) = (n.last_priority != null) && not (has n.last_priority (3 ∷ 2 ∷ 1 ∷ []))

pub three-Returnable : Returnable 3 (3 ∷ 2 ∷ 1 ∷ []) three
unfolding Returnable put
three-Returnable n e = sym (ap lost e)

process_client_cmds-Kept_example :
    Returns (λ r. Kept 3 (3 ∷ 2 ∷ 1 ∷ []) three r.1) (process_client_cmds 3 112 three)
process_client_cmds-Kept_example =
    process_client_cmds-Kept 3 (3 ∷ 2 ∷ 1 ∷ []) three 112 three-IsRing refl three-Returnable

switch_priorities-Restored_example :
    Returns
      (λ d1. (d1.current ≡ 3) × Returns (Restored 3 three) (switch_priorities 3 d1))
      (switch_priorities 3 three)
switch_priorities-Restored_example =
    switch_priorities-Restored 3 (3 ∷ 2 ∷ 1 ∷ []) three three-IsRing refl (omega arith)

abbrev limits : Limits
limits = record { led_mr = 8; contrast_high = 2; brightness_bright = 2 }

-- Each answer is delivered.
abbrev heard_word : List Reply → Option ℕ
heard_word (word w ∷ rest) = some w
heard_word (byte b ∷ rest) = none
heard_word [] = none

abbrev heard_byte : List Reply → Option ℕ
heard_byte (byte b ∷ rest) = some b
heard_byte (word w ∷ rest) = none
heard_byte [] = none

abbrev wire : List Reply → Peer
wire replies = record {
  send = λ _. 1;
  recv_word = λ _. heard_word replies;
  recv_byte = λ _. heard_byte replies;
}

g15_send_cmd-level_example :
    Returns
      (λ r.
        (a : Ptr)
        → screen r.1.nodes a ≡ change (screen three.nodes) 3 (with_level limits 128 200) a)
      (deliver 3 (g15_send_cmd limits (wire []) 128 200).packet three)
g15_send_cmd-level_example =
    g15_send_cmd-level 3 (3 ∷ 2 ∷ 1 ∷ []) three limits (wire []) 128 200 three-IsRing refl
      (omega arith) (omega arith) (omega arith) refl

g15_send_cmd-answer_example :
    Returns
      (λ r. (g15_send_cmd limits (wire r.0) 118 0).retval ≡ answer 3 three (node 2 1) 118)
      (process_client_cmds 3 118 three)
unfolding put
g15_send_cmd-answer_example =
    g15_send_cmd-answer 3 (3 ∷ 2 ∷ 1 ∷ []) three (node 2 1) limits wire 118 0 three-IsRing refl refl
      (λ w c. refl) (λ b c. refl) refl
