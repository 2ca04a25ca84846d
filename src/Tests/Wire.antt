-- ===== src/Tests/Wire.antt =====
-- Transfers of a few bytes.
use g15daemon.Prelude.{◌≡◌, refl, true, false, List, [], ◌∷◌, arith, Returns}
use g15daemon.Transfer.{SendTurn, RecvTurn, accepts, g15_send, client_g15_send}
use g15daemon.Transfer.Send.{Outcome, g15_send-Outcome, client_g15_send-Outcome}
use g15daemon.Transfer.Receive
use g15daemon.LinkedLists.Ring.{IsRing}
use g15daemon.Client.Connect.{PollTurn, buffer_name, new_g15_screen}
use g15daemon.Client.Handshake.{Greeted, new_g15_screen-Greeted, handshake, handshake-named}
use g15daemon.Tests.Service.{repeat}
use g15daemon.Tests.Screens.{three, three-IsRing}
use g15daemon.Tests.Clients.{three-Returnable}

abbrev turns : List SendTurn
turns =
    SendTurn.ready true false (accepts 1)
    ∷ SendTurn.quiet
    ∷ SendTurn.ready true false (accepts 5)
    ∷ []

g15_send-Outcome_example : Returns (Outcome turns 2) (g15_send turns (71 ∷ 66 ∷ []))
g15_send-Outcome_example = g15_send-Outcome turns (71 ∷ 66 ∷ []) (omega arith)

client_g15_send-Outcome_example : Returns (Outcome turns 2) (client_g15_send turns (71 ∷ 66 ∷ []))
client_g15_send-Outcome_example = client_g15_send-Outcome turns (71 ∷ 66 ∷ []) (omega arith)

-- A byte, a request to switch priorities, and the rest.
abbrev rounds : List RecvTurn
rounds = RecvTurn.ready true false 1 ∷ RecvTurn.urgent false 112 ∷ RecvTurn.ready true false 9 ∷ []

-- A client of the kind 'R' reads the greeting byte by byte.
abbrev polls : List PollTurn
polls = PollTurn.quiet ∷ repeat 16 (PollTurn.ready true 1)

abbrev sends : List SendTurn
sends = SendTurn.quiet ∷ repeat 16 (SendTurn.ready true false (accepts 2))

abbrev choice : List RecvTurn
choice = repeat 4 (RecvTurn.ready true false 1)

new_g15_screen-Greeted_example :
    Returns (Greeted sends 3 (repeat 20 71)) (new_g15_screen true true polls sends 3 (repeat 20 71))
unfolding repeat
new_g15_screen-Greeted_example =
    new_g15_screen-Greeted polls sends 3 (repeat 20 71) (omega arith) (omega arith) refl
      (omega arith)

handshake-named_example :
    Returns
      (λ r. (r.buf ≡ buffer_name 3) × IsRing r.daemon (3 ∷ 2 ∷ 1 ∷ []))
      (handshake 3 sends polls sends choice 3 three)
unfolding repeat
handshake-named_example =
    handshake-named 3 (3 ∷ 2 ∷ 1 ∷ []) sends polls sends choice 3 three (omega arith) (refl, refl)
      (omega arith) refl (omega arith) (refl, refl) (omega arith) refl refl three-IsRing refl
      three-Returnable
