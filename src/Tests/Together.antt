-- ===== src/Tests/Together.antt =====
-- The threads together: from the start a client connects, and shows a picture; and a client goes back
-- to a screen that has gone.
use g15daemon.Prelude.{
  ℕ, ◌^◌, ◌+◌, ◌≡◌, refl, true, false, ◌⊎◌, none, some, List, [], ◌∷◌, arith, Returns, fault,
}
use g15daemon.Daemon.{Node, Daemon, put, load}
use g15daemon.Keys.{Masks, key_events, g15_process_keys}
use g15daemon.Keys.Cycling.{cycles, g15_process_keys-Cycled}
use g15daemon.LinkedLists.Cycle.{Cycled}
use g15daemon.Requests.{switch_request, process_client_cmds}
use g15daemon.Threads.{draw_round}
use g15daemon.Threads.Dangling.{draw_round-dangling}
use g15daemon.Session.{accepted, g15_clientconnect}
use g15daemon.Session.Connect.{Joined, g15_clientconnect-Joined}
use g15daemon.System.{Setup}
use g15daemon.Tests.Screens.{levels, node, three, three-IsRing}

abbrev masks : Masks
masks = record { g = λ i. 2 ^ i; m = λ i. 2 ^ (18 + i); mr = 2 ^ 21; l = λ i. 2 ^ (22 + i) }

abbrev setup : Setup
setup = record { levels = levels; masks = masks; cycle_key = 2 ^ 21 }

g15_clientconnect-Joined_example :
    Returns
      (λ c. Joined levels 4 true three (3 ∷ 2 ∷ 1 ∷ []) 7 c × (c.detached ≡ some true))
      (g15_clientconnect levels 4 (accepted 7) true true three)
unfolding put
g15_clientconnect-Joined_example =
    g15_clientconnect-Joined levels 4 three (3 ∷ 2 ∷ 1 ∷ []) (omega arith) refl three-IsRing
      (accepted 7) true true

g15_process_keys-Cycled_example :
    Returns
      (λ r.
        (r.0 ≡ key_events masks (2 ^ 21) three (2 ^ 21) 0)
        × (((cycles (2 ^ 21) three (2 ^ 21) 0 ≡ true) × Cycled (3 ∷ 2 ∷ 1 ∷ []) three r.1)
            ⊎ ((cycles (2 ^ 21) three (2 ^ 21) 0 ≡ false) × (r.1 ≡ three))))
      (g15_process_keys 3 masks (2 ^ 21) three (2 ^ 21) 0)
g15_process_keys-Cycled_example =
    g15_process_keys-Cycled 3 masks (2 ^ 21) three (2 ^ 21) 0 (3 ∷ 2 ∷ 1 ∷ []) three-IsRing
      (omega arith)

-- The screen 2, to which the client of 3 would go back, has been freed.
abbrev gone_back : Node
gone_back = record (node 1 1) { last_priority = 2 }

abbrev two_left : Daemon
two_left = record {
  nodes = put (put (λ _. none) 1 (some (node 1 3))) 3 (some gone_back);
  head = 3;
  tail = 1;
  current = 3;
  keyhandler = 0;
  client_handles_keys = 0;
  current_key_state = 0;
  connected_clients = 1;
}

draw_round-dangling_example :
    Returns
      (λ r.
        (led_mr now : ℕ) (text : List ℕ) (lastlcd : ℕ)
        → draw_round led_mr now text lastlcd r.1 ≡ fault)
      (process_client_cmds 3 switch_request two_left)
unfolding put load
draw_round-dangling_example =
    draw_round-dangling 3 gone_back two_left refl refl (omega arith) (omega arith) refl
