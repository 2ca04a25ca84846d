-- ===== src/Threads/Dangling.antt =====
-- The display thread where a client has gone back to a screen that has been removed.
use g15daemon.Prelude.{ℕ, ◌≡◌, ◌≢◌, refl, none, List, ok, fault, Returns, returns, arith}
use g15daemon.Daemon.{Ptr, null, Node, Daemon, load}
use g15daemon.Requests.{switch_request, process_client_cmds}
use g15daemon.Requests.Dangling.{back_to, process_client_cmds-back, back_to-none}
use g15daemon.Threads.{draw_round}

load-none : (d : Daemon) (p : Ptr) → d.nodes p ≡ none → load d p ≡ fault
unfolding load
load-none d p e = ground arith

draw_round-fault :
    (led_mr now : ℕ) (text : List ℕ) (lastlcd : ℕ) (d : Daemon)
    → d.nodes d.current ≡ none
    → draw_round led_mr now text lastlcd d ≡ fault
unfolding draw_round
draw_round-fault led_mr now text lastlcd d e = rw (load-none d d.current e) refl

-- If the screen to which a client would go back has been freed, the client's request to switch
-- priorities, made while its own screen is shown, returns, and the next round of the display thread
-- uses the freed node.
pub draw_round-dangling :
    (node : Ptr) (n : Node) (d : Daemon)
    → load d node ≡ ok n
    → d.current ≡ node
    → n.last_priority ≢ null
    → n.last_priority ≢ node
    → d.nodes n.last_priority ≡ none
    → Returns
        (λ r.
          (led_mr now : ℕ) (text : List ℕ) (lastlcd : ℕ)
          → draw_round led_mr now text lastlcd r.1 ≡ fault)
        (process_client_cmds node switch_request d)
draw_round-dangling node n d got shown ne other gone =
    rw (process_client_cmds-back node n d got shown ne other) (
      returns (λ led_mr now text lastlcd.
        draw_round-fault led_mr now text lastlcd (back_to node n d)
          (back_to-none node n d other gone)))
