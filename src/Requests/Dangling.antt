-- ===== src/Requests/Dangling.antt =====
-- A client goes back to a screen that has been removed.
use g15daemon.Prelude.{◌≡◌, ◌≢◌, none, [], arith, ok}
use g15daemon.Daemon.{Ptr, null, Node, Daemon, put, load, store}
use g15daemon.Requests.{switch_request, switch_priorities, process_client_cmds}

-- What the request leaves where the client is shown and has a screen to go back to: that screen is
-- shown, wherever its address leads.
pub back_to : (node : Ptr) → Node → Daemon → Daemon
back_to node n d = record (store d node (record n { last_priority = null })) {
  current = n.last_priority;
}

pub process_client_cmds-back :
    (node : Ptr) (n : Node) (d : Daemon)
    → load d node ≡ ok n
    → d.current ≡ node
    → n.last_priority ≢ null
    → n.last_priority ≢ node
    → process_client_cmds node switch_request d ≡ ok ([], back_to node n d)
unfolding process_client_cmds switch_priorities back_to
process_client_cmds-back node n d got shown ne other = rw got (ground arith)

-- The screen that is then shown is not allocated, if it was not before.
pub back_to-none :
    (node : Ptr) (n : Node) (d : Daemon)
    → n.last_priority ≢ node
    → d.nodes n.last_priority ≡ none
    → (back_to node n d).nodes (back_to node n d).current ≡ none
unfolding back_to store put
back_to-none node n d other gone = ground arith
