-- ===== src/Requests/Switch.antt =====
-- A client that switches priorities twice gives the display back.
use g15daemon.Prelude.{
  ◌≡◌, ◌≢◌, refl, true, false, ◌==◌, ◌!=◌, Option, some, List, ok, arith, Returns, returns,
}
use mathlib.Core.Option
use g15daemon.Daemon.{Ptr, null, Node, Daemon, put, load, store}
use g15daemon.LinkedLists.Ring.{links, has, Chain-has, IsRing}
use g15daemon.Requests.{switch_priorities}
use g15daemon.Requests.Edit.{IsRing-load}

abbrev pub forgetful : Node → Node
forgetful n = record n { last_priority = null }

-- `d'` is `d`, but for the `last_priority` of the node, which is null.
pub record Restored (node : Ptr) (d d' : Daemon) : Type 0 where
  pub node_at : d'.nodes node ≡ Option.map forgetful (d.nodes node)
  pub others : (a : Ptr) → a ≢ node → d'.nodes a ≡ d.nodes a
  pub same : d' ≡ record d { nodes = d'.nodes }

load_put :
    (d : Daemon) (p c : Ptr) (n : Node)
    → p ≢ null
    → load (record (store d p n) { current = c }) p ≡ ok n
unfolding load store put
load_put d p c n ne = ground arith

put_same :
    (nodes : Ptr → Option Node) (p : Ptr) (n n' : Node)
    → put (put nodes p (some n)) p (some n') p ≡ some n'
unfolding put
put_same nodes p n n' = ground arith

put_other :
    (nodes : Ptr → Option Node) (p a : Ptr) (n n' : Node)
    → a ≢ p
    → put (put nodes p (some n)) p (some n') a ≡ nodes a
unfolding put
put_other nodes p a n n' ne = ground arith

test_other : (a b : Ptr) → a ≢ b → (a != b) ≡ true
test_other a b ne = ground arith

test_apart : (a b : Ptr) → a ≢ b → (b == a) ≡ false
test_apart a b ne = ground arith

test_same : (a : Ptr) → (a != a) ≡ false
test_same a = ground arith

restored_node :
    (d : Daemon) (p : Ptr) (n n1 : Node)
    → d.nodes p ≡ some n
    → put (put d.nodes p (some n1)) p (some (forgetful n)) p ≡ Option.map forgetful (d.nodes p)
restored_node d p n n1 e = rw e (put_same d.nodes p n1 (forgetful n))

-- The node written twice, and the screen shown before.
Restored-back :
    (node : Ptr) (d : Daemon) (n : Node)
    → d.nodes node ≡ some n
    → Restored node d
        (record (store
          (record (store d node (record n { last_priority = d.current })) { current = node })
          node
          (record n { last_priority = null })) { current = d.current })
unfolding store
Restored-back node d n found = record {
  node_at = restored_node d node n (record n { last_priority = d.current }) found;
  others = λ a apart.
      put_other d.nodes node a (record n { last_priority = d.current }) (forgetful n) apart;
  same = refl;
}

-- A client of the list whose screen is not shown switches to its screen, and from there back: but
-- for the node's `last_priority`, which is null, the daemon is then as before the first request.
pub switch_priorities-Restored :
    (node : Ptr) (xs : List Ptr) (d : Daemon)
    → IsRing d xs
    → has node xs ≡ true
    → d.current ≢ node
    → Returns
        (λ d1. (d1.current ≡ node) × Returns (Restored node d) (switch_priorities node d1))
        (switch_priorities node d)
unfolding switch_priorities
switch_priorities-Restored node xs d r h ne =
    let (n, got, at, found) = IsRing-load d xs node r h in
    let (p, q, at_current, current_ne) =
      Chain-has (links d.nodes) d.tail d.current xs r.chain r.current in
    let (p', q', at_node, node_ne) = Chain-has (links d.nodes) d.tail node xs r.chain h in
    let n1 = record n { last_priority = d.current } in
    let got1 = load_put d node node n1 node_ne in
    rw (got, test_other d.current node ne)
      (returns (
        refl,
        rw
            (
              got1,
              test_same node,
              test_apart d.current node ne,
              test_other d.current null current_ne,
            )
            (returns (Restored-back node d n found)),
      ))
