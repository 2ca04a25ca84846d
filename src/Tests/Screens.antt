-- ===== src/Tests/Screens.antt =====
-- A display list of three screens: the clock's at the tail and two of clients.
use g15daemon.Prelude.{◌≡◌, refl, none, some, [], ◌∷◌, arith, Returns, if◌then◌else◌}
use g15daemon.Lcd.{Levels, create_lcd}
use g15daemon.Daemon.{Ptr, Node, Daemon, put}
use g15daemon.LinkedLists.{
  lcdlist_init, lcdnode_add, lcdnode_remove, lcdlist_destroy, cycle_screens,
}
use g15daemon.LinkedLists.Ring.{IsRing, links, has}
use g15daemon.LinkedLists.Add.{Added, lcdnode_add-Added, lcdlist_init-IsRing}
use g15daemon.LinkedLists.Access.{screen}
use g15daemon.LinkedLists.Destroy.{lcdlist_destroy-frees}
use g15daemon.LinkedLists.Remove.{lcdnode_remove-Removed}
use g15daemon.LinkedLists.Cycle.{Cycled, cycle_screens-Cycled}
use g15daemon.LinkedLists.Remove.Outcome.{Removed}

abbrev pub levels : Levels
levels = record { brightness_medium = 1; contrast_medium = 1; led_mr = 8 }

abbrev pub node : (prev next : Ptr) → Node
node p n = record { prev = p; next = n; last_priority = 0; lcd = create_lcd levels }

abbrev pub three : Daemon
three = record {
  nodes = put (put (put (λ _. none) 1 (some (node 1 2))) 2 (some (node 1 3))) 3 (some (node 2 1));
  head = 3;
  tail = 1;
  current = 2;
  keyhandler = 2;
  client_handles_keys = 1;
  current_key_state = 0;
  connected_clients = 2;
}

pub three-IsRing : IsRing three (3 ∷ 2 ∷ 1 ∷ [])
unfolding links put
three-IsRing = record {
  chain = (omega arith, refl, refl, (omega arith, refl, refl, (omega arith, refl, refl, tt)));
  head = refl;
  tail = refl;
  current = refl;
}

lcdlist_init-IsRing_example : IsRing (lcdlist_init levels 5) (5 ∷ [])
lcdlist_init-IsRing_example = lcdlist_init-IsRing levels 5 (omega arith)

lcdnode_add-Added_example :
    Returns (Added levels 4 three (3 ∷ 2 ∷ 1 ∷ [])) (lcdnode_add levels 4 three)
unfolding put
lcdnode_add-Added_example =
    lcdnode_add-Added levels 4 three (3 ∷ 2 ∷ 1 ∷ []) (omega arith) refl three-IsRing

lcdnode_remove-Removed_example : Returns (Removed 2 (3 ∷ 2 ∷ 1 ∷ []) three) (lcdnode_remove 2 three)
lcdnode_remove-Removed_example =
    lcdnode_remove-Removed 2 three (3 ∷ 2 ∷ 1 ∷ []) three-IsRing refl (omega arith)

lcdlist_destroy-frees_example :
    Returns
      (λ d'.
        (a : Ptr)
        → screen d'.nodes a ≡ (if has a (3 ∷ 2 ∷ 1 ∷ []) then none else screen three.nodes a))
      (lcdlist_destroy 3 three)
lcdlist_destroy-frees_example =
    lcdlist_destroy-frees 3 three (3 ∷ 2 ∷ 1 ∷ []) three-IsRing (omega arith)

cycle_screens-Cycled_example : Returns (Cycled (3 ∷ 2 ∷ 1 ∷ []) three) (cycle_screens 3 three)
cycle_screens-Cycled_example =
    cycle_screens-Cycled three (3 ∷ 2 ∷ 1 ∷ []) three-IsRing 3 (omega arith)
