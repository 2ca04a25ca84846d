-- ===== src/LinkedLists.antt =====
-- g15daemon/g15daemon/linked_lists.c, and the cycling of screens in `g15_process_keys` of
-- g15daemon/g15daemon/utility_funcs.c. `fresh` is the address that `g15_xmalloc` returns. The mutex
-- makes each operation one step, so it is left out; so are the log messages.
pub mod Ring
pub mod Access
pub mod Drawn
pub mod Add
pub mod Unlink
pub mod Remove
pub mod Destroy
pub mod Walk
pub mod Cycle
use g15daemon.Prelude.{
  ℕ, zero, suc, Bool, ◌==◌, ◌!=◌, if◌then◌else◌, none, some, Run, ok, out_of_fuel, ◌>>=◌,
}
use g15daemon.Lcd.{Lcd, Levels, create_lcd}
use g15daemon.Daemon.{Ptr, null, Node, Daemon, put, load, store, free, set_prev, set_next, set_lcd}

-- The display list with one node, the clock's. The globals have their initial values; those that the
-- keyboard thread sets come as arguments elsewhere.
unfoldable pub lcdlist_init : Levels → (fresh : Ptr) → Daemon
unfolding create_lcd put
lcdlist_init g fresh = record {
  nodes =
      put (λ _. none) fresh
        (some (record {
          prev = fresh;
          next = fresh;
          last_priority = null;
          lcd = record (create_lcd g) { mkey_state = 0 };
        }));
  head = fresh;
  tail = fresh;
  current = fresh;
  keyhandler = null;
  client_handles_keys = 0;
  current_key_state = 0;
  connected_clients = 0;
}

pub lcdnode_add : Levels → (fresh : Ptr) → Daemon → Run Daemon
lcdnode_add g fresh d = do
  let new =
      store d fresh
        (record { prev = d.head; next = d.tail; last_priority = null; lcd = create_lcd g })
  d' ← set_next new d.head fresh
  ok (record d' { current = fresh; head = fresh })

-- The screen that is shown when the one shown goes away.
pub shift_current : Ptr → Daemon → Run Daemon
shift_current old d =
    if d.current == old
    then (do
      n ← load d old
      let shown = if d.current != d.head then n.next else n.prev
      d' ← set_lcd (record d { current = shown }) shown (λ lcd. record lcd { state_changed = 1 })
      ok d')
    else ok d

pub release_keys : Ptr → Daemon → Daemon
release_keys old d =
    if d.keyhandler == old then record d { client_handles_keys = 0; keyhandler = null } else d

-- The links round the node. `prev` and `next` of the C code are pointers to the fields of the old
-- node, so they are read again after each write.
pub unlink : Ptr → Daemon → Run Daemon
unlink old d = do
  n ← load d old
  if d.head != old
      then (do d' ← set_prev d n.next n.prev; n' ← load d' old; set_next d' n'.prev n'.next)
      else (do d' ← set_next d n.prev d.tail; n' ← load d' old; ok (record d' { head = n'.prev }))

-- The screen of the node is freed with it, at the end; the C code frees it first, and uses only the
-- screens of other nodes in between.
pub lcdnode_remove : Ptr → Daemon → Run Daemon
lcdnode_remove old d = do
  n ← load d old
  d' ← shift_current old d
  d'' ← unlink old (release_keys old d')
  ok (free d'' old)

-- `while (head != tail) lcdnode_remove (head)`
pub destroy_loop : (fuel : ℕ) → Daemon → Run Daemon
destroy_loop zero d = out_of_fuel
destroy_loop (suc fuel) d =
    let round = lcdnode_remove d.head d >>= destroy_loop fuel in
    if d.head != d.tail then round else ok d

pub lcdlist_destroy : (fuel : ℕ) → Daemon → Run Daemon
lcdlist_destroy fuel d = do d' ← destroy_loop fuel d; n ← load d' d'.tail; ok (free d' d'.tail)

-- The screen after the one at c: towards the tail, and from the tail to the head.
pub step_current : Daemon → Run Daemon
step_current d =
    if d.tail == d.current
    then ok (record d { current = d.head })
    else (do n ← load d d.current; ok (record d { current = n.prev }))

-- The `do ... while` that clears `usr_foreground` all round the list.
pub clear_loop : (fuel : ℕ) (current_screen : Ptr) → Daemon → Run Daemon
clear_loop zero current_screen d = out_of_fuel
clear_loop (suc fuel) current_screen d = do
  d' ← set_lcd d d.current (λ lcd. record lcd { usr_foreground = 0 })
  d'' ← step_current d'
  let rest = clear_loop fuel current_screen d''
  if current_screen != d''.current then rest else ok d''

-- The screen at p is now shown because the user asked for it.
pub select : Ptr → Daemon → Run Daemon
select p d = do
  d' ← set_lcd d p (λ lcd. record lcd { usr_foreground = 1; state_changed = 1 })
  n ← load d' p
  ok (store d' p (record n { last_priority = p }))

-- What a press of the cycle key does.
pub cycle_screens : (fuel : ℕ) → Daemon → Run Daemon
cycle_screens fuel d = do
  d' ← clear_loop fuel d.current d
  d'' ← step_current d'
  select d''.current d''
