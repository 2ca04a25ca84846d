-- ===== src/Displays.antt =====
-- The display list of the next daemon: g15daemon-wip/g15daemon/linked_lists.c, with the refresh of
-- g15daemon-wip/g15daemon/utility_funcs.c. What an event's listener does is left to the plugins; that
-- an event is sent is noted.
pub mod Stuck
use g15daemon.Prelude.{
  ℕ, zero, suc, ◌+◌, ◌-◌, ◌%◌, ◌^◌, Bool, true, ◌&&◌, ◌||◌, ◌==◌, ◌!=◌, ltb, if◌then◌else◌, Option,
  none, some, List, [], ◌∷◌, ◌++◌, Run, ok, fault, out_of_fuel, ◌>>=◌,
}
use g15daemon.Gfx.{Buf, lcd_width, lcd_height}
use g15daemon.Lcd.{Levels}
use g15daemon.Daemon.{Ptr, null}

-- `lcd_t`; `has_info` is whether `g15plugin->info` is not NULL.
pub record Display : Type 0 where
  pub lcd_type : ℕ
  pub buf : Buf
  pub max_x : ℕ
  pub max_y : ℕ
  pub connection : ℕ
  pub backlight_state : ℕ
  pub mkey_state : ℕ
  pub contrast_state : ℕ
  pub state_changed : ℕ
  pub usr_foreground : ℕ
  pub never_select : ℕ
  pub has_info : Bool

-- A node owns its `lcd_t`.
pub record DisplayNode : Type 0 where
  pub prev : Ptr
  pub next : Ptr
  pub last_priority : Ptr
  pub display : Display

-- The event G15_EVENT_VISIBILITY_CHANGED for the screen of a node.
pub data Visibility : Type 0 where
  hidden visible : (node : Ptr) → Visibility

-- `g15daemon_t`, the global variables, and the events that were sent. `keyhandler` is the node whose
-- `lcd` field it points at, or null.
pub record Displays : Type 0 where
  pub nodes : Ptr → Option DisplayNode
  pub head : Ptr
  pub tail : Ptr
  pub current : Ptr
  pub numclients : ℕ
  pub keyhandler : Ptr
  pub client_handles_keys : ℕ
  pub refresh_pending : ℕ
  pub sent : List Visibility

-- `ll_create_lcd`; `g15daemon_xmalloc` zeroes the memory.
pub ll_create_lcd : Levels → Display
ll_create_lcd g = record {
  lcd_type = 0;
  buf = λ _. 0;
  max_x = lcd_width;
  max_y = lcd_height;
  connection = 0;
  backlight_state = g.brightness_medium;
  mkey_state = 0;
  contrast_state = g.contrast_medium;
  state_changed = 1;
  usr_foreground = 0;
  never_select = 0;
  has_info = true;
}

abbrev pub found : Option DisplayNode → Run DisplayNode
found none = fault
found (some n) = ok n

-- `*p`, and a write to the node at p.
pub read_node : Displays → Ptr → Run DisplayNode
read_node d p = if p == null then fault else found (d.nodes p)

abbrev pub with_node : Displays → Ptr → Option DisplayNode → Displays
with_node d p o = record d { nodes = λ a. if a == p then o else d.nodes a }

pub edit_node : Displays → Ptr → (DisplayNode → DisplayNode) → Run Displays
edit_node d p f = do n ← read_node d p; ok (with_node d p (some (f n)))

-- `p->lcd->... = ...`
pub edit_display : Displays → Ptr → (Display → Display) → Run Displays
edit_display d p f = edit_node d p (λ n. record n { display = f n.display })

pub ll_lcdlist_init : Levels → (fresh : Ptr) → Displays
ll_lcdlist_init g fresh = record {
  nodes = λ a.
      if a == fresh
      then some (record {
        prev = fresh;
        next = fresh;
        last_priority = null;
        display = record (ll_create_lcd g) { has_info = Bool.false };
      })
      else none;
  head = fresh;
  tail = fresh;
  current = fresh;
  numclients = 0;
  keyhandler = null;
  client_handles_keys = 0;
  refresh_pending = 0;
  sent = [];
}

pub g15daemon_lcdnode_add : Levels → (fresh : Ptr) → Displays → Run Displays
g15daemon_lcdnode_add g fresh d = do
  let new = with_node d fresh (
      some
        (record { prev = d.head; next = d.tail; last_priority = null; display = ll_create_lcd g }))
  d' ← edit_node new d.head (λ n. record n { next = fresh })
  ok (record d' { current = fresh; head = fresh; numclients = (d'.numclients + 1) % 2 ^ 64 })

-- `g15daemon_send_refresh` of the screen of a node.
pub g15daemon_send_refresh : Ptr → Displays → Run Displays
g15daemon_send_refresh p d = do
  n ← read_node d p
  ok (
      if (p == d.current) || (n.display.state_changed != 0)
      then record d { refresh_pending = d.refresh_pending + 1 }
      else d)

-- `g15daemon_send_event` with G15_EVENT_VISIBILITY_CHANGED: the listener is told where there is one.
pub send_visibility : (Ptr → Visibility) → Ptr → Displays → Run Displays
send_visibility event p d = do
  d' ← g15daemon_send_refresh p d
  n ← read_node d' p
  ok (if n.display.has_info then record d' { sent = d'.sent ++ (event p ∷ []) } else d')

-- The screen towards the tail, and from the tail to the head.
pub move_on : Displays → Run Displays
move_on d =
    if d.tail == d.current
    then ok (record d { current = d.head })
    else (do n ← read_node d d.current; ok (record d { current = n.prev }))

-- The `do ... while` round the list.
pub hide_loop : (fuel : ℕ) (current_screen : Ptr) → Displays → Run Displays
hide_loop zero current_screen d = out_of_fuel
hide_loop (suc fuel) current_screen d = do
  d' ← edit_display d d.current (λ s. record s { usr_foreground = 0 })
  d'' ← move_on d'
  let rest = hide_loop fuel current_screen d''
  if current_screen != d''.current then rest else ok d''

-- From the label `skip` to the `goto`: the loop takes `rounds` rounds for the list.
pub skip_once : (rounds : ℕ) → Displays → Run Displays
skip_once rounds d = do
  d1 ← send_visibility hidden d.current d
  d2 ← hide_loop rounds d.current d1
  move_on d2

-- The test for `goto skip`.
abbrev pub goes_on : Displays → DisplayNode → Bool
goes_on d n = (n.display.never_select == 1) || (ltb 0 d.numclients && (d.current == d.tail))

pub skip_loop : (fuel rounds : ℕ) → Displays → Run Displays
skip_loop zero rounds d = out_of_fuel
skip_loop (suc fuel) rounds d = do
  d' ← skip_once rounds d
  n ← read_node d' d'.current
  let rest = skip_loop fuel rounds d'
  if goes_on d' n then rest else ok d'

pub g15daemon_lcdnode_cycle : (fuel rounds : ℕ) → Displays → Run Displays
g15daemon_lcdnode_cycle fuel rounds d = do
  d1 ← skip_loop fuel rounds d
  d2 ← edit_node d1 d1.current (λ n. record n { last_priority = d1.current })
  d3 ← edit_display d2 d2.current (λ s. record s { usr_foreground = 1 })
  send_visibility visible d3.current d3

-- The screen that is shown when the one that is shown goes away.
pub show_other : Ptr → Displays → Run Displays
show_other old d =
    if d.current == old
    then (do
      n ← read_node d old
      let shown = if d.current != d.head then n.next else n.prev
      edit_display (record d { current = shown }) shown (λ s. record s { state_changed = 1 }))
    else ok d

-- The links round the node; `prev` and `next` are pointers to its fields, which are read again.
pub take_out : Ptr → Displays → Run Displays
take_out old d = do
  n ← read_node d old
  if d.head != old
      then (do
        d' ← edit_node d n.next (λ m. record m { prev = n.prev })
        n' ← read_node d' old
        edit_node d' n'.prev (λ m. record m { next = n'.next }))
      else (do
        d' ← edit_node d n.prev (λ m. record m { next = d.tail })
        n' ← read_node d' old
        ok (record d' { head = n'.prev }))

pub g15daemon_lcdnode_remove : Ptr → Displays → Run Displays
g15daemon_lcdnode_remove old d = if old == d.tail then ok d else (do
  n ← read_node d old
  d1 ← show_other old (record d { numclients = (d.numclients + (2 ^ 64 - 1)) % 2 ^ 64 })
  let d2 =
      if d1.keyhandler == old then record d1 { client_handles_keys = 0; keyhandler = null } else d1
  d3 ← take_out old d2
  d4 ← g15daemon_send_refresh d3.current d3
  ok (with_node d4 old none))
