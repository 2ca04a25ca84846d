-- ===== src/Daemon.antt =====
-- The state that the threads of the daemon share: the display list of
-- g15daemon/g15daemon/g15daemon.h, its nodes at their addresses, and the global variables of
-- g15daemon/g15daemon/main.c. A node owns its `lcd_t`, which is allocated and freed with it, so the
-- screen stands in the node. There is one display list, so the `list` pointers are left out.
use g15daemon.Prelude.{ℕ, ◌==◌, if◌then◌else◌, Option, none, some, Run, ok, fault, ◌>>=◌}
use g15daemon.Lcd.{Lcd}

abbrev pub Ptr : Type 0
Ptr = ℕ

abbrev pub null : Ptr
null = 0

pub record Node : Type 0 where
  pub prev : Ptr
  pub next : Ptr
  pub last_priority : Ptr
  pub lcd : Lcd

pub record Daemon : Type 0 where
  pub nodes : Ptr → Option Node
  pub head : Ptr
  pub tail : Ptr
  pub current : Ptr
  -- The node whose `lcd` field `keyhandler` points at, or null.
  pub keyhandler : Ptr
  pub client_handles_keys : ℕ
  pub current_key_state : ℕ
  pub connected_clients : ℕ

-- The node at an address with a new content.
unfoldable pub put : (Ptr → Option Node) → Ptr → Option Node → Ptr → Option Node
put nodes p c a = if a == p then c else nodes a

abbrev pub from_option : Option Node → Run Node
from_option none = fault
from_option (some n) = ok n

-- `*p`: a fault at NULL and at an address that holds no node.
unfoldable pub load : Daemon → Ptr → Run Node
load d p = if p == null then fault else from_option (d.nodes p)

-- A write to the node at p, which must have been loaded.
unfoldable pub store : Daemon → Ptr → Node → Daemon
store d p n = record d { nodes = put d.nodes p (some n) }

unfoldable pub free : Daemon → Ptr → Daemon
free d p = record d { nodes = put d.nodes p none }

unfoldable pub set_prev : Daemon → (p q : Ptr) → Run Daemon
set_prev d p q = do n ← load d p; ok (store d p (record n { prev = q }))

unfoldable pub set_next : Daemon → (p q : Ptr) → Run Daemon
set_next d p q = do n ← load d p; ok (store d p (record n { next = q }))

-- `p->lcd->... = ...`
unfoldable pub set_lcd : Daemon → Ptr → (Lcd → Lcd) → Run Daemon
set_lcd d p f = do n ← load d p; ok (store d p (record n { lcd = f n.lcd }))
