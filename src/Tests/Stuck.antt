-- ===== src/Tests/Stuck.antt =====
-- The clock's screen and one of a client that may not be selected.
use g15daemon.Prelude.{
  ℕ, ◌==◌, ◌≡◌, ◌⊎◌, inl, inr, refl, arith, if◌then◌else◌, Bool, true, false, Option, none, some,
  [], ap, subst, sym, out_of_fuel, ◌≢◌, ◌∙◌, eq_of_==,
}
use g15daemon.Daemon.{Ptr, null}
use g15daemon.Displays.{Display, DisplayNode, Displays, g15daemon_lcdnode_cycle}
use g15daemon.Displays.Stuck.{NoneSelectable, g15daemon_lcdnode_cycle-stuck}

abbrev display : (never_select : ℕ) → Display
display never_select = record {
  lcd_type = 0;
  buf = λ _. 0;
  max_x = 160;
  max_y = 43;
  connection = 0;
  backlight_state = 1;
  mkey_state = 0;
  contrast_state = 1;
  state_changed = 1;
  usr_foreground = 0;
  never_select = never_select;
  has_info = true;
}

abbrev clock : DisplayNode
clock = record { prev = 1; next = 2; last_priority = null; display = display 0 }

abbrev client : DisplayNode
client = record { prev = 1; next = 1; last_priority = null; display = display 1 }

abbrev nodes : Ptr → Option DisplayNode
nodes a = if a == 1 then some clock else if a == 2 then some client else none

abbrev two : Displays
two = record {
  nodes = nodes;
  head = 2;
  tail = 1;
  current = 2;
  numclients = 1;
  keyhandler = null;
  client_handles_keys = 0;
  refresh_pending = 0;
  sent = [];
}

abbrev prev_of : Option DisplayNode → Ptr
prev_of none = 1
prev_of (some n) = n.prev

abbrev never_of : Option DisplayNode → ℕ
never_of none = 0
never_of (some n) = n.display.never_select

prev_of-nodes : (a : Ptr) → prev_of (nodes a) ≡ 1
prev_of-nodes a = ground arith

abbrev LeadsTo : Ptr → Type 0
LeadsTo p = (m : DisplayNode) × (p ≢ null) × (nodes p ≡ some m)

nodes-never :
    (a : Ptr) (n : DisplayNode) → nodes a ≡ some n → (a ≡ 1) ⊎ (n.display.never_select ≡ 1)
nodes-never a n h = go (a == 1) (a == 2) refl h
  where
    go :
        (b c : Bool)
        → (a == 1) ≡ b
        → (if b then some clock else if c then some client else none) ≡ some n
        → (a ≡ 1) ⊎ (n.display.never_select ≡ 1)
    go true c e h = inl (eq_of_== a 1 e)
    go false true e h = inr (sym (ap never_of h))
    go false false e h = absurd (ground (arith, h))

two-NoneSelectable : NoneSelectable two
two-NoneSelectable = record {
  clients = omega arith;
  head = (client, omega arith, refl);
  current = (client, omega arith, refl);
  prev = λ a n e.
      subst LeadsTo (sym (sym (ap prev_of e) ∙ prev_of-nodes a)) (clock, omega arith, refl);
  never = nodes-never;
}

g15daemon_lcdnode_cycle-stuck_example : g15daemon_lcdnode_cycle 5 9 two ≡ out_of_fuel
g15daemon_lcdnode_cycle-stuck_example = g15daemon_lcdnode_cycle-stuck 5 9 two two-NoneSelectable
