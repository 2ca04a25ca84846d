-- ===== src/Displays/Stuck.antt =====
-- The cycle key of the next daemon where no client's screen may be selected.
use mathlib.Core.Bool.{false≢true}
use g15daemon.Prelude.{
  ℕ, zero, suc, ◌+◌, ◌<◌, ◌||◌, [], ◌∷◌, ◌++◌, ◌≡◌, ◌≢◌, ◌⊎◌, inl, inr, refl, Bool, true, false,
  ◌==◌, ◌!=◌, if◌then◌else◌, none, some, arith, Run, ok, fault, out_of_fuel, ◌>>=◌, Bool-cases,
  ==-eq_false, eq_of_==, sym, subst, ap, ◌∙◌,
}
use g15daemon.Daemon.{Ptr, null}
use g15daemon.Displays.{
  Display, DisplayNode, Displays, Visibility, hidden, found, read_node, with_node, edit_node,
  edit_display, g15daemon_send_refresh, send_visibility, move_on, hide_loop, skip_once, goes_on,
  skip_loop, g15daemon_lcdnode_cycle,
}

-- No fault, and `P` of what is returned; the run may need more rounds.
data Runs {A : Type 0} (P : A → Type 0) : Run A → Type 0 where
  returns : {a : A} → P a → Runs P (ok a)
  cut_off : Runs P out_of_fuel

Runs-bind :
    {A B : Type 0} {P : A → Type 0} {Q : B → Type 0} {r : Run A} {k : A → Run B}
    → Runs P r
    → ((a : A) → P a → Runs Q (k a))
    → Runs Q (r >>= k)
Runs-bind (returns p) next = next _ p
Runs-bind cut_off next = cut_off

never_ok : {A : Type 0} {r : Run A} → Runs (λ _. false ≡ true) r → r ≡ out_of_fuel
never_ok (returns p) = absurd (false≢true p)
never_ok cut_off = refl

-- An address that holds a node.
abbrev IsLive : Displays → Ptr → Type 0
IsLive d p = (n : DisplayNode) × (p ≢ null) × (d.nodes p ≡ some n)

-- There are clients, none of their screens may be selected, and all pointers lead to nodes.
pub record NoneSelectable (d : Displays) : Type 0 where
  pub clients : 0 < d.numclients
  pub head : (n : DisplayNode) × (d.head ≢ null) × (d.nodes d.head ≡ some n)
  pub current : (n : DisplayNode) × (d.current ≢ null) × (d.nodes d.current ≡ some n)
  pub prev :
      (a : Ptr) (n : DisplayNode)
      → d.nodes a ≡ some n
      → (m : DisplayNode) × (n.prev ≢ null) × (d.nodes n.prev ≡ some m)
  pub never :
      (a : Ptr) (n : DisplayNode) → d.nodes a ≡ some n → (a ≡ d.tail) ⊎ (n.display.never_select ≡ 1)

abbrev Found : Displays → Ptr → DisplayNode → Type 0
Found d p n = d.nodes p ≡ some n

read_node-Runs : (d : Displays) (p : Ptr) → IsLive d p → Runs (Found d p) (read_node d p)
unfolding read_node
read_node-Runs d p (n, ne, e) =
    subst (λ o. Runs (Found d p) (if p == null then fault else found o)) (sym e)
      (rw (==-eq_false p 0 ne) (returns e))

some_eq : {m n : DisplayNode} → some m ≡ some n → m ≡ n
some_eq {m} h = ap (λ o. elim o [ none ↦ m | some x ↦ x ]) h

module _ (d : Displays) (p : Ptr) (n : DisplayNode) (at : d.nodes p ≡ some n)
    (f : Display → Display) where
  abbrev after_edit : Displays
  after_edit = with_node d p (some (record n { display = f n.display }))

  IsLive-edit : (a : Ptr) → IsLive d a → IsLive after_edit a
  IsLive-edit a (m, ne, e) = elim (Bool-cases (a == p)) [
    | inl same ↦ (record n { display = f n.display }, ne, rw same refl)
    | inr other ↦ (m, ne, rw other e)
  ]

  before_edit :
      (a : Ptr) (m : DisplayNode)
      → (f n.display).never_select ≡ n.display.never_select
      → after_edit.nodes a ≡ some m
      → (o : DisplayNode) × (d.nodes a ≡ some o)
        × (m.prev ≡ o.prev)
        × (m.display.never_select ≡ o.display.never_select)
  before_edit a m kept e = go (a == p) refl e
    where
      go :
          (b : Bool)
          → (a == p) ≡ b
          → (if b then some (record n { display = f n.display }) else d.nodes a) ≡ some m
          → (o : DisplayNode) × (d.nodes a ≡ some o)
            × (m.prev ≡ o.prev)
            × (m.display.never_select ≡ o.display.never_select)
      go true same e' =
          let e'' = sym (some_eq e') in
          (
            n,
            ap d.nodes (eq_of_== a p same) ∙ at,
            ap (λ x. x.prev) e'',
            ap (λ x. x.display.never_select) e'' ∙ kept,
          )
      go false other e' = (m, e', refl, refl)

  edit-NoneSelectable :
      (f n.display).never_select ≡ n.display.never_select
      → NoneSelectable d
      → NoneSelectable after_edit
  edit-NoneSelectable kept s = record {
    clients = s.clients;
    head = IsLive-edit d.head s.head;
    current = IsLive-edit d.current s.current;
    prev = λ a m e.
        let (o, e', same, never) = before_edit a m kept e in
        subst (λ x. IsLive after_edit x) (sym same) (IsLive-edit o.prev (s.prev a o e'));
    never = λ a m e.
        let (o, e', same, never) = before_edit a m kept e in
        subst (λ x. (a ≡ d.tail) ⊎ (x ≡ 1)) (sym never) (s.never a o e');
  }

edit_display-Runs :
    (d : Displays) (p : Ptr) (f : Display → Display)
    → ((s : Display) → (f s).never_select ≡ s.never_select)
    → IsLive d p
    → NoneSelectable d
    → Runs NoneSelectable (edit_display d p f)
unfolding edit_display edit_node
edit_display-Runs d p f kept live s =
    Runs-bind (read_node-Runs d p live)
      λ n at. returns (edit-NoneSelectable d p n at f (kept n.display) s)

abbrev Shown : Ptr → Displays → Type 0
Shown p d = NoneSelectable d × IsLive d p

send_refresh-Runs :
    (d : Displays) (p : Ptr)
    → IsLive d p
    → NoneSelectable d
    → Runs (Shown p) (g15daemon_send_refresh p d)
unfolding g15daemon_send_refresh
send_refresh-Runs d p live s =
    Runs-bind (read_node-Runs d p live)
      λ n at. returns (go ((p == d.current) || (n.display.state_changed != 0)))
  where
    go :
        (b : Bool) → Shown p (if b then record d { refresh_pending = d.refresh_pending + 1 } else d)
    go true = (
      record {
        clients = s.clients;
        head = s.head;
        current = s.current;
        prev = s.prev;
        never = s.never;
      },
      live,
    )
    go false = (s, live)

send_visibility-Runs :
    (d : Displays) (p : Ptr) (event : Ptr → Visibility)
    → IsLive d p
    → NoneSelectable d
    → Runs NoneSelectable (send_visibility event p d)
unfolding send_visibility
send_visibility-Runs d p event live s =
    Runs-bind (send_refresh-Runs d p live s)
      λ d' k. Runs-bind (read_node-Runs d' p k.1) λ n at. returns (go d' k.0 n.display.has_info)
  where
    go :
        (d' : Displays)
        → NoneSelectable d'
        → (b : Bool)
        → NoneSelectable (if b then record d' { sent = d'.sent ++ (event p ∷ []) } else d')
    go d' k true = record {
      clients = k.clients;
      head = k.head;
      current = k.current;
      prev = k.prev;
      never = k.never;
    }
    go d' k false = k

move_on-Runs : (d : Displays) → NoneSelectable d → Runs NoneSelectable (move_on d)
unfolding move_on
move_on-Runs d s = elim (Bool-cases (d.tail == d.current)) [
  | inl end ↦ rw end (
      returns (record {
        clients = s.clients;
        head = s.head;
        current = s.head;
        prev = s.prev;
        never = s.never;
      }))
  | inr inside ↦ rw inside (
      Runs-bind (read_node-Runs d d.current s.current) λ n at. returns (record {
        clients = s.clients;
        head = s.head;
        current = s.prev d.current n at;
        prev = s.prev;
        never = s.never;
      }))
]

hide_loop-Runs :
    (fuel : ℕ) (c : Ptr) (d : Displays)
    → NoneSelectable d
    → Runs NoneSelectable (hide_loop fuel c d)
unfolding hide_loop
hide_loop-Runs zero c d s = cut_off
hide_loop-Runs (suc fuel) c d s =
    Runs-bind
      (edit_display-Runs d d.current (λ x. record x { usr_foreground = 0 }) (λ x. refl) s.current s)
      λ d1 s1. Runs-bind (move_on-Runs d1 s1) λ d2 s2. elim (Bool-cases (c != d2.current)) [
        | inl more ↦ rw more (hide_loop-Runs fuel c d2 s2)
        | inr back ↦ rw back (returns s2)
      ]

skip_once-Runs :
    (rounds : ℕ) (d : Displays) → NoneSelectable d → Runs NoneSelectable (skip_once rounds d)
unfolding skip_once
skip_once-Runs rounds d s =
    Runs-bind (send_visibility-Runs d d.current hidden s.current s)
      λ d1 s1. Runs-bind (hide_loop-Runs rounds d.current d1 s1) λ d2 s2. move_on-Runs d2 s2

goes_on-true :
    (d : Displays) (n : DisplayNode)
    → NoneSelectable d
    → d.nodes d.current ≡ some n
    → goes_on d n ≡ true
goes_on-true d n s at = elim (s.never d.current n at) [
  | inl end ↦ ground (arith, s.clients)
  | inr never ↦ ground arith
]

skip_loop-Runs :
    (fuel rounds : ℕ) (d : Displays)
    → NoneSelectable d
    → Runs (λ _. false ≡ true) (skip_loop fuel rounds d)
unfolding skip_loop
skip_loop-Runs zero rounds d s = cut_off
skip_loop-Runs (suc fuel) rounds d s = Runs-bind (skip_once-Runs rounds d s) λ d1 s1.
    Runs-bind (read_node-Runs d1 d1.current s1.current)
      λ n at. rw (goes_on-true d1 n s1 at) (skip_loop-Runs fuel rounds d1 s1)

-- Where there are clients and none of their screens may be selected, the cycle key never comes back,
-- however many rounds its loops are given: the loop with `goto skip` does not end.
pub g15daemon_lcdnode_cycle-stuck :
    (fuel rounds : ℕ) (d : Displays)
    → NoneSelectable d
    → g15daemon_lcdnode_cycle fuel rounds d ≡ out_of_fuel
unfolding g15daemon_lcdnode_cycle
g15daemon_lcdnode_cycle-stuck fuel rounds d s = rw (never_ok (skip_loop-Runs fuel rounds d s)) refl
