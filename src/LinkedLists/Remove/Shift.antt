-- ===== src/LinkedLists/Remove/Shift.antt =====
-- `shift_current`: the first step of `lcdnode_remove`, which chooses the screen that is shown next.
use g15daemon.Prelude.{
  ◌≡◌, ◌≢◌, refl, ◌==◌, ◌!=◌, if◌then◌else◌, some, arith, Returns, returns, Returns-bind,
  Bool-cases, inl, inr, ap, subst, sym,
}
use g15daemon.Lcd.{Lcd}
use g15daemon.Daemon.{Ptr, null, Daemon}
use g15daemon.LinkedLists.{shift_current}
use g15daemon.LinkedLists.Ring.{links}
use g15daemon.LinkedLists.Access.{screen, change, load_lem, set_lcd-Wrote}

abbrev pub mark_changed : Lcd → Lcd
mark_changed lcd = record lcd { state_changed = 1 }

-- `shift_current`, where `old` has the neighbours p and q.
pub record Shifted (old p q : Ptr) (d d' : Daemon) : Type 0 where
  pub links_eq : (a : Ptr) → links d'.nodes a ≡ links d.nodes a
  pub current :
      d'.current ≡ (if d.current == old then (if old == d.head then q else p) else d.current)
  pub screens :
      (a : Ptr)
      → screen d'.nodes a ≡ (
          if d.current == old
          then change (screen d.nodes) d'.current mark_changed a
          else screen d.nodes a)
  pub same : d' ≡ record d { nodes = d'.nodes; current = d'.current }

module _ (old p q : Ptr) (d : Daemon) (ne : old ≢ null) (at : links d.nodes old ≡ some (q, p))
    (p_at : (a : Ptr) × (b : Ptr) × (links d.nodes p ≡ some (a, b)) × (p ≢ null))
    (q_at : (a : Ptr) × (b : Ptr) × (links d.nodes q ≡ some (a, b)) × (q ≢ null)) where
  -- The neighbour that is shown next.
  abbrev heir : Ptr
  heir = if old == d.head then q else p

  heir_at : (a : Ptr) × (b : Ptr) × (links d.nodes heir ≡ some (a, b)) × (heir ≢ null)
  heir_at = elim (Bool-cases (old == d.head)) [ inl e ↦ rw e q_at | inr e ↦ rw e p_at ]

  pub shift_current-Shifted : Returns (Shifted old p q d) (shift_current old d)
  unfolding shift_current
  shift_current-Shifted = elim (Bool-cases (d.current == old)) [
    | inr other ↦ rw other (
        returns (record {
          links_eq = λ a. refl;
          current = rw other refl;
          screens = λ a. rw other refl;
          same = refl;
        }))
    | inl shown ↦
        let (n, got, prev_eq, next_eq, holds) = load_lem d old ne at in
        let chosen : (if d.current != d.head then n.next else n.prev) ≡ heir = ground arith in
        let (a, b, e, heir_ne) = heir_at in
        rw (shown, got, chosen)
          (Returns-bind (set_lcd-Wrote (record d { current = heir }) heir heir_ne e mark_changed)
            λ d' w.
              let cur : d'.current ≡ heir = ap (λ (e : Daemon). e.current) w.same in
              returns (record {
                links_eq = w.links_eq;
                current = rw shown cur;
                screens = λ a. rw (shown, cur) (w.screens_eq a);
                same =
                    subst (λ c. d' ≡ record d { nodes = d'.nodes; current = c }) (sym cur) w.same;
              }))
  ]
