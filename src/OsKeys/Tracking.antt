-- ===== src/OsKeys/Tracking.antt =====
-- The input device follows the keyboard through any sequence of events.
use g15daemon.Prelude.{
  ℕ, ◌-◌, ◌%◌, ◌^◌, ◌≡◌, refl, Bool, ◌==◌, ◌!=◌, if◌then◌else◌, Option, none, some, List, [], ◌∷◌,
  arith, ◌∙◌, Bool-cases, inl, inr,
}
use native.Mathlib.Nat.{zero-add}
use g15daemon.Keys.{Masks, edges}
use g15daemon.Keys.Edges.{
  Held, replay, replay-append, replay-edges, Tracks, Tracks-replay, in_range,
}
use g15daemon.Keys.Tracking.{held_by, Follows}
use g15daemon.OsKeys.{PluginEvent, event_keypress, m_and_mr, process_keys, keyevents, all_keyevents}

-- The key of a code, if any: the G keys, the M keys with MR, and the L keys where they are mapped.
unfoldable pub mapped : Masks → (map_lkeys code : ℕ) → Option ℕ
mapped k map_lkeys a =
    if in_range 18 167 a
    then some (k.g (a - 167))
    else if in_range 4 185 a
    then some (m_and_mr k (a - 185))
    else if in_range 5 189 a
    then if map_lkeys != 0 then some (k.l (a - 189)) else none
    else none

-- The keys that were reported last.
abbrev pub last_keys : List PluginEvent → (lastkeys : ℕ) → ℕ
last_keys [] lastkeys = lastkeys
last_keys (e ∷ es) lastkeys =
    last_keys es (if e.event == event_keypress then e.value % 2 ^ 32 else lastkeys)

module _ (k : Masks) (map_lkeys : ℕ) where
  -- The tests for one set of keys.
  replay-process_keys :
      (cur last : ℕ) (s : Held)
      → Follows last (mapped k map_lkeys) s
      → (a : ℕ)
      → replay (process_keys k map_lkeys cur last) s a ≡ held_by cur (mapped k map_lkeys a) (s a)
  unfolding process_keys mapped replay
  replay-process_keys cur last s f a =
      let m4 = m_and_mr k in
      let g : Tracks last k.g 18 0 167 s = λ b lo hi. rw zero-add (ground (arith, f b)) in
      let m : Tracks last m4 4 0 185 s = λ b lo hi. rw zero-add (ground (arith, f b)) in
      let s1 = replay (edges cur last k.g 18 0 167) s in
      let s2 = replay (edges cur last m4 4 0 185) s1 in
      let m1 : Tracks last m4 4 0 185 s1 =
        Tracks-replay cur last k.g m4 18 0 167 4 0 185 s (omega arith) g m in
      let one = replay-edges cur last k.g 18 0 167 s a g in
      let two = replay-edges cur last m4 4 0 185 s1 a m1 in
      elim (Bool-cases (map_lkeys != 0)) [
        | inl on ↦
            let l : Tracks last k.l 5 0 189 s = λ b lo hi. rw zero-add (ground (arith, f b)) in
            let l1 : Tracks last k.l 5 0 189 s1 =
              Tracks-replay cur last k.g k.l 18 0 167 5 0 189 s (omega arith) g l in
            let l2 : Tracks last k.l 5 0 189 s2 =
              Tracks-replay cur last m4 k.l 4 0 185 5 0 189 s1 (omega arith) m1 l1 in
            let three = replay-edges cur last k.l 5 0 189 s2 a l2 in
            rw on (
              rw (replay-append, replay-append)
                (three
                  ∙ rw zero-add (ground (arith, zero-add (a - 167), zero-add (a - 185), one, two))))
        | inr off ↦ rw off (
            rw (replay-append, replay-append)
              (two ∙ rw zero-add (ground (arith, zero-add (a - 167), one))))
      ]

  held_again : (keys : ℕ) (o : Option ℕ) (x y : Bool) → x ≡ held_by keys o y → x ≡ held_by keys o x
  held_again keys none x y h = refl
  held_again keys (some m) x y h = h

  held_later :
      (keys later : ℕ) (o : Option ℕ) (x y : Bool)
      → x ≡ held_by keys o y
      → held_by later o x ≡ held_by later o y
  held_later keys later none x y h = h
  held_later keys later (some m) x y h = refl

  -- If the input device holds every mapped code as `lastkeys` says, then after any sequence of events
  -- it holds every mapped code as the last key event of the sequence says, whatever other events come
  -- in between, and no other code has changed.
  pub replay-all_keyevents :
      (es : List PluginEvent) (last : ℕ) (s : Held)
      → Follows last (mapped k map_lkeys) s
      → (a : ℕ)
      → replay (all_keyevents k map_lkeys es last) s a
        ≡ held_by (last_keys es last) (mapped k map_lkeys a) (s a)
  unfolding all_keyevents keyevents
  replay-all_keyevents [] last s f a = unfold replay in f a
  replay-all_keyevents (e ∷ es) last s f a = elim (Bool-cases (e.event == event_keypress)) [
    | inl press ↦
        let cur = e.value % 2 ^ 32 in
        let s1 = replay (process_keys k map_lkeys cur last) s in
        let one = replay-process_keys cur last s f in
        let later =
          replay-all_keyevents es cur s1
            (λ b. held_again cur (mapped k map_lkeys b) (s1 b) (s b) (one b)) a in
        rw press (
          rw replay-append
            (later ∙ held_later cur (last_keys es cur) (mapped k map_lkeys a) (s1 a) (s a) (one a)))
    | inr other ↦ rw other (replay-all_keyevents es last s f a)
  ]
