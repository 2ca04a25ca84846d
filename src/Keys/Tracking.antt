-- ===== src/Keys/Tracking.antt =====
-- The input device follows the keyboard: replaying the events of `g15_process_keys` takes every key
-- that is reported from its last state to its new one.
use g15daemon.Prelude.{
  ℕ, ◌+◌, ◌-◌, ◌≡◌, refl, Bool, ◌&&◌, ◌==◌, ◌!=◌, if◌then◌else◌, Option, none, some, arith, ◌∙◌,
  Bool-cases, inl, inr, ap, sym, ◌⊎◌,
}
use native.Mathlib.Nat.{zero-add}
use g15daemon.Daemon.{Daemon}
use g15daemon.Keys.{
  Masks, pressed, edge, edges, game_events, record_events, menu_events, key_events,
}
use g15daemon.Keys.Edges.{
  Held, replay, replay-append, replay-edge, replay-edges, Tracks, Tracks-replay, in_range,
}

-- The key that is reported under a code, if any: the G and M keys unless a client handles them, MR
-- where besides no client is connected and MR does not cycle, L1 unless it cycles, and L2 to L5.
unfoldable pub reported : Masks → (cycle_key : ℕ) → Daemon → (code : ℕ) → Option ℕ
reported k cycle_key d a =
    if in_range 18 167 a
    then if d.client_handles_keys == 0 then some (k.g (a - 167)) else none
    else if in_range 3 185 a
    then if d.client_handles_keys == 0 then some (k.m (a - 185)) else none
    else if a == 188
    then if (d.connected_clients == 0) && (cycle_key != k.mr) && (d.client_handles_keys == 0)
      then some k.mr
      else none
    else if a == 189
    then if cycle_key != k.l 0 then some (k.l 0) else none
    else if in_range 4 190 a
    then some (k.l (1 + (a - 190)))
    else none

-- Held as `keys` says if the code has a key, and else as before.
abbrev pub held_by : (keys : ℕ) → Option ℕ → Bool → Bool
held_by keys none before = before
held_by keys (some m) before = pressed keys m

-- The keys of each part of the function.
abbrev game_key : Masks → Daemon → ℕ → Option ℕ
game_key k d a =
    if d.client_handles_keys == 0
    then if in_range 18 167 a
      then some (k.g (a - 167))
      else if in_range 3 185 a
      then some (k.m (a - 185))
      else none
    else none

abbrev record_key : Masks → (cycle_key : ℕ) → Daemon → ℕ → Option ℕ
record_key k cycle_key d a =
    if (d.connected_clients == 0) && (cycle_key != k.mr) && (d.client_handles_keys == 0)
    then if a == 188 then some k.mr else none
    else none

abbrev menu_key : Masks → (cycle_key : ℕ) → ℕ → Option ℕ
menu_key k cycle_key a =
    if a == 189
    then if cycle_key != k.l 0 then some (k.l 0) else none
    else if in_range 4 190 a
    then some (k.l (1 + (a - 190)))
    else none

abbrev pub Follows : (keys : ℕ) → (ℕ → Option ℕ) → Held → Type 0
Follows keys key s = (a : ℕ) → s a ≡ held_by keys (key a) (s a)

module _ (k : Masks) (cycle_key : ℕ) (d : Daemon) (cur last : ℕ) (s : Held) where
  replay-game :
      Follows last (game_key k d) s
      → (a : ℕ) → replay (game_events k d cur last) s a ≡ held_by cur (game_key k d a) (s a)
  unfolding game_events replay
  replay-game f a = elim (Bool-cases (d.client_handles_keys == 0)) [
    | inl free ↦
        let g : Tracks last k.g 18 0 167 s = λ b lo hi. rw zero-add (ground (arith, f b)) in
        let m : Tracks last k.m 3 0 185 s = λ b lo hi. rw zero-add (ground (arith, f b)) in
        let first = replay-edges cur last k.g 18 0 167 s a g in
        let second =
          replay-edges cur last k.m 3 0 185 (replay (edges cur last k.g 18 0 167) s) a
            (Tracks-replay cur last k.g k.m 18 0 167 3 0 185 s (omega arith) g m) in
        rw free
          (rw replay-append (second ∙ rw zero-add (ground (arith, zero-add (a - 167), first))))
    | inr taken ↦ rw (taken, replay) refl
  ]

  replay-record :
      Follows last (record_key k cycle_key d) s
      → (a : ℕ)
      → replay (record_events k cycle_key d cur last) s a
        ≡ held_by cur (record_key k cycle_key d a) (s a)
  unfolding record_events replay
  replay-record f a = ground (arith, replay-edge cur last k.mr 188 s a, f 188)

  replay-menu :
      Follows last (menu_key k cycle_key) s
      → (a : ℕ)
      → replay (menu_events k cycle_key cur last) s a ≡ held_by cur (menu_key k cycle_key a) (s a)
  unfolding menu_events
  replay-menu f a =
      let l : Tracks last k.l 4 1 190 s = λ b lo hi. ground (arith, f b) in
      elim (Bool-cases (cycle_key != k.l 0)) [
        | inl own ↦
            let one = replay-edge cur last (k.l 0) 189 s in
            let first : s 189 ≡ pressed last (k.l 0) = ground (arith, f 189) in
            let l' : Tracks last k.l 4 1 190 (replay (edge cur last (k.l 0) 189) s) =
              λ b lo hi. ground (arith, one b first, l b lo hi) in
            rw own (
              rw replay-append (
                replay-edges cur last k.l 4 1 190 (replay (edge cur last (k.l 0) 189) s) a l'
                ∙ ground (arith, one a first)))
        | inr cycles ↦ rw cycles (replay-edges cur last k.l 4 1 190 s a l ∙ ground arith)
      ]

-- Where a part reports a key, it is the key that is reported, and no two parts report the same code.
game_key-reported :
    (k : Masks) (cycle_key : ℕ) (d : Daemon) (a : ℕ)
    → (game_key k d a ≡ none) ⊎ (game_key k d a ≡ reported k cycle_key d a)
unfolding reported
game_key-reported k cycle_key d a = ground arith

record_key-reported :
    (k : Masks) (cycle_key : ℕ) (d : Daemon) (a : ℕ)
    → (record_key k cycle_key d a ≡ none)
      ⊎ ((record_key k cycle_key d a ≡ reported k cycle_key d a) × (game_key k d a ≡ none))
unfolding reported
record_key-reported k cycle_key d a = ground arith

menu_key-reported :
    (k : Masks) (cycle_key : ℕ) (d : Daemon) (a : ℕ)
    → (menu_key k cycle_key a ≡ none)
      ⊎ ((menu_key k cycle_key a ≡ reported k cycle_key d a)
          × (game_key k d a ≡ none)
          × (record_key k cycle_key d a ≡ none))
unfolding reported
menu_key-reported k cycle_key d a = ground arith

reported-none :
    (k : Masks) (cycle_key : ℕ) (d : Daemon) (a : ℕ)
    → game_key k d a ≡ none
    → record_key k cycle_key d a ≡ none
    → menu_key k cycle_key a ≡ none
    → reported k cycle_key d a ≡ none
unfolding reported
reported-none k cycle_key d a = ground arith

-- A code that a part does not report is held as before, and one that it reports as the keys say.
held_by-none : (keys : ℕ) (o : Option ℕ) (x y : Bool) → x ≡ held_by keys o y → o ≡ none → x ≡ y
held_by-none keys o x y h e = h ∙ ap (λ p. held_by keys p y) e

held_by-eq :
    (keys : ℕ) (o p : Option ℕ) (x y z : Bool)
    → x ≡ held_by keys o y
    → o ≡ p
    → y ≡ z
    → x ≡ held_by keys p z
held_by-eq keys o p x y z h e w = h ∙ ap (λ q. held_by keys q y) e ∙ ap (held_by keys p) w

-- If the input device holds every reported key as the last keys say, then after the events of
-- `g15_process_keys` it holds every reported key as the new keys say, and no other code has changed.
pub replay-key_events :
    (k : Masks) (cycle_key : ℕ) (d : Daemon) (cur last : ℕ) (s : Held)
    → Follows last (reported k cycle_key d) s
    → (a : ℕ)
    → replay (key_events k cycle_key d cur last) s a ≡ held_by cur (reported k cycle_key d a) (s a)
unfolding key_events
replay-key_events k cycle_key d cur last s f a =
    let s1 = replay (game_events k d cur last) s in
    let s2 = replay (record_events k cycle_key d cur last) s1 in
    let part = reported k cycle_key d in
    let one =
      replay-game k cycle_key d cur last s (λ b. elim (game_key-reported k cycle_key d b) [
        | inl e ↦ rw e refl
        | inr e ↦ rw e (f b)
      ]) in
    let kept1 : (b : ℕ) → game_key k d b ≡ none → s1 b ≡ s b =
      λ b g. held_by-none cur (game_key k d b) (s1 b) (s b) (one b) g in
    let two = replay-record k cycle_key d cur last s1 (λ b.
      elim (record_key-reported k cycle_key d b) [
        | inl e ↦ rw e refl
        | inr (e, g) ↦ rw (e, kept1 b g) (f b)
      ]) in
    let kept2 : (b : ℕ) → record_key k cycle_key d b ≡ none → s2 b ≡ s1 b =
      λ b r. held_by-none cur (record_key k cycle_key d b) (s2 b) (s1 b) (two b) r in
    let three = replay-menu k cycle_key d cur last s2 (λ b.
      elim (menu_key-reported k cycle_key d b) [
        | inl e ↦ rw e refl
        | inr (e, g, r) ↦ rw (e, kept2 b r, kept1 b g) (f b)
      ]) in
    rw (replay-append, replay-append)
      (elim (menu_key-reported k cycle_key d a) [
        | inr (e, g, r) ↦
            held_by-eq cur (menu_key k cycle_key a) (part a) _ (s2 a) (s a) (three a) e
              (kept2 a r ∙ kept1 a g)
        | inl em ↦
            held_by-none cur (menu_key k cycle_key a) _ (s2 a) (three a) em
            ∙ elim (record_key-reported k cycle_key d a) [
              | inr (e, g) ↦
                  held_by-eq cur (record_key k cycle_key d a) (part a) _ (s1 a) (s a) (two a) e
                    (kept1 a g)
              | inl er ↦ kept2 a er ∙ elim (game_key-reported k cycle_key d a) [
                | inr e ↦ held_by-eq cur (game_key k d a) (part a) _ (s a) (s a) (one a) e refl
                | inl eg ↦
                    kept1 a eg
                    ∙ sym (ap (λ o. held_by cur o (s a)) (reported-none k cycle_key d a eg er em))
              ]
            ]
      ])
