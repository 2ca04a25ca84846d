-- ===== src/Keys/Edges.antt =====
-- The events for a set of keys, replayed, take the input device from the last keys to the new ones.
use g15daemon.Prelude.{
  ℕ, zero, suc, ◌+◌, ◌-◌, ◌≤◌, ◌<◌, ◌≡◌, refl, Bool, true, false, ◌&&◌, ◌==◌, ltb, leb,
  if◌then◌else◌, List, [], ◌∷◌, ◌++◌, arith, ◌∙◌, ap, Bool-cases, inl, inr,
}
use g15daemon.Keys.{Event, down, up, pressed, edge, edges}

-- Which codes are held down, as the input device sees it.
abbrev pub Held : Type 0
Held = ℕ → Bool

abbrev pub apply : Event → Held → Held
apply (down c) s a = if a == c then true else s a
apply (up c) s a = if a == c then false else s a

unfoldable pub replay : List Event → Held → Held
replay [] s = s
replay (e ∷ es) s = replay es (apply e s)

pub replay-append : (es fs : List Event) (s : Held) → replay (es ++ fs) s ≡ replay fs (replay es s)
unfolding replay
replay-append [] fs s = refl
replay-append (e ∷ es) fs s = replay-append es fs (apply e s)

-- After the test of one key its code is held exactly if the key is pressed now.
pub replay-edge :
    (cur last mask code : ℕ) (s : Held) (a : ℕ)
    → s code ≡ pressed last mask
    → replay (edge cur last mask code) s a ≡ (if a == code then pressed cur mask else s a)
unfolding replay edge
replay-edge cur last mask code s a h = ground arith

-- The codes `code`, ..., `code + n - 1` are held as `keys` says.
abbrev pub Tracks : (keys : ℕ) (mask : ℕ → ℕ) (n i code : ℕ) → Held → Type 0
Tracks keys mask n i code s =
    (a : ℕ) → code ≤ a → a < code + n → s a ≡ pressed keys (mask (i + (a - code)))

abbrev pub in_range : (n code a : ℕ) → Bool
in_range n code a = leb code a && ltb a (code + n)

-- The first key of a range, and the others.
Tracks-first :
    (keys : ℕ) (mask : ℕ → ℕ) (n i code : ℕ) (s : Held)
    → Tracks keys mask (suc n) i code s
    → s code ≡ pressed keys (mask i)
Tracks-first keys mask n i code s t =
    let e : i + (code - code) ≡ i = omega arith in
    t code (omega arith) (omega arith) ∙ ap (λ j. pressed keys (mask j)) e

Tracks-after :
    (cur last : ℕ) (mask : ℕ → ℕ) (n i code : ℕ) (s : Held)
    → Tracks last mask (suc n) i code s
    → Tracks last mask n (i + 1) (code + 1) (replay (edge cur last (mask i) code) s)
Tracks-after cur last mask n i code s t a lo hi =
    let e : i + 1 + (a - (code + 1)) ≡ i + (a - code) = omega arith in
    rw e (
      ground (
        arith,
        replay-edge cur last (mask i) code s a (Tracks-first last mask n i code s t),
        t a (omega arith) (omega arith),
      ))

-- After the tests of the keys of a range, its codes are held as the new keys say, and no other code
-- has changed.
pub replay-edges :
    (cur last : ℕ) (mask : ℕ → ℕ) (n i code : ℕ) (s : Held) (a : ℕ)
    → Tracks last mask n i code s
    → replay (edges cur last mask n i code) s a
      ≡ (if in_range n code a then pressed cur (mask (i + (a - code))) else s a)
unfolding edges
replay-edges cur last mask zero i code s a t = unfold replay in ground arith
replay-edges cur last mask (suc n) i code s a t =
    let s' = replay (edge cur last (mask i) code) s in
    let first = replay-edge cur last (mask i) code s a (Tracks-first last mask n i code s t) in
    let rest =
      replay-edges cur last mask n (i + 1) (code + 1) s' a
        (Tracks-after cur last mask n i code s t) in
    rw replay-append (
      rest ∙ elim (Bool-cases (a == code)) [
        | inl here ↦ let e : i + (a - code) ≡ i = ground arith in rw e (ground (arith, first))
        | inr there ↦ elim (Bool-cases (in_range n (code + 1) a)) [
          | inl inside ↦
              let e : i + 1 + (a - (code + 1)) ≡ i + (a - code) = ground arith in
              rw e (ground arith)
          | inr outside ↦ ground (arith, first)
        ]
      ])

-- A range behind the one that is tested is held as before.
pub Tracks-replay :
    (cur last : ℕ) (mask mask' : ℕ → ℕ) (n i code n' i' code' : ℕ) (s : Held)
    → code + n ≤ code'
    → Tracks last mask n i code s
    → Tracks last mask' n' i' code' s
    → Tracks last mask' n' i' code' (replay (edges cur last mask n i code) s)
Tracks-replay cur last mask mask' n i code n' i' code' s h t t' a lo hi =
    ground (arith, replay-edges cur last mask n i code s a t, t' a lo hi)
