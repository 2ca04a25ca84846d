-- ===== src/Stats/Next.antt =====
-- `get_next` finds the next sensor that is not lost, round the four.
use g15daemon.Prelude.{
  ℕ, zero, suc, ◌+◌, ◌-◌, ◌%◌, ◌<◌, ◌≡◌, ◌≢◌, inl, inr, refl, List, [], ◌∷◌, arith, ok, Returns,
  Bool-cases, ne_of_!=, eq_of_!=, eq_of_==, ◌==◌, ◌!=◌, if◌then◌else◌, false, returns,
}
use g15daemon.Stats.{read_at, int_suc, int_geb, max_sensor, next_loop, get_next, sensor_error}

-- Four sensors, with how often each may still be tried.
pub record Four : Type 0 where
  pub a : ℕ
  pub b : ℕ
  pub c : ℕ
  pub e : ℕ

abbrev pub list_of : Four → List ℕ
list_of f = f.a ∷ f.b ∷ f.c ∷ f.e ∷ []

abbrev pub entry : List ℕ → ℕ → ℕ
entry [] i = 0
entry (x ∷ xs) zero = x
entry (x ∷ xs) (suc i) = entry xs i

-- How many sensors lie between, round the four.
abbrev pub between : (from to : ℕ) → ℕ
between from to = (to + (3 - from)) % 4

-- The result of `get_next`: the nearest sensor that is not lost, or none because all are.
pub data Found (lost : List ℕ) (id new : ℕ) : Type 0 where
  nearest :
      new < 4
      → entry lost new ≢ 0
      → ((i : ℕ) → i < 4 → between id i < between id new → entry lost i ≡ 0)
      → Found lost id new
  none_left : new ≡ sensor_error → ((i : ℕ) → i < 4 → entry lost i ≡ 0) → Found lost id new

pub read_at-entry : (f : Four) (i : ℕ) → i < 4 → read_at (list_of f) i ≡ ok (entry (list_of f) i)
read_at-entry f zero h = refl
read_at-entry f (suc zero) h = refl
read_at-entry f (suc (suc zero)) h = refl
read_at-entry f (suc (suc (suc zero))) h = refl
read_at-entry f (suc (suc (suc (suc i)))) h = absurd (omega arith)

next_id : (i : ℕ) → i < 4 → (if int_geb (int_suc i) max_sensor then 0 else int_suc i) ≡ (i + 1) % 4
next_id i h = ground arith

ne_of_== : (a b : ℕ) → (a == b) ≡ false → a ≢ b
ne_of_== a b h = ground arith

one_more :
    (f : Four) (id new tried : ℕ)
    → ((k : ℕ) → k < 4 → between id k < tried + 1 → k ≢ new → between id k < tried)
    → entry (list_of f) new ≡ 0
    → ((k : ℕ) → k < 4 → between id k < tried → entry (list_of f) k ≡ 0)
    → (k : ℕ) → k < 4
    → between id k < tried + 1
    → entry (list_of f) k ≡ 0
one_more f id new tried earlier gone lost k hk before = elim (Bool-cases (k == new)) [
  | inl e ↦ rw (eq_of_== k new e) gone
  | inr e ↦ lost k hk (earlier k hk before (ne_of_== k new e))
]

-- The loop when the `tried` sensors behind `id` are lost.
next_loop-Found :
    (fuel : ℕ) (f : Four) (id i tried : ℕ)
    → id < 4
    → i < 4
    → i ≡ (id + tried) % 4
    → fuel + tried ≡ 4
    → ((k : ℕ) → k < 4 → between id k < tried → entry (list_of f) k ≡ 0)
    → fuel ≢ 0
    → Returns (Found (list_of f) id) (next_loop fuel (list_of f) id i)
unfolding next_loop
next_loop-Found zero f id i tried h hi here rounds lost ne = absurd (ne refl)
next_loop-Found (suc fuel) f id i tried h hi here rounds lost ne =
    let new = (i + 1) % 4 in
    let inside : new < 4 = omega arith in
    rw (next_id i hi, read_at-entry f new inside)
      (elim (Bool-cases (entry (list_of f) new != 0)) [
        | inl there ↦
            rw there
              (returns (nearest inside (ne_of_!= _ _ there) λ k hk before. lost k hk (omega arith)))
        | inr gone ↦
            let further =
              one_more f id new tried (λ k hk before ne. omega arith) (eq_of_!= _ _ gone) lost in
            rw gone (elim (Bool-cases (id == new)) [
              | inl back ↦
                  let same = eq_of_== id new back in
                  rw back (returns (none_left refl λ k hk. further k hk (omega arith)))
              | inr on ↦
                  let apart = ne_of_== id new on in
                  rw on (
                    next_loop-Found fuel f id new (tried + 1) h inside (omega arith) (omega arith)
                      further (omega arith))
            ])
      ])

-- With a round for each of the four sensors `get_next` returns the nearest sensor behind `id`, round
-- the four and `id` itself the last, that is not lost, or the error where all are.
pub get_next-Found :
    (f : Four) (id : ℕ) → id < 4 → Returns (Found (list_of f) id) (get_next 4 id (list_of f))
unfolding get_next
get_next-Found f id h =
    next_loop-Found 4 f id id 0 h h (omega arith) refl (λ k hk before. absurd (omega arith))
      (omega arith)
