-- ===== src/Stats/Probes/Weigh.antt =====
-- Sums over the arrays of `get_sensors`.
use g15daemon.Prelude.{
  ℕ, zero, suc, ◌+◌, ◌≤◌, ◌<◌, ◌≡◌, refl, Bool, true, false, arith, ap, List, [], ◌∷◌, ok, Returns,
  returns, Returns-bind,
}
use g15daemon.Stats.{read_at, write_at, get_next}
use g15daemon.Stats.Arrays.{length, ok-injective}
use g15daemon.Stats.Next.{Four, list_of, entry, read_at-entry, Found, get_next-Found}

-- A list of numbers, added up as `weight` says.
abbrev pub weigh {ℓ} : {A : Type ℓ} → (A → ℕ) → List A → ℕ
weigh weight [] = 0
weigh weight (x ∷ xs) = weight x + weigh weight xs

pub write_at-weigh {ℓ} :
    {A : Type ℓ} (weight : A → ℕ) (xs : List A) (i : ℕ) (x a : A)
    → read_at xs i ≡ ok x
    → Returns
        (λ ys. (length ys ≡ length xs) × (weigh weight ys + weight x ≡ weigh weight xs + weight a))
        (write_at xs i a)
write_at-weigh weight [] i x a e = absurd (ground arith)
write_at-weigh weight (y ∷ xs) zero x a e =
    let same : weight y ≡ weight x = ap weight (ok-injective e) in
    returns (refl, omega (arith, same))
write_at-weigh weight (y ∷ xs) (suc i) x a e =
    Returns-bind (write_at-weigh weight xs i x a e)
      λ ys h. returns (ap (λ n. n + 1) h.0, omega (arith, h.1))

pub read_at-weigh {ℓ} :
    {A : Type ℓ} (weight : A → ℕ) (xs : List A) (i : ℕ) (x : A)
    → read_at xs i ≡ ok x
    → weight x ≤ weigh weight xs
read_at-weigh weight [] i x e = absurd (ground arith)
read_at-weigh weight (y ∷ xs) zero x e =
    let same : weight y ≡ weight x = ap weight (ok-injective e) in omega (arith, same)
read_at-weigh weight (y ∷ xs) (suc i) x e =
    let rest = read_at-weigh weight xs i x e in omega (arith, rest)

abbrev pub untyped : Bool → ℕ
untyped true = 0
untyped false = 1

abbrev pub count_of : ℕ → ℕ
count_of n = n

of_four : (xs : List ℕ) → length xs ≡ 4 → (f : Four) × (xs ≡ list_of f)
of_four (a ∷ b ∷ c ∷ e ∷ []) h = (record { a = a; b = b; c = c; e = e }, refl)
of_four [] h = absurd (omega arith)
of_four (a ∷ []) h = absurd (omega arith)
of_four (a ∷ b ∷ []) h = absurd (omega arith)
of_four (a ∷ b ∷ c ∷ []) h = absurd (omega arith)
of_four (a ∷ b ∷ c ∷ e ∷ g ∷ xs) h = absurd (omega arith)

pub get_next-new :
    (lost : List ℕ) (id : ℕ)
    → length lost ≡ 4
    → id < 4
    → Returns (Found lost id) (get_next 4 id lost)
get_next-new lost id four h = let (f, e) = of_four lost four in rw e (get_next-Found f id h)

pub read_at-new :
    (lost : List ℕ) (i : ℕ) → length lost ≡ 4 → i < 4 → read_at lost i ≡ ok (entry lost i)
read_at-new lost i four h = let (f, e) = of_four lost four in rw e (read_at-entry f i h)
