-- ===== src/Stats/Arrays.antt =====
-- Arrays of the statistics client.
use g15daemon.Prelude.{
  ℕ, zero, suc, ◌+◌, ◌≤◌, ◌<◌, ◌≡◌, inl, inr, refl, ◌==◌, if◌then◌else◌, arith, Bool-cases,
  ==-eq_false, ap, ◌∙◌, List, [], ◌∷◌, Run, ok, fault, out_of_fuel, Returns, returns, Returns-bind,
}
use g15daemon.Stats.{read_at, write_at}

abbrev pub length {ℓ} : {A : Type ℓ} → List A → ℕ
length [] = 0
length (x ∷ xs) = length xs + 1

pub read_at-Returns {ℓ} :
    {A : Type ℓ} (xs : List A) (i : ℕ) → i < length xs → (x : A) × (read_at xs i ≡ ok x)
read_at-Returns [] i h = absurd (omega arith)
read_at-Returns (x ∷ xs) zero h = (x, refl)
read_at-Returns (x ∷ xs) (suc i) h = read_at-Returns xs i (omega arith)

pub read_at-out {ℓ} : {A : Type ℓ} (xs : List A) (i : ℕ) → length xs ≤ i → read_at xs i ≡ fault
read_at-out [] i h = refl
read_at-out (x ∷ xs) zero h = absurd (omega arith)
read_at-out (x ∷ xs) (suc i) h = read_at-out xs i (omega arith)

-- `ys` is `xs` with `a` at `i`.
pub record Written {ℓ} {A : Type ℓ} (xs : List A) (i : ℕ) (a : A) (ys : List A) : Type ℓ where
  pub size : length ys ≡ length xs
  pub reads : (j : ℕ) → read_at ys j ≡ (if j == i then ok a else read_at xs j)

suc-== : (j i : ℕ) → (suc j == suc i) ≡ (j == i)
suc-== j i = ground arith

pub write_at-Written {ℓ} :
    {A : Type ℓ} (xs : List A) (i : ℕ) (a : A)
    → i < length xs
    → Returns (Written xs i a) (write_at xs i a)
write_at-Written [] i a h = absurd (omega arith)
write_at-Written (x ∷ xs) zero a h = returns (record { size = refl; reads = at })
  where
    at : (j : ℕ) → read_at (a ∷ xs) j ≡ (if j == 0 then ok a else read_at (x ∷ xs) j)
    at zero = refl
    at (suc j) = rw (==-eq_false (suc j) 0 (omega arith)) refl
write_at-Written (x ∷ xs) (suc i) a h =
    Returns-bind (write_at-Written xs i a (omega arith))
      λ ys w. returns (record { size = rw w.size refl; reads = at ys w.reads })
  where
    at :
        (ys : List _)
        → ((j : ℕ) → read_at ys j ≡ (if j == i then ok a else read_at xs j))
        → (j : ℕ) → read_at (x ∷ ys) j ≡ (if j == suc i then ok a else read_at (x ∷ xs) j)
    at ys h zero = rw (==-eq_false 0 (suc i) (omega arith)) refl
    at ys h (suc j) = rw (suc-== j i) (h j)

pub ok-injective {ℓ} : {A : Type ℓ} {a b : A} → ok a ≡ ok b → a ≡ b
ok-injective {A} {a} h = ap from_ok h
  where
    from_ok : Run A → A
    from_ok (ok b) = b
    from_ok fault = a
    from_ok out_of_fuel = a

pub overwrite {ℓ} :
    {A : Type ℓ} {xs ys zs : List A} {i : ℕ} {a b : A}
    → Written xs i a ys
    → Written ys i b zs
    → Written xs i b zs
overwrite {xs} {i} {a} {b} u v = record {
  size = v.size ∙ u.size;
  reads = λ j. elim (Bool-cases (j == i)) [
    | inl e ↦ v.reads j ∙ rw e refl
    | inr e ↦ v.reads j ∙ (rw e refl ∙ (u.reads j ∙ rw e refl))
  ];
}
