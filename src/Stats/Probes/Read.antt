-- ===== src/Stats/Probes/Read.antt =====
-- The loop of `get_sensors` over the probes of a sensor.
use g15daemon.Prelude.{
  ℕ, zero, suc, ◌+◌, ◌≤◌, ◌<◌, ◌≡◌, ◌≢◌, ◌⊎◌, inl, inr, refl, Bool, true, false, arith, Bool-cases,
  subst, ap, ◌∙◌, List, [], ◌∷◌, ◌++◌, ok, Returns, returns, Returns-mono,
}
use g15daemon.Stats.{read_at}
use g15daemon.Stats.Arrays.{length}
use g15daemon.Stats.Probes.{
  Kind, input, limit, scaled, Machine, Sensors, Info, Reading, totals, temp, fan, read_probes,
}

-- `s'` is `s` but for the greatest values.
pub record Same {Float : Type 0} (s s' : Sensors Float) : Type 0 where
  pub id : s'.sensor_id ≡ s.sensor_id
  pub types : s'.sensor_type ≡ s.sensor_type
  pub lost : s'.sensor_lost ≡ s.sensor_lost
  pub have : s'.have ≡ s.have

length-snoc {ℓ} : {A : Type ℓ} (xs : List A) (x : A) → length (xs ++ (x ∷ [])) ≡ length xs + 1
length-snoc [] x = refl
length-snoc (y ∷ ys) x = ap (λ n. n + 1) (length-snoc ys x)

module _ {Float : Type 0} (m : Machine Float) (kind : Kind) (main : ℕ) where
  totals-Same :
      (k : Kind) (id : ℕ) (i : Info Float) (s s' : Sensors Float)
      → Same s s'
      → Same s (totals m k main id i s')
  totals-Same temp id i s s' e = record { id = e.id; types = e.types; lost = e.lost; have = e.have }
  totals-Same fan id i s s' e = record { id = e.id; types = e.types; lost = e.lost; have = e.have }

  -- What the loop gives: a probe that cannot be read ends it.
  pub record Read (s : Sensors Float) (type : Bool) (left count : ℕ) (r : Reading Float)
      : Type 0 where
    pub low : count ≤ r.count
    pub high : r.count ≤ 4
    pub size : length r.infos ≡ r.count
    pub same : Same s r.state
    pub ended : r.count < 4 → m.equal r.cur m.error ≡ true
    pub first :
        left ≢ 0
        → (r.count ≡ count)
          ⊎ (m.equal (m.get_hwmon s.sensor_id input (count + 1) type) m.error ≡ false)

  pub read_probes-Read :
      (s : Sensors Float) (type : Bool) (left count : ℕ) (cur : Float) (infos : List (Info Float))
      (s' : Sensors Float)
      → read_at s.sensor_type s.sensor_id ≡ ok type
      → Same s s'
      → left + count ≡ 4
      → length infos ≡ count
      → Returns (Read s type left count) (read_probes m kind main left count cur infos s')
  unfolding read_probes
  read_probes-Read s type zero count cur infos s' at same all size = returns (record {
    low = omega arith;
    high = omega arith;
    size = size;
    same = same;
    ended = λ h. absurd (omega arith);
    first = λ h. absurd (h refl);
  })
  read_probes-Read s type (suc left) count cur infos s' at same all size =
      let at' : read_at s'.sensor_type s'.sensor_id ≡ ok type =
        ap (λ i. read_at s'.sensor_type i) same.id
        ∙ ap (λ xs. read_at xs s.sensor_id) same.types
        ∙ at in
      let now = m.get_hwmon s'.sensor_id input (count + 1) type in
      let i =
        scaled m kind
          (record { cur = now; max = m.get_hwmon s'.sensor_id limit (count + 1) type }) in
      rw at' (elim (Bool-cases (m.equal now m.error)) [
        | inl e ↦ rw e (
            returns (record {
              low = omega arith;
              high = omega arith;
              size = size;
              same = same;
              ended = λ h. e;
              first = λ h. inl refl;
            }))
        | inr e ↦ rw e (
            Returns-mono
              (read_probes-Read s type left (count + 1) i.cur (infos ++ (i ∷ [])) _ at
                (totals-Same kind (count + 1) i s s' same) (omega arith)
                (length-snoc infos i ∙ ap (λ n. n + 1) size))
              λ r h. record {
                low = omega (arith, h.low);
                high = h.high;
                size = h.size;
                same = h.same;
                ended = h.ended;
                first = λ ne. inr (
                    subst (λ j. m.equal (m.get_hwmon j input (count + 1) type) m.error ≡ false)
                      same.id e);
              })
      ])
