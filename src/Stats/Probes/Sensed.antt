-- ===== src/Stats/Probes/Sensed.antt =====
-- `get_sensors` comes back, with probes of a sensor that has some or because all sensors are lost.
use g15daemon.Prelude.{
  ℕ, zero, suc, ◌+◌, ◌-◌, ◌^◌, ◌≤◌, ◌<◌, ◌≡◌, ◌≢◌, ◌⊎◌, inl, inr, refl, Bool, true, false, leb,
  ◌&&◌, ◌==◌, ◌!=◌, if◌then◌else◌, arith, Bool-cases, ==-eq_true, !=-eq_true, subst, sym, ap, ◌∙◌,
  List, [], Run, ok, Returns, returns, Returns-bind, Returns-mono,
}
use g15daemon.Stats.{read_at, sensor_error}
use g15daemon.Stats.Arrays.{length, read_at-Returns}
use g15daemon.Stats.Next.{entry, Found, nearest, none_left}
use g15daemon.Stats.Probes.{
  Kind, input, Machine, Sensors, Reading, Result, final_count, give_up, get_sensors, next_sensor,
}
use g15daemon.Stats.Probes.Weigh.{
  weigh, write_at-weigh, read_at-weigh, untyped, count_of, get_next-new, read_at-new,
}
use g15daemon.Stats.Probes.Read.{Same, Read, read_probes-Read}

module _ {Float : Type 0} (m : Machine Float) (kind : Kind) (main : ℕ) where
  -- The outcome of `get_sensors` where `have_temp` or `have_fan` was `have`.
  pub data Sensed (have : Bool) (r : Result Float) : Type 0 where
    probes :
        (type : Bool)
        → 1 ≤ r.count
        → r.count ≤ 4
        → length r.infos ≡ r.count
        → r.state.have ≡ have
        → r.state.sensor_id < 4
        → read_at r.state.sensor_type r.state.sensor_id ≡ ok type
        → m.equal (m.get_hwmon r.state.sensor_id input 1 type) m.error ≡ false
        → Sensed have r
    all_lost :
        r.count ≡ 0
        → r.state.have ≡ false
        → r.state.sensor_id ≡ sensor_error
        → ((i : ℕ) → i < 4 → entry r.state.sensor_lost i ≡ 0)
        → Sensed have r

  -- The variables where `sensor_id` is chosen, and its entry in `sensor_lost`.
  record IsChosen (s : Sensors Float) (id lost : ℕ) : Type 0 where
    here : s.sensor_id ≡ id
    inside : id < 4
    types : length s.sensor_type ≡ 4
    losts : length s.sensor_lost ≡ 4
    small : weigh count_of s.sensor_lost < 2 ^ 31
    tries : read_at s.sensor_lost id ≡ ok lost

  IsChosen-Same :
      (s s' : Sensors Float) (id lost : ℕ) → Same s s' → IsChosen s id lost → IsChosen s' id lost
  IsChosen-Same s s' id lost same c = record {
    here = same.id ∙ c.here;
    inside = c.inside;
    types = ap length same.types ∙ c.types;
    losts = ap length same.lost ∙ c.losts;
    small = subst (λ x. weigh count_of x < 2 ^ 31) (sym same.lost) c.small;
    tries = ap (λ x. read_at x id) same.lost ∙ c.tries;
  }

  -- How often another sensor may still be tried.
  budget : Sensors Float → (lost : ℕ) → ℕ
  budget s lost = weigh count_of s.sensor_lost + weigh untyped s.sensor_type + (1 - lost)

  final_count-eq :
      (r : Reading Float)
      → r.count ≤ 4
      → (r.count < 4 → m.equal r.cur m.error ≡ true)
      → final_count m r ≡ r.count
  final_count-eq r high ended = elim (Bool-cases (leb 4 r.count)) [
    | inl e ↦ rw e (ground (arith, e, high))
    | inr e ↦ rw (e, ended (ground (arith, e))) refl
  ]

  Read-Sensed :
      (s : Sensors Float) (id lost : ℕ) (type : Bool) (r : Reading Float)
      → IsChosen s id lost
      → Read m kind main s type 4 0 r
      → read_at s.sensor_type s.sensor_id ≡ ok type
      → r.count ≢ 0
      → Sensed s.have (record { count = final_count m r; infos = r.infos; state = r.state })
  Read-Sensed s id lost type r c read at some =
      let final = final_count-eq r read.high read.ended in
      let here = read.same.id ∙ c.here in
      probes type (omega (arith, final)) (omega (arith, final, read.high)) (read.size ∙ sym final)
        read.same.have (omega (arith, here, c.inside))
        (ap (λ i. read_at r.state.sensor_type i) read.same.id
          ∙ ap (λ xs. read_at xs s.sensor_id) read.same.types
          ∙ at)
        (subst (λ i. m.equal (m.get_hwmon i input 1 type) m.error ≡ false) (sym read.same.id)
          (first_read (read.first (omega arith))))
    where
      first_read :
          (r.count ≡ 0) ⊎ (m.equal (m.get_hwmon s.sensor_id input 1 type) m.error ≡ false)
          → m.equal (m.get_hwmon s.sensor_id input 1 type) m.error ≡ false
      first_read (inl e) = absurd (some e)
      first_read (inr e) = e

  module _ (fuel : ℕ) (again : ℕ → Sensors Float → Run (Result Float))
      (returns_again : (id lost : ℕ) (s : Sensors Float)
        → IsChosen s id lost
        → budget s lost < fuel
        → Returns (Sensed s.have) (again id s)) where
    next_typed :
        (s : Sensors Float) (id lost : ℕ)
        → IsChosen s id lost
        → read_at s.sensor_type id ≡ ok false
        → budget s lost < fuel + 1
        → Returns (Sensed s.have) (next_sensor m again id s)
    unfolding budget
    next_typed s id lost c at h = rw at (
        Returns-bind (write_at-weigh untyped s.sensor_type id false true at) λ types w.
          returns_again id lost (record s { sensor_type = types })
            (record {
              here = c.here;
              inside = c.inside;
              types = w.0 ∙ c.types;
              losts = c.losts;
              small = c.small;
              tries = c.tries;
            })
            (omega (arith, w.1, h)))

    next_other :
        (s : Sensors Float) (id lost : ℕ) (sensor_lost : List ℕ) (new : ℕ)
        → IsChosen s id lost
        → length sensor_lost ≡ length s.sensor_lost
        → weigh count_of sensor_lost + lost ≡ weigh count_of s.sensor_lost + (lost - 1)
        → budget s lost < fuel + 1
        → Found sensor_lost id new
        → Returns (Sensed s.have) (
            let s' = record s { sensor_lost = sensor_lost; sensor_id = new } in
            if new != sensor_error
            then again new s'
            else ok (record { count = 0; infos = []; state = record s' { have = false } }))
    unfolding budget
    next_other s id lost sensor_lost new c size total h (nearest inside there gap) =
        rw (!=-eq_true new sensor_error (omega arith)) (
          returns_again new (entry sensor_lost new)
            (record s { sensor_lost = sensor_lost; sensor_id = new })
            (record {
              here = refl;
              inside = inside;
              types = c.types;
              losts = size ∙ c.losts;
              small = omega (arith, c.small, total);
              tries = read_at-new sensor_lost new (size ∙ c.losts) inside;
            })
            (omega (arith, h, total, there)))
    next_other s id lost sensor_lost new c size total h (none_left e all) =
        rw e (returns (all_lost refl refl refl all))

    next_sensor-Sensed :
        (s : Sensors Float) (id lost : ℕ) (type : Bool)
        → IsChosen s id lost
        → read_at s.sensor_type id ≡ ok type
        → budget s lost < fuel + 1
        → Returns (Sensed s.have) (next_sensor m again id s)
    next_sensor-Sensed s id lost false c at h = next_typed s id lost c at h
    next_sensor-Sensed s id lost true c at h =
        let inside = read_at-weigh count_of s.sensor_lost id lost c.tries in
        let one_less : give_up m lost ≡ lost - 1 = ground (arith, inside, c.small) in
        rw (at, c.tries, one_less)
          (Returns-bind (write_at-weigh count_of s.sensor_lost id lost (lost - 1) c.tries)
            λ sensor_lost w.
              Returns-bind (get_next-new sensor_lost id (w.0 ∙ c.losts) c.inside)
                λ new found. next_other s id lost sensor_lost new c w.0 w.1 h found)

  not_none :
      (r : Reading Float)
      → (r.count < 4 → m.equal r.cur m.error ≡ true)
      → ((r.count == 0) && m.equal r.cur m.error) ≡ false
      → r.count ≢ 0
  not_none r ended h z =
      let e = ended (omega (arith, z)) in
      let test : ((r.count == 0) && m.equal r.cur m.error) ≡ true =
        rw (==-eq_true r.count 0 z, e) refl in
      absurd (ground (arith, test, h))

  get_sensors-budget :
      (fuel id lost : ℕ) (s : Sensors Float)
      → IsChosen s id lost
      → budget s lost < fuel
      → Returns (Sensed s.have) (get_sensors m fuel kind main id s)
  unfolding get_sensors budget
  get_sensors-budget zero id lost s c h = absurd (omega arith)
  get_sensors-budget (suc fuel) id lost s c h =
      let (type, at) =
        read_at-Returns s.sensor_type s.sensor_id (omega (arith, c.here, c.inside, c.types)) in
      let s1 : Sensors Float = record s { tot_cur = m.nothing } in
      let same : Same s1 s1 = record { id = refl; types = refl; lost = refl; have = refl } in
      let c1 : IsChosen s1 id lost = record {
        here = c.here;
        inside = c.inside;
        types = c.types;
        losts = c.losts;
        small = c.small;
        tries = c.tries;
      } in
      Returns-bind (read_probes-Read m kind main s1 type 4 0 m.nothing [] s1 at same refl refl)
        λ r read. elim (Bool-cases ((r.count == 0) && m.equal r.cur m.error)) [
          | inl e ↦ rw e (
              Returns-mono
                (next_sensor-Sensed fuel (get_sensors m fuel kind main) (get_sensors-budget fuel)
                  r.state id lost type (IsChosen-Same s1 r.state id lost read.same c1)
                  (ap (λ xs. read_at xs id) read.same.types
                    ∙ (ap (λ i. read_at s.sensor_type i) (sym c.here) ∙ at))
                  (omega (
                    arith,
                    ap (weigh count_of) read.same.lost,
                    ap (weigh untyped) read.same.types,
                    h,
                  )))
                λ x sensed. subst (λ b. Sensed b x) read.same.have sensed)
          | inr e ↦
              rw e (returns (Read-Sensed s1 id lost type r c1 read at (not_none r read.ended e)))
        ]

  -- With a sensor chosen out of the four, and fuel for every try that is left and every sensor whose
  -- other path has not been tried yet, `get_sensors` returns. It gives one to four probes of the sensor
  -- that is then chosen, whose first probe could be read, or all sensors are lost and the screen is
  -- switched off.
  pub get_sensors-Sensed :
      (fuel : ℕ) (s : Sensors Float)
      → s.sensor_id < 4
      → length s.sensor_type ≡ 4
      → length s.sensor_lost ≡ 4
      → weigh count_of s.sensor_lost < 2 ^ 31
      → weigh count_of s.sensor_lost + weigh untyped s.sensor_type + 1 < fuel
      → Returns (Sensed s.have) (get_sensors m fuel kind main s.sensor_id s)
  unfolding budget
  get_sensors-Sensed fuel s inside types losts small h =
      let (lost, at) = read_at-Returns s.sensor_lost s.sensor_id (omega (arith, inside, losts)) in
      get_sensors-budget fuel s.sensor_id lost s
        (record {
          here = refl;
          inside = inside;
          types = types;
          losts = losts;
          small = small;
          tries = at;
        })
        (omega (arith, h))
