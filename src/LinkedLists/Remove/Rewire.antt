-- ===== src/LinkedLists/Remove/Rewire.antt =====
-- `unlink` and `free`: the last steps of `lcdnode_remove`.
use g15daemon.Prelude.{
  ◌≡◌, ◌≢◌, true, false, ◌==◌, ◌!=◌, if◌then◌else◌, none, some, arith, Returns, returns,
  Returns-bind, Returns-mono, ap, ◌∙◌,
}
use g15daemon.Daemon.{Ptr, null, Daemon, free}
use g15daemon.LinkedLists.{unlink}
use g15daemon.LinkedLists.Ring.{Links, links}
use g15daemon.LinkedLists.Access.{
  screen, Wrote, load_lem, set_prev-Wrote, set_next-Wrote, free-Wrote,
}
use g15daemon.LinkedLists.Unlink.{with_prev, with_next}

-- What `unlink` and the `free` behind it leave: the links are `l`, and the head is `h`.
pub record Rewired (old h : Ptr) (l : Links) (d d' : Daemon) : Type 0 where
  pub links_eq : (a : Ptr) → links d'.nodes a ≡ (if a == old then none else l a)
  pub screens : (a : Ptr) → screen d'.nodes a ≡ (if a == old then none else screen d.nodes a)
  pub same : d' ≡ record d { nodes = d'.nodes; head = h }

pub free-Rewired :
    (old h : Ptr) (l : Links) (d d' : Daemon)
    → Wrote (record d { head = h }) l (screen d.nodes) d'
    → Rewired old h l d (free d' old)
unfolding free
free-Rewired old h l d d' w =
    let f = free-Wrote d' old in
    record {
      links_eq = λ a. ground (arith, f.links_eq a, w.links_eq a);
      screens = λ a. ground (arith, f.screens_eq a, w.screens_eq a);
      same = ap (λ (e : Daemon). free e old) w.same;
    }

-- The links after p and q are linked.
abbrev pub joined : Links → (p q : Ptr) → Links
joined l p q a = if a == q then with_next p (l a) else if a == p then with_prev q (l a) else l a

-- The links after q is made the head.
abbrev pub headed : Links → (tail q : Ptr) → Links
headed l tail q a = if a == q then with_next tail (l a) else l a

module _ (old p q : Ptr) (d : Daemon) (ne : old ≢ null) (at : links d.nodes old ≡ some (q, p)) where
  pub unlink-middle :
      (d.head == old) ≡ false
      → p ≢ old
      → q ≢ old
      → p ≢ q
      → (a b a' b' : Ptr) → links d.nodes p ≡ some (a, b)
      → p ≢ null
      → links d.nodes q ≡ some (a', b')
      → q ≢ null
      → Returns (Wrote d (joined (links d.nodes) p q) (screen d.nodes)) (unlink old d)
  unfolding unlink
  unlink-middle inner p_ne q_ne pq a b a' b' ep np eq nq =
      let (n, got, prev_eq, next_eq, holds) = load_lem d old ne at in
      let inner' : (d.head != old) ≡ true = ground arith in
      rw (got, inner', prev_eq, next_eq)
        (Returns-bind (set_prev-Wrote d p np ep q) λ d1 w1.
          let at1 : links d1.nodes old ≡ some (q, p) = ground (arith, w1.links_eq old) in
          let eq1 : links d1.nodes q ≡ some (a', b') = ground (arith, w1.links_eq q) in
          let (n1, got1, prev_eq1, next_eq1, holds1) = load_lem d1 old ne at1 in
          rw (got1, prev_eq1, next_eq1)
            (Returns-mono (set_next-Wrote d1 q nq eq1 p) λ d2 w2. record {
              links_eq = λ x. ground (arith, w2.links_eq x, w1.links_eq x);
              screens_eq = λ x. w2.screens_eq x ∙ w1.screens_eq x;
              same = w2.same ∙ ap (λ (e : Daemon). record e { nodes = d2.nodes }) w1.same;
            }))

  pub unlink-front :
      (d.head == old) ≡ true
      → q ≢ old
      → (a' b' : Ptr) → links d.nodes q ≡ some (a', b')
      → q ≢ null
      → Returns
          (Wrote (record d { head = q }) (headed (links d.nodes) d.tail q) (screen d.nodes))
          (unlink old d)
  unfolding unlink
  unlink-front outer q_ne a' b' eq nq =
      let (n, got, prev_eq, next_eq, holds) = load_lem d old ne at in
      let inner : (d.head != old) ≡ false = ground arith in
      rw (got, inner, prev_eq)
        (Returns-bind (set_next-Wrote d q nq eq d.tail) λ d1 w1.
          let at1 : links d1.nodes old ≡ some (q, p) = ground (arith, w1.links_eq old) in
          let (n1, got1, prev_eq1, next_eq1, holds1) = load_lem d1 old ne at1 in
          rw (got1, prev_eq1)
            (returns (record {
              links_eq = λ a. ground (arith, w1.links_eq a);
              screens_eq = w1.screens_eq;
              same = ap (λ (e : Daemon). record e { head = q }) w1.same;
            })))
