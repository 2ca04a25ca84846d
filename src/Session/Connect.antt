-- ===== src/Session/Connect.antt =====
-- A connection adds a screen at the head of the list, with the socket in it.
use g15daemon.Prelude.{
  ℕ, ◌-◌, ◌^◌, ◌≡◌, ◌≢◌, refl, Bool, true, false, ◌==◌, if◌then◌else◌, Option, none, some, List,
  ◌∷◌, arith, Returns, returns, Returns-bind, sym, ap, subst, ◌∙◌,
}
use g15daemon.Lcd.{Levels, create_lcd}
use g15daemon.Daemon.{Ptr, null, Daemon}
use g15daemon.LinkedLists.Ring.{links, Chain-has, IsRing}
use g15daemon.LinkedLists.Access.{screen, change, Wrote, set_lcd-Wrote}
use g15daemon.LinkedLists.Drawn.{Wrote-IsRing}
use g15daemon.LinkedLists.Add.{Added, lcdnode_add-Added}
use g15daemon.Session.{
  Offer, nothing, not_readable, would_block, refused, accepted, Connected, connect,
  g15_clientconnect,
}

-- The connection of a new screen, which is -1 where `accept` would block; `none` where none is added.
abbrev pub connection_of : Offer → Option ℕ
connection_of nothing = none
connection_of not_readable = none
connection_of refused = none
connection_of would_block = some (2 ^ 32 - 1)
connection_of (accepted conn_s) = some conn_s

-- The screen at `fresh` stands at the head and is shown, with the connection; the others are as they
-- were; and its thread is started if one could be created.
pub record Joined (g : Levels) (fresh : Ptr) (created : Bool) (d : Daemon) (xs : List Ptr)
    (conn_s : ℕ) (c : Connected) : Type 0 where
  pub ring : IsRing c.daemon (fresh ∷ xs)
  pub current : c.daemon.current ≡ fresh
  pub keys : c.daemon.client_handles_keys ≡ d.client_handles_keys
  pub screens :
      (a : Ptr)
      → screen c.daemon.nodes a ≡ (
          if a == fresh
          then some (record (create_lcd g) { connection = conn_s })
          else screen d.nodes a)
  pub started : c.started ≡ (if created then some fresh else none)

abbrev pub JoinedBy :
    (g : Levels) (fresh : Ptr) (created : Bool) (d : Daemon) (xs : List Ptr)
    → Option ℕ
    → Connected
    → Type 0
JoinedBy g fresh created d xs none c = (c.daemon ≡ d) × (c.started ≡ none)
JoinedBy g fresh created d xs (some conn_s) c = Joined g fresh created d xs conn_s c

-- Whether the id that `pthread_detach` is called with has been set; `none` where it is not called.
abbrev pub detached_by : Option ℕ → (created closed : Bool) → Option Bool
detached_by none created closed = none
detached_by (some conn_s) created closed =
    if created then some true else if closed then some false else none

module _ (g : Levels) (fresh : Ptr) (d : Daemon) (xs : List Ptr) (ne : fresh ≢ null)
    (unused : d.nodes fresh ≡ none) (r : IsRing d xs) where
  Joined-set :
      (created : Bool) (conn_s : ℕ) (d1 d2 : Daemon) (c : Connected)
      → Added g fresh d xs d1
      → Wrote d1
          (links d1.nodes)
          (change (screen d1.nodes) fresh (λ lcd. record lcd { connection = conn_s }))
          d2
      → c.daemon ≡ d2
      → c.started ≡ (if created then some fresh else none)
      → Joined g fresh created d xs conn_s c
  Joined-set created conn_s d1 d2 c k w e started = record {
    ring = subst (λ x. IsRing x (fresh ∷ xs)) (sym e) (Wrote-IsRing d1 d2 (fresh ∷ xs) k.ring w);
    current = ap (λ x. x.current) e ∙ ap (λ x. x.current) w.same ∙ k.current;
    keys = ap (λ x. x.client_handles_keys) e ∙ ap (λ x. x.client_handles_keys) w.same ∙ k.keys;
    screens = λ a. ap (λ x. screen x.nodes a) e ∙ ground (arith, w.screens_eq a, k.screens a);
    started = started;
  }

  connect-Joined :
      (created closed : Bool) (conn_s : ℕ)
      → Returns
          (λ c.
            Joined g fresh created d xs conn_s c
            × (c.detached ≡ detached_by (some conn_s) created closed))
          (connect g fresh conn_s created closed d)
  unfolding connect
  connect-Joined created closed conn_s =
      Returns-bind (lcdnode_add-Added g fresh d xs ne unused r) λ d1 k.
        let (p, q, linked, ne') =
          Chain-has (links d1.nodes) d1.tail fresh (fresh ∷ xs) k.ring.chain (ground arith) in
        Returns-bind (set_lcd-Wrote d1 fresh ne linked (λ lcd. record lcd { connection = conn_s }))
          λ d2 w. returns (
            Joined-set created conn_s d1 d2 _ k w (same_daemon created closed d2)
                (same_started created closed d2),
            same_detached created closed d2,
          )
    where
      outcome : (b c : Bool) → Daemon → Connected
      outcome b c d2 =
          if b
          then record { is_error = false; daemon = d2; started = some fresh; detached = some true }
          else if c
          then record { is_error = false; daemon = d2; started = none; detached = some false }
          else record { is_error = true; daemon = d2; started = none; detached = none }

      same_daemon : (b c : Bool) (d2 : Daemon) → (outcome b c d2).daemon ≡ d2
      same_daemon true c d2 = refl
      same_daemon false true d2 = refl
      same_daemon false false d2 = refl

      same_started :
          (b c : Bool) (d2 : Daemon) → (outcome b c d2).started ≡ (if b then some fresh else none)
      same_started true c d2 = refl
      same_started false true d2 = refl
      same_started false false d2 = refl

      same_detached :
          (b c : Bool) (d2 : Daemon)
          → (outcome b c d2).detached ≡ (if b then some true else if c then some false else none)
      same_detached true c d2 = refl
      same_detached false true d2 = refl
      same_detached false false d2 = refl

  -- Given an unused address, `g15_clientconnect` returns whatever `poll` and `accept` say. Where they
  -- give a connection, or `accept` would block, a screen with it is added at the head and shown, the
  -- others stay, and its thread is started if it can be created; if not, and the socket is closed, an id
  -- that was never set is detached. Else nothing changes.
  pub g15_clientconnect-Joined :
      (offer : Offer) (created closed : Bool)
      → Returns
          (λ c.
            JoinedBy g fresh created d xs (connection_of offer) c
            × (c.detached ≡ detached_by (connection_of offer) created closed))
          (g15_clientconnect g fresh offer created closed d)
  unfolding g15_clientconnect
  g15_clientconnect-Joined nothing created closed = returns ((refl, refl), refl)
  g15_clientconnect-Joined not_readable created closed = returns ((refl, refl), refl)
  g15_clientconnect-Joined refused created closed = returns ((refl, refl), refl)
  g15_clientconnect-Joined would_block created closed = connect-Joined created closed (2 ^ 32 - 1)
  g15_clientconnect-Joined (accepted conn_s) created closed = connect-Joined created closed conn_s
