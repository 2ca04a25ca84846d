-- ===== src/System/Steps.antt =====
-- Each action of a thread, in a safe state: it returns, and leaves a safe state.
use g15daemon.Prelude.{
  ℕ, ◌≤◌, ◌≡◌, ◌≢◌, refl, Bool, true, false, ◌||◌, ◌==◌, if◌then◌else◌, Option, none, some, List,
  [], ◌∷◌, arith, Returns, returns, Returns-bind, inl, inr, sym, ap, subst, ◌∙◌, ◌⊎◌,
}
use g15daemon.Daemon.{Ptr, null, Daemon}
use g15daemon.Screen
use g15daemon.Text.{length}
use g15daemon.LinkedLists.Ring.{has, erase, last, links, ends, IsRing}
use g15daemon.LinkedLists.Add.{has-unused}
use g15daemon.LinkedLists.Unlink.{has-erase_ne}
use mathlib.Core.Bool.{false≢true}
use g15daemon.Requests.Edit.{Returnable}
use g15daemon.Requests.Outcome.{takes_keys, process_client_cmds-Kept}
use g15daemon.Threads.Draw.{draw_round-Steady}
use g15daemon.Threads.Keyboard.{
  Turned, kept, noted, cycled, with_keys, refreshed, keyboard_round-Turned,
}
use g15daemon.Session
use g15daemon.Session.{Connected}
use g15daemon.Threads.{Pressed, keys, nothing, gone}
use g15daemon.Session.Connect.{connection_of, JoinedBy, g15_clientconnect-Joined}
use g15daemon.Session.Pictures.{
  IsTotal, show_render-IsTotal, show_pixels-IsTotal, show_wbmp-IsTotal, update_screen-IsRing,
}
use g15daemon.Session.Life.{leave-Removed}
use g15daemon.System.{
  Setup, Kind, pixels, render, wbmp, picture_of, Action, connect, draw, keyboard, enter, show,
  request, end, System, begin, step,
}
use g15daemon.System.Sound.{Sound, same_tail, others-Sound}
use g15daemon.System.Actions.{
  Joined-tail, Joined-Sound, Removed-Sound, Cycled-Sound, Wrote-Sound, Kept-Sound, Sound-IsBytes,
  Steady-Sound, screen_of, has_cons,
}

-- The screens in their order, the abstract state: a connection adds one at the head, and the end of
-- its client takes it away.
abbrev pub added : Option ℕ → (fresh : Ptr) → List Ptr → List Ptr
added none fresh xs = xs
added (some conn_s) fresh xs = fresh ∷ xs

abbrev pub screens_after : Action → List Ptr → List Ptr
screens_after (connect fresh offer created closed) xs = added (connection_of offer) fresh xs
screens_after (draw now text) xs = xs
screens_after (keyboard fuel pressed) xs = xs
screens_after (enter node) xs = xs
screens_after (show node kind tmpbuf random) xs = xs
screens_after (request node msg) xs = xs
screens_after (end node) xs = erase node xs

-- The keyboard thread then writes without the mutex of the list.
abbrev pub found_again : Pressed → Bool
found_again nothing = false
found_again (gone found random) = found
found_again (keys keypresses) = false

-- An address that is given to a new screen is unused, a time has five characters, the loop of the
-- cycle key has rounds for each screen, the keyboard is not lost and found again, a thread starts once,
-- a client acts while its thread runs, and in a request it does not
-- ask for the keys, and the screen that it would go back to is still there.
abbrev pub Allowed : Action → List Ptr → System → Type 0
Allowed (connect fresh offer created closed) xs s = (fresh ≢ null) × (s.daemon.nodes fresh ≡ none)
Allowed (draw now text) xs s = Screen.length text ≡ 5
Allowed (keyboard fuel pressed) xs s = (length xs ≤ fuel) × (found_again pressed ≡ false)
Allowed (enter node) xs s = s.waiting node ≡ true
Allowed (show node kind tmpbuf random) xs s = s.running node ≡ true
Allowed (request node msg) xs s =
    (s.running node ≡ true) × (takes_keys msg ≡ false) × Returnable node xs s.daemon
Allowed (end node) xs s = (s.running node ≡ true) × (s.waiting node ≡ false)

-- The thread of the screen's client has been created.
abbrev pub is_started : System → Ptr → Bool
is_started s a = s.waiting a || s.running a

-- The state is sound, and each client with a thread has its screen, which is not the clock's.
pub record Safe (xs : List Ptr) (s : System) : Type 0 where
  pub sound : Sound xs s.daemon
  pub threads : (a : Ptr) → is_started s a ≡ true → (has a xs ≡ true) × (a ≢ s.daemon.tail)

last_member : (x : Ptr) (xs : List Ptr) → has (last xs x) (x ∷ xs) ≡ true
last_member x [] = ground arith
last_member x (y ∷ ys) = ground (arith, last_member y ys)

tail_member : (d : Daemon) (xs : List Ptr) → IsRing d xs → has d.tail xs ≡ true
tail_member d [] r = r.current
tail_member d (x ∷ xs) r = subst (λ t. has t (x ∷ xs) ≡ true) r.tail (last_member x xs)

unused_out :
    (d : Daemon) (xs : List Ptr) (a : Ptr) → IsRing d xs → d.nodes a ≡ none → has a xs ≡ false
unfolding links
unused_out d xs a r e = has-unused d xs a r (ap ends e)

kept_threads :
    (xs : List Ptr) (s : System) (d : Daemon)
    → Safe xs s
    → Sound xs d
    → (a : Ptr) → is_started s a ≡ true
    → (has a xs ≡ true) × (a ≢ d.tail)
kept_threads xs s d safe sound a on =
    let (member, ne) = safe.threads a on in
    (member, λ e. ne (e ∙ same_tail safe.sound.ring sound.ring))

with_keys-Sound : (xs : List Ptr) (d : Daemon) (n : ℕ) → Sound xs d → Sound xs (with_keys d n)
with_keys-Sound xs d n s = record {
  ring = record {
    chain = s.ring.chain;
    head = s.ring.head;
    tail = s.ring.tail;
    current = s.ring.current;
  };
  full = s.full;
  free = s.free;
  clock = s.clock;
}

Turned-Sound : (xs : List Ptr) (d d' : Daemon) → Sound xs d → Turned xs d d' → Sound xs d'
Turned-Sound xs d d' s (kept e) = subst (Sound xs) (sym e) s
Turned-Sound xs d d' s (Turned.found_again random w) =
    Wrote-Sound xs d d' d.current (refreshed random) (λ lcd. refl) s w
Turned-Sound xs d d' s (noted n e) = subst (Sound xs) (sym e) (with_keys-Sound xs d n s)
Turned-Sound xs d d' s (cycled n c) =
    Cycled-Sound xs (with_keys d n) d' (with_keys-Sound xs d n s) c

picture_of-IsTotal : (kind : Kind) → IsTotal (picture_of kind)
picture_of-IsTotal pixels = show_pixels-IsTotal
picture_of-IsTotal render = show_render-IsTotal
picture_of-IsTotal (wbmp buflen header) = show_wbmp-IsTotal buflen header

counted-Sound :
    (xs : List Ptr) (d : Daemon) (n : ℕ)
    → Sound xs d
    → Sound xs (record d { connected_clients = n })
counted-Sound xs d n s = record {
  ring = record {
    chain = s.ring.chain;
    head = s.ring.head;
    tail = s.ring.tail;
    current = s.ring.current;
  };
  full = s.full;
  free = s.free;
  clock = s.clock;
}

still_started :
    (w r : Ptr → Bool) (a node : Ptr)
    → (w node ≡ false)
    → (w a || (if a == node then false else r a)) ≡ true
    → (a ≢ node) × ((w a || r a) ≡ true)
still_started w r a node off h = (ground (arith, off, h), ground (arith, h))

now_started :
    (w r : Ptr → Bool) (a node : Ptr)
    → ((if a == node then true else w a) || r a) ≡ true
    → (a ≡ node) ⊎ ((w a || r a) ≡ true)
now_started w r a node h = ground (arith, h)

was_started :
    (w r : Ptr → Bool) (a node : Ptr)
    → w node ≡ true
    → ((if a == node then false else w a) || (if a == node then true else r a)) ≡ true
    → (w a || r a) ≡ true
was_started w r a node on h = ground (arith, on, h)

started_of_running : (w r : Bool) → r ≡ true → (w || r) ≡ true
started_of_running w r h = ground (arith, h)

has_first : (a : Ptr) (xs : List Ptr) → has a (a ∷ xs) ≡ true
has_first a xs = ground arith

module _ (p : Setup) (fresh : Ptr) (created : Bool) (xs : List Ptr) (s : System) (safe : Safe xs s)
    (out : has fresh xs ≡ false) where
  -- The thread of a new screen.
  begin-Safe :
      (d : Daemon)
      → Sound (fresh ∷ xs) d
      → d.tail ≡ s.daemon.tail
      → has d.tail xs ≡ true
      → (b : Bool) → Safe (fresh ∷ xs) (begin (if b then some fresh else none) d s)
  begin-Safe d sound tail inside true = record {
    sound = sound;
    threads = λ a on. elim (now_started s.waiting s.running a fresh on) [
      | inl e ↦ (
        subst (λ x. has x (fresh ∷ xs) ≡ true) (sym e) (has_first fresh xs),
        λ t. false≢true (sym out ∙ ap (λ x. has x xs) (sym e ∙ t) ∙ inside),
      )
      | inr old ↦
          let (member, ne) = safe.threads a old in (has_cons a fresh xs member, λ t. ne (t ∙ tail))
    ];
  }
  begin-Safe d sound tail inside false = record {
    sound = sound;
    threads = λ a on.
        let (member, ne) = safe.threads a on in (has_cons a fresh xs member, λ t. ne (t ∙ tail));
  }

  joined-Safe :
      (o : Option ℕ) (c : Connected)
      → JoinedBy p.levels fresh created s.daemon xs o c
      → Safe (added o fresh xs) (begin c.started c.daemon s)
  joined-Safe none c (e, started) =
      subst (λ st. Safe xs (begin st c.daemon s)) (sym started)
        (subst (λ d. Safe xs (record s { daemon = d })) (sym e)
          (record { sound = safe.sound; threads = safe.threads }))
  joined-Safe (some conn_s) c j =
      let tail = Joined-tail p.levels fresh created s.daemon xs conn_s c safe.sound j in
      let inside : has c.daemon.tail xs ≡ true =
        ap (λ t. has t xs) tail ∙ tail_member s.daemon xs safe.sound.ring in
      subst (λ st. Safe (fresh ∷ xs) (begin st c.daemon s)) (sym j.started)
        (begin-Safe c.daemon (Joined-Sound p.levels fresh created s.daemon xs conn_s c safe.sound j)
          tail inside created)

-- In a safe state each allowed action returns, and leaves a safe state.
pub step-Safe :
    (p : Setup) (a : Action) (xs : List Ptr) (s : System)
    → Safe xs s
    → Allowed a xs s
    → Returns (Safe (screens_after a xs)) (step p a s)
unfolding step Session.enter
step-Safe p (connect fresh offer created closed) xs s safe (ne, unused) =
    let out = unused_out s.daemon xs fresh safe.sound.ring unused in
    Returns-bind
      (g15_clientconnect-Joined p.levels fresh s.daemon xs ne unused safe.sound.ring offer created
        closed)
      λ c (j, detached).
        returns (joined-Safe p fresh created xs s safe out (connection_of offer) c j)
step-Safe p (draw now text) xs s safe five =
    Returns-bind
      (draw_round-Steady p.levels.led_mr now text xs s.lastlcd s.daemon five safe.sound.ring
        (Sound-IsBytes xs s.daemon safe.sound))
      λ r k.
        let sound = Steady-Sound p.levels.led_mr now text xs s.lastlcd s.daemon r safe.sound k in
        returns (record { sound = sound; threads = kept_threads xs s r.daemon safe sound })
step-Safe p (keyboard fuel pressed) xs s safe (enough, connected) =
    Returns-bind
      (keyboard_round-Turned fuel p.masks p.cycle_key pressed s.lastkeypresses s.daemon xs
        safe.sound.ring enough safe.sound.free)
      λ w t.
        let sound = Turned-Sound xs s.daemon w.daemon safe.sound t in
        returns (record { sound = sound; threads = kept_threads xs s w.daemon safe sound })
step-Safe p (enter node) xs s safe on = returns (record {
  sound = counted-Sound xs s.daemon _ safe.sound;
  threads = λ a started. safe.threads a (was_started s.waiting s.running a node on started);
})
step-Safe p (show node kind tmpbuf random) xs s safe on =
    let (member, ne) = safe.threads node (started_of_running _ _ on) in
    Returns-bind
      (update_screen-IsRing node xs member (picture_of kind) (picture_of-IsTotal kind) tmpbuf random
        s.daemon safe.sound.ring)
      λ d (r, others, same_keys).
        let sound =
          others-Sound xs s.daemon d node safe.sound r member ne
            (λ a other. screen_of s.daemon d a (others a other)) same_keys in
        returns (record { sound = sound; threads = kept_threads xs s d safe sound })
step-Safe p (request node msg) xs s safe (on, no_keys, back) =
    let (member, ne) = safe.threads node (started_of_running _ _ on) in
    let kept =
      rw no_keys at (process_client_cmds-Kept node xs s.daemon msg safe.sound.ring member back) in
    Returns-bind kept λ r k.
      let sound = Kept-Sound node xs s.daemon r.1 safe.sound member ne k in
      returns (record { sound = sound; threads = kept_threads xs s r.1 safe sound })
step-Safe p (end node) xs s safe (on, off) =
    let (member, ne) = safe.threads node (started_of_running _ _ on) in
    Returns-bind (leave-Removed node xs s.daemon safe.sound.ring member ne) λ l (d', m, e).
      let sound = Removed-Sound node s.daemon d' xs safe.sound ne m in
      returns (record {
        sound = subst (Sound (erase node xs)) (sym e) (counted-Sound (erase node xs) d' _ sound);
        threads = λ a running.
            let (other, was) = still_started s.waiting s.running a node off running in
            let (inside, not_tail) = safe.threads a was in
            (
              has-erase_ne a node xs other ∙ inside,
              λ t. not_tail (t ∙ ap (λ x. x.tail) e ∙ m.tail),
            );
      })
