-- ===== src/Session/Life.antt =====
-- A client's thread from the greeting to the removal of its screen.
use g15daemon.Prelude.{
  ℕ, zero, suc, ◌≤◌, ◌≡◌, ◌≢◌, true, false, ◌==◌, ltb, if◌then◌else◌, List, [], ◌∷◌, ◌++◌, arith,
  none, Returns, returns, Returns-bind, Bool-cases, inl, inr, eq_of_==, ==-eq_false, le_of_ltb, ap,
  refl, subst, sym, ◌∙◌,
}
use g15daemon.Gfx.{Buf, sub32}
use g15daemon.Daemon.{Ptr, null, Daemon}
use g15daemon.LinkedLists.Ring.{has, erase, last, Chain-has, links, IsRing}
use g15daemon.LinkedLists.Access.{screen}
use g15daemon.LinkedLists.Remove.{lcdnode_remove-Removed}
use g15daemon.LinkedLists.Remove.Outcome.{Removed}
use g15daemon.Requests.{Reply}
use g15daemon.Requests.Edit.{Returnable}
use g15daemon.Text.{Text, length, drop}
use g15daemon.Transfer.Send
use g15daemon.Transfer.Send.{g15_send-Outcome}
use g15daemon.Transfer.Receive.{count, some_turn, is_takeover, g15_recv-Progress}
use g15daemon.Session.{
  show_render, show_pixels, fill, Client, serv_helo, serve, converse, enter, leave,
  lcd_client_thread,
}
use g15daemon.Session.Pictures.{
  Held, IsServed, show_render-IsTotal, show_pixels-IsTotal, screen_loop-Held,
}

abbrev pub front : Text → ℕ
front [] = 0
front (c ∷ cs) = c

-- What the sockets allow, whatever the client sends, but for the kind 'W' and a request for the keys:
-- the rounds of the greeting and of the kind of the screens suffice, and so do those of the screens.
pub record IsFair (c : Client) : Type 0 where
  pub greeted : 16 ≤ Send.count c.greeting
  pub chosen : 4 ≤ count c.choice
  pub no_key : some_turn is_takeover c.choice ≡ false
  pub no_wbmp : front c.incoming ≢ 87
  pub pixels : front c.incoming ≡ 71 → IsServed 6880 c.rounds (length c.incoming)
  pub render : front c.incoming ≡ 82 → IsServed 1048 c.rounds (length c.incoming)

-- What a client leaves: the other screens in their order, its own freed, and not the one that handles
-- the keys.
pub record Left (node : Ptr) (xs : List Ptr) (d' : Daemon) : Type 0 where
  pub ring : IsRing d' (erase node xs)
  pub gone : screen d'.nodes node ≡ none
  pub keyhandler : d'.keyhandler ≢ node

handler_lem : (k n : Ptr) → n ≢ null → (if k == n then null else k) ≢ n
handler_lem k n ne e = ground arith

four_lem : (n : ℕ) → n ≤ 4 → 4 ≤ n → n ≡ 4
four_lem n h h' = omega arith

first_byte :
    (buf rest stream : Text) (old : Buf)
    → stream ≡ buf ++ rest
    → length buf ≡ 4
    → fill buf old 0 ≡ front stream
first_byte [] rest stream old e four = absurd (omega arith)
first_byte (b ∷ bs) rest stream old e four = sym (ap front e)

length-drop_le : (n : ℕ) (a : Text) → length (drop n a) ≤ length a
length-drop_le zero a = omega arith
length-drop_le (suc n) [] = omega arith
length-drop_le (suc n) (c ∷ cs) = omega (arith, length-drop_le n cs)

-- The screen is removed, and the client is counted no more.
pub leave-Removed :
    (node : Ptr) (xs : List Ptr) (d : Daemon)
    → IsRing d xs
    → has node xs ≡ true
    → node ≢ d.tail
    → Returns
        (λ l.
          (d' : Daemon) × Removed node xs d d'
          × (l.1 ≡ record d' { connected_clients = sub32 d'.connected_clients 1 }))
        (leave node d)
unfolding leave
leave-Removed node xs d r member ne =
    Returns-bind (lcdnode_remove-Removed node d xs r member ne) λ d' m. returns (d', m, refl)

module _ (node : Ptr) (xs : List Ptr) (member : has node xs ≡ true) where
  serve-Held :
      (c : Client) (fair : IsFair c) (buf rest : Text) (replies : List Reply) (d : Daemon)
      → c.incoming ≡ buf ++ rest
      → length buf ≡ 4
      → Held node xs d
      → Returns (λ r. Held node xs r.1) (serve node c buf replies d)
  unfolding serve
  serve-Held c fair buf rest replies d e four held =
      let byte = first_byte buf rest c.incoming c.tmpbuf e four in
      let less = length-drop_le 4 c.incoming in
      let no_wbmp = ==-eq_false _ 87 fair.no_wbmp in
      rw (byte, four, no_wbmp)
        (elim (Bool-cases (front c.incoming == 71)) [
          | inl p ↦ rw p (
              screen_loop-Held node xs member show_pixels show_pixels-IsTotal 6880 c.rounds _ _
                replies d (fair.pixels (eq_of_== _ _ p)).fair
                (omega (arith, less, (fair.pixels (eq_of_== _ _ p)).enough)) held)
          | inr np ↦ rw np (elim (Bool-cases (front c.incoming == 82)) [
            | inl q ↦ rw q (
                screen_loop-Held node xs member show_render show_render-IsTotal 1048 c.rounds _ _
                  replies d (fair.render (eq_of_== _ _ q)).fair
                  (omega (arith, less, (fair.render (eq_of_== _ _ q)).enough)) held)
            | inr nq ↦ rw nq (returns held)
          ])
        ])

  converse-Held :
      (c : Client) (fair : IsFair c) (d : Daemon)
      → Held node xs d
      → Returns (λ r. Held node xs r.1) (converse node c d)
  unfolding converse
  converse-Held c fair d (r, back) =
      Returns-bind (g15_send-Outcome c.greeting serv_helo fair.greeted) λ s _.
        elim (Bool-cases s.is_error) [
          | inl failed ↦ rw failed (returns (r, back))
          | inr sent ↦ rw sent (
              Returns-bind
                (g15_recv-Progress node xs c.choice 4 c.incoming d fair.chosen fair.no_key r member
                  back)
                λ q o. elim (Bool-cases (ltb (length q.buf) 4)) [
                  | inl short ↦ rw short (returns (o.ring, o.returnable))
                  | inr whole ↦ rw whole (
                      serve-Held c fair q.buf o.rest q.replies q.daemon o.in_order
                        (four_lem _ o.most (le_of_ltb _ _ whole)) (o.ring, o.returnable))
                ])
        ]

  counted :
      (d : Daemon) (n : ℕ) → Held node xs d → Held node xs (record d { connected_clients = n })
  unfolding Returnable
  counted d n (r, back) =
      (record { chain = r.chain; head = r.head; tail = r.tail; current = r.current }, back)

  left_lem :
      (d1 d2 : Daemon) (n : ℕ)
      → node ≢ null
      → Removed node xs d1 d2
      → Left node xs (record d2 { connected_clients = n })
  left_lem d1 d2 n ne m = record {
    ring = record {
      chain = m.ring.chain;
      head = m.ring.head;
      tail = m.ring.tail;
      current = m.ring.current;
    };
    gone = m.screens node ∙ ground arith;
    keyhandler = λ e. handler_lem d1.keyhandler node ne (sym m.keyhandler ∙ e);
  }

  -- Given rounds of the sockets in which a byte moves or the loop ends, more rounds than the client
  -- sends screens, no request for the keys and another kind of screens than 'W': the thread of a
  -- client returns, however many bytes come. Its screen is taken out of the list and freed, the others
  -- keep their order, and the keys are not its own.
  pub lcd_client_thread-Left :
      (led_mr : ℕ) (c : Client) (d : Daemon)
      → IsFair c
      → IsRing d xs
      → node ≢ last xs null
      → Returnable node xs d
      → Returns (λ e. Left node xs e.daemon) (lcd_client_thread led_mr node c d)
  unfolding lcd_client_thread enter
  lcd_client_thread-Left led_mr c d fair r not_last back =
      let (p, q, linked, ne) = Chain-has (links d.nodes) d.tail node xs r.chain member in
      Returns-bind (converse-Held c fair _ (counted d _ (r, back))) λ s held.
        Returns-bind (leave-Removed node xs s.1 held.0 member (λ e. not_last (e ∙ sym held.0.tail)))
          λ l (d', m, e). returns (subst (Left node xs) (sym e) (left_lem s.1 d' _ ne m))
