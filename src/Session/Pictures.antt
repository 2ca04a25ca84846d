-- ===== src/Session/Pictures.antt =====
-- The pictures of a client are shown, and the list stays as it is.
use g15daemon.Prelude.{
  ℕ, ◌+◌, ◌<◌, ap, ◌∙◌, ◌≤◌, ◌≡◌, ◌≢◌, refl, true, false, ◌!=◌, List, [], ◌∷◌, ◌++◌, arith, some,
  none, Returns, returns, Returns-bind, Returns-mono, Bool-cases, inl, inr, eq_of_!=,
}
use g15daemon.Gfx.{Buf}
use g15daemon.Lcd.{Lcd}
use g15daemon.Daemon.{put, Ptr, Daemon, store}
use g15daemon.LinkedLists.Ring.{has, IsRing}
use g15daemon.LinkedLists.Drawn.{with_lcd, store-IsRing}
use g15daemon.Screen.{clear_bytes}
use g15daemon.Screen.Convert.{convert_buf-total}
use g15daemon.Requests.{Reply}
use g15daemon.Requests.Edit.{Returnable, IsRing-load, edit-Kept, Kept}
use g15daemon.Text.{Text, length, take, drop}
use g15daemon.Text.Laws.{length-append, take-append-drop, length-take}
use g15daemon.Transfer.Receive.{count, some_turn, is_takeover, g15_recv-Progress}
use g15daemon.Session.{
  Picture, show_render, show_pixels, show_wbmp, fill, update_screen, Rounds, screen_loop,
}

-- A way to show a picture that always returns.
abbrev pub IsTotal : Picture → Type 0
IsTotal picture =
    (tmpbuf : Buf) (random : ℕ) (lcd : Lcd) → Returns (λ _. Unit {0}) (picture tmpbuf random lcd)

-- The list of screens, and where the client's screen would go back to.
abbrev pub Held : (node : Ptr) → List Ptr → Daemon → Type 0
Held node xs d = IsRing d xs × Returnable node xs d

-- In each round the socket gives a byte as often as a screen has bytes, or ends the loop of `g15_recv`,
-- and no request asks for the keys.
unfoldable pub AllFair : (size : ℕ) → Rounds → Type 0
AllFair size [] = Unit
AllFair size (none ∷ rounds) = Unit
AllFair size (some (turns, random) ∷ rounds) =
    (size ≤ count turns) × (some_turn is_takeover turns ≡ false) × AllFair size rounds

-- The bytes of as many screens as there are rounds.
abbrev pub capacity : (size : ℕ) → Rounds → ℕ
capacity size [] = 0
capacity size (r ∷ rounds) = size + capacity size rounds

-- Fair rounds, and more of them than the client sends screens.
pub record IsServed (size : ℕ) (rounds : Rounds) (bytes : ℕ) : Type 0 where
  pub fair : AllFair size rounds
  pub enough : bytes < capacity size rounds

length-drop :
    (n : ℕ) (a b : Text) (c : Text) → c ≡ a ++ b → length a ≡ n → length (drop n c) + n ≡ length c
length-drop n a b c e h =
    let parts = length-append (take n c) (drop n c) in
    let all = ap length (take-append-drop n c) in
    let both = ap length e ∙ length-append a b in
    let first = length-take n c (omega arith) in omega arith

module _ (node : Ptr) (xs : List Ptr) (member : has node xs ≡ true) where
  -- The client's screen alone is written, and its links stay.
  pub update_screen-IsRing :
      (picture : Picture)
      → IsTotal picture
      → (tmpbuf : Buf) (random : ℕ) (d : Daemon) → IsRing d xs
      → Returns
          (λ d'.
            IsRing d' xs
            × ((a : Ptr) → a ≢ node → d'.nodes a ≡ d.nodes a)
            × (d'.client_handles_keys ≡ d.client_handles_keys))
          (update_screen picture node tmpbuf random d)
  unfolding update_screen store put
  update_screen-IsRing picture total tmpbuf random d r =
      let (n, got, links_n, at) = IsRing-load d xs node r member in
      rw got (
        Returns-bind (total tmpbuf random n.lcd)
          λ lcd _. returns (store-IsRing d xs node n lcd r at, λ a other. ground arith, refl))

  update_screen-Kept :
      (picture : Picture)
      → IsTotal picture
      → (tmpbuf : Buf) (random : ℕ) (d : Daemon) → Held node xs d
      → Returns (Kept node xs d) (update_screen picture node tmpbuf random d)
  unfolding update_screen store
  update_screen-Kept picture total tmpbuf random d (r, back) =
      let (n, got, links_n, at) = IsRing-load d xs node r member in
      rw got (
        Returns-bind (total tmpbuf random n.lcd) λ lcd _. returns (
          edit-Kept node xs d r back n (with_lcd n lcd) at refl refl
            (unfold Returnable in back n at) d.current r.current))

  update_screen-Held :
      (picture : Picture)
      → IsTotal picture
      → (tmpbuf : Buf) (random : ℕ) (d : Daemon) → Held node xs d
      → Returns (Held node xs) (update_screen picture node tmpbuf random d)
  update_screen-Held picture total tmpbuf random d held =
      Returns-mono (update_screen-Kept picture total tmpbuf random d held)
        λ d' k. (k.ring, k.returnable)

  pub screen_loop-Held :
      (picture : Picture)
      → IsTotal picture
      → (size : ℕ) (rounds : Rounds) (tmpbuf : Buf) (incoming : Text) (replies : List Reply)
        (d : Daemon)
      → AllFair size rounds
      → length incoming < capacity size rounds
      → Held node xs d
      → Returns
          (λ r. Held node xs r.1)
          (screen_loop picture size node rounds tmpbuf incoming replies d)
  unfolding screen_loop AllFair
  screen_loop-Held picture total size [] tmpbuf incoming replies d fair more held =
      absurd (omega arith)
  screen_loop-Held picture total size (none ∷ rounds) tmpbuf incoming replies d fair more held =
      returns held
  screen_loop-Held picture total size (some (turns, random) ∷ rounds) tmpbuf incoming replies d
        (enough, no_key, fair) more (r, back) =
      Returns-bind (g15_recv-Progress node xs turns size incoming d enough no_key r member back)
        λ s o. elim (Bool-cases (length s.buf != size)) [
          | inl short ↦ rw short (returns (o.ring, o.returnable))
          | inr whole ↦
              let left = length-drop size s.buf o.rest incoming o.in_order (eq_of_!= _ _ whole) in
              rw (whole, eq_of_!= _ _ whole)
                (Returns-bind
                  (update_screen-Held picture total (fill s.buf tmpbuf) random s.daemon
                    (o.ring, o.returnable))
                  λ d' held.
                    screen_loop-Held picture total size rounds (fill s.buf tmpbuf)
                      (drop size incoming) (replies ++ s.replies) d' fair
                      (omega (arith, left, more)) held)
        ]

pub show_render-IsTotal : IsTotal show_render
unfolding show_render
show_render-IsTotal tmpbuf random lcd = returns tt

pub show_pixels-IsTotal : IsTotal show_pixels
unfolding show_pixels
show_pixels-IsTotal tmpbuf random lcd =
    Returns-bind (convert_buf-total tmpbuf (clear_bytes 1024 lcd.buf)) λ b _. returns tt

pub show_wbmp-IsTotal : (buflen header : ℕ) → IsTotal (show_wbmp buflen header)
unfolding show_wbmp
show_wbmp-IsTotal buflen header tmpbuf random lcd = returns tt
