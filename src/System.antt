-- ===== src/System.antt =====
-- The threads of g15daemon/g15daemon on the state that they share. An action is what one of them does
-- while it holds `lcdlist_mutex`, or the handling of a request, with the assignments to fields of its
-- own screen and the counting of clients that follow it without the mutex. The one access to the
-- screen of another thread without `lcdlist_mutex`, that of the keyboard thread when the keyboard is
-- found again, is a part of the action `keyboard`.
pub mod Sound
pub mod Actions
pub mod Steps
pub mod Safety
use g15daemon.Prelude.{
  ℕ, ◌==◌, Bool, true, false, if◌then◌else◌, Option, none, some, List, [], ◌∷◌, Run, ok, ◌>>=◌,
}
use g15daemon.Gfx.{Buf}
use g15daemon.Lcd.{Levels}
use g15daemon.Daemon.{Ptr, Daemon}
use g15daemon.LinkedLists.{lcdlist_init}
use g15daemon.Keys.{Masks}
use g15daemon.Requests.{process_client_cmds}
use g15daemon.Threads.{Pressed, draw_round, keyboard_round}
use g15daemon.Session
use g15daemon.Session.{
  Picture, show_pixels, show_render, show_wbmp, update_screen, Offer, g15_clientconnect, leave,
}

-- The constants of libg15 and the key that cycles.
pub record Setup : Type 0 where
  pub levels : Levels
  pub masks : Masks
  pub cycle_key : ℕ

-- The kinds of pictures; `wbmp` is one with `buflen` bytes behind a header of `header` bytes.
pub data Kind : Type 0 where
  pixels render : Kind
  wbmp : (buflen header : ℕ) → Kind

abbrev pub picture_of : Kind → Picture
picture_of pixels = show_pixels
picture_of render = show_render
picture_of (wbmp buflen header) = show_wbmp buflen header

-- A round of the server, of the display and of the keyboard thread, and what the thread of a client
-- does: it starts, shows a picture, handles a request, or ends.
pub data Action : Type 0 where
  connect : (fresh : Ptr) → Offer → (created closed : Bool) → Action
  draw : (now : ℕ) (text : List ℕ) → Action
  keyboard : (fuel : ℕ) → Pressed → Action
  enter : (node : Ptr) → Action
  show : (node : Ptr) → Kind → (tmpbuf : Buf) (random : ℕ) → Action
  request : (node : Ptr) (msg : ℕ) → Action
  end : (node : Ptr) → Action

-- The daemon, `lastlcd`, `lastkeypresses`, and the screens whose clients have a thread
-- that has not started yet, and one that has.
pub record System : Type 0 where
  pub daemon : Daemon
  pub lastlcd : ℕ
  pub lastkeypresses : ℕ
  pub waiting : Ptr → Bool
  pub running : Ptr → Bool

-- The state in which the threads are started, with the clock's screen at `fresh`.
unfoldable pub initial : Setup → (fresh : Ptr) → System
initial p fresh = record {
  daemon = lcdlist_init p.levels fresh;
  lastlcd = 1;
  lastkeypresses = 0;
  waiting = λ _. false;
  running = λ _. false;
}

-- `pthread_create`, where it succeeds.
abbrev pub begin : Option Ptr → Daemon → System → System
begin none d s = record s { daemon = d }
begin (some node) d s = record s {
  daemon = d;
  waiting = λ a. if a == node then true else s.waiting a;
}

pub step : Setup → Action → System → Run System
step p (connect fresh offer created closed) s = do
  c ← g15_clientconnect p.levels fresh offer created closed s.daemon
  ok (begin c.started c.daemon s)
step p (draw now text) s = do
  r ← draw_round p.levels.led_mr now text s.lastlcd s.daemon
  ok (record s { daemon = r.daemon; lastlcd = r.lastlcd })
step p (keyboard fuel pressed) s = do
  w ← keyboard_round fuel p.masks p.cycle_key pressed s.lastkeypresses s.daemon
  ok (record s { daemon = w.daemon; lastkeypresses = w.lastkeypresses })
step p (enter node) s = ok (record s {
  daemon = (Session.enter p.levels.led_mr s.daemon).1;
  waiting = λ a. if a == node then false else s.waiting a;
  running = λ a. if a == node then true else s.running a;
})
step p (show node kind tmpbuf random) s = do
  d ← update_screen (picture_of kind) node tmpbuf random s.daemon
  ok (record s { daemon = d })
step p (request node msg) s = do
  r ← process_client_cmds node msg s.daemon
  ok (record s { daemon = r.1 })
step p (end node) s = do
  l ← leave node s.daemon
  ok (record s { daemon = l.1; running = λ a. if a == node then false else s.running a })
