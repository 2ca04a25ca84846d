-- ===== src/Client/Levels.antt =====
-- The daemon decodes what the client library encodes: the levels of the lights and of the display.
use g15daemon.Prelude.{
  ℕ, ◌≤◌, ◌≡◌, true, ◌||◌, ◌==◌, if◌then◌else◌, Option, none, some, List, [], arith, Run, ok,
  Returns, returns, Returns-bind, Bool-cases, inl, inr, sym, subst, eq_of_==,
}
use g15daemon.Lcd.{Lcd}
use g15daemon.Daemon.{Ptr, Daemon, set_lcd}
use g15daemon.LinkedLists.Ring.{links, has, Chain-has, IsRing}
use g15daemon.LinkedLists.Access.{screen, change, set_lcd-Wrote}
use g15daemon.Requests.{Reply, quiet, process_client_cmds}
use g15daemon.Requests.Decode.{decode-backlight, decode-contrast, decode-mkey_lights}
use g15daemon.Client.{Limits, Peer, clamp, send_value, g15_send_cmd}

-- The daemon handles the byte that was sent, if any, for the client's screen.
abbrev pub deliver : Ptr → Option ℕ → Daemon → Run (List Reply × Daemon)
deliver node none d = ok ([], d)
deliver node (some byte) d = process_client_cmds node byte d

-- The screen with a level set, cut to its limit.
abbrev pub with_level : Limits → (command value : ℕ) → Lcd → Lcd
with_level k command value lcd =
    if command == 128
    then record lcd { backlight_state = clamp k.brightness_bright value; state_changed = 1 }
    else if command == 64
    then record lcd { contrast_state = clamp k.contrast_high value; state_changed = 1 }
    else if command == 32
    then record lcd { mkey_state = clamp k.led_mr value; state_changed = 1 }
    else lcd

clamp_le : (limit value : ℕ) → limit ≤ 8 → clamp limit value ≤ 8
clamp_le limit value h = ground arith

module _ (node : Ptr) (xs : List Ptr) (d : Daemon) (r : IsRing d xs) (h : has node xs ≡ true) where
  -- A request that is decoded as a change of the client's screen.
  Sets : (Lcd → Lcd) → Run (List Reply × Daemon) → Type 0
  Sets f run = Returns (λ r. (a : Ptr) → screen r.1.nodes a ≡ change (screen d.nodes) node f a) run

  set_lcd-Sets : (f : Lcd → Lcd) → Sets f (quiet (set_lcd d node f))
  unfolding Sets
  set_lcd-Sets f =
      let (p, q, at, ne) = Chain-has (links d.nodes) d.tail node xs r.chain h in
      Returns-bind (set_lcd-Wrote d node ne at f) λ d' w. returns w.screens_eq

  -- The client asks for the value under the command, and the daemon sets the level.
  Sent : Limits → Peer → (value command : ℕ) → Type 0
  Sent k peer value command =
      Sets (with_level k command value) (deliver node (g15_send_cmd k peer command value).packet d)

  module _ (k : Limits) (peer : Peer) (value : ℕ) where
    backlight-Sent : k.brightness_bright ≤ 8 → Sent k peer value 128
    unfolding Sent g15_send_cmd send_value
    backlight-Sent le =
        rw (decode-backlight node (clamp k.brightness_bright value) d (clamp_le _ value le))
          (set_lcd-Sets _)

    contrast-Sent : k.contrast_high ≤ 8 → Sent k peer value 64
    unfolding Sent g15_send_cmd send_value
    contrast-Sent le =
        rw (decode-contrast node (clamp k.contrast_high value) d (clamp_le _ value le))
          (set_lcd-Sets _)

    mkey_lights-Sent : k.led_mr ≤ 8 → Sent k peer value 32
    unfolding Sent g15_send_cmd send_value
    mkey_lights-Sent le =
        rw (decode-mkey_lights node (clamp k.led_mr value) d (clamp_le _ value le)) (set_lcd-Sets _)

    level-Sent :
        (command : ℕ)
        → k.led_mr ≤ 8
        → k.contrast_high ≤ 8
        → k.brightness_bright ≤ 8
        → ((command == 128) || (command == 64) || (command == 32)) ≡ true
        → Sent k peer value command
    level-Sent command hm hc hb e = elim (Bool-cases (command == 128)) [
      | inl e128 ↦ subst (Sent k peer value) (sym (eq_of_== command 128 e128)) (backlight-Sent hb)
      | inr n128 ↦ elim (Bool-cases (command == 64)) [
        | inl e64 ↦ subst (Sent k peer value) (sym (eq_of_== command 64 e64)) (contrast-Sent hc)
        | inr n64 ↦
            let e32 : (command == 32) ≡ true = cc (e, n128, n64) in
            subst (Sent k peer value) (sym (eq_of_== command 32 e32)) (mkey_lights-Sent hm)
      ]
    ]

-- Where the largest levels of libg15 are at most 8, a client of the list that asks the library for a
-- level of the backlight, the contrast or the M keys' lights has the daemon set that level, cut to
-- its limit, and mark its screen as changed, and nothing else of any screen.
pub g15_send_cmd-level :
    (node : Ptr) (xs : List Ptr) (d : Daemon) (k : Limits) (peer : Peer) (command value : ℕ)
    → IsRing d xs
    → has node xs ≡ true
    → k.led_mr ≤ 8
    → k.contrast_high ≤ 8
    → k.brightness_bright ≤ 8
    → ((command == 128) || (command == 64) || (command == 32)) ≡ true
    → Returns
        (λ r.
          (a : Ptr)
          → screen r.1.nodes a ≡ change (screen d.nodes) node (with_level k command value) a)
        (deliver node (g15_send_cmd k peer command value).packet d)
unfolding Sent Sets
g15_send_cmd-level node xs d k peer command value r h hm hc hb e =
    level-Sent node xs d r h k peer value command hm hc hb e
