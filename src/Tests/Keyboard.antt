-- ===== src/Tests/Keyboard.antt =====
-- Keys of a keyboard whose masks are the powers of two.
use g15daemon.Prelude.{ℕ, ◌+◌, ◌^◌, ◌≡◌, refl, ltb, Option, none, some, false, List, [], ◌∷◌}
use g15daemon.Lcd.{Levels}
use g15daemon.Daemon.{Daemon}
use g15daemon.LinkedLists.{lcdlist_init}
use g15daemon.Keys.{Masks, key_events}
use g15daemon.Keys.Edges.{Held, replay}
use g15daemon.Keys.Tracking.{reported, held_by, Follows, replay-key_events}
use g15daemon.OsKeys.{PluginEvent, all_keyevents}
use g15daemon.OsKeys.Tracking.{mapped, last_keys, replay-all_keyevents}

abbrev masks : Masks
masks = record { g = λ i. 2 ^ i; m = λ i. 2 ^ (18 + i); mr = 2 ^ 21; l = λ i. 2 ^ (22 + i) }

abbrev levels : Levels
levels = record { brightness_medium = 1; contrast_medium = 1; led_mr = 8 }

abbrev alone : Daemon
alone = lcdlist_init levels 1

-- G1 and L2 are held.
abbrev before : Held
before a = held_by 8388609 (reported masks 4194304 alone a) (ltb a 10)

before-Follows : Follows 8388609 (reported masks 4194304 alone) before
before-Follows a = go (reported masks 4194304 alone a)
  where
    go :
        (o : Option ℕ)
        → held_by 8388609 o (ltb a 10) ≡ held_by 8388609 o (held_by 8388609 o (ltb a 10))
    go none = refl
    go (some x) = refl

-- G1 is released and G2 is pressed.
replay-key_events_example :
    replay (key_events masks 4194304 alone 8388610 8388609) before 168
    ≡ held_by 8388610 (reported masks 4194304 alone 168) (before 168)
replay-key_events_example =
    replay-key_events masks 4194304 alone 8388610 8388609 before before-Follows 168

-- No key is held.
abbrev released : Held
released a = held_by 0 (mapped masks 1 a) false

released-Follows : Follows 0 (mapped masks 1) released
released-Follows a = held_twice (mapped masks 1 a)
  where
    held_twice : (o : Option ℕ) → held_by 0 o false ≡ held_by 0 o (held_by 0 o false)
    held_twice none = refl
    held_twice (some x) = refl

-- G1 and L2 are pressed, the screen is hidden, and L2 is released.
abbrev history : List PluginEvent
history =
    record { event = 1; value = 8388609 }
    ∷ record { event = 2; value = 0 }
    ∷ record { event = 1; value = 1 }
    ∷ []

replay-all_keyevents_example :
    replay (all_keyevents masks 1 history 0) released 190
    ≡ held_by (last_keys history 0) (mapped masks 1 190) (released 190)
replay-all_keyevents_example = replay-all_keyevents masks 1 history 0 released released-Follows 190
