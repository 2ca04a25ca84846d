-- ===== src/System/Safety.antt =====
-- The threads together: the states that their actions reach.
use g15daemon.Prelude.{◌≡◌, List, [], ◌∷◌, ok}
use g15daemon.Daemon.{Ptr}
use g15daemon.System.{Setup, Action, System, initial, step}
use g15daemon.System.Sound.{Sound}
use g15daemon.System.Steps.{screens_after, Allowed}

-- The states that the actions of the threads lead to, with the screens in their order.
pub data Reach (p : Setup) (fresh : Ptr) : List Ptr → System → Type 0 where
  start : Reach p fresh (fresh ∷ []) (initial p fresh)
  next :
      {xs ys : List Ptr} {s t : System}
      → Reach p fresh xs s
      → (a : Action) → Allowed a xs s
      → step p a s ≡ ok t
      → ys ≡ screens_after a xs
      → Reach p fresh ys t
