-- ===== src/Requests/Decode.antt =====
-- The requests that set a level, as bytes.
use g15daemon.Prelude.{ℕ, zero, suc, ◌≤◌, ◌≡◌, refl, arith, bit_or}
use g15daemon.Gfx.{sub32}
use g15daemon.Daemon.{Daemon, set_lcd}
use g15daemon.Requests.{has_bit, quiet, process_client_cmds}

up_to_eight {ℓ} :
    (P : ℕ → Type ℓ) → P 0 → P 1 → P 2 → P 3 → P 4 → P 5 → P 6 → P 7 → P 8 → (v : ℕ) → v ≤ 8 → P v
up_to_eight P p0 p1 p2 p3 p4 p5 p6 p7 p8 zero h = p0
up_to_eight P p0 p1 p2 p3 p4 p5 p6 p7 p8 (suc zero) h = p1
up_to_eight P p0 p1 p2 p3 p4 p5 p6 p7 p8 (suc (suc zero)) h = p2
up_to_eight P p0 p1 p2 p3 p4 p5 p6 p7 p8 (suc (suc (suc zero))) h = p3
up_to_eight P p0 p1 p2 p3 p4 p5 p6 p7 p8 (suc (suc (suc (suc zero)))) h = p4
up_to_eight P p0 p1 p2 p3 p4 p5 p6 p7 p8 (suc (suc (suc (suc (suc zero))))) h = p5
up_to_eight P p0 p1 p2 p3 p4 p5 p6 p7 p8 (suc (suc (suc (suc (suc (suc zero)))))) h = p6
up_to_eight P p0 p1 p2 p3 p4 p5 p6 p7 p8 (suc (suc (suc (suc (suc (suc (suc zero))))))) h = p7
up_to_eight P p0 p1 p2 p3 p4 p5 p6 p7 p8 (suc (suc (suc (suc (suc (suc (suc (suc zero)))))))) h = p8
up_to_eight P p0 p1 p2 p3 p4 p5 p6 p7 p8 (suc (suc (suc (suc (suc (suc (suc (suc (suc v))))))))) h =
    absurd (omega arith)

pub decode-backlight :
    (node v : ℕ) (d : Daemon)
    → v ≤ 8
    → process_client_cmds node (bit_or 128 v) d
      ≡ quiet (set_lcd d node (λ lcd. record lcd { backlight_state = v; state_changed = 1 }))
unfolding process_client_cmds has_bit sub32
decode-backlight node v d h =
    up_to_eight
      (λ v.
        process_client_cmds node (bit_or 128 v) d
        ≡ quiet (set_lcd d node (λ lcd. record lcd { backlight_state = v; state_changed = 1 })))
      refl refl refl refl refl refl refl refl refl v h

pub decode-contrast :
    (node v : ℕ) (d : Daemon)
    → v ≤ 8
    → process_client_cmds node (bit_or 64 v) d
      ≡ quiet (set_lcd d node (λ lcd. record lcd { contrast_state = v; state_changed = 1 }))
unfolding process_client_cmds has_bit sub32
decode-contrast node v d h =
    up_to_eight
      (λ v.
        process_client_cmds node (bit_or 64 v) d
        ≡ quiet (set_lcd d node (λ lcd. record lcd { contrast_state = v; state_changed = 1 })))
      refl refl refl refl refl refl refl refl refl v h

pub decode-mkey_lights :
    (node v : ℕ) (d : Daemon)
    → v ≤ 8
    → process_client_cmds node (bit_or 32 v) d
      ≡ quiet (set_lcd d node (λ lcd. record lcd { mkey_state = v; state_changed = 1 }))
unfolding process_client_cmds has_bit sub32
decode-mkey_lights node v d h =
    up_to_eight
      (λ v.
        process_client_cmds node (bit_or 32 v) d
        ≡ quiet (set_lcd d node (λ lcd. record lcd { mkey_state = v; state_changed = 1 })))
      refl refl refl refl refl refl refl refl refl v h
