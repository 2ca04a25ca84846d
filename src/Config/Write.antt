-- ===== src/Config/Write.antt =====
-- `g15daemon_cfg_write_string` updates the first item with the key, or adds one behind all others,
-- and what is read back.
use g15daemon.Prelude.{
  ℕ, ◌<◌, ◌≡◌, ◌≢◌, refl, false, ◌==◌, ◌!=◌, none, List, [], ◌∷◌, arith, Returns, returns,
  Returns-bind, Bool-cases, inl, inr, ne_of_!=, eq_of_!=,
}
use g15daemon.Daemon.{Ptr, null}
use g15daemon.Text.{Text}
use g15daemon.Config.Heap.{Config}
use g15daemon.Config.{done, new_item, g15daemon_cfg_write_string}
use g15daemon.Config.Items.{Cell, length, IsSection, find}
use g15daemon.Config.Search.{uf_search_confitem-find}
use g15daemon.Config.Edit.{Written, update-Written, new_item-eq, push_first-Written}
use g15daemon.Config.Append.{push_last-Written}

module _ (c : Config) (section fresh : Ptr) (key val : Text) (fresh_ne : fresh ≢ null)
    (unused : c.items fresh ≡ none) where
  new_item-Written :
      (cells : List Cell)
      → IsSection c section cells
      → find key cells ≡ null
      → Returns (Written section fresh key val cells c) (new_item fresh c section key val)
  new_item-Written [] s absent =
      rw (new_item-eq c section fresh key val fresh_ne [] s)
        (push_first-Written c section fresh key val fresh_ne s)
  new_item-Written (x ∷ xs) s absent =
      let there : (x.at == null) ≡ false = ground (arith, s.chain.0) in
      rw (new_item-eq c section fresh key val fresh_ne (x ∷ xs) s, there)
        (push_last-Written c section fresh key val x xs s fresh_ne unused absent)

-- With more fuel than the section has items and an unused address, `g15daemon_cfg_write_string`
-- returns 0: the first item with the key has the new value, or else the item stands behind all
-- others; the section stays well formed, and no other item or section has changed.
pub g15daemon_cfg_write_string-Written :
    (fuel : ℕ) (fresh : Ptr) (c : Config) (section : Ptr) (key val : Text) (cells : List Cell)
    → IsSection c section cells
    → length cells < fuel
    → fresh ≢ null
    → c.items fresh ≡ none
    → Returns
        (λ r. (r.0 ≡ done) × Written section fresh key val cells c r.1)
        (g15daemon_cfg_write_string fuel fresh c section key val)
unfolding g15daemon_cfg_write_string
g15daemon_cfg_write_string-Written fuel fresh c section key val cells s h fresh_ne unused =
    let there : (section == null) ≡ false = ground (arith, s.ne) in
    rw (there, uf_search_confitem-find fuel c section key cells s h)
      (elim (Bool-cases (find key cells != null)) [
        | inl found ↦
            let ne = ne_of_!= (find key cells) null found in
            rw found (
              Returns-bind (update-Written c section fresh key val cells s ne)
                (λ c' w. returns (refl, w)))
        | inr absent ↦
            let e = eq_of_!= (find key cells) null absent in
            rw absent (
              Returns-bind (new_item-Written c section fresh key val fresh_ne unused cells s e)
                (λ c' w. returns (refl, w)))
      ])
