-- ===== src/Config/Remove.antt =====
-- `g15daemon_cfg_remove_key` of the only item of a section.
use g15daemon.Prelude.{
  ℕ, ◌<◌, ◌≡◌, refl, true, false, ◌==◌, none, some, [], ◌∷◌, arith, ok, fault, !=-eq_true,
}
use g15daemon.Daemon.{Ptr, null}
use g15daemon.Text.{Text, equal}
use g15daemon.Config.Heap.{Config, update, load_item, store_section, free_item}
use g15daemon.Config.{unlink_item, move_head, remove_item, g15daemon_cfg_remove_key}
use g15daemon.Config.Items.{Cell, item_of, IsSection}
use g15daemon.Config.Search.{load_item-eq_ok, load_section-eq_ok, uf_search_confitem-find}
use g15daemon.Config.Edit.{edit_section-eq_ok}

module _ (c : Config) (section : Ptr) (x : Cell) (s : IsSection c section (x ∷ [])) where
  freed : Config
  freed = record c { items = update c.items x.at none }

  emptied : Config
  emptied = store_section freed section (record s.at { items = null })

  free_item-freed : free_item c x.at ≡ ok freed
  unfolding free_item freed
  free_item-freed =
      let there : (x.at == null) ≡ false = ground (arith, s.chain.0) in rw (there, s.chain.1) refl

  freed-found : freed.sections section ≡ some s.at
  unfolding freed
  freed-found = s.found

  unlink_item-emptied : unlink_item c section null null ≡ ok emptied
  unfolding unlink_item emptied
  unlink_item-emptied =
      rw
        (
          load_section-eq_ok c section s.at s.ne s.found,
          s.items,
          free_item-freed,
          edit_section-eq_ok freed section s.at (λ t. record t { items = null }) s.ne freed-found,
        )
        refl

  -- The item that is read next is gone.
  load_item-emptied : load_item emptied x.at ≡ fault
  unfolding load_item emptied freed store_section update
  load_item-emptied = ground arith

  remove_item-fault : remove_item c section x.at ≡ fault
  unfolding remove_item move_head
  remove_item-fault =
      rw
        (
          load_item-eq_ok c x.at (item_of null null x) s.chain.0 s.chain.1,
          unlink_item-emptied,
          load_item-emptied,
        )
        refl

-- Removing the only item of a section by its key reads the item after it has been freed.
pub g15daemon_cfg_remove_key-fault :
    (fuel : ℕ) (c : Config) (section : Ptr) (key : Text) (x : Cell)
    → IsSection c section (x ∷ [])
    → equal x.key key ≡ true
    → 1 < fuel
    → g15daemon_cfg_remove_key fuel c section key ≡ fault
unfolding g15daemon_cfg_remove_key
g15daemon_cfg_remove_key-fault fuel c section key x s same h =
    let there : (section == null) ≡ false = ground (arith, s.ne) in
    rw
      (
        there,
        uf_search_confitem-find fuel c section key (x ∷ []) s (omega arith),
        same,
        !=-eq_true x.at null s.chain.0,
        remove_item-fault c section x s,
      )
      refl
