-- ===== src/Sync/Removal/Rows.antt =====
-- Which ids `DeleteAreaAndDevice` of WPD_MTP_dataDlg.cpp works through, when its tree is the one that
-- `InitDeleteTreeStruct` built from the rows of areas and devices.
use shujugongxiang.Prelude.{ℕ, ◌<◌, ◌≡◌, ◌↔◌, false, some}
use shujugongxiang.Text.Defs.{Text, is_empty}
use shujugongxiang.Cascade.{
  Kind, kind_areas, kind_devices, Tree, real_flag, want_flag, delete_area_and_device_find_id,
}
use shujugongxiang.Cascade.Members.{IsKey, keys_of, IsGroup}
use shujugongxiang.Cascade.Doomed.{nothing_found}
use shujugongxiang.Cascade.Build.{Maps, Falls}
use shujugongxiang.Cascade.Init.{init_delete_tree_struct}
use shujugongxiang.Cascade.Init.Lost.{LostId, lost_tree}
use shujugongxiang.Sync.Removal.{map_to_array}
use shujugongxiang.Sync.Removal.Effects.{through, map_to_array_doomed}

-- If neither the areas nor the devices have a cycle of parents, the tree is built, with fuel above every
-- depth, and the arrays that the deletion then works through hold exactly the ids, not empty, of the
-- areas or devices that stand in the tree and are marked for real deletion or have a marked node above
-- them: the root, an area above an area, a device above a device, or, for a device without a parent that
-- has an area and for all below that device, the area or one above it. For wanted deletion likewise.
-- `kind` is that of areas or of devices.
pub removed_ids :
    (areas devices : Maps) (type_area : Text → Text) (user_area : Text) (depth_a depth_d : Text → ℕ)
    (fuel : ℕ)
    → areas.kind ≡ kind_areas
    → devices.kind ≡ kind_devices
    → Falls depth_a areas.parents
    → Falls depth_d devices.parents
    → ((id : Text) → depth_a id < fuel)
    → ((id : Text) → depth_d id < fuel)
    → (kind : Kind) (x : Text) → IsGroup kind
    → (t : Tree) × (init_delete_tree_struct fuel areas devices type_area user_area ≡ some t)
      × (let found = delete_area_and_device_find_id t (nothing_found, nothing_found) in
          (IsKey x (map_to_array (keys_of kind found.0))
            ↔ LostId areas devices type_area user_area depth_a depth_d fuel real_flag kind x
              × (is_empty x ≡ false))
          × (IsKey x (map_to_array (keys_of kind found.1))
              ↔ LostId areas devices type_area user_area depth_a depth_d fuel want_flag kind x
                × (is_empty x ≡ false)))
removed_ids areas devices type_area user_area depth_a depth_d fuel a d falls_a falls_d enough_a
      enough_d kind x g =
    let (t, built, lost) =
      lost_tree areas devices type_area user_area depth_a depth_d fuel a d falls_a falls_d enough_a
        enough_d in
    let keys = map_to_array_doomed t kind x g in
    (t, built, (through keys.0 (lost real_flag kind x), through keys.1 (lost want_flag kind x)))
