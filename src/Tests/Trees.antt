-- ===== src/Tests/Trees.antt =====
-- The construction of the whole tree in WPD_MTP_dataDlg.cpp: area 1, in it device 7 with device 8 below
-- it, and device 9, whose area is not there.
use shujugongxiang.Prelude.{
  ℕ, ◌-◌, ◌<◌, ◌≡◌, refl, ◌⊎◌, ◌↔◌, false, some, [], ◌∷◌, if◌then◌else◌, arith,
}
use shujugongxiang.Text.Defs.{Text, codes, is_empty, text_eq}
use shujugongxiang.Cascade.{
  kind_areas, kind_devices, is_kind, Node, Tree, real_flag, want_flag,
  delete_area_and_device_find_id,
}
use shujugongxiang.Cascade.Members.{In, IsKey, keys_of}
use shujugongxiang.Cascade.Doomed.{nothing_found}
use shujugongxiang.Cascade.Build.{Maps}
use shujugongxiang.Cascade.Init.{init_delete_tree_struct}
use shujugongxiang.Cascade.Init.Whole.{root, Expected, init_delete_tree_struct_lem}
use shujugongxiang.Cascade.Init.Lost.{LostId}
use shujugongxiang.Sync.Removal.{map_to_array}
use shujugongxiang.Sync.Removal.Rows.{removed_ids}

abbrev areas : Maps
areas = record {
  kind = kind_areas;
  parents = (codes "1", codes "0") ∷ [];
  status = λ key. [];
  name = λ key. [];
}

abbrev devices : Maps
devices = record {
  kind = kind_devices;
  parents = (codes "8", codes "7") ∷ (codes "7", codes "0") ∷ (codes "9", codes "0") ∷ [];
  status = λ key. codes "3";
  name = λ key. [];
}

abbrev type_area : Text → Text
type_area key = if text_eq key (codes "9") then codes "2" else codes "1"

abbrev pub depth : Text → ℕ
depth [] = 0
depth (c ∷ key) = 57 - c

pub depth_bound : (id : Text) → depth id < 58
depth_bound [] = omega arith
depth_bound (c ∷ key) = omega arith

init_delete_tree_struct_lem_example :
    (t : Tree) × (init_delete_tree_struct 58 areas devices type_area [] ≡ some t)
    × ((m : Node)
        → In m t
          ↔ (m ≡ root areas devices type_area [] depth depth 58)
            ⊎ Expected areas devices type_area [] depth depth 58 m)
init_delete_tree_struct_lem_example =
    init_delete_tree_struct_lem areas devices type_area [] depth depth 58 refl refl
      (omega arith, tt) (omega arith, (omega arith, (omega arith, tt))) depth_bound depth_bound

removed_ids_example :
    (t : Tree) × (init_delete_tree_struct 58 areas devices type_area [] ≡ some t)
    × (let found = delete_area_and_device_find_id t (nothing_found, nothing_found) in
        (IsKey (codes "8") (map_to_array (keys_of kind_devices found.0))
          ↔ LostId areas devices type_area [] depth depth 58 real_flag kind_devices (codes "8")
            × (is_empty (codes "8") ≡ false))
        × (IsKey (codes "8") (map_to_array (keys_of kind_devices found.1))
            ↔ LostId areas devices type_area [] depth depth 58 want_flag kind_devices (codes "8")
              × (is_empty (codes "8") ≡ false)))
unfolding is_kind
removed_ids_example =
    removed_ids areas devices type_area [] depth depth 58 refl refl (omega arith, tt)
      (omega arith, (omega arith, (omega arith, tt))) depth_bound depth_bound kind_devices
      (codes "8") refl
