-- ===== src/Tests/Controls.antt =====
-- The tree control of WPD_MTP_dataDlg.cpp: area 1 with area 2 below it, and device 7 of area 2 with
-- device 8 below it.
use shujugongxiang.Prelude.{◌≡◌, sym, ap, ◌∙◌, ◌↔◌, inl, inr, true, some, List, [], ◌∷◌, arith}
use shujugongxiang.Text.Defs.{Text, codes, text_eq}
use shujugongxiang.Sync.World.{Row, Env, show_log}
use shujugongxiang.Sync.Record.{column}
use shujugongxiang.Sync.Selection.{Item, Items, nil, area_of, child_ids}
use shujugongxiang.Cascade.{null}
use shujugongxiang.Cascade.Build.{IsEntry, Falls}
use shujugongxiang.Cascade.Members.{IsKey}
use shujugongxiang.Control.{
  Caches, Control, clear_caches, value_of, is_root, build_items, set_key, is_shown, load_area,
  load_areas, load_type, load_types, select_areas, select_types, load_caches, init_areas_tree,
}
use shujugongxiang.Control.Children.{HasText}
use shujugongxiang.Control.Places.{InItems}
use shujugongxiang.Control.Whole.{Within, Chooses, build_items_lem}
use shujugongxiang.Control.Load.{InRows, IsDistinct, FromRows}
use shujugongxiang.Control.Tables.{shown_area, shown_type, every, loaded, loaded_lem}
use shujugongxiang.Control.Start.{answered, started, caches', Left, init_areas_tree_lem}
use shujugongxiang.Tests.Trees.{depth, depth_bound}
use shujugongxiang.Tests.Databases.{world, start}

abbrev no_caches : Caches
no_caches = record {
  area = [];
  area_parent = [];
  type_name = [];
  type_parent = [];
  type_to_area = [];
  area_parent_delete = [];
  area_status_delete = [];
  area_name_delete = [];
  type_parent_delete = [];
  type_to_area_delete = [];
  type_status_delete = [];
  type_name_delete = [];
}

abbrev caches : Caches
caches = record no_caches {
  area_parent = (codes "2", codes "1") ∷ (codes "1", codes "0") ∷ [];
  type_parent = (codes "8", codes "7") ∷ (codes "7", codes "0") ∷ [];
  type_to_area = (codes "8", codes "2") ∷ (codes "7", codes "2") ∷ [];
}

build_items_lem_example :
    (items : Items) × (build_items 58 [] caches ≡ some items)
    × ((x : Text)
        → IsKey x (child_ids items)
          ↔ HasText x
            × ((key : Text) × (value : Text) × IsEntry key value caches.area_parent
                × (is_root [] key value ≡ true)
                × Within caches key x))
    × ((j : Item)
        → InItems j items
        → HasText (area_of j)
        → Chooses caches [] depth depth 58 (area_of j) j)
build_items_lem_example =
    build_items_lem caches [] depth depth 58 (omega arith, (omega arith, tt))
      (omega arith, (omega arith, tt)) depth_bound depth_bound

abbrev area_one : Row
area_one = codes "1" ∷ codes "A1" ∷ codes "North" ∷ codes "0" ∷ [] ∷ [] ∷ codes "0" ∷ []

abbrev area_two : Row
area_two = codes "2" ∷ codes "A2" ∷ codes "South" ∷ codes "1" ∷ [] ∷ [] ∷ codes "3" ∷ []

abbrev device_seven : Row
device_seven = codes "7" ∷ codes "0" ∷ codes "Pump" ∷ codes "2" ∷ codes "1" ∷ []

abbrev both_areas : List Row
both_areas = area_one ∷ area_two ∷ []

two_ids : codes "2" ≡ codes "1" → ⊥
two_ids e = absurd (ground (arith, e))

areas-IsDistinct : IsDistinct both_areas
unfolding IsDistinct InRows
areas-IsDistinct = (
  (λ row i e. elim i [
    | inl at ↦ two_ids (ap (λ (r : Row). column r 0) (sym at) ∙ e)
    | inr n ↦ absurd n
  ]),
  ((λ row i e. absurd i), tt),
)

device-IsDistinct : IsDistinct (device_seven ∷ [])
unfolding IsDistinct InRows
device-IsDistinct = ((λ row i e. absurd i), tt)

loaded_lem_example :
    let c = loaded both_areas (device_seven ∷ []) caches in
    (IsEntry (codes "2") (codes "1") c.area_parent
      ↔ FromRows (λ row. column row 3) shown_area both_areas (codes "2") (codes "1"))
    × (IsEntry (codes "2") (codes "1") c.type_parent
        ↔ FromRows (λ row. column row 1) shown_type (device_seven ∷ []) (codes "2") (codes "1"))
    × (IsEntry (codes "2") (codes "1") c.type_to_area
        ↔ FromRows (λ row. column row 3) shown_type (device_seven ∷ []) (codes "2") (codes "1"))
    × (IsEntry (codes "2") (codes "1") c.area_parent_delete
        ↔ FromRows (λ row. column row 3) every both_areas (codes "2") (codes "1"))
    × (IsEntry (codes "2") (codes "1") c.type_parent_delete
        ↔ FromRows (λ row. column row 1) every (device_seven ∷ []) (codes "2") (codes "1"))
    × (IsEntry (codes "2") (codes "1") c.type_to_area_delete
        ↔ FromRows (λ row. column row 3) every (device_seven ∷ []) (codes "2") (codes "1"))
    × ((row : Row)
        → InRows row both_areas
        → value_of (column row 0) c.area_status_delete ≡ column row 6)
    × ((row : Row)
        → InRows row (device_seven ∷ [])
        → value_of (column row 0) c.type_status_delete ≡ column row 4)
loaded_lem_example =
    loaded_lem both_areas (device_seven ∷ []) caches (codes "2") (codes "1") areas-IsDistinct
      device-IsDistinct

-- As a row of `areas` it is the area 7, as one of `device_info` the device 7, both without a parent.
abbrev root_row : Row
root_row = codes "7" ∷ codes "0" ∷ codes "Hall" ∷ codes "0" ∷ codes "0" ∷ [] ∷ codes "0" ∷ []

abbrev server : Env
server = record world { rows = λ calls c. root_row ∷ [] }

abbrev control : Control
control = record { caches = no_caches; items = nil; tree = null; button_flash = true }

falls_lem :
    let c = caches' server 58 [] control start in
    Falls depth c.area_parent
    × Falls depth c.type_parent
    × Falls depth c.area_parent_delete
    × Falls depth c.type_parent_delete
unfolding load_caches select_areas select_types clear_caches load_areas load_area load_types
    load_type set_key is_shown text_eq show_log
falls_lem = ((omega arith, tt), (omega arith, tt), (omega arith, tt), (omega arith, tt))

init_areas_tree_lem_example :
    let ok = answered server (clear_caches control.caches) (started server 58 [] control start) in
    (r : Control) × ((init_areas_tree server 58 [] control start).0 ≡ some (ok, r))
    × (r.caches ≡ caches' server 58 [] control start)
    × (r.button_flash ≡ true)
    × Left server 58 [] control start ok r
init_areas_tree_lem_example =
    init_areas_tree_lem server 58 [] control start depth depth depth depth falls_lem.0 falls_lem.1
      falls_lem.2 falls_lem.3 (λ id. (depth_bound id, depth_bound id))
      (λ id. (depth_bound id, depth_bound id))
