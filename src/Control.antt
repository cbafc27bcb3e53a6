-- ===== src/Control.antt =====
-- The tree control of areas and devices in `WPD_MTP_data/WPD_MTP_dataDlg.cpp`: `Init_areas_tree`, which
-- fills it from the server's tables, with `FindChildTree` and `FindChildTreeType`. The text that an item
-- shows is left out.
pub mod Children
pub mod Places
pub mod Areas
pub mod Devices
pub mod Whole
pub mod Load
pub mod Tables
pub mod Start
use shujugongxiang.Prelude.{
  ℕ, zero, suc, Bool, true, false, ◌&&◌, ◌||◌, Option, none, some, List, [], ◌∷◌, ◌++◌,
  if◌then◌else◌,
}
use shujugongxiang.Text.Defs.{Text, codes, is_empty, text_eq}
use shujugongxiang.Sync.World.{
  Row, mysql_init, mysql_close, mysql_select, Env, M, pure, ◌>>=◌, ◌>>◌, do_call, ask, ask_rows,
  log_mysql_error, show_log,
}
use shujugongxiang.Sync.Record.{column}
use shujugongxiang.Sync.Selection.{Item, Items, item, nil, cons}
use shujugongxiang.Cascade.{Tree, kind_areas, kind_devices}
use shujugongxiang.Cascade.Build.{Maps}
use shujugongxiang.Cascade.Init.{parent_flag, init_delete_tree_struct}

-- A CMap of texts, its entries in the order in which it is run through.
abbrev pub TextMap : Type 0
TextMap = List (Text × Text)

-- `map[key] = value`.
unfoldable pub set_key : Text → Text → TextMap → TextMap
set_key key value [] = (key, value) ∷ []
set_key key value ((k, v) ∷ table) =
    let rest = set_key key value table in
    if text_eq k key then (k, value) ∷ table else (k, v) ∷ rest

-- `map[key]`, the empty text for a missing key.
unfoldable pub value_of : Text → TextMap → Text
value_of key [] = []
value_of key ((k, v) ∷ table) = if text_eq k key then v else value_of key table

-- `m_mapArea`, `m_mapAreaParent`, and so on.
pub record Caches : Type 0 where
  pub area : TextMap
  pub area_parent : TextMap
  pub type_name : TextMap
  pub type_parent : TextMap
  pub type_to_area : TextMap
  pub area_parent_delete : TextMap
  pub area_status_delete : TextMap
  pub area_name_delete : TextMap
  pub type_parent_delete : TextMap
  pub type_to_area_delete : TextMap
  pub type_status_delete : TextMap
  pub type_name_delete : TextMap

-- What `RemoveAll` empties; the maps of states and of names for deletion stay.
unfoldable pub clear_caches : Caches → Caches
clear_caches c = record c {
  area = [];
  area_parent = [];
  type_name = [];
  type_parent = [];
  type_to_area = [];
  area_parent_delete = [];
  type_parent_delete = [];
  type_to_area_delete = [];
}

-- The state of a row that is shown.
unfoldable pub is_shown : Text → Bool
is_shown state = text_eq state (codes "0") || text_eq state (codes "1")

-- A row: Id, Code, Name, ParentId, CreateDate, CreateUserId, SynchronState.
unfoldable pub load_area : Row → Caches → Caches
load_area row c =
    let id = column row 0 in
    let shown = is_shown (column row 6) in
    record c {
      area = if shown then set_key id (column row 2) c.area else c.area;
      area_parent = if shown then set_key id (column row 3) c.area_parent else c.area_parent;
      area_parent_delete = set_key id (column row 3) c.area_parent_delete;
      area_status_delete = set_key id (column row 6) c.area_status_delete;
      area_name_delete = set_key id (column row 2) c.area_name_delete;
    }

unfoldable pub load_areas : List Row → Caches → Caches
load_areas [] c = c
load_areas (row ∷ rows) c = load_areas rows (load_area row c)

-- A row: Id, ParentId, Name, AreaId, SynchronState.
unfoldable pub load_type : Row → Caches → Caches
load_type row c =
    let id = column row 0 in
    let shown = is_shown (column row 4) in
    record c {
      type_name = if shown then set_key id (column row 2) c.type_name else c.type_name;
      type_parent = if shown then set_key id (column row 1) c.type_parent else c.type_parent;
      type_to_area = if shown then set_key id (column row 3) c.type_to_area else c.type_to_area;
      type_parent_delete = set_key id (column row 1) c.type_parent_delete;
      type_to_area_delete = set_key id (column row 3) c.type_to_area_delete;
      type_status_delete = set_key id (column row 4) c.type_status_delete;
      type_name_delete = set_key id (column row 2) c.type_name_delete;
    }

unfoldable pub load_types : List Row → Caches → Caches
load_types [] c = c
load_types (row ∷ rows) c = load_types rows (load_type row c)

-- InsertItem of an area and of a device, with what is inserted below it.
abbrev pub area_item : Text → Items → Item
area_item key children = item key [] children

abbrev pub device_item : Text → Items → Item
device_item key children = item [] key children

pub join : (Items → Item) → Option Items → Option Items → Option Items
join make none rest = none
join make (some children) none = none
join make (some children) (some rest) = some (cons (make children) rest)

-- The items below the one with this id: the loop over the entries of the map of parents, and the
-- recursion on the items that were inserted, with the depth that is left.
pub find_children : (Text → Items → Item) → TextMap → ℕ → Text → TextMap → Option Items
find_children make parents fuel id [] = some nil
find_children make parents zero id (entry ∷ entries) = none
find_children make parents (suc fuel) id ((key, value) ∷ entries) =
    let below = find_children make parents fuel key parents in
    let rest = find_children make parents (suc fuel) id entries in
    if text_eq id value then join (make key) below rest else rest

abbrev pub find_child_tree : ℕ → Caches → Text → Option Items
find_child_tree fuel c id = find_children area_item c.area_parent fuel id c.area_parent

abbrev pub find_child_tree_type : ℕ → Caches → Text → Option Items
find_child_tree_type fuel c id = find_children device_item c.type_parent fuel id c.type_parent

-- The user's area alone, or each area without a parent.
pub is_root : Text → Text → Text → Bool
is_root user_area key value =
    if is_empty user_area then text_eq value parent_flag else text_eq key user_area

pub area_items : ℕ → Caches → Text → TextMap → Option Items
area_items fuel c user_area [] = some nil
area_items fuel c user_area ((key, value) ∷ entries) =
    let rest = area_items fuel c user_area entries in
    if is_root user_area key value
    then join (area_item key) (find_child_tree fuel c key) rest
    else rest

unfoldable pub append_items : Items → Items → Items
append_items nil new = new
append_items (cons i rest) new = cons i (append_items rest new)

-- New last children of the area's item, if the control has one.
unfoldable mutual
  pub add_to_item : Text → Items → Item → Item
  add_to_item area new (item a d children) =
      let children' = add_to_items area new children in
      item a d (if text_eq a area then append_items children' new else children')

  pub add_to_items : Text → Items → Items → Items
  add_to_items area new nil = nil
  add_to_items area new (cons i rest) = cons (add_to_item area new i) (add_to_items area new rest)

-- A device without a parent, below its area or as a root of its own.
pub place_device : Caches → Text → Items → Items → Items
place_device c key below items =
    let area = value_of key c.type_to_area in
    let new = cons (device_item key below) nil in
    if is_empty area then append_items items new else add_to_items area new items

pub place_devices : ℕ → Caches → TextMap → Items → Option Items
place_devices fuel c [] items = some items
place_devices fuel c ((key, value) ∷ entries) items =
    let rest = λ (items' : Items). place_devices fuel c entries items' in
    if text_eq value parent_flag
    then elim (find_child_tree_type fuel c key) [
      | none ↦ none
      | some below ↦ rest (place_device c key below items)
    ]
    else rest items

-- "1." of Init_areas_tree.
pub build_items : ℕ → Text → Caches → Option Items
build_items fuel user_area c = elim (area_items fuel c user_area c.area_parent) [
  | none ↦ none
  | some items ↦ place_devices fuel c c.type_parent items
]

abbrev pub area_maps : Caches → Maps
area_maps c = record {
  kind = kind_areas;
  parents = c.area_parent_delete;
  status = λ key. value_of key c.area_status_delete;
  name = λ key. value_of key c.area_name_delete;
}

abbrev pub type_maps : Caches → Maps
type_maps c = record {
  kind = kind_devices;
  parents = c.type_parent_delete;
  status = λ key. value_of key c.type_status_delete;
  name = λ key. value_of key c.type_name_delete;
}

-- `m_deleteTree`, after "2.".
abbrev pub delete_tree : ℕ → Text → Caches → Option Tree
delete_tree fuel user_area c =
    init_delete_tree_struct fuel (area_maps c) (type_maps c)
      (λ key. value_of key c.type_to_area_delete) user_area

pub areas_sql : Text
areas_sql =
    codes "SELECT `areas`.`Id`, `areas`.`Code`, `areas`.`Name`, `areas`.`ParentId`, "
    ++ codes "`areas`.`CreateDate`, `areas`.`CreateUserId` ,SynchronState FROM `areas` ;"

pub device_info_sql : Text
device_info_sql =
    codes "SELECT `Id`, `ParentId`, `Name`, `AreaId`, SynchronState FROM `device_info`;"

-- The caches, the items of the control, the deletion tree, and whether the button is enabled.
pub record Control : Type 0 where
  pub caches : Caches
  pub items : Items
  pub tree : Tree
  pub button_flash : Bool

module _ (env : Env) where
  unfoldable pub select_areas : Caches → M (Bool × Caches)
  select_areas c = do
    found ← ask_rows env (mysql_select areas_sql)
    if found.0 then pure (true, load_areas found.1 c) else (do
      log_mysql_error env
      show_log env (codes "mysql数据库连接失败,请确保连接无误并重启软件!")
      pure (false, c))

  unfoldable pub select_types : Caches → M (Bool × Caches)
  select_types c = do
    found ← ask_rows env (mysql_select device_info_sql)
    if found.0 then pure (true, load_types found.1 c) else log_mysql_error env >> pure (false, c)

  -- Both tables are asked for, also after the first has failed.
  unfoldable pub load_caches : Caches → M (Bool × Caches)
  load_caches c = do
    connected ← ask env mysql_init
    if connected
        then (do
          areas ← select_areas c
          types ← select_types areas.1
          do_call mysql_close
          pure (areas.0 && types.0, types.1))
        else log_mysql_error env >> pure (false, c)

  -- `none` is a recursion deeper than the fuel.
  pub init_areas_tree : ℕ → Text → Control → M (Option (Bool × Control))
  init_areas_tree fuel user_area c = do
    show_log env (codes "正在初始化树控件,请稍后...")
    loaded ← load_caches (clear_caches c.caches)
    let c' = record c { caches = loaded.1; items = nil; button_flash = true }
    if loaded.0
        then elim (build_items fuel user_area loaded.1) [
          | none ↦ pure none
          | some items' ↦ elim (delete_tree fuel user_area loaded.1) [
            | none ↦ pure none
            | some tree' ↦
                show_log env (codes "初始化树控件完成!")
                >> pure (some (true, record c' { items = items'; tree = tree' }))
          ]
        ]
        else show_log env (codes "网络异常,mysql数据库连接失败,请重试!") >> pure (some (false, c'))
