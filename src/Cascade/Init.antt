-- ===== src/Cascade/Init.antt =====
-- `InitDeleteTreeStruct` and `CreateDeleteTreeStructAreas` of `WPD_MTP_data/WPD_MTP_dataDlg.cpp`: the whole
-- tree of areas and devices. A map is the list of its entries, whose keys differ.
pub mod Adding
pub mod Places
pub mod Hosts
pub mod Hung
pub mod Leaves
pub mod Grown
pub mod Hanging
pub mod Raised
pub mod Whole
pub mod Descent
pub mod Lost
use shujugongxiang.Prelude.{
  ℕ, Bool, true, false, ◌&&◌, ◌||◌, not, Option, none, some, List, [], ◌∷◌, if◌then◌else◌,
}
use shujugongxiang.Text.Defs.{Text, codes, is_empty, text_eq}
use shujugongxiang.Cascade.{
  Kind, kind_root, kind_areas, kind_devices, is_kind, Node, Tree, null, node,
}
use shujugongxiang.Cascade.Build.{Maps, new_node, link, create_below}

-- PARENTFLAG.
abbrev pub parent_flag : Text
parent_flag = codes "0"

-- `new deleteTree`.
abbrev pub fresh_node : Node
fresh_node = record {
  id = parent_flag;
  parent_id = parent_flag;
  name = [];
  kind = kind_root;
  delete_flag = false;
  delete_text = [];
}

-- The entry of the user's area, if the map has it.
pub user_node : Maps → Text → List (Text × Text) → Node
user_node areas user_area [] = fresh_node
user_node areas user_area ((key, value) ∷ entries) =
    let rest = user_node areas user_area entries in
    if text_eq key user_area then new_node areas key value else rest

-- The root: the user's area, if there is one.
pub init_root : Maps → Text → Node
init_root areas user_area =
    if is_empty user_area then fresh_node else user_node areas user_area areas.parents

-- The node is the entry of this area in `m_mapAreaIDToNode`.
abbrev pub is_area : Text → Node → Bool
is_area area n = is_kind n.kind kind_areas && text_eq n.id area

unfoldable pub has_area : Text → Tree → Bool
has_area area null = false
has_area area (node k first next) = is_area area k || (has_area area first || has_area area next)

-- The device stands right below the root.
abbrev pub is_top : Text → Bool
is_top area = text_eq area parent_flag || is_empty area

-- The last of the siblings.
unfoldable pub append_last : Node → Tree → Tree
append_last n null = node n null null
append_last n (node k first next) = node k first (append_last n next)

-- The last child of the area, wherever it stands.
unfoldable pub add_to : Node → Text → Tree → Tree
add_to n area null = null
add_to n area (node k first next) =
    let first' = add_to n area first in
    let next' = add_to n area next in
    node k (if is_area area k then append_last n first' else first') next'

-- The tree below the root afterwards.
pub attach : Node → Node → Text → Tree → Tree
attach root n area below =
    if is_top area
    then append_last n below
    else let below' = add_to n area below in
      if is_area area root then append_last n below' else below'

-- Part 3.1: the devices without a parent are put below their areas; `type_area` is
-- `m_mapTypeToAreaDelete`, the empty text for a missing key.
unfoldable pub place : Node → Maps → (Text → Text) → List (Text × Text) → Tree → Tree
place root devices type_area [] below = below
place root devices type_area ((key, value) ∷ entries) below =
    let placed = attach root (new_node devices key value) (type_area key) below in
    if text_eq value parent_flag
    then place root devices type_area entries placed
    else place root devices type_area entries below

-- Part 3.2: the devices below those that were placed, which have no children yet.
unfoldable pub grow : ℕ → Maps → Tree → Option Tree
grow fuel devices null = some null
grow fuel devices (node k first next) =
    let below = grow fuel devices first in
    let beside = grow fuel devices next in
    if is_kind k.kind kind_devices
    then link k (create_below fuel devices k.id) beside
    else link k below beside

-- From the areas below the root.
pub init_below : ℕ → Node → Maps → (Text → Text) → Option Tree → Option Tree
init_below fuel root devices type_area none = none
init_below fuel root devices type_area (some below) =
    link root (grow fuel devices (place root devices type_area devices.parents below)) (some null)

-- The tree after `ClearDeleteTreeStruct`, with the depth of recursion that is left.
pub init_delete_tree_struct : ℕ → Maps → Maps → (Text → Text) → Text → Option Tree
init_delete_tree_struct fuel areas devices type_area user_area =
    let root = init_root areas user_area in
    init_below fuel root devices type_area (create_below fuel areas root.id)
