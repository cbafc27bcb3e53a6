-- ===== src/Cascade.antt =====
-- The tree of deleted areas and devices of `WPD_MTP_data/WPD_MTP_dataDlg.cpp`: `deleteTree`,
-- `ClearDeleteTreeStruct`, `DeleteFindID` and `DeleteAreaAndDeviceFindID`.
pub mod Members
pub mod Doomed
pub mod Build
pub mod Above
pub mod Init
use shujugongxiang.Prelude.{Bool, true, false, ◌&&◌, List, [], ◌∷◌, ◌++◌, if◌then◌else◌}
use shujugongxiang.Text.Defs.{Text, codes, text_eq}

-- `m_typeFlag`: -1, 0, 1.
pub data Kind : Type 0 where
  kind_root kind_areas kind_devices : Kind

unfoldable pub is_kind : Kind → Kind → Bool
is_kind kind_root kind_root = true
is_kind kind_areas kind_areas = true
is_kind kind_devices kind_devices = true
is_kind _ _ = false

pub record Node : Type 0 where
  pub id : Text
  pub parent_id : Text
  pub name : Text
  pub kind : Kind
  pub delete_flag : Bool
  pub delete_text : Text

-- A pointer to a node: the node, `m_fistchild`, `m_nextsibling`.
pub data Tree : Type 0 where
  null : Tree
  node : Node → Tree → Tree → Tree

-- DELETEFLAG and DELETEFLAG_WANT.
abbrev pub real_flag : Text
real_flag = codes "3"

abbrev pub want_flag : Text
want_flag = codes "2"

-- A CMap whose keys are its values; `GetNextAssoc` runs over the keys in the order of the list.
pub add_key : Text → List Text → List Text
add_key key [] = key ∷ []
add_key key (k ∷ keys) = let rest = add_key key keys in if text_eq k key then k ∷ keys else k ∷ rest

-- The two maps that a search fills.
pub record Found : Type 0 where
  pub areas : List Text
  pub devices : List Text

pub add_node : Node → Found → Found
add_node n found =
    let with_area =
      if is_kind n.kind kind_areas
      then record found { areas = add_key n.id found.areas }
      else found in
    if is_kind n.kind kind_devices
    then record with_area { devices = add_key n.id with_area.devices }
    else with_area

-- The node, what is below it, and its later siblings with what is below them.
pub delete_find_id : Tree → Found → Found
delete_find_id null found = found
delete_find_id (node n first next) found =
    delete_find_id next (delete_find_id first (add_node n found))

-- One of the two cases of a node with `m_deleteFlag`.
pub mark_from : Text → Node → Tree → Found → Found
mark_from flag n first found =
    if n.delete_flag && text_eq n.delete_text flag
    then delete_find_id first (add_node n found)
    else found

-- The maps for deletion and those for wanted deletion.
pub delete_area_and_device_find_id : Tree → Found × Found → Found × Found
delete_area_and_device_find_id null found = found
delete_area_and_device_find_id (node n first next) (real, want) =
    delete_area_and_device_find_id next (
      delete_area_and_device_find_id first
        (mark_from real_flag n first real, mark_from want_flag n first want))

-- The pointer afterwards, and the nodes in the order in which they are freed.
pub clear_delete_tree_struct : Tree → Tree × List Node
clear_delete_tree_struct null = (null, [])
clear_delete_tree_struct (node n first next) =
    let (first', below) = clear_delete_tree_struct first in
    let (next', beside) = clear_delete_tree_struct next in (null, below ++ (beside ++ (n ∷ [])))
