-- ===== src/Sync/Selection.antt =====
-- `FindChildTypeID` and `FindChildID` of `WPD_MTP_data/WPD_MTP_dataDlg.cpp`: the ids of the device or
-- area chosen in the tree control, and of everything below it.
use shujugongxiang.Prelude.{
  ◌≡◌, refl, ap, ◌∙◌, false, List, [], ◌∷◌, ◌++◌, All, All-append, if◌then◌else◌, arith,
}
use mathlib.Core.List.{flatten}
use shujugongxiang.Text.Defs.{Text, is_empty}
use shujugongxiang.Text.Chunks.{get_array_items, get_array_items_lem, up_to_empty}

-- An item of the tree control: its entries in `m_mapTreeCtrToID` (an area) and
-- `m_mapTreeCtrToIDType` (a device), empty where the map has none; its children in order.
mutual
  pub data Item : Type 0 where
    item : Text → Text → Items → Item

  pub data Items : Type 0 where
    nil : Items
    cons : Item → Items → Items

unfoldable pub area_of : Item → Text
area_of (item area device children) = area

unfoldable pub device_of : Item → Text
device_of (item area device children) = device

-- `if (id != "") strAry.Add(id)`.
unfoldable pub add_id : Text → List Text
add_id id = if is_empty id then [] else id ∷ []

unfoldable mutual
  pub find_child_type_id : Item → List Text
  find_child_type_id (item area device children) = add_id device ++ child_type_ids children

  pub child_type_ids : Items → List Text
  child_type_ids nil = []
  child_type_ids (cons child rest) = find_child_type_id child ++ child_type_ids rest

unfoldable mutual
  pub find_child_id : Item → List Text
  find_child_id (item area device children) = add_id area ++ child_ids children

  pub child_ids : Items → List Text
  child_ids nil = []
  child_ids (cons child rest) = find_child_id child ++ child_ids rest

abbrev pub HasText : Text → Type 0
HasText t = is_empty t ≡ false

add_id-HasText : (id : Text) → All HasText (add_id id)
unfolding add_id
add_id-HasText [] = tt
add_id-HasText (c ∷ id) = (refl, tt)

mutual
  unfolding find_child_type_id child_type_ids

  type_ids-HasText : (i : Item) → All HasText (find_child_type_id i)
  type_ids-HasText (item area device children) =
      All-append HasText (add_id device) (child_type_ids children) (add_id-HasText device)
        (child_type_ids-HasText children)

  child_type_ids-HasText : (is : Items) → All HasText (child_type_ids is)
  child_type_ids-HasText nil = tt
  child_type_ids-HasText (cons child rest) =
      All-append HasText (find_child_type_id child) (child_type_ids rest) (type_ids-HasText child)
        (child_type_ids-HasText rest)

mutual
  unfolding find_child_id child_ids

  ids-HasText : (i : Item) → All HasText (find_child_id i)
  ids-HasText (item area device children) =
      All-append HasText (add_id area) (child_ids children) (add_id-HasText area)
        (child_ids-HasText children)

  child_ids-HasText : (is : Items) → All HasText (child_ids is)
  child_ids-HasText nil = tt
  child_ids-HasText (cons child rest) =
      All-append HasText (find_child_id child) (child_ids rest) (ids-HasText child)
        (child_ids-HasText rest)

up_to_empty_unchanged : (ids : List Text) → All HasText ids → up_to_empty ids ≡ ids
unfolding up_to_empty
up_to_empty_unchanged [] h = refl
up_to_empty_unchanged ([] ∷ ids) h = absurd (ground (arith, h.0))
up_to_empty_unchanged ((c ∷ text) ∷ ids) h =
    ap (λ t. (c ∷ text) ∷ t) (up_to_empty_unchanged ids h.1)

-- Cut into arrays, the ids of the chosen item and of all below it are all there, in their order,
-- each as often as it was collected: devices and areas.
pub selection_complete :
    (i : Item)
    → (flatten (get_array_items (find_child_type_id i)) ≡ find_child_type_id i)
      × (flatten (get_array_items (find_child_id i)) ≡ find_child_id i)
selection_complete i = (
  (get_array_items_lem (find_child_type_id i)).0
      ∙ up_to_empty_unchanged (find_child_type_id i) (type_ids-HasText i),
  (get_array_items_lem (find_child_id i)).0
      ∙ up_to_empty_unchanged (find_child_id i) (ids-HasText i),
)
