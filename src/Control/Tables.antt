-- ===== src/Control/Tables.antt =====
-- The maps of parents and areas, and of the states for deletion, that `Init_areas_tree` of WPD_MTP_dataDlg.cpp works with, in terms
-- of the rows of `areas` and of `device_info`.
use shujugongxiang.Prelude.{◌≡◌, refl, ◌↔◌, inl, inr, Bool, true, List, [], ◌∷◌}
use shujugongxiang.Text.Defs.{Text}
use shujugongxiang.Sync.World.{Row}
use shujugongxiang.Sync.Record.{column}
use shujugongxiang.Cascade.Build.{IsEntry}
use shujugongxiang.Control.{
  Caches, clear_caches, value_of, is_shown, load_area, load_areas, load_type, load_types,
}
use shujugongxiang.Control.Load.{
  IsBound, InRows, IsDistinct, fill, all_rows, FromRows, fill-IsEntry, value_of-fill,
}

-- The rows of areas, and of devices, that the control shows.
abbrev pub shown_area : Row → Bool
shown_area row = is_shown (column row 6)

abbrev pub shown_type : Row → Bool
shown_type row = is_shown (column row 4)

abbrev pub every : Row → Bool
every row = true

areas_fill :
    (rows : List Row) (c : Caches)
    → ((load_areas rows c).area_parent ≡ fill (λ row. column row 3) shown_area rows c.area_parent)
      × ((load_areas rows c).area_parent_delete
          ≡ fill (λ row. column row 3) every rows c.area_parent_delete)
      × ((load_areas rows c).type_parent ≡ c.type_parent)
      × ((load_areas rows c).type_to_area ≡ c.type_to_area)
      × ((load_areas rows c).type_parent_delete ≡ c.type_parent_delete)
      × ((load_areas rows c).type_to_area_delete ≡ c.type_to_area_delete)
      × ((load_areas rows c).area_status_delete
          ≡ all_rows (λ row. column row 6) rows c.area_status_delete)
unfolding load_areas load_area fill all_rows
areas_fill [] c = (refl, refl, refl, refl, refl, refl, refl)
areas_fill (row ∷ rows) c = areas_fill rows (load_area row c)

types_fill :
    (rows : List Row) (c : Caches)
    → ((load_types rows c).type_parent ≡ fill (λ row. column row 1) shown_type rows c.type_parent)
      × ((load_types rows c).type_to_area
          ≡ fill (λ row. column row 3) shown_type rows c.type_to_area)
      × ((load_types rows c).type_parent_delete
          ≡ fill (λ row. column row 1) every rows c.type_parent_delete)
      × ((load_types rows c).area_parent ≡ c.area_parent)
      × ((load_types rows c).area_parent_delete ≡ c.area_parent_delete)
      × ((load_types rows c).type_to_area_delete
          ≡ fill (λ row. column row 3) every rows c.type_to_area_delete)
      × ((load_types rows c).area_status_delete ≡ c.area_status_delete)
      × ((load_types rows c).type_status_delete
          ≡ all_rows (λ row. column row 4) rows c.type_status_delete)
unfolding load_types load_type fill all_rows
types_fill [] c = (refl, refl, refl, refl, refl, refl, refl, refl)
types_fill (row ∷ rows) c = types_fill rows (load_type row c)

-- The caches after both queries.
abbrev pub loaded : List Row → List Row → Caches → Caches
loaded areas types c = load_types types (load_areas areas (clear_caches c))

fill-fresh :
    (value_in : Row → Text) (taken : Row → Bool) (rows : List Row) (key value : Text)
    → IsDistinct rows
    → IsEntry key value (fill value_in taken rows []) ↔ FromRows value_in taken rows key value
unfolding IsEntry IsBound
fill-fresh value_in taken rows key value distinct =
    let (there, back) = fill-IsEntry value_in taken rows [] key value distinct (λ row i b. b) in
    ((λ h. elim (there h) [ inl n ↦ absurd n | inr f ↦ f ]), (λ f. back (inr f)))

-- If no two rows of a table have the same id, these maps hold exactly the rows' ids with their parents,
-- and for devices also with their areas, whatever the caches held before: the maps of the control those
-- of the rows whose state is 0 or 1, the maps for deletion those of all rows. The maps of the states for
-- deletion, which are never emptied, give for the id of a row the state of this row.
pub loaded_lem :
    (areas types : List Row) (c : Caches) (key value : Text)
    → IsDistinct areas
    → IsDistinct types
    → let c' = loaded areas types c in
      (IsEntry key value c'.area_parent ↔ FromRows (λ row. column row 3) shown_area areas key value)
      × (IsEntry key value c'.type_parent
          ↔ FromRows (λ row. column row 1) shown_type types key value)
      × (IsEntry key value c'.type_to_area
          ↔ FromRows (λ row. column row 3) shown_type types key value)
      × (IsEntry key value c'.area_parent_delete
          ↔ FromRows (λ row. column row 3) every areas key value)
      × (IsEntry key value c'.type_parent_delete
          ↔ FromRows (λ row. column row 1) every types key value)
      × (IsEntry key value c'.type_to_area_delete
          ↔ FromRows (λ row. column row 3) every types key value)
      × ((row : Row)
          → InRows row areas
          → value_of (column row 0) c'.area_status_delete ≡ column row 6)
      × ((row : Row)
          → InRows row types
          → value_of (column row 0) c'.type_status_delete ≡ column row 4)
unfolding clear_caches
loaded_lem areas types c key value areas_ok types_ok =
    let before = load_areas areas (clear_caches c) in
    let (
      area_parent, area_delete, type_kept, to_area_kept, delete_kept, to_area_delete_kept, states,
    ) =
      areas_fill areas (clear_caches c) in
    let (
      type_parent, to_area, type_delete, area_kept, area_delete_kept, to_area_delete, states_kept,
      type_states,
    ) =
      types_fill types before in
    (
      rw (area_kept, area_parent)
          (fill-fresh (λ row. column row 3) shown_area areas key value areas_ok),
      rw (type_parent, type_kept)
          (fill-fresh (λ row. column row 1) shown_type types key value types_ok),
      rw (to_area, to_area_kept)
          (fill-fresh (λ row. column row 3) shown_type types key value types_ok),
      rw (area_delete_kept, area_delete)
          (fill-fresh (λ row. column row 3) every areas key value areas_ok),
      rw (type_delete, delete_kept)
          (fill-fresh (λ row. column row 1) every types key value types_ok),
      rw (to_area_delete, to_area_delete_kept)
          (fill-fresh (λ row. column row 3) every types key value types_ok),
      λ row i. rw (states_kept, states) (value_of-fill (λ r. column r 6) areas _ row areas_ok i),
      λ row i. rw type_states (value_of-fill (λ r. column r 4) types _ row types_ok i),
    )
