-- ===== src/Control/Whole.antt =====
-- The tree control as `Init_areas_tree` of WPD_MTP_dataDlg.cpp leaves it, and what choosing one of its
-- items selects.
use shujugongxiang.Prelude.{ℕ, ◌<◌, ◌≡◌, sym, subst, ◌↔◌, ◌⊎◌, inl, inr, true, some}
use shujugongxiang.Text.Defs.{Text}
use shujugongxiang.Sync.Selection.{
  Item, Items, area_of, find_child_id, child_ids, find_child_type_id,
}
use shujugongxiang.Cascade.Init.{parent_flag}
use shujugongxiang.Cascade.Members.{IsKey}
use shujugongxiang.Cascade.Build.{IsEntry, Falls}
use shujugongxiang.Control.{Caches, value_of, is_root, build_items}
use shujugongxiang.Control.Children.{Under, HasText}
use shujugongxiang.Control.Places.{InItems}
use shujugongxiang.Control.Areas.{IsArea, area_items-AreasMade}
use shujugongxiang.Control.Devices.{PlacedIn, place_devices-DevicesMade}

-- The area itself, or one below it.
abbrev pub Within : Caches → Text → Text → Type 0
Within c a x = (x ≡ a) ⊎ Under c.area_parent a x

-- A device without a parent whose area is this one or below it, or a device below such a one.
abbrev pub Selected : Caches → Text → Text → Type 0
Selected c a x =
    (key : Text) × (value : Text) × IsEntry key value c.type_parent
    × ((value ≡ parent_flag)
        × HasText (value_of key c.type_to_area)
        × Within c a (value_of key c.type_to_area)
        × HasText x
        × ((x ≡ key) ⊎ Under c.type_parent key x))

module _ (c : Caches) (user_area : Text) (depth_a depth_t : Text → ℕ) (fuel : ℕ) where
  -- What choosing an item of the area `a` selects.
  abbrev pub Chooses : Text → Item → Type 0
  Chooses a j =
      ((x : Text) → IsKey x (find_child_id j) ↔ HasText x × Within c a x)
      × ((x : Text) → IsKey x (find_child_type_id j) ↔ Selected c a x)

  selects :
      (falls_a : Falls depth_a c.area_parent) (i j : Item)
      → IsArea c depth_a falls_a i
      → area_of j ≡ area_of i
      → find_child_id j ≡ find_child_id i
      → ((x : Text)
          → IsKey x (find_child_type_id j)
            ↔ IsKey x (find_child_type_id i) ⊎ PlacedIn c (find_child_id i) x c.type_parent)
      → Chooses (area_of j) j
  unfolding IsKey
  selects falls_a i j is_area area ids devices =
      let ids_of : (x : Text) → IsKey x (find_child_id i) ↔ HasText x × Within c (area_of j) x =
        subst (λ a. (x : Text) → IsKey x (find_child_id i) ↔ HasText x × Within c a x) (sym area)
          is_area.0 in
      (
        subst (λ l. (x : Text) → IsKey x l ↔ HasText x × Within c (area_of j) x) (sym ids) ids_of,
        λ x. (
          (λ k. elim ((devices x).0 k) [
            | inl old ↦ absurd (subst (IsKey x) is_area.1 old)
            | inr p ↦
                let (root, full, at, has, way) = p.3 in
                (
                  p.0,
                  p.1,
                  p.2,
                  (root, full, ((ids_of (value_of p.0 c.type_to_area)).0 at).1, has, way),
                )
          ]),
          (λ s.
              let (root, full, within, has, way) = s.3 in
              (devices x).1 (
                inr (
                  s.0,
                  s.1,
                  s.2,
                  (root, full, (ids_of (value_of s.0 c.type_to_area)).1 (full, within), has, way),
                ))),
        ),
      )

  -- If neither the shown areas nor the shown devices have a cycle of parents, the items are made, with
  -- fuel above every depth. Their areas are those of the roots and all below them, and choosing an item
  -- of an area selects exactly this area and all below it, and exactly the devices without a parent
  -- whose area is one of these, with all devices below them; ids that are empty are left out.
  pub build_items_lem :
      Falls depth_a c.area_parent
      → Falls depth_t c.type_parent
      → ((id : Text) → depth_a id < fuel)
      → ((id : Text) → depth_t id < fuel)
      → (items : Items) × (build_items fuel user_area c ≡ some items)
        × ((x : Text)
            → IsKey x (child_ids items)
              ↔ HasText x
                × ((key : Text) × (value : Text) × IsEntry key value c.area_parent
                    × (is_root user_area key value ≡ true)
                    × Within c key x))
        × ((j : Item) → InItems j items → HasText (area_of j) → Chooses (area_of j) j)
  unfolding build_items
  build_items_lem falls_a falls_t enough_a enough_t =
      let areas = area_items-AreasMade c depth_a falls_a user_area fuel enough_a c.area_parent in
      let made = place_devices-DevicesMade c depth_t falls_t fuel enough_t c.type_parent areas.0 in
      (
        made.0,
        rw (areas.1, build_items) made.1,
        (λ x. rw made.3 (areas.2 x)),
        (λ j i has.
            let (o, in_old, (area, ids, devices)) = made.2 j i has in
            selects falls_a o j (areas.3 o in_old) area ids devices),
      )
