-- ===== src/Control/Devices.antt =====
-- How the devices come to the items of the areas in `Init_areas_tree` of WPD_MTP_dataDlg.cpp.
use shujugongxiang.Prelude.{
  ℕ, ◌<◌, ◌≡◌, refl, ap, sym, subst, ◌↔◌, ◌∙◌, ◌⊎◌, inl, inr, true, false, some, List, [], ◌∷◌,
  ◌++◌, append-nil, Bool-cases,
}
use mathlib.Core.Bool.{false≢true}
use shujugongxiang.Text.Defs.{Text, is_empty, text_eq, text_eq_sound, text_eq_refl}
use shujugongxiang.Sync.Selection.{
  Item, Items, item, nil, cons, add_id, area_of, find_child_id, child_ids, find_child_type_id,
  child_type_ids,
}
use shujugongxiang.Cascade.Init.{parent_flag}
use shujugongxiang.Cascade.Members.{IsKey}
use shujugongxiang.Cascade.Build.{IsEntry, Falls}
use shujugongxiang.Control.{
  TextMap, Caches, value_of, device_item, find_child_tree_type, place_device, place_devices,
}
use shujugongxiang.Control.Children.{
  Under, HasText, By-Under, Under-By, ids_cons-IsKey, find_children-Made, find_children-silent,
}
use shujugongxiang.Control.Places.{
  InItems, InItems-append, InItems-ids, InItems-add_to_items, child_ids-append, add_to_item-areas,
  add_to_items-areas, add_to_item-area, add_to_item-devices,
}

own_area : (j : Item) → HasText (area_of j) → IsKey (area_of j) (find_child_id j)
unfolding area_of find_child_id add_id IsKey
own_area (item [] d children) h = absurd (false≢true (sym h))
own_area (item (c ∷ a) d children) h = inl refl

module _ (c : Caches) where
  -- The device is the one of this entry, which has no parent, or stands below it; the entry's area is one
  -- of these.
  abbrev pub Here : List Text → Text → Text → Text → Type 0
  Here areas x key value =
      (value ≡ parent_flag)
      × HasText (value_of key c.type_to_area)
      × IsKey (value_of key c.type_to_area) areas
      × HasText x
      × ((x ≡ key) ⊎ Under c.type_parent key x)

  abbrev pub PlacedIn : List Text → Text → TextMap → Type 0
  PlacedIn areas x entries =
      (key : Text) × (value : Text) × IsEntry key value entries × Here areas x key value

  -- What an item is afterwards, after an item before that has the same areas.
  abbrev After : (List Text → Text → Type 0) → Item → Item → Type 0
  After New j i =
      (area_of j ≡ area_of i)
      × (find_child_id j ≡ find_child_id i)
      × ((x : Text)
          → IsKey x (find_child_type_id j)
            ↔ IsKey x (find_child_type_id i) ⊎ New (find_child_id i) x)

  -- Each item of an area afterwards comes from one before.
  abbrev Grows : (List Text → Text → Type 0) → Items → Items → Type 0
  Grows New after before =
      (j : Item)
      → InItems j after
      → HasText (area_of j)
      → (i : Item) × InItems i before × After New j i

  module _ (depth : Text → ℕ) (falls : Falls depth c.type_parent) (fuel : ℕ)
      (enough : (id : Text) → depth id < fuel) where
    new_ids :
        (key : Text) (below : Items)
        → find_child_tree_type fuel c key ≡ some below
        → (x : Text)
        → IsKey x (child_type_ids (cons (device_item key below) nil))
          ↔ HasText x × ((x ≡ key) ⊎ Under c.type_parent key x)
    unfolding IsKey child_type_ids
    new_ids key below h x =
        let made =
          find_children-Made device_item child_type_ids refl (λ k b r. refl) c.type_parent depth
            falls fuel key c.type_parent falls (enough key) in
        let same : made.0 ≡ below = cc (made.1, h) in
        let (there, back) =
          ids_cons-IsKey device_item child_type_ids refl (λ k b r. refl) c.type_parent x key made.0
            nil in
        subst
          (λ t.
            IsKey x (child_type_ids (cons (device_item key t) nil))
            ↔ HasText x × ((x ≡ key) ⊎ Under c.type_parent key x))
          same
          (
            (λ k. elim (there k) [
              | inl own ↦ (own.1, inl own.0)
              | inr more ↦ elim more [
                | inl b ↦
                    let (has, by) = (made.2 x).0 b in (has, inr (By-Under c.type_parent key x by))
                | inr n ↦ absurd n
              ]
            ]),
            (λ k. elim k.1 [
              | inl e ↦ back (inl (e, k.0))
              | inr u ↦ back (inr (inl ((made.2 x).1 (k.0, Under-By u))))
            ]),
          )

    new_silent :
        (key : Text) (below : Items)
        → find_child_tree_type fuel c key ≡ some below
        → child_ids (cons (device_item key below) nil) ≡ []
    unfolding child_ids add_id
    new_silent key below h =
        ap (λ t. t ++ [])
          (find_children-silent device_item child_ids refl (λ k b r. refl) c.type_parent fuel key
            c.type_parent below h)

    no_area :
        (j : Item) (new : Items) → child_ids new ≡ [] → InItems j new → HasText (area_of j) → ⊥
    unfolding IsKey
    no_area j new silent i has =
        subst (IsKey (area_of j)) silent (InItems-ids (area_of j) j new i (own_area j has))

    abbrev One : Text → Text → List Text → Text → Type 0
    One key value areas x = Here areas x key value

    place_device-Grows :
        (key value : Text) (below items : Items)
        → text_eq value parent_flag ≡ true
        → find_child_tree_type fuel c key ≡ some below
        → Grows (One key value) (place_device c key below items) items
          × (child_ids (place_device c key below items) ≡ child_ids items)
    unfolding place_device
    place_device-Grows key value below items flag h =
        let area = value_of key c.type_to_area in
        let new = cons (device_item key below) nil in
        let silent = new_silent key below h in
        let ids = new_ids key below h in
        let at_root = text_eq_sound value parent_flag flag in
        elim (Bool-cases (is_empty area)) [
          | inl empty ↦ rw empty (
            (λ j i has. elim (InItems-append j items new i) [
              | inl old ↦ (
                j,
                old,
                (
                  refl,
                  refl,
                  λ x. (
                    (λ k. inl k),
                    (λ k. elim k [ inl o ↦ o | inr n ↦ absurd (false≢true (sym n.1)) ]),
                  ),
                ),
              )
              | inr n ↦ absurd (no_area j new silent n has)
            ]),
            child_ids-append items new ∙ rw silent (append-nil (child_ids items)),
          )
          | inr full ↦ rw full (
            (λ j i has. elim (InItems-add_to_items area new j items i) [
              | inl old ↦
                  let o = old.0 in
                  let areas = add_to_item-areas area new o silent in
                  let devices = λ (x : Text). add_to_item-devices area new x full o in
                  (
                    o,
                    old.1,
                    (
                      ap area_of old.2 ∙ add_to_item-area area new o,
                      ap find_child_id old.2 ∙ areas,
                      λ x. rw old.2 (
                        (λ k. elim ((devices x).0 k) [
                          | inl b ↦ inl b
                          | inr n ↦
                              let (has_text, way) = (ids x).0 n.1 in
                              inr (at_root, refl, n.0, has_text, way)
                        ]),
                        (λ k. elim k [
                          | inl b ↦ (devices x).1 (inl b)
                          | inr n ↦ (devices x).1 (inr (n.2, (ids x).1 (n.3, n.4)))
                        ]),
                      ),
                    ),
                  )
              | inr n ↦ absurd (no_area j new silent n has)
            ]),
            add_to_items-areas area new items silent,
          )
        ]

    PlacedIn-Here :
        (areas : List Text) (x key value : Text) (entries : TextMap)
        → PlacedIn areas x ((key, value) ∷ entries)
          ↔ Here areas x key value ⊎ PlacedIn areas x entries
    unfolding IsEntry
    PlacedIn-Here areas x key value entries = (
      (λ p. elim p.2 [
        | inl at ↦ inl (subst (λ (e : Text × Text). Here areas x e.0 e.1) at p.3)
        | inr later ↦ inr (p.0, p.1, later, p.3)
      ]),
      (λ h. elim h [ inl here ↦ (key, value, inl refl, here) | inr p ↦ (p.0, p.1, inr p.2, p.3) ]),
    )

    -- The devices of the entries are placed, and nothing else changes.
    abbrev pub DevicesMade : TextMap → Items → Type 0
    DevicesMade entries items =
        (t : Items) × (place_devices fuel c entries items ≡ some t)
        × Grows (λ areas x. PlacedIn areas x entries) t items
        × (child_ids t ≡ child_ids items)

    DevicesMade-root :
        (key value : Text) (entries : TextMap) (below items : Items)
        → text_eq value parent_flag ≡ true
        → find_child_tree_type fuel c key ≡ some below
        → DevicesMade entries (place_device c key below items)
        → DevicesMade ((key, value) ∷ entries) items
    unfolding place_devices
    DevicesMade-root key value entries below items flag h rest =
        let (one, kept) = place_device-Grows key value below items flag h in
        (
          rest.0,
          rw (flag, h) rest.1,
          (λ j i has.
              let (mid, in_mid, (same_area, same_ids, later)) = rest.2 j i has in
              let (o, in_old, (old_area, old_ids, now)) =
                one mid in_mid (subst HasText same_area has) in
              (
                o,
                in_old,
                (
                  same_area ∙ old_area,
                  same_ids ∙ old_ids,
                  λ x.
                      let (split, unite) = PlacedIn-Here (find_child_id o) x key value entries in
                      (
                        (λ k. elim ((later x).0 k) [
                          | inl m ↦ elim ((now x).0 m) [
                            | inl b ↦ inl b
                            | inr n ↦ inr (unite (inl n))
                          ]
                          | inr p ↦ inr (unite (inr (subst (λ a. PlacedIn a x entries) old_ids p)))
                        ]),
                        (λ k. elim k [
                          | inl b ↦ (later x).1 (inl ((now x).1 (inl b)))
                          | inr p ↦ elim (split p) [
                            | inl n ↦ (later x).1 (inl ((now x).1 (inr n)))
                            | inr q ↦
                                (later x).1
                                  (inr (subst (λ a. PlacedIn a x entries) (sym old_ids) q))
                          ]
                        ]),
                      ),
                ),
              )),
          rest.3 ∙ kept,
        )

    DevicesMade-other :
        (key value : Text) (entries : TextMap) (items : Items)
        → text_eq value parent_flag ≡ false
        → DevicesMade entries items
        → DevicesMade ((key, value) ∷ entries) items
    unfolding place_devices
    DevicesMade-other key value entries items other rest = (
      rest.0,
      rw other rest.1,
      (λ j i has.
          let (o, in_old, (old_area, old_ids, now)) = rest.2 j i has in
          (
            o,
            in_old,
            (
              old_area,
              old_ids,
              λ x.
                  let (split, unite) = PlacedIn-Here (find_child_id o) x key value entries in
                  (
                    (λ k. elim ((now x).0 k) [ inl b ↦ inl b | inr p ↦ inr (unite (inr p)) ]),
                    (λ k. elim k [
                      | inl b ↦ (now x).1 (inl b)
                      | inr p ↦ elim (split p) [
                        | inl n ↦
                            let flag =
                              ap (λ v. text_eq v parent_flag) n.0 ∙ text_eq_refl parent_flag in
                            absurd (false≢true (sym other ∙ flag))
                        | inr q ↦ (now x).1 (inr q)
                      ]
                    ]),
                  ),
            ),
          )),
      rest.3,
    )

    pub place_devices-DevicesMade : (entries : TextMap) (items : Items) → DevicesMade entries items
    unfolding place_devices IsEntry child_type_ids
    place_devices-DevicesMade [] items = (
      items,
      refl,
      (λ j i has. (
        j,
        i,
        (refl, refl, λ x. ((λ k. inl k), (λ k. elim k [ inl b ↦ b | inr p ↦ absurd p.2 ]))),
      )),
      refl,
    )
    place_devices-DevicesMade ((key, value) ∷ entries) items =
        elim (Bool-cases (text_eq value parent_flag)) [
          | inl flag ↦
              let made =
                find_children-Made device_item child_type_ids refl (λ k b r. refl) c.type_parent
                  depth falls fuel key c.type_parent falls (enough key) in
              DevicesMade-root key value entries made.0 items flag made.1
                (place_devices-DevicesMade entries (place_device c key made.0 items))
          | inr other ↦
              DevicesMade-other key value entries items other
                (place_devices-DevicesMade entries items)
        ]
