-- ===== src/Control/Areas.antt =====
-- The items of areas that `Init_areas_tree` of WPD_MTP_dataDlg.cpp inserts, before the devices.
use shujugongxiang.Prelude.{
  ℕ, zero, suc, ◌<◌, ◌≡◌, refl, ap, sym, subst, ◌↔◌, ◌∙◌, ◌⊎◌, inl, inr, true, false, Option, none,
  some, [], ◌∷◌, Bool-cases, arith,
}
use mathlib.Core.Bool.{false≢true}
use shujugongxiang.Text.Defs.{Text, text_eq, text_eq_sound}
use shujugongxiang.Sync.Selection.{
  Item, Items, nil, cons, add_id, area_of, find_child_id, child_ids, find_child_type_id,
  child_type_ids,
}
use shujugongxiang.Cascade.Members.{IsKey}
use shujugongxiang.Cascade.Build.{IsEntry, Falls}
use shujugongxiang.Control.{
  TextMap, Caches, area_item, join, find_children, find_child_tree, is_root, area_items,
}
use shujugongxiang.Control.Children.{
  Under, By, HasText, IsKey-append, add_id-IsKey, ids_cons-IsKey, By-Under, Under-By, Made,
  find_children-Made, find_children-silent,
}
use shujugongxiang.Control.Places.{InItems}

join-some :
    (make : Items → Item) (below rest : Option Items) (t : Items)
    → join make below rest ≡ some t
    → (b : Items) × (r : Items) × (below ≡ some b) × (rest ≡ some r) × (t ≡ cons (make b) r)
unfolding join
join-some make none rest t h = cc
join-some make (some b) none t h = cc
join-some make (some b) (some r) t h = (b, r, refl, refl, cc)

module _ (c : Caches) (depth : Text → ℕ) (falls : Falls depth c.area_parent) where
  -- The areas of the item are its own and those below that; it has no devices.
  abbrev pub IsArea : Item → Type 0
  IsArea i =
      ((x : Text)
        → IsKey x (find_child_id i)
          ↔ HasText x × ((x ≡ area_of i) ⊎ Under c.area_parent (area_of i) x))
      × (find_child_type_id i ≡ [])

  below_ids :
      (fuel : ℕ) (key : Text) (below : Items)
      → depth key < fuel
      → find_children area_item c.area_parent fuel key c.area_parent ≡ some below
      → (x : Text) → IsKey x (child_ids below) ↔ HasText x × Under c.area_parent key x
  unfolding child_ids
  below_ids fuel key below enough h x =
      let made : Made area_item child_ids refl (λ k b r. refl) c.area_parent fuel key
          c.area_parent =
        find_children-Made area_item child_ids refl (λ k b r. refl) c.area_parent depth falls fuel
          key c.area_parent falls enough in
      let same : made.0 ≡ below = cc (made.1, h) in
      let (there, back) =
        subst (λ t. IsKey x (child_ids t) ↔ HasText x × By c.area_parent key x c.area_parent) same
          (made.2 x) in
      (
        (λ k. let (has, by) = there k in (has, By-Under c.area_parent key x by)),
        (λ k. back (k.0, Under-By k.1)),
      )

  area_item-IsArea :
      (fuel : ℕ) (key : Text) (below : Items)
      → depth key < fuel
      → find_children area_item c.area_parent fuel key c.area_parent ≡ some below
      → IsArea (area_item key below)
  unfolding find_child_id find_child_type_id area_of add_id IsKey
  area_item-IsArea fuel key below enough h = (
    (λ x.
        let (apart, together) = IsKey-append x (add_id key) (child_ids below) in
        let (own, own_back) = add_id-IsKey x key in
        let (under, under_back) = below_ids fuel key below enough h x in
        (
          (λ k. elim (apart k) [
            | inl o ↦ ((own o).1, inl (own o).0)
            | inr b ↦ ((under b).0, inr (under b).1)
          ]),
          (λ k. elim k.1 [
            | inl e ↦ together (inl (own_back (e, k.0)))
            | inr u ↦ together (inr (under_back (k.0, u)))
          ]),
        )),
    find_children-silent area_item child_type_ids refl (λ k b r. refl) c.area_parent fuel key
        c.area_parent below h,
  )

  children-IsArea :
      (fuel : ℕ) (id : Text) (entries : TextMap) (t : Items) (j : Item)
      → Falls depth entries
      → depth id < fuel
      → find_children area_item c.area_parent fuel id entries ≡ some t
      → InItems j t
      → IsArea j
  unfolding find_children InItems
  children-IsArea zero id [] t j f enough h i = absurd (omega arith)
  children-IsArea (suc fuel) id [] t j f enough h i =
      let e : t ≡ nil = cc in absurd (subst (InItems j) e i)
  children-IsArea zero id (entry ∷ entries) t j f enough h i = absurd (omega arith)
  children-IsArea (suc fuel) id ((key, value) ∷ entries) t j f enough h i =
      elim (Bool-cases (text_eq id value)) [
        | inl same ↦
            let (b, r, below, rest, e) =
              join-some (area_item key)
                (find_children area_item c.area_parent fuel key c.area_parent)
                (find_children area_item c.area_parent (suc fuel) id entries) t (rw same at h) in
            let less : depth key < fuel =
              omega (arith, f.0, ap depth (text_eq_sound id value same)) in
            elim (subst (InItems j) e i) [
              | inl here ↦ subst IsArea (sym here) (area_item-IsArea fuel key b less below)
              | inr more ↦ elim more [
                | inl under ↦ children-IsArea fuel key c.area_parent b j falls less below under
                | inr later ↦ children-IsArea (suc fuel) id entries r j f.1 enough rest later
              ]
            ]
        | inr other ↦ children-IsArea (suc fuel) id entries t j f.1 enough (rw other at h) i
      ]

  module _ (user_area : Text) (fuel : ℕ) (enough : (id : Text) → depth id < fuel) where
    -- The area is a root of the control, or below one.
    abbrev pub Rooted : Text → TextMap → Type 0
    Rooted x entries =
        (key : Text) × (value : Text) × IsEntry key value entries
        × (is_root user_area key value ≡ true)
        × ((x ≡ key) ⊎ Under c.area_parent key x)

    abbrev pub AreasMade : TextMap → Type 0
    AreasMade entries =
        (t : Items) × (area_items fuel c user_area entries ≡ some t)
        × ((x : Text) → IsKey x (child_ids t) ↔ HasText x × Rooted x entries)
        × ((j : Item) → InItems j t → IsArea j)

    Rooted-here :
        (x key value : Text) (entries : TextMap)
        → is_root user_area key value ≡ true
        → Rooted x ((key, value) ∷ entries)
          ↔ ((x ≡ key) ⊎ Under c.area_parent key x) ⊎ Rooted x entries
    unfolding IsEntry
    Rooted-here x key value entries root = (
      (λ b. elim b.2 [
        | inl at ↦
            inl (
              subst (λ k. (x ≡ k) ⊎ Under c.area_parent k x) (ap (λ (e : Text × Text). e.0) at) b.4)
        | inr later ↦ inr (b.0, b.1, later, b.3, b.4)
      ]),
      (λ h. elim h [
        | inl way ↦ (key, value, inl refl, root, way)
        | inr b ↦ (b.0, b.1, inr b.2, b.3, b.4)
      ]),
    )

    Rooted-other :
        (x key value : Text) (entries : TextMap)
        → is_root user_area key value ≡ false
        → Rooted x ((key, value) ∷ entries) ↔ Rooted x entries
    unfolding IsEntry
    Rooted-other x key value entries other = (
      (λ b. elim b.2 [
        | inl at ↦
            let same = ap (λ (e : Text × Text). is_root user_area e.0 e.1) at in
            absurd (false≢true (sym other ∙ sym same ∙ b.3))
        | inr later ↦ (b.0, b.1, later, b.3, b.4)
      ]),
      (λ b. (b.0, b.1, inr b.2, b.3, b.4)),
    )

    AreasMade-root :
        (key value : Text) (entries : TextMap)
        → is_root user_area key value ≡ true
        → (b : Items) → find_child_tree fuel c key ≡ some b
        → AreasMade entries
        → AreasMade ((key, value) ∷ entries)
    unfolding area_items join InItems child_ids
    AreasMade-root key value entries root b below rest = (
      cons (area_item key b) rest.0,
      rw (root, below, rest.1) refl,
      (λ x.
          let (there, back) =
            ids_cons-IsKey area_item child_ids refl (λ k b r. refl) c.area_parent x key b rest.0 in
          let (under, under_back) = below_ids fuel key b (enough key) below x in
          let (split, unite) = Rooted-here x key value entries root in
          (
            (λ h. elim (there h) [
              | inl own ↦ (own.1, unite (inl (inl own.0)))
              | inr more ↦ elim more [
                | inl u ↦ ((under u).0, unite (inl (inr (under u).1)))
                | inr r ↦ let (has, by) = (rest.2 x).0 r in (has, unite (inr by))
              ]
            ]),
            (λ h. elim (split h.1) [
              | inl way ↦ elim way [
                | inl e ↦ back (inl (e, h.0))
                | inr u ↦ back (inr (inl (under_back (h.0, u))))
              ]
              | inr by ↦ back (inr (inr ((rest.2 x).1 (h.0, by))))
            ]),
          )),
      (λ j h. elim h [
        | inl e ↦ subst IsArea (sym e) (area_item-IsArea fuel key b (enough key) below)
        | inr more ↦ elim more [
          | inl u ↦ children-IsArea fuel key c.area_parent b j falls (enough key) below u
          | inr r ↦ rest.3 j r
        ]
      ]),
    )

    pub area_items-AreasMade : (entries : TextMap) → AreasMade entries
    unfolding area_items IsKey InItems child_ids IsEntry
    area_items-AreasMade [] = (nil, refl, (λ x. ((λ h. absurd h), (λ h. h.1.2))), (λ j h. absurd h))
    area_items-AreasMade ((key, value) ∷ entries) =
        let rest = area_items-AreasMade entries in
        elim (Bool-cases (is_root user_area key value)) [
          | inl root ↦
              let made =
                find_children-Made area_item child_ids refl (λ k b r. refl) c.area_parent depth
                  falls fuel key c.area_parent falls (enough key) in
              AreasMade-root key value entries root made.0 made.1 rest
          | inr other ↦ (
            rest.0,
            rw other rest.1,
            (λ x.
                let (drop, keep) = Rooted-other x key value entries other in
                (
                  (λ h. let (has, by) = (rest.2 x).0 h in (has, keep by)),
                  (λ h. (rest.2 x).1 (h.0, drop h.1)),
                )),
            rest.3,
          )
        ]
