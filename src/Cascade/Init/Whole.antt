-- ===== src/Cascade/Init/Whole.antt =====
-- The whole tree that `InitDeleteTreeStruct` of WPD_MTP_dataDlg.cpp builds.
use shujugongxiang.Prelude.{
  ℕ, ◌<◌, ◌≡◌, refl, ap, ◌∙◌, ◌⊎◌, inl, inr, ◌↔◌, true, some, Bool-cases, arith,
}
use shujugongxiang.Text.Defs.{Text}
use shujugongxiang.Cascade.{kind_areas, kind_devices, is_kind, Node, Tree, null, node}
use shujugongxiang.Cascade.Members.{In}
use shujugongxiang.Cascade.Build.{
  Maps, new_node, link, IsEntry, Descends, child, deeper, Falls, create_below_lem,
}
use shujugongxiang.Cascade.Init.{
  parent_flag, is_area, has_area, is_top, init_root, place, grow, init_below,
  init_delete_tree_struct,
}
use shujugongxiang.Cascade.Init.Hosts.{has_area-In}
use shujugongxiang.Cascade.Init.Places.{taken, place-In}
use shujugongxiang.Cascade.Init.Leaves.{Leaves, area_or_device, place-Leaves, areas-Leaves}
use shujugongxiang.Cascade.Init.Grown.{grow-In}

area_kind : (n : Node) → n.kind ≡ kind_areas → is_kind n.kind kind_areas ≡ true
unfolding is_kind
area_kind n e = ap (λ k. is_kind k kind_areas) e

device_kind : (n : Node) → n.kind ≡ kind_devices → is_kind n.kind kind_devices ≡ true
unfolding is_kind
device_kind n e = ap (λ k. is_kind k kind_devices) e

-- The kind of what stands below a node.
Descends-kind : {maps : Maps} {id : Text} {m : Node} → Descends maps id m → m.kind ≡ maps.kind
unfolding new_node
Descends-kind (child key value e) = refl
Descends-kind (deeper key value m e below) = Descends-kind below

module _ (areas devices : Maps) (type_area : Text → Text) (user_area : Text)
    (depth_a depth_d : Text → ℕ) (fuel : ℕ) where
  abbrev pub root : Node
  root = init_root areas user_area

  -- This area is the root's, or below it; or a device with it stands right below the root.
  abbrev Fits : Text → Type 0
  Fits area =
      (is_top area ≡ true)
      ⊎ (is_area area root ≡ true)
      ⊎ ((k : Node) × (is_area area k ≡ true) × Descends areas root.id k)

  -- A device without a parent, whose area is there.
  abbrev pub Settled : Node → Type 0
  Settled m =
      (key : Text) × IsEntry key parent_flag devices.parents
      × (m ≡ new_node devices key parent_flag)
      × Fits (type_area key)

  -- A node below the root: an area below the root's; or a device without a parent whose area is the
  -- root or below it, or that needs none; or a device below such a one.
  abbrev pub Expected : Node → Type 0
  Expected m =
      Descends areas root.id m ⊎ Settled m ⊎ ((d : Node) × Settled d × Descends devices d.id m)

  taken-Fits :
      (area : Text) (below : Tree)
      → ((m : Node) → In m below ↔ Descends areas root.id m)
      → (taken root area below ≡ true) ↔ Fits area
  taken-Fits area below inside = (
    (λ has. elim (Bool-cases (is_top area)) [
      | inl top ↦ inl top
      | inr lower ↦ elim (Bool-cases (is_area area root)) [
        | inl at ↦ inr (inl at)
        | inr other ↦
            let there : has_area area below ≡ true = ground (arith, has, lower, other) in
            let (k, a, i) = (has_area-In area below).0 there in inr (inr (k, a, (inside k).0 i))
      ]
    ]),
    (λ (h : Fits area). elim h [
      | inl top ↦ rw top refl
      | inr rest ↦ elim rest [
        | inl at ↦ ground (arith, at)
        | inr (k, a, d) ↦
            let there = (has_area-In area below).1 (k, a, (inside k).1 d) in ground (arith, there)
      ]
    ]),
  )

  module _ (a : areas.kind ≡ kind_areas) (d : devices.kind ≡ kind_devices)
      (falls_a : Falls depth_a areas.parents) (falls_d : Falls depth_d devices.parents)
      (enough_a : (id : Text) → depth_a id < fuel)
      (enough_d : (id : Text) → depth_d id < fuel) where
    pub area_is_area : (m : Node) → Descends areas root.id m → is_kind m.kind kind_areas ≡ true
    area_is_area m below = area_kind m (Descends-kind below ∙ a)

    pub Settled-device : (m : Node) → Settled m → is_kind m.kind kind_devices ≡ true
    unfolding new_node
    Settled-device m (key, e, same, fits) = device_kind m (ap (λ (x : Node). x.kind) same ∙ d)

    pub areas_below-Leaves :
        (below : Tree) → ((m : Node) → In m below ↔ Descends areas root.id m) → Leaves below
    areas_below-Leaves below inside = areas-Leaves below (λ m i. Descends-kind ((inside m).0 i) ∙ a)

    -- What the tree below the root holds when the devices have been put into it.
    pub placed-In :
        (below : Tree)
        → ((m : Node) → In m below ↔ Descends areas root.id m)
        → (m : Node)
        → In m (place root devices type_area devices.parents below)
          ↔ Descends areas root.id m ⊎ Settled m
    placed-In below inside m =
        let put = place-In root devices type_area d m devices.parents below in
        (
          (λ i. elim (put.0 i) [
            | inl area ↦ inl ((inside m).0 area)
            | inr (key, e, same, has) ↦
                inr (key, e, same, (taken-Fits (type_area key) below inside).0 has)
          ]),
          (λ h. elim h [
            | inl area ↦ put.1 (inl ((inside m).1 area))
            | inr (key, e, same, fits) ↦
                put.1 (inr (key, e, same, (taken-Fits (type_area key) below inside).1 fits))
          ]),
        )

    pub grown-In :
        (below : Tree)
        → ((m : Node) → In m below ↔ Descends areas root.id m)
        → (t : Tree) × (grow fuel devices (place root devices type_area devices.parents below)
            ≡ some t)
          × ((m : Node) → In m t ↔ Expected m)
    grown-In below inside =
        let put = placed-In below inside in
        let leaves =
          place-Leaves root devices type_area devices.parents below
            (areas_below-Leaves below inside) in
        let grown = grow-In devices depth_d fuel _ falls_d enough_d leaves in
        (
          grown.0,
          grown.1,
          λ m. (
            (λ i. elim ((grown.2 m).0 i) [
              | inl old ↦ elim ((put m).0 old) [
                | inl area ↦ inl area
                | inr device ↦ inr (inl device)
              ]
              | inr (n, at, is_device, under) ↦ elim ((put n).0 at) [
                | inl area ↦ absurd (area_or_device n.kind (area_is_area n area) is_device)
                | inr device ↦ inr (inr (n, device, under))
              ]
            ]),
            (λ (h : Expected m). (grown.2 m).1 (elim h [
              | inl area ↦ inl ((put m).1 (inl area))
              | inr rest ↦ elim rest [
                | inl device ↦ inl ((put m).1 (inr device))
                | inr (n, device, under) ↦
                    inr (n, (put n).1 (inr device), Settled-device n device, under)
              ]
            ])),
          ),
        )

    -- If neither the areas nor the devices have a cycle of parents, the construction ends, with fuel
    -- above every depth, and the tree holds exactly the root, the areas below it at any depth, the
    -- devices without a parent whose area is there, and the devices below those at any depth.
    pub init_delete_tree_struct_lem :
        (t : Tree) × (init_delete_tree_struct fuel areas devices type_area user_area ≡ some t)
        × ((m : Node) → In m t ↔ (m ≡ root) ⊎ Expected m)
    unfolding init_delete_tree_struct init_below link In
    init_delete_tree_struct_lem =
        let below = create_below_lem areas depth_a falls_a fuel root.id (enough_a root.id) in
        let grown = grown-In below.0 below.2 in
        (
          node root grown.0 null,
          rw (below.1, grown.1) refl,
          λ m. (
            (λ (i : (m ≡ root) ⊎ In m grown.0 ⊎ ⊥). elim i [
              | inl e ↦ inl e
              | inr rest ↦ elim rest [
                | inl inside ↦ inr ((grown.2 m).0 inside)
                | inr nothing ↦ absurd nothing
              ]
            ]),
            (λ (i : (m ≡ root) ⊎ Expected m). elim i [
              | inl e ↦ inl e
              | inr expected ↦ inr (inl ((grown.2 m).1 expected))
            ]),
          ),
        )
