-- ===== src/Cascade/Init/Descent.antt =====
-- Which node stands above which in the whole tree that `InitDeleteTreeStruct` of WPD_MTP_dataDlg.cpp
-- builds.
use mathlib.Core.Option.{some-injective}
use shujugongxiang.Prelude.{
  ℕ, ◌<◌, ◌≡◌, refl, ap, sym, subst, ◌∙◌, ◌⊎◌, inl, inr, ◌↔◌, true, false, some,
}
use shujugongxiang.Text.Defs.{Text}
use shujugongxiang.Cascade.{kind_areas, kind_devices, is_kind, Node, Tree, null, node}
use shujugongxiang.Cascade.Members.{In}
use shujugongxiang.Cascade.Above.{Above}
use shujugongxiang.Cascade.Build.{Maps, new_node, link, IsEntry, Descends, Falls, create_below_lem}
use shujugongxiang.Cascade.Build.Layers.{create_below-Above, Descends-trans}
use shujugongxiang.Cascade.Init.{
  parent_flag, is_area, is_top, place, grow, init_below, init_delete_tree_struct,
}
use shujugongxiang.Cascade.Init.Leaves.{area_or_device, place-Leaves}
use shujugongxiang.Cascade.Init.Hung.{place-Above}
use shujugongxiang.Cascade.Init.Hanging.{Chain}
use shujugongxiang.Cascade.Init.Raised.{grow-Above}
use shujugongxiang.Cascade.Init.Whole.{
  root, Settled, Expected, Settled-device, area_is_area, areas_below-Leaves, placed-In, grown-In,
  init_delete_tree_struct_lem,
}

module _ (areas devices : Maps) (type_area : Text → Text) (user_area : Text)
    (depth_a depth_d : Text → ℕ) (fuel : ℕ) where
  abbrev Top : Node
  Top = root areas devices type_area user_area depth_a depth_d fuel

  abbrev IsSettled : Node → Type 0
  IsSettled = Settled areas devices type_area user_area depth_a depth_d fuel

  abbrev pub IsExpected : Node → Type 0
  IsExpected = Expected areas devices type_area user_area depth_a depth_d fuel

  -- `c` is an area below the root, the one of a device without a parent or above that one.
  abbrev pub Hosted : Node → Node → Type 0
  Hosted c d =
      (key : Text) × IsEntry key parent_flag devices.parents
      × (d ≡ new_node devices key parent_flag)
      × (is_top (type_area key) ≡ false)
      × ((k : Node) × (is_area (type_area key) k ≡ true)
          × ((Descends areas Top.id k × (c ≡ k)) ⊎ Chain areas c k Top))

  -- `m` is a device without a parent or below one, `c` one of the areas that host it.
  abbrev pub FromArea : Node → Node → Type 0
  FromArea c m = (d : Node) × Hosted c d × ((m ≡ d) ⊎ Descends devices d.id m)

  -- `m` is below a device without a parent, `c` that device or between the two.
  abbrev pub FromDevice : Node → Node → Type 0
  FromDevice c m =
      (d : Node) × IsSettled d × (((c ≡ d) × Descends devices d.id m) ⊎ Chain devices c m d)

  -- Above `m` in the rows: the root, an area above an area, an area above a device, or a device above
  -- a device.
  abbrev pub Ancestor : Node → Node → Type 0
  Ancestor c m = ((c ≡ Top) × IsExpected m) ⊎ Chain areas c m Top ⊎ FromArea c m ⊎ FromDevice c m

  module _ (a : areas.kind ≡ kind_areas) (d : devices.kind ≡ kind_devices)
      (falls_a : Falls depth_a areas.parents) (falls_d : Falls depth_d devices.parents)
      (enough_a : (id : Text) → depth_a id < fuel)
      (enough_d : (id : Text) → depth_d id < fuel) where
    Inside : Tree → Type 0
    Inside below = (m : Node) → In m below ↔ Descends areas Top.id m

    Stacked : Tree → Type 0
    Stacked below = (c m : Node) → Above c m below ↔ Chain areas c m Top

    put : Tree → Tree
    put below = place Top devices type_area devices.parents below

    put-Above :
        (below : Tree)
        → Inside below
        → Stacked below
        → (c m : Node) → Above c m (put below) ↔ Chain areas c m Top ⊎ Hosted c m
    unfolding Inside Stacked put
    put-Above below inside stacked c m =
        let hung = place-Above Top devices type_area d c m devices.parents below in
        (
          (λ above. elim (hung.0 above) [
            | inl old ↦ inl ((stacked c m).0 old)
            | inr (key, e, same, lower, (k, is, o)) ↦ inr (
              key,
              e,
              same,
              lower,
              (
                k,
                is,
                elim o [
                  | inl (i, at) ↦ inl ((inside k).0 i, at)
                  | inr high ↦ inr ((stacked c k).0 high)
                ],
              ),
            )
          ]),
          (λ (h : Chain areas c m Top ⊎ Hosted c m). elim h [
            | inl old ↦ hung.1 (inl ((stacked c m).1 old))
            | inr (key, e, same, lower, (k, is, o)) ↦ hung.1 (
                inr (
                  key,
                  e,
                  same,
                  lower,
                  (
                    k,
                    is,
                    elim o [
                      | inl (i, at) ↦ inl ((inside k).1 i, at)
                      | inr high ↦ inr ((stacked c k).1 high)
                    ],
                  ),
                ))
          ]),
        )

    Hosted-device : (c m : Node) → Hosted c m → is_kind m.kind kind_devices ≡ true
    unfolding new_node is_kind
    Hosted-device c m (key, e, same, lower, host) =
        ap (λ (x : Node). is_kind x.kind kind_devices) same ∙ ap (λ k. is_kind k kind_devices) d

    area_kind : (n : Node) → Descends areas Top.id n → is_kind n.kind kind_areas ≡ true
    area_kind n below =
        area_is_area areas devices type_area user_area depth_a depth_d fuel a d falls_a falls_d
          enough_a enough_d n below

    -- The devices of the tree are those without a parent.
    settled :
        (below : Tree)
        → Inside below
        → (n : Node) → In n (put below)
        → is_kind n.kind kind_devices ≡ true
        → IsSettled n
    unfolding Inside put
    settled below inside n i device =
        let held =
          placed-In areas devices type_area user_area depth_a depth_d fuel a d falls_a falls_d
            enough_a enough_d below inside n in
        elim (held.0 i) [
          | inl area ↦ absurd (area_or_device n.kind (area_kind n area) device)
          | inr s ↦ s
        ]

    grown-Above :
        (below : Tree)
        → Inside below
        → Stacked below
        → (t : Tree) × (grow fuel devices (put below) ≡ some t)
          × ((c m : Node) → Above c m t ↔ Chain areas c m Top ⊎ FromArea c m ⊎ FromDevice c m)
    unfolding Inside put
    grown-Above below inside stacked =
        let leaves = place-Leaves Top devices type_area devices.parents below (
          areas_below-Leaves areas devices type_area user_area depth_a depth_d fuel a d falls_a
            falls_d enough_a enough_d below inside) in
        let raised = grow-Above devices depth_d fuel (put below) falls_d enough_d leaves in
        let above = put-Above below inside stacked in
        let held =
          placed-In areas devices type_area user_area depth_a depth_d fuel a d falls_a falls_d
            enough_a enough_d below inside in
        let stood = λ (n : Node) (s : IsSettled n).
          Settled-device areas devices type_area user_area depth_a depth_d fuel a d falls_a falls_d
            enough_a enough_d n s in
        (
          raised.0,
          raised.1,
          λ c m. (
            (λ i. elim ((raised.2 c m).0 i) [
              | inl old ↦ elim ((above c m).0 old) [
                | inl chain ↦ inl chain
                | inr hosted ↦ inr (inl (m, hosted, inl refl))
              ]
              | inr (n, device, w) ↦ elim w [
                | inl (o, under) ↦ elim o [
                  | inl (at, e) ↦ inr (inr (n, settled below inside n at device, inl (e, under)))
                  | inr high ↦ elim ((above c n).0 high) [
                    | inl chain ↦ absurd (
                        area_or_device n.kind (area_kind n (Descends-trans chain.0 chain.1)) device)
                    | inr hosted ↦ inr (inl (n, hosted, inr under))
                  ]
                ]
                | inr (at, chain) ↦ inr (inr (n, settled below inside n at device, inr chain))
              ]
            ]),
            (λ (h : Chain areas c m Top ⊎ FromArea c m ⊎ FromDevice c m). elim h [
              | inl chain ↦ (raised.2 c m).1 (inl ((above c m).1 (inl chain)))
              | inr rest ↦ elim rest [
                | inl (n, hosted, w) ↦ elim w [
                  | inl e ↦
                      (raised.2 c m).1
                        (inl ((above c m).1 (inr (subst (λ x. Hosted c x) (sym e) hosted))))
                  | inr under ↦ (raised.2 c m).1 (
                      inr (
                        n,
                        Hosted-device c n hosted,
                        inl (inr ((above c n).1 (inr hosted)), under),
                      ))
                ]
                | inr (n, s, w) ↦
                    let at = (held n).1 (inr s) in
                    (raised.2 c m).1 (
                      inr (
                        n,
                        stood n s,
                        elim w [
                          | inl (e, under) ↦ inl (inl (at, e), under)
                          | inr chain ↦ inr (at, chain)
                        ],
                      ))
              ]
            ]),
          ),
        )

    -- The tree, what stands in it, and what stands above what.
    pub init_delete_tree_struct-Above :
        (t : Tree) × (init_delete_tree_struct fuel areas devices type_area user_area ≡ some t)
        × ((m : Node) → In m t ↔ (m ≡ Top) ⊎ IsExpected m)
        × ((c m : Node) → Above c m t ↔ Ancestor c m)
    unfolding init_delete_tree_struct init_below link Above Inside Stacked put
    init_delete_tree_struct-Above =
        let below = create_below-Above areas depth_a falls_a fuel Top.id (enough_a Top.id) in
        let built = create_below_lem areas depth_a falls_a fuel Top.id (enough_a Top.id) in
        let inside : Inside below.0 =
          subst (λ t. Inside t) (some-injective _ _ (sym built.1 ∙ below.1)) built.2 in
        let grown = grown-Above below.0 inside below.2 in
        let held =
          grown-In areas devices type_area user_area depth_a depth_d fuel a d falls_a falls_d
            enough_a enough_d below.0 inside in
        let whole =
          init_delete_tree_struct_lem areas devices type_area user_area depth_a depth_d fuel a d
            falls_a falls_d enough_a enough_d in
        let expected : (m : Node) → In m grown.0 ↔ IsExpected m =
          subst (λ t. (m : Node) → In m t ↔ IsExpected m)
            (some-injective _ _ (sym held.1 ∙ grown.1)) held.2 in
        let same : init_delete_tree_struct fuel areas devices type_area user_area
            ≡ some (node Top grown.0 null) =
          ap (init_below fuel Top devices type_area) below.1
          ∙ ap (λ g. link Top g (some null)) grown.1 in
        (
          node Top grown.0 null,
          same,
          subst (λ t. (m : Node) → In m t ↔ (m ≡ Top) ⊎ IsExpected m)
              (some-injective _ _ (sym whole.1 ∙ same)) whole.2,
          λ c m. (
            (λ (h : ((c ≡ Top) × In m grown.0) ⊎ Above c m grown.0 ⊎ ⊥). elim h [
              | inl (e, i) ↦ inl (e, (expected m).0 i)
              | inr rest ↦ elim rest [
                | inl above ↦ inr ((grown.2 c m).0 above)
                | inr nothing ↦ absurd nothing
              ]
            ]),
            (λ (h : Ancestor c m). elim h [
              | inl (e, i) ↦ inl (e, (expected m).1 i)
              | inr rest ↦ inr (inl ((grown.2 c m).1 rest))
            ]),
          ),
        )
