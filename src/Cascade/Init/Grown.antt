-- ===== src/Cascade/Init/Grown.antt =====
-- What `InitDeleteTreeStruct` of WPD_MTP_dataDlg.cpp builds below the devices of the tree.
use mathlib.Core.Bool.{false≢true}
use shujugongxiang.Prelude.{
  ℕ, ◌<◌, ◌≡◌, refl, ap, subst, sym, ◌∙◌, ◌⊎◌, inl, inr, ◌↔◌, false, some, Bool-cases,
}
use shujugongxiang.Text.Defs.{Text}
use shujugongxiang.Cascade.{kind_devices, is_kind, Node, Tree, null, node}
use shujugongxiang.Cascade.Members.{In}
use shujugongxiang.Cascade.Build.{Maps, link, Descends, Falls, create_below_lem}
use shujugongxiang.Cascade.Init.{grow}
use shujugongxiang.Cascade.Init.Leaves.{IsDeviceNode, Leaves}

module _ (devices : Maps) (depth : Text → ℕ) (fuel : ℕ) where
  -- Below a device of the tree.
  abbrev pub Under : Node → Tree → Type 0
  Under m t = (d : Node) × In d t × IsDeviceNode d × Descends devices d.id m

  -- The trees that grew from the siblings, and from what stands below a node.
  abbrev Grows : Tree → Tree → Type 0
  Grows t t' = (m : Node) → In m t' ↔ In m t ⊎ Under m t

  grow_device :
      (k : Node) (first next below beside : Tree)
      → IsDeviceNode k
      → first ≡ null
      → ((m : Node) → In m below ↔ Descends devices k.id m)
      → Grows next beside
      → Grows (node k first next) (node k below beside)
  unfolding In
  grow_device k first next below' beside' device leaf b x m = (
    (λ (i : (m ≡ k) ⊎ In m below' ⊎ In m beside'). elim i [
      | inl e ↦ inl (inl e)
      | inr rest ↦ elim rest [
        | inl below ↦ inr (k, inl refl, device, (b m).0 below)
        | inr beside ↦ elim ((x m).0 beside) [
          | inl old ↦ inl (inr (inr old))
          | inr (d, at, is_device, under) ↦ inr (d, inr (inr at), is_device, under)
        ]
      ]
    ]),
    (λ (i : In m (node k first next) ⊎ Under m (node k first next)). elim i [
      | inl old ↦ elim old [
        | inl e ↦ inl e
        | inr rest ↦ elim rest [
          | inl below ↦ absurd (subst (In m) leaf below)
          | inr beside ↦ inr (inr ((x m).1 (inl beside)))
        ]
      ]
      | inr (d, at, is_device, under) ↦ elim at [
        | inl e ↦ inr (inl ((b m).1 (subst (λ n. Descends devices n.id m) e under)))
        | inr rest ↦ elim rest [
          | inl below ↦ absurd (subst (In d) leaf below)
          | inr beside ↦ inr (inr ((x m).1 (inr (d, beside, is_device, under))))
        ]
      ]
    ]),
  )

  grow_other :
      (k : Node) (first next below beside : Tree)
      → is_kind k.kind kind_devices ≡ false
      → Grows first below
      → Grows next beside
      → Grows (node k first next) (node k below beside)
  unfolding In
  grow_other k first next below' beside' other f x m = (
    (λ (i : (m ≡ k) ⊎ In m below' ⊎ In m beside'). elim i [
      | inl e ↦ inl (inl e)
      | inr rest ↦ elim rest [
        | inl below ↦ elim ((f m).0 below) [
          | inl old ↦ inl (inr (inl old))
          | inr (d, at, is_device, under) ↦ inr (d, inr (inl at), is_device, under)
        ]
        | inr beside ↦ elim ((x m).0 beside) [
          | inl old ↦ inl (inr (inr old))
          | inr (d, at, is_device, under) ↦ inr (d, inr (inr at), is_device, under)
        ]
      ]
    ]),
    (λ (i : In m (node k first next) ⊎ Under m (node k first next)). elim i [
      | inl old ↦ elim old [
        | inl e ↦ inl e
        | inr rest ↦ elim rest [
          | inl below ↦ inr (inl ((f m).1 (inl below)))
          | inr beside ↦ inr (inr ((x m).1 (inl beside)))
        ]
      ]
      | inr (d, at, is_device, under) ↦ elim at [
        | inl e ↦ absurd (
            false≢true
              (sym other ∙ ap (λ (n : Node). is_kind n.kind kind_devices) (sym e) ∙ is_device))
        | inr rest ↦ elim rest [
          | inl below ↦ inr (inl ((f m).1 (inr (d, below, is_device, under))))
          | inr beside ↦ inr (inr ((x m).1 (inr (d, beside, is_device, under))))
        ]
      ]
    ]),
  )

  pub grow-In :
      (t : Tree)
      → Falls depth devices.parents
      → ((id : Text) → depth id < fuel)
      → Leaves t
      → (t' : Tree) × (grow fuel devices t ≡ some t') × Grows t t'
  unfolding grow link Leaves In
  grow-In null falls enough h =
      (null, refl, λ m. ((λ i. inl i), (λ i. elim i [ inl a ↦ a | inr u ↦ u.1 ])))
  grow-In (node k first next) falls enough h =
      let x = grow-In next falls enough h.2 in
      elim (Bool-cases (is_kind k.kind kind_devices)) [
        | inl device ↦
            let b = create_below_lem devices depth falls fuel k.id (enough k.id) in
            (
              node k b.0 x.0,
              rw (device, b.1, x.1) refl,
              grow_device k first next b.0 x.0 device (h.0 device) b.2 x.2,
            )
        | inr other ↦
            let f = grow-In first falls enough h.1 in
            (
              node k f.0 x.0,
              rw (other, f.1, x.1) refl,
              grow_other k first next f.0 x.0 other f.2 x.2,
            )
      ]
