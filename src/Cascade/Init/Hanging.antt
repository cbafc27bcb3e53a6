-- ===== src/Cascade/Init/Hanging.antt =====
-- The nodes that `InitDeleteTreeStruct` of WPD_MTP_dataDlg.cpp will put below the devices of the tree, and
-- what will stand above them.
use shujugongxiang.Prelude.{◌≡◌, refl, subst, ◌∙◌, ◌⊎◌, inl, inr, ◌↔◌}
use shujugongxiang.Cascade.{Node, Tree, node}
use shujugongxiang.Cascade.Members.{In}
use shujugongxiang.Cascade.Above.{Above, Over}
use shujugongxiang.Cascade.Build.{Maps, Descends}
use shujugongxiang.Cascade.Init.Leaves.{IsDeviceNode}

module _ (devices : Maps) where
  -- Between two nodes that stand below this one.
  abbrev pub Chain : Node → Node → Node → Type 0
  Chain c m d = Descends devices d.id c × Descends devices c.id m

  -- `m` is below a device of the tree, and `c` above that device, the device, or between the two.
  abbrev pub Hanging : Node → Node → Tree → Type 0
  Hanging c m t =
      (d : Node) × IsDeviceNode d
      × ((Over c d t × Descends devices d.id m) ⊎ (In d t × Chain c m d))

  -- `m` is below this device, and `c` the device or between the two.
  abbrev pub Own : Node → Node → Node → Type 0
  Own c m k = IsDeviceNode k × (((c ≡ k) × Descends devices k.id m) ⊎ Chain c m k)

  -- Below a device of the tree, in the shape without the depth.
  abbrev pub Lower : Node → Tree → Type 0
  Lower m t = (d : Node) × In d t × IsDeviceNode d × Descends devices d.id m

  abbrev pub Shares : Node → Node → Node → Tree → Tree → Type 0
  Shares c m k first next =
      Own c m k ⊎ ((c ≡ k) × Lower m first) ⊎ Hanging c m first ⊎ Hanging c m next

  pub Hanging-node :
      (c m k : Node) (first next : Tree) → Hanging c m (node k first next) ↔ Shares c m k first next
  unfolding In Above
  Hanging-node c m k first next = (
    (λ (d, device, w). elim w [
      | inl (o, under) ↦ elim o [
        | inl (i, e) ↦ elim i [
          | inl at ↦ inl (
            subst (λ n. IsDeviceNode n) at device,
            inl (e ∙ at, subst (λ (n : Node). Descends devices n.id m) at under),
          )
          | inr rest ↦ elim rest [
            | inl f ↦ inr (inr (inl (d, device, inl (inl (f, e), under))))
            | inr x ↦ inr (inr (inr (d, device, inl (inl (x, e), under))))
          ]
        ]
        | inr above ↦ elim above [
          | inl (e, f) ↦ inr (inl (e, (d, f, device, under)))
          | inr rest ↦ elim rest [
            | inl f ↦ inr (inr (inl (d, device, inl (inr f, under))))
            | inr x ↦ inr (inr (inr (d, device, inl (inr x, under))))
          ]
        ]
      ]
      | inr (i, chain) ↦ elim i [
        | inl at ↦
            inl (subst (λ n. IsDeviceNode n) at device, inr (subst (λ n. Chain c m n) at chain))
        | inr rest ↦ elim rest [
          | inl f ↦ inr (inr (inl (d, device, inr (f, chain))))
          | inr x ↦ inr (inr (inr (d, device, inr (x, chain))))
        ]
      ]
    ]),
    (λ (h : Shares c m k first next). elim h [
      | inl (device, own) ↦ (
        k,
        device,
        elim own [
          | inl (e, under) ↦ inl (inl (inl refl, e), under)
          | inr chain ↦ inr (inl refl, chain)
        ],
      )
      | inr rest ↦ elim rest [
        | inl (e, (d, f, device, under)) ↦ (d, device, inl (inr (inl (e, f)), under))
        | inr hanging ↦ elim hanging [
          | inl (d, device, w) ↦ (
            d,
            device,
            elim w [
              | inl (o, under) ↦ elim o [
                | inl (i, e) ↦ inl (inl (inr (inl i), e), under)
                | inr above ↦ inl (inr (inr (inl above)), under)
              ]
              | inr (i, chain) ↦ inr (inr (inl i), chain)
            ],
          )
          | inr (d, device, w) ↦ (
            d,
            device,
            elim w [
              | inl (o, under) ↦ elim o [
                | inl (i, e) ↦ inl (inl (inr (inr i), e), under)
                | inr above ↦ inl (inr (inr (inr above)), under)
              ]
              | inr (i, chain) ↦ inr (inr (inr i), chain)
            ],
          )
        ]
      ]
    ]),
  )
