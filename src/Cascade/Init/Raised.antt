-- ===== src/Cascade/Init/Raised.antt =====
-- What stands above a device after `InitDeleteTreeStruct` of WPD_MTP_dataDlg.cpp has built what is below
-- the devices of the tree.
use mathlib.Core.Bool.{false≢true}
use mathlib.Core.Option.{some-injective}
use shujugongxiang.Prelude.{
  ℕ, ◌<◌, ◌≡◌, refl, subst, sym, ◌∙◌, ◌⊎◌, inl, inr, ◌↔◌, false, some, Bool-cases,
}
use shujugongxiang.Text.Defs.{Text}
use shujugongxiang.Cascade.{kind_devices, is_kind, Node, Tree, null, node}
use shujugongxiang.Cascade.Members.{In}
use shujugongxiang.Cascade.Above.{Above}
use shujugongxiang.Cascade.Build.{Maps, link, Descends, Falls, create_below_lem}
use shujugongxiang.Cascade.Build.Layers.{create_below-Above}
use shujugongxiang.Cascade.Init.{grow}
use shujugongxiang.Cascade.Init.Leaves.{IsDeviceNode, Leaves}
use shujugongxiang.Cascade.Init.Grown.{grow-In}
use shujugongxiang.Cascade.Init.Hanging.{Chain, Hanging, Lower, Hanging-node}

module _ (devices : Maps) where
  -- What stands above what, in the trees that grew from the siblings and from what is below them.
  abbrev pub Raises : Tree → Tree → Type 0
  Raises t t' = (c m : Node) → Above c m t' ↔ Above c m t ⊎ Hanging devices c m t

  raise_device :
      (k : Node) (next below beside : Tree)
      → IsDeviceNode k
      → ((m : Node) → In m below ↔ Descends devices k.id m)
      → ((c m : Node) → Above c m below ↔ Chain devices c m k)
      → Raises next beside
      → Raises (node k null next) (node k below beside)
  unfolding In Above
  raise_device k next below beside device i b x c m =
      let parts = Hanging-node devices c m k null next in
      (
        (λ (h : ((c ≡ k) × In m below) ⊎ Above c m below ⊎ Above c m beside). elim h [
          | inl (e, inside) ↦ inr (parts.1 (inl (device, inl (e, (i m).0 inside))))
          | inr rest ↦ elim rest [
            | inl above ↦ inr (parts.1 (inl (device, inr ((b c m).0 above))))
            | inr above ↦ elim ((x c m).0 above) [
              | inl old ↦ inl (inr (inr old))
              | inr hanging ↦ inr (parts.1 (inr (inr (inr hanging))))
            ]
          ]
        ]),
        (λ (h : (((c ≡ k) × ⊥) ⊎ ⊥ ⊎ Above c m next) ⊎ Hanging devices c m (node k null next)).
            elim h [
              | inl old ↦ elim old [
                | inl own ↦ absurd own.1
                | inr rest ↦ elim rest [
                  | inl nothing ↦ absurd nothing
                  | inr above ↦ inr (inr ((x c m).1 (inl above)))
                ]
              ]
              | inr hanging ↦ elim (parts.0 hanging) [
                | inl (_, own) ↦ elim own [
                  | inl (e, under) ↦ inl (e, (i m).1 under)
                  | inr chain ↦ inr (inl ((b c m).1 chain))
                ]
                | inr rest ↦ elim rest [
                  | inl lower ↦ absurd lower.1.1
                  | inr more ↦ elim more [
                    | inl (d, _, w) ↦ elim w [
                      | inl (o, _) ↦ elim o [ inl none ↦ absurd none.0 | inr none ↦ absurd none ]
                      | inr none ↦ absurd none.0
                    ]
                    | inr beside' ↦ inr (inr ((x c m).1 (inr beside')))
                  ]
                ]
              ]
            ]),
      )

  raise_other :
      (k : Node) (first next below beside : Tree)
      → is_kind k.kind kind_devices ≡ false
      → ((m : Node) → In m below ↔ In m first ⊎ Lower devices m first)
      → Raises first below
      → Raises next beside
      → Raises (node k first next) (node k below beside)
  unfolding In Above
  raise_other k first next below beside other i b x c m =
      let parts = Hanging-node devices c m k first next in
      (
        (λ (h : ((c ≡ k) × In m below) ⊎ Above c m below ⊎ Above c m beside). elim h [
          | inl (e, inside) ↦ elim ((i m).0 inside) [
            | inl old ↦ inl (inl (e, old))
            | inr lower ↦ inr (parts.1 (inr (inl (e, lower))))
          ]
          | inr rest ↦ elim rest [
            | inl above ↦ elim ((b c m).0 above) [
              | inl old ↦ inl (inr (inl old))
              | inr hanging ↦ inr (parts.1 (inr (inr (inl hanging))))
            ]
            | inr above ↦ elim ((x c m).0 above) [
              | inl old ↦ inl (inr (inr old))
              | inr hanging ↦ inr (parts.1 (inr (inr (inr hanging))))
            ]
          ]
        ]),
        (λ (h : (((c ≡ k) × In m first) ⊎ Above c m first ⊎ Above c m next)
              ⊎ Hanging devices c m (node k first next)).
            elim h [
              | inl old ↦ elim old [
                | inl (e, inside) ↦ inl (e, (i m).1 (inl inside))
                | inr rest ↦ elim rest [
                  | inl above ↦ inr (inl ((b c m).1 (inl above)))
                  | inr above ↦ inr (inr ((x c m).1 (inl above)))
                ]
              ]
              | inr hanging ↦ elim (parts.0 hanging) [
                | inl (device, _) ↦ absurd (false≢true (sym other ∙ device))
                | inr rest ↦ elim rest [
                  | inl (e, lower) ↦ inl (e, (i m).1 (inr lower))
                  | inr more ↦ elim more [
                    | inl below' ↦ inr (inl ((b c m).1 (inr below')))
                    | inr beside' ↦ inr (inr ((x c m).1 (inr beside')))
                  ]
                ]
              ]
            ]),
      )

  pub grow-Above :
      (depth : Text → ℕ) (fuel : ℕ) (t : Tree)
      → Falls depth devices.parents
      → ((id : Text) → depth id < fuel)
      → Leaves t
      → (t' : Tree) × (grow fuel devices t ≡ some t') × Raises t t'
  unfolding grow link Leaves In Above
  grow-Above depth fuel null falls enough h = (
    null,
    refl,
    λ c m. (
      (λ a. inl a),
      (λ a. elim a [
        | inl old ↦ old
        | inr (d, _, w) ↦ elim w [
          | inl (o, _) ↦ elim o [ inl none ↦ none.0 | inr none ↦ none ]
          | inr none ↦ none.0
        ]
      ]),
    ),
  )
  grow-Above depth fuel (node k first next) falls enough h =
      let x = grow-Above depth fuel next falls enough h.2 in
      elim (Bool-cases (is_kind k.kind kind_devices)) [
        | inl device ↦
            let b = create_below-Above devices depth falls fuel k.id (enough k.id) in
            let built = create_below_lem devices depth falls fuel k.id (enough k.id) in
            let same = some-injective _ _ (sym built.1 ∙ b.1) in
            (
              node k b.0 x.0,
              rw (device, b.1, x.1) refl,
              subst (λ f. Raises (node k f next) (node k b.0 x.0)) (sym (h.0 device))
                  (raise_device k next b.0 x.0 device
                    (subst (λ t. (m : Node) → In m t ↔ Descends devices k.id m) same built.2) b.2
                    x.2),
            )
        | inr other ↦
            let f = grow-Above depth fuel first falls enough h.1 in
            let grown = grow-In devices depth fuel first falls enough h.1 in
            let same = some-injective _ _ (sym grown.1 ∙ f.1) in
            (
              node k f.0 x.0,
              rw (other, f.1, x.1) refl,
              raise_other k first next f.0 x.0 other
                  (subst (λ t. (m : Node) → In m t ↔ In m first ⊎ Lower devices m first) same
                    grown.2)
                  f.2 x.2,
            )
      ]
