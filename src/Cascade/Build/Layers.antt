-- ===== src/Cascade/Build/Layers.antt =====
-- Which node stands above which in the trees that `CreateDeleteTreeStructDevices` and
-- `CreateDeleteTreeStructAreasC` of WPD_MTP_dataDlg.cpp build.
use shujugongxiang.Prelude.{
  ℕ, zero, suc, ◌<◌, ◌≡◌, refl, ap, sym, subst, ◌↔◌, ◌∙◌, ◌⊎◌, inl, inr, true, false, some, List,
  [], ◌∷◌, Bool-cases, arith,
}
use mathlib.Core.Option.{some-injective}
use mathlib.Core.Bool.{false≢true}
use shujugongxiang.Text.Defs.{Text, text_eq, text_eq_sound, text_eq_refl}
use shujugongxiang.Cascade.{Node, Tree, null, node}
use shujugongxiang.Cascade.Members.{In}
use shujugongxiang.Cascade.Build.{
  Maps, new_node, link, create_children, create_below, IsEntry, Descends, child, deeper, Falls, By,
  Descends-By, By-Descends, create_below_lem,
}
use shujugongxiang.Cascade.Above.{Above}

pub Descends-trans :
    {maps : Maps} {id : Text} {c m : Node}
    → Descends maps id c
    → Descends maps c.id m
    → Descends maps id m
unfolding new_node
Descends-trans {m = m} (child key value e) low = deeper key value m e low
Descends-trans {m = m} (deeper key value c e high) low =
    deeper key value m e (Descends-trans high low)

module _ (maps : Maps) (depth : Text → ℕ) (falls : Falls depth maps.parents) where
  -- The siblings stand below `id` by these entries, and below each what its key has.
  abbrev Layered : ℕ → Text → List (Text × Text) → Tree → Type 0
  Layered fuel id entries t =
      (create_children fuel maps id entries ≡ some t)
      × ((c m : Node) → Above c m t ↔ By maps id c entries × Descends maps c.id m)

  Layered-match :
      (fuel : ℕ) (id key value : Text) (entries : List (Text × Text)) (first next : Tree)
      → text_eq value id ≡ true
      → ((m : Node) → In m first ↔ Descends maps key m)
      → Layered fuel key maps.parents first
      → Layered (suc fuel) id entries next
      → Layered (suc fuel) id ((key, value) ∷ entries) (node (new_node maps key value) first next)
  unfolding create_children link Above IsEntry new_node
  Layered-match fuel id key value entries first next same inside below beside = (
    rw (same, below.0, beside.0) refl,
    λ c m. (
      (λ (h : ((c ≡ new_node maps key value) × In m first) ⊎ Above c m first ⊎ Above c m next).
          elim h [
            | inl (e, i) ↦ (
              (key, value, inl refl, text_eq_sound value id same, inl e),
              subst (λ (n : Node). Descends maps n.id m) (sym e) ((inside m).0 i),
            )
            | inr rest ↦ elim rest [
              | inl f ↦
                  let (by_key, d) = (below.1 c m).0 f in
                  (
                    (
                      key,
                      value,
                      inl refl,
                      text_eq_sound value id same,
                      inr (By-Descends maps key c by_key),
                    ),
                    d,
                  )
              | inr x ↦ let (b, d) = (beside.1 c m).0 x in ((b.0, b.1, inr b.2, b.3, b.4), d)
            ]
          ]),
      (λ (b, d). elim b.2 [
        | inl at ↦ elim b.4 [
          | inl e ↦
              let e' = e ∙ ap (λ (x : Text × Text). new_node maps x.0 x.1) at in
              inl (e', (inside m).1 (subst (λ (n : Node). Descends maps n.id m) e' d))
          | inr under ↦ inr (
              inl (
                (below.1 c m).1 (
                  subst (λ k. By maps k c maps.parents) (ap (λ (x : Text × Text). x.0) at)
                      (Descends-By under),
                  d,
                )))
        ]
        | inr later ↦ inr (inr ((beside.1 c m).1 ((b.0, b.1, later, b.3, b.4), d)))
      ]),
    ),
  )

  Layered-other :
      (fuel : ℕ) (id key value : Text) (entries : List (Text × Text)) (next : Tree)
      → text_eq value id ≡ false
      → Layered (suc fuel) id entries next
      → Layered (suc fuel) id ((key, value) ∷ entries) next
  unfolding create_children IsEntry
  Layered-other fuel id key value entries next other beside = (
    rw other beside.0,
    λ c m. (
      (λ x. let (b, d) = (beside.1 c m).0 x in ((b.0, b.1, inr b.2, b.3, b.4), d)),
      (λ (b, d). elim b.2 [
        | inl at ↦
            let same : text_eq value id ≡ true =
              ap (λ (x : Text × Text). text_eq x.1 id) (sym at)
              ∙ ap (λ v. text_eq v id) b.3
              ∙ text_eq_refl id in
            absurd (false≢true (sym other ∙ same))
        | inr later ↦ (beside.1 c m).1 ((b.0, b.1, later, b.3, b.4), d)
      ]),
    ),
  )

  Layered-nil :
      (fuel : ℕ) (id : Text) → create_children fuel maps id [] ≡ some null → Layered fuel id [] null
  unfolding Above IsEntry
  Layered-nil fuel id e = (e, λ c m. ((λ h. absurd h), (λ b. b.0.2)))

  create_children-Layered :
      (fuel : ℕ) (id : Text) (entries : List (Text × Text))
      → Falls depth entries
      → depth id < fuel
      → (t : Tree) × Layered fuel id entries t
  unfolding create_children create_below
  create_children-Layered zero id [] h enough = absurd (omega arith)
  create_children-Layered (suc fuel) id [] h enough = (null, Layered-nil (suc fuel) id refl)
  create_children-Layered zero id (entry ∷ entries) h enough = absurd (omega arith)
  create_children-Layered (suc fuel) id ((key, value) ∷ entries) h enough =
      let beside = create_children-Layered (suc fuel) id entries h.1 enough in
      elim (Bool-cases (text_eq value id)) [
        | inl same ↦
            let lower : depth key < fuel =
              omega (arith, h.0, ap depth (text_eq_sound value id same)) in
            let below = create_children-Layered fuel key maps.parents falls lower in
            let built = create_below_lem maps depth falls fuel key lower in
            let same_tree = some-injective _ _ (sym built.1 ∙ below.1.0) in
            (
              node (new_node maps key value) below.0 beside.0,
              Layered-match fuel id key value entries below.0 beside.0 same
                  (subst (λ t. (m : Node) → In m t ↔ Descends maps key m) same_tree built.2) below.1
                  beside.1,
            )
        | inr other ↦ (beside.0, Layered-other fuel id key value entries beside.0 other beside.1)
      ]

  -- In the tree below a node, a node of an entry below it stands above what its own key has below it.
  pub create_below-Above :
      (fuel : ℕ) (id : Text)
      → depth id < fuel
      → (t : Tree) × (create_below fuel maps id ≡ some t)
        × ((c m : Node) → Above c m t ↔ Descends maps id c × Descends maps c.id m)
  unfolding create_below
  create_below-Above fuel id enough =
      let b = create_children-Layered fuel id maps.parents falls enough in
      (
        b.0,
        b.1.0,
        λ c m. (
          (λ a. let (way, d) = (b.1.1 c m).0 a in (By-Descends maps id c way, d)),
          (λ (way, d). (b.1.1 c m).1 (Descends-By way, d)),
        ),
      )
