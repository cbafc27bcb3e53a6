-- ===== src/Cascade/Build.antt =====
-- `CreateDeleteTreeStructDevices` and `CreateDeleteTreeStructAreasC` of WPD_MTP_dataDlg.cpp: the tree
-- below a node, from the maps of parents, states and names of the devices or of the areas. The map
-- from area ids to nodes that the second one fills is left out.
pub mod Layers
use shujugongxiang.Prelude.{
  ℕ, zero, suc, ◌<◌, ◌≡◌, refl, ap, sym, subst, ◌↔◌, ◌∙◌, ◌⊎◌, inl, inr, true, false, ◌||◌, Option,
  none, some, List, [], ◌∷◌, All, Bool-cases, if◌then◌else◌, arith,
}
use mathlib.Core.Bool.{false≢true}
use shujugongxiang.Text.Defs.{Text, text_eq, text_eq_sound, text_eq_refl}
use shujugongxiang.Cascade.{Kind, Node, Tree, null, node, real_flag, want_flag}
use shujugongxiang.Cascade.Members.{In}

-- `m_map…ParentDelete` in the order of its iteration, and what the two other maps give for a key, the
-- empty text for a missing one; the kind of node that is built from them.
pub record Maps : Type 0 where
  pub kind : Kind
  pub parents : List (Text × Text)
  pub status : Text → Text
  pub name : Text → Text

unfoldable pub new_node : Maps → Text → Text → Node
new_node maps key value = record {
  id = key;
  parent_id = value;
  name = maps.name key;
  kind = maps.kind;
  delete_flag = text_eq (maps.status key) real_flag || text_eq (maps.status key) want_flag;
  delete_text = maps.status key;
}

-- A child found: it is the first child, or the next sibling of the child found before.
unfoldable pub link : Node → Option Tree → Option Tree → Option Tree
link n none next = none
link n (some first) none = none
link n (some first) (some next) = some (node n first next)

-- The loop over the entries of the map, with the depth of recursion that is left.
pub create_children : ℕ → Maps → Text → List (Text × Text) → Option Tree
create_children fuel maps id [] = some null
create_children zero maps id (entry ∷ entries) = none
create_children (suc fuel) maps id ((key, value) ∷ entries) =
    let first = create_children fuel maps key maps.parents in
    let next = create_children (suc fuel) maps id entries in
    if text_eq value id then link (new_node maps key value) first next else next

-- What stands below the node with this id.
pub create_below : ℕ → Maps → Text → Option Tree
create_below fuel maps id = create_children fuel maps id maps.parents

unfoldable pub IsEntry : Text → Text → List (Text × Text) → Type 0
IsEntry key value [] = ⊥
IsEntry key value (e ∷ entries) = ((key, value) ≡ e) ⊎ IsEntry key value entries

-- The node of an entry stands below its parent, and so does all that stands below the entry's key.
pub data Descends (maps : Maps) : Text → Node → Type 0 where
  child :
      (key value : Text)
      → IsEntry key value maps.parents
      → Descends maps value (new_node maps key value)
  deeper :
      (key value : Text) (m : Node)
      → IsEntry key value maps.parents
      → Descends maps key m
      → Descends maps value m

-- The parents of the map have no cycle: a depth falls from the parent to the child.
abbrev pub Falls : (Text → ℕ) → List (Text × Text) → Type 0
Falls depth = All (λ (e : Text × Text). depth e.0 < depth e.1)

-- Below `id` by one of these entries.
abbrev pub By : Maps → Text → Node → List (Text × Text) → Type 0
By maps id m entries =
    (key : Text) × (value : Text) × IsEntry key value entries
    × (value ≡ id)
    × ((m ≡ new_node maps key value) ⊎ Descends maps key m)

pub Descends-By :
    {maps : Maps} {id : Text} {m : Node} → Descends maps id m → By maps id m maps.parents
Descends-By (child key value e) = (key, value, e, refl, inl refl)
Descends-By (deeper key value m e below) = (key, value, e, refl, inr below)

pub By-Descends :
    (maps : Maps) (id : Text) (m : Node) → By maps id m maps.parents → Descends maps id m
By-Descends maps id m (key, value, e, same, way) =
    subst (λ v. Descends maps v m) same
      (elim way [
        | inl is_node ↦ subst (λ n. Descends maps value n) (sym is_node) (child key value e)
        | inr below ↦ deeper key value m e below
      ])

module _ (maps : Maps) (depth : Text → ℕ) (falls : Falls depth maps.parents) where
  Built : ℕ → Text → List (Text × Text) → Type 0
  Built fuel id entries =
      (t : Tree) × (create_children fuel maps id entries ≡ some t)
      × ((m : Node) → In m t ↔ By maps id m entries)

  Built-match :
      (fuel : ℕ) (id key value : Text) (entries : List (Text × Text))
      → text_eq value id ≡ true
      → Built fuel key maps.parents
      → Built (suc fuel) id entries
      → Built (suc fuel) id ((key, value) ∷ entries)
  unfolding create_children link In Built IsEntry
  Built-match fuel id key value entries same first next = (
    node (new_node maps key value) first.0 next.0,
    rw (same, first.1, next.1) refl,
    λ m. (
      (λ (h : (m ≡ new_node maps key value) ⊎ In m first.0 ⊎ In m next.0). elim h [
        | inl e ↦ (key, value, inl refl, text_eq_sound value id same, inl e)
        | inr rest ↦ elim rest [
          | inl f ↦ (
            key,
            value,
            inl refl,
            text_eq_sound value id same,
            inr (By-Descends maps key m ((first.2 m).0 f)),
          )
          | inr n ↦ let b = (next.2 m).0 n in (b.0, b.1, inr b.2, b.3, b.4)
        ]
      ]),
      (λ b. elim b.2 [
        | inl at ↦ elim b.4 [
          | inl e ↦ inl (e ∙ ap (λ (x : Text × Text). new_node maps x.0 x.1) at)
          | inr below ↦ inr (
              inl (
                (first.2 m).1 (
                  subst (λ k. By maps k m maps.parents) (ap (λ (x : Text × Text). x.0) at)
                    (Descends-By below))))
        ]
        | inr later ↦ inr (inr ((next.2 m).1 (b.0, b.1, later, b.3, b.4)))
      ]),
    ),
  )

  Built-other :
      (fuel : ℕ) (id key value : Text) (entries : List (Text × Text))
      → text_eq value id ≡ false
      → Built (suc fuel) id entries
      → Built (suc fuel) id ((key, value) ∷ entries)
  unfolding create_children Built IsEntry
  Built-other fuel id key value entries other next = (
    next.0,
    rw other next.1,
    λ m. (
      (λ n. let b = (next.2 m).0 n in (b.0, b.1, inr b.2, b.3, b.4)),
      (λ b. elim b.2 [
        | inl at ↦
            let same : text_eq value id ≡ true =
              ap (λ (x : Text × Text). text_eq x.1 id) (sym at)
              ∙ ap (λ v. text_eq v id) b.3
              ∙ text_eq_refl id in
            absurd (false≢true (sym other ∙ same))
        | inr later ↦ (next.2 m).1 (b.0, b.1, later, b.3, b.4)
      ]),
    ),
  )

  Built-nil : (fuel : ℕ) (id : Text) → Built fuel id []
  unfolding create_children In Built IsEntry
  Built-nil zero id = (null, refl, λ m. ((λ h. absurd h), (λ b. b.2)))
  Built-nil (suc fuel) id = (null, refl, λ m. ((λ h. absurd h), (λ b. b.2)))

  create_children-Built :
      (fuel : ℕ) (id : Text) (entries : List (Text × Text))
      → Falls depth entries
      → depth id < fuel
      → Built fuel id entries
  create_children-Built fuel id [] h enough = Built-nil fuel id
  create_children-Built zero id (entry ∷ entries) h enough = absurd (omega arith)
  create_children-Built (suc fuel) id ((key, value) ∷ entries) h enough =
      elim (Bool-cases (text_eq value id)) [
        | inl same ↦
            Built-match fuel id key value entries same
              (create_children-Built fuel key maps.parents falls
                (omega (arith, h.0, ap depth (text_eq_sound value id same))))
              (create_children-Built (suc fuel) id entries h.1 enough)
        | inr other ↦
            Built-other fuel id key value entries other
              (create_children-Built (suc fuel) id entries h.1 enough)
      ]

  -- If the parents have no cycle, the construction ends, with fuel above the depth of the node, and the
  -- tree holds exactly the nodes of the entries that stand below it, at any depth.
  pub create_below_lem :
      (fuel : ℕ) (id : Text)
      → depth id < fuel
      → (t : Tree) × (create_below fuel maps id ≡ some t)
        × ((m : Node) → In m t ↔ Descends maps id m)
  unfolding create_below Built
  create_below_lem fuel id enough =
      let b = create_children-Built fuel id maps.parents falls enough in
      (
        b.0,
        b.1,
        λ m. ((λ i. By-Descends maps id m ((b.2 m).0 i)), (λ d. (b.2 m).1 (Descends-By d))),
      )
