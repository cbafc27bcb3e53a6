-- ===== src/Cascade/Members.antt =====
-- Which ids `DeleteAreaAndDeviceFindID` of WPD_MTP_dataDlg.cpp collects.
use shujugongxiang.Prelude.{
  ◌≡◌, refl, sym, subst, ◌∙◌, ◌⊎◌, inl, inr, ◌↔◌, true, false, ◌&&◌, List, [], ◌∷◌, Bool-cases,
}
use mathlib.Core.Bool.{false≢true}
use shujugongxiang.Text.Defs.{Text, text_eq, text_eq_sound}
use shujugongxiang.Cascade.{
  Kind, kind_root, kind_areas, kind_devices, is_kind, Node, Tree, null, node, add_key, Found,
  add_node, delete_find_id,
}

-- `x` is one of the keys.
unfoldable pub IsKey : Text → List Text → Type 0
IsKey x [] = ⊥
IsKey x (k ∷ keys) = (x ≡ k) ⊎ IsKey x keys

-- `m` is a node of the tree.
unfoldable pub In : Node → Tree → Type 0
In m null = ⊥
In m (node n first next) = (m ≡ n) ⊎ In m first ⊎ In m next

-- `m` is a node of the tree that is marked with `flag`, or stands below one that is.
unfoldable pub Doomed : Text → Node → Tree → Type 0
Doomed flag m null = ⊥
Doomed flag m (node n first next) =
    ((n.delete_flag && text_eq n.delete_text flag) ≡ true) × ((m ≡ n) ⊎ In m first)
    ⊎ Doomed flag m first
    ⊎ Doomed flag m next

-- The id of a doomed node of this kind.
abbrev pub DoomedId : Text → Kind → Text → Tree → Type 0
DoomedId flag kind x t = (m : Node) × Doomed flag m t × (is_kind m.kind kind ≡ true) × (x ≡ m.id)

abbrev pub InId : Kind → Text → Tree → Type 0
InId kind x t = (m : Node) × In m t × (is_kind m.kind kind ≡ true) × (x ≡ m.id)

add_key-IsKey :
    (x key : Text) (keys : List Text) → IsKey x (add_key key keys) ↔ (x ≡ key) ⊎ IsKey x keys
unfolding IsKey add_key
add_key-IsKey x key [] = ((λ h. h), (λ h. h))
add_key-IsKey x key (k ∷ keys) = elim (Bool-cases (text_eq k key)) [
  | inl same ↦
      let e : k ≡ key = text_eq_sound k key same in
      rw same (
        (λ (h : (x ≡ k) ⊎ IsKey x keys). inr h),
        (λ (h : (x ≡ key) ⊎ (x ≡ k) ⊎ IsKey x keys). elim h [
          | inl at ↦ inl (at ∙ sym e)
          | inr later ↦ later
        ]),
      )
  | inr other ↦ rw other (
    (λ (h : (x ≡ k) ⊎ IsKey x (add_key key keys)). elim h [
      | inl at ↦ inr (inl at)
      | inr later ↦ elim ((add_key-IsKey x key keys).0 later) [
        | inl at ↦ inl at
        | inr rest ↦ inr (inr rest)
      ]
    ]),
    (λ (h : (x ≡ key) ⊎ (x ≡ k) ⊎ IsKey x keys). elim h [
      | inl at ↦ inr ((add_key-IsKey x key keys).1 (inl at))
      | inr rest ↦ elim rest [
        | inl at ↦ inl at
        | inr later ↦ inr ((add_key-IsKey x key keys).1 (inr later))
      ]
    ]),
  )
]

abbrev pub keys_of : Kind → Found → List Text
keys_of kind_root found = []
keys_of kind_areas found = found.areas
keys_of kind_devices found = found.devices

abbrev pub IsGroup : Kind → Type 0
IsGroup kind = is_kind kind kind_root ≡ false

abbrev pub OwnId : Kind → Text → Node → Type 0
OwnId kind x n = (is_kind n.kind kind ≡ true) × (x ≡ n.id)

pub skip_own : {A B : Type 0} → ¬ A → B ↔ (A ⊎ B)
skip_own none = ((λ b. inr b), (λ h. elim h [ inl a ↦ absurd (none a) | inr b ↦ b ]))

own_entry :
    (x key : Text) (keys : List Text)
    → IsKey x (add_key key keys) ↔ ((true ≡ true) × (x ≡ key)) ⊎ IsKey x keys
own_entry x key keys = (
  (λ h. elim ((add_key-IsKey x key keys).0 h) [ inl e ↦ inl (refl, e) | inr later ↦ inr later ]),
  (λ h. elim h [
    | inl own ↦ (add_key-IsKey x key keys).1 (inl own.1)
    | inr later ↦ (add_key-IsKey x key keys).1 (inr later)
  ]),
)

pub add_node-IsKey :
    (kind : Kind) (x : Text) (n : Node) (found : Found)
    → IsGroup kind
    → IsKey x (keys_of kind (add_node n found)) ↔ OwnId kind x n ⊎ IsKey x (keys_of kind found)
unfolding add_node is_kind
add_node-IsKey kind_root x n found g = absurd (false≢true (sym g))
add_node-IsKey kind_areas x n found g = by_kind n.kind refl
  where
    by_kind :
        (k : Kind)
        → n.kind ≡ k
        → IsKey x (add_node n found).areas ↔ OwnId kind_areas x n ⊎ IsKey x found.areas
    by_kind kind_root e = rw e (skip_own (λ h. false≢true h.0))
    by_kind kind_areas e = rw e (own_entry x n.id found.areas)
    by_kind kind_devices e = rw e (skip_own (λ h. false≢true h.0))
add_node-IsKey kind_devices x n found g = by_kind n.kind refl
  where
    by_kind :
        (k : Kind)
        → n.kind ≡ k
        → IsKey x (add_node n found).devices ↔ OwnId kind_devices x n ⊎ IsKey x found.devices
    by_kind kind_root e = rw e (skip_own (λ h. false≢true h.0))
    by_kind kind_areas e = rw e (skip_own (λ h. false≢true h.0))
    by_kind kind_devices e = rw e (own_entry x n.id found.devices)

module _ (kind : Kind) (x : Text) (g : IsGroup kind) where
  pub delete_find_id-IsKey :
      (t : Tree) (found : Found)
      → IsKey x (keys_of kind (delete_find_id t found))
        ↔ InId kind x t ⊎ IsKey x (keys_of kind found)
  unfolding delete_find_id In
  delete_find_id-IsKey null found = skip_own (λ h. h.1)
  delete_find_id-IsKey (node n first next) found =
      let own = add_node-IsKey kind x n found g in
      let low = delete_find_id-IsKey first (add_node n found) in
      let side = delete_find_id-IsKey next (delete_find_id first (add_node n found)) in
      (
        (λ h. elim (side.0 h) [
          | inl s ↦ inl (s.0, inr (inr s.1), s.2, s.3)
          | inr h1 ↦ elim (low.0 h1) [
            | inl f ↦ inl (f.0, inr (inl f.1), f.2, f.3)
            | inr h2 ↦ elim (own.0 h2) [
              | inl o ↦ inl (n, inl refl, o.0, o.1)
              | inr before ↦ inr before
            ]
          ]
        ]),
        (λ h. elim h [
          | inl i ↦ elim i.1 [
            | inl e ↦
                side.1 (inr (low.1 (inr (own.1 (inl (subst (λ m. OwnId kind x m) e (i.2, i.3)))))))
            | inr below ↦ elim below [
              | inl f ↦ side.1 (inr (low.1 (inl (i.0, f, i.2, i.3))))
              | inr s ↦ side.1 (inl (i.0, s, i.2, i.3))
            ]
          ]
          | inr before ↦ side.1 (inr (low.1 (inr (own.1 (inr before)))))
        ]),
      )
