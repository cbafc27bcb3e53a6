-- ===== src/Cascade/Init/Leaves.antt =====
-- The devices that `InitDeleteTreeStruct` of WPD_MTP_dataDlg.cpp puts into the tree have no children when
-- it builds what stands below them.
use mathlib.Core.Bool.{false≢true}
use shujugongxiang.Prelude.{
  ◌≡◌, refl, ap, sym, ◌∙◌, inl, inr, true, ◌&&◌, List, [], ◌∷◌, Bool-cases,
}
use shujugongxiang.Text.Defs.{Text, text_eq}
use shujugongxiang.Cascade.{
  Kind, kind_root, kind_areas, kind_devices, is_kind, Node, Tree, null, node,
}
use shujugongxiang.Cascade.Members.{In}
use shujugongxiang.Cascade.Build.{Maps}
use shujugongxiang.Cascade.Init.{parent_flag, is_area, is_top, append_last, add_to, attach, place}

abbrev pub IsDeviceNode : Node → Type 0
IsDeviceNode n = is_kind n.kind kind_devices ≡ true

-- Devices have no children yet.
unfoldable pub Leaves : Tree → Type 0
Leaves null = Unit
Leaves (node k first next) = (IsDeviceNode k → first ≡ null) × Leaves first × Leaves next

pub area_or_device : (k : Kind) → is_kind k kind_areas ≡ true → is_kind k kind_devices ≡ true → ⊥
unfolding is_kind
area_or_device kind_root a d = false≢true a
area_or_device kind_areas a d = false≢true d
area_or_device kind_devices a d = false≢true a

is_area-not_device : (area : Text) (k : Node) → is_area area k ≡ true → IsDeviceNode k → ⊥
is_area-not_device area k a d = elim (Bool-cases (is_kind k.kind kind_areas)) [
  | inl yes_area ↦ area_or_device k.kind yes_area d
  | inr other ↦ false≢true (sym (ap (λ b. b && text_eq k.id area) other) ∙ a)
]

append_last-Leaves : (n : Node) (t : Tree) → Leaves t → Leaves (append_last n t)
unfolding append_last Leaves
append_last-Leaves n null h = ((λ d. refl), tt, tt)
append_last-Leaves n (node k first next) h = (h.0, h.1, append_last-Leaves n next h.2)

add_to-Leaves : (n : Node) (area : Text) (t : Tree) → Leaves t → Leaves (add_to n area t)
unfolding add_to Leaves
add_to-Leaves n area null h = tt
add_to-Leaves n area (node k first next) h = elim (Bool-cases (is_area area k)) [
  | inl here ↦ rw here (
    (λ d. absurd (is_area-not_device area k here d)),
    append_last-Leaves n (add_to n area first) (add_to-Leaves n area first h.1),
    add_to-Leaves n area next h.2,
  )
  | inr other ↦ rw other (
    (λ d. ap (add_to n area) (h.0 d)),
    add_to-Leaves n area first h.1,
    add_to-Leaves n area next h.2,
  )
]

attach-Leaves : (root n : Node) (area : Text) (t : Tree) → Leaves t → Leaves (attach root n area t)
unfolding attach
attach-Leaves root n area t h = elim (Bool-cases (is_top area)) [
  | inl top ↦ rw top (append_last-Leaves n t h)
  | inr lower ↦ elim (Bool-cases (is_area area root)) [
    | inl here ↦
        rw (lower, here) (append_last-Leaves n (add_to n area t) (add_to-Leaves n area t h))
    | inr other ↦ rw (lower, other) (add_to-Leaves n area t h)
  ]
]

pub place-Leaves :
    (root : Node) (devices : Maps) (type_area : Text → Text) (entries : List (Text × Text))
    (t : Tree)
    → Leaves t
    → Leaves (place root devices type_area entries t)
unfolding place
place-Leaves root devices type_area [] t h = h
place-Leaves root devices type_area ((key, value) ∷ entries) t h =
    elim (Bool-cases (text_eq value parent_flag)) [
      | inl same ↦
          rw same (
            place-Leaves root devices type_area entries _
              (attach-Leaves root _ (type_area key) t h))
      | inr other ↦ rw other (place-Leaves root devices type_area entries t h)
    ]

pub areas-Leaves : (t : Tree) → ((m : Node) → In m t → m.kind ≡ kind_areas) → Leaves t
unfolding Leaves In is_kind
areas-Leaves null h = tt
areas-Leaves (node k first next) h = (
  (λ d. absurd (area_or_device k.kind (ap (λ x. is_kind x kind_areas) (h k (inl refl))) d)),
  areas-Leaves first (λ m i. h m (inr (inl i))),
  areas-Leaves next (λ m i. h m (inr (inr i))),
)
