-- ===== src/Cascade/Init/Places.antt =====
-- Where `InitDeleteTreeStruct` of WPD_MTP_dataDlg.cpp puts the devices without a parent.
use shujugongxiang.Prelude.{
  ◌≡◌, refl, ap, sym, ◌∙◌, ◌⊎◌, inl, inr, ◌↔◌, Bool, true, ◌||◌, List, [], ◌∷◌, Bool-cases,
  if◌then◌else◌,
}
use mathlib.Core.Bool.{false≢true}
use shujugongxiang.Text.Defs.{Text, text_eq, text_eq_refl, text_eq_sound}
use shujugongxiang.Cascade.{kind_areas, kind_devices, is_kind, Node, Tree}
use shujugongxiang.Cascade.Members.{In}
use shujugongxiang.Cascade.Build.{Maps, new_node, IsEntry}
use shujugongxiang.Cascade.Init.{parent_flag, is_area, has_area, is_top, add_to, attach, place}
use shujugongxiang.Cascade.Init.Adding.{
  IsDevice, append_last-In, append_last-has_area, add_to-has_area, add_to-In,
}

-- The area of a device is the root or below it, or the device needs none.
abbrev pub taken : Node → Text → Tree → Bool
taken root area below = if is_top area then true else is_area area root || has_area area below

pub attach-In :
    (m root n : Node) (area : Text) (below : Tree)
    → In m (attach root n area below) ↔ In m below ⊎ ((m ≡ n) × (taken root area below ≡ true))
unfolding attach
attach-In m root n area below = elim (Bool-cases (is_top area)) [
  | inl top ↦
      let l = append_last-In m n below in
      rw top (
        (λ h. elim (l.0 h) [ inl old ↦ inl old | inr e ↦ inr (e, refl) ]),
        (λ (h : In m below ⊎ ((m ≡ n) × (true ≡ true))). elim h [
          | inl old ↦ l.1 (inl old)
          | inr (e, _) ↦ l.1 (inr e)
        ]),
      )
  | inr lower ↦
      let a = add_to-In m n area below in
      elim (Bool-cases (is_area area root)) [
        | inl here ↦
            let l = append_last-In m n (add_to n area below) in
            rw (lower, here)
              (
                (λ h. elim (l.0 h) [
                  | inl old ↦ elim (a.0 old) [ inl old' ↦ inl old' | inr (e, _) ↦ inr (e, refl) ]
                  | inr e ↦ inr (e, refl)
                ]),
                (λ (h : In m below ⊎ ((m ≡ n) × (true ≡ true))). elim h [
                  | inl old ↦ l.1 (inl (a.1 (inl old)))
                  | inr (e, _) ↦ l.1 (inr e)
                ]),
              )
        | inr other ↦ rw (lower, other) a
      ]
]

attach-has_area :
    (area place : Text) (root n : Node) (below : Tree)
    → IsDevice n
    → has_area area (attach root n place below) ≡ has_area area below
unfolding attach
attach-has_area area place root n below d = elim (Bool-cases (is_top place)) [
  | inl top ↦ rw top (append_last-has_area area n below d)
  | inr lower ↦ elim (Bool-cases (is_area place root)) [
    | inl here ↦
        rw (lower, here)
          (append_last-has_area area n (add_to n place below) d
            ∙ add_to-has_area area place n below d)
    | inr other ↦ rw (lower, other) (add_to-has_area area place n below d)
  ]
]

module _ (root : Node) (devices : Maps) (type_area : Text → Text) where
  -- A device without a parent, its area found.
  abbrev pub Placed : Node → List (Text × Text) → Tree → Type 0
  Placed m entries below =
      (key : Text) × IsEntry key parent_flag entries
      × (m ≡ new_node devices key parent_flag)
      × (taken root (type_area key) below ≡ true)

  module _ (kinds : devices.kind ≡ kind_devices) where
    new_node-IsDevice : (key value : Text) → IsDevice (new_node devices key value)
    unfolding is_kind new_node
    new_node-IsDevice key value = ap (λ k. is_kind k kind_areas) kinds

    -- The tree gets exactly the devices without a parent whose area is there.
    pub place-In :
        (m : Node) (entries : List (Text × Text)) (below : Tree)
        → In m (place root devices type_area entries below) ↔ In m below ⊎ Placed m entries below
    unfolding place IsEntry
    place-In m [] below = (
      (λ old. inl old),
      (λ (h : In m below ⊎ Placed m [] below). elim h [ inl old ↦ old | inr p ↦ absurd p.1 ]),
    )
    place-In m ((key, value) ∷ entries) below = elim (Bool-cases (text_eq value parent_flag)) [
      | inl same ↦
          let n = new_node devices key value in
          let below' = attach root n (type_area key) below in
          let is_parent : value ≡ parent_flag = text_eq_sound value parent_flag same in
          let rest = place-In m entries below' in
          let attached = attach-In m root n (type_area key) below in
          let keep = λ (area : Text).
            ap (λ b. if is_top area then true else is_area area root || b)
              (attach-has_area area (type_area key) root n below (new_node-IsDevice key value)) in
          rw same (
            (λ h. elim (rest.0 h) [
              | inl old ↦ elim (attached.0 old) [
                | inl old' ↦ inl old'
                | inr (w, has) ↦ inr (
                  key,
                  inl (ap (λ v. (key, v)) (sym is_parent)),
                  w ∙ ap (λ v. new_node devices key v) is_parent,
                  has,
                )
              ]
              | inr (key', e, w, has) ↦ inr (key', inr e, w, sym (keep (type_area key')) ∙ has)
            ]),
            (λ (h : In m below ⊎ Placed m ((key, value) ∷ entries) below). elim h [
              | inl old ↦ rest.1 (inl (attached.1 (inl old)))
              | inr (key', e, w, has) ↦ elim e [
                | inl at ↦ rest.1 (
                    inl (
                      attached.1 (
                        inr (
                          w ∙ ap (λ (x : Text × Text). new_node devices x.0 x.1) at,
                          sym (ap (λ (x : Text × Text). taken root (type_area x.0) below) at) ∙ has,
                        ))))
                | inr later ↦ rest.1 (inr (key', later, w, keep (type_area key') ∙ has))
              ]
            ]),
          )
      | inr other ↦
          let rest = place-In m entries below in
          rw other (
            (λ h. elim (rest.0 h) [
              | inl old ↦ inl old
              | inr (key', e, w, has) ↦ inr (key', inr e, w, has)
            ]),
            (λ (h : In m below ⊎ Placed m ((key, value) ∷ entries) below). elim h [
              | inl old ↦ rest.1 (inl old)
              | inr (key', e, w, has) ↦ elim e [
                | inl at ↦ absurd (
                    false≢true (
                      sym other
                      ∙ ap (λ (x : Text × Text). text_eq x.1 parent_flag) (sym at)
                      ∙ text_eq_refl parent_flag))
                | inr later ↦ rest.1 (inr (key', later, w, has))
              ]
            ]),
          )
    ]
