-- ===== src/Cascade/Init/Hung.antt =====
-- What stands above a device without a parent after `InitDeleteTreeStruct` of WPD_MTP_dataDlg.cpp has put
-- it into the tree.
use shujugongxiang.Prelude.{
  ◌≡◌, refl, ap, sym, subst, ◌∙◌, ◌⊎◌, inl, inr, ◌↔◌, true, false, List, [], ◌∷◌, Bool-cases, arith,
}
use mathlib.Core.Bool.{false≢true}
use shujugongxiang.Text.Defs.{Text, text_eq, text_eq_refl, text_eq_sound}
use shujugongxiang.Cascade.{kind_areas, kind_devices, is_kind, Node, Tree, null, node}
use shujugongxiang.Cascade.Members.{In}
use shujugongxiang.Cascade.Above.{Above}
use shujugongxiang.Cascade.Build.{Maps, new_node, IsEntry}
use shujugongxiang.Cascade.Init.{parent_flag, is_area, is_top, append_last, add_to, attach, place}
use shujugongxiang.Cascade.Init.Adding.{IsDevice, append_last-In, add_to-In}
use shujugongxiang.Cascade.Init.Places.{attach-In}
use shujugongxiang.Cascade.Init.Hosts.{Hosts, Hung, append_last-Above, add_to-node}

add_to-Above :
    (c m n : Node) (area : Text) (t : Tree) → Above c m (add_to n area t) ↔ Hung c m n area t
unfolding add_to Above In
add_to-Above c m n area null = (
  (λ h. absurd h),
  (λ h. elim h [
    | inl nothing ↦ absurd nothing
    | inr (e, host) ↦ elim host.2 [ inl o ↦ absurd o.0 | inr a ↦ absurd a ]
  ]),
)
add_to-Above c m n area (node k first next) =
    let f = add_to-Above c m n area first in
    let x = add_to-Above c m n area next in
    let i = add_to-In m n area first in
    elim (Bool-cases (is_area area k)) [
      | inl here ↦
          let l = append_last-In m n (add_to n area first) in
          let a = append_last-Above c m n (add_to n area first) in
          rw here (
            add_to-node c m n k area first next (append_last n (add_to n area first))
              (add_to n area next)
              (
                (λ h. elim (l.0 h) [
                  | inl old ↦ elim (i.0 old) [
                    | inl old' ↦ inl old'
                    | inr (e, has) ↦ inr (e, rw here refl)
                  ]
                  | inr e ↦ inr (e, rw here refl)
                ]),
                (λ h. elim h [ inl old ↦ l.1 (inl (i.1 (inl old))) | inr (e, has) ↦ l.1 (inr e) ]),
              )
              ((λ h. f.0 (a.0 h)), (λ h. a.1 (f.1 h))) x)
      | inr other ↦ rw other (
          add_to-node c m n k area first next (add_to n area first) (add_to n area next)
            (
              (λ h. elim (i.0 h) [
                | inl old ↦ inl old
                | inr (e, has) ↦ inr (e, rw (other, has) refl)
              ]),
              (λ h. elim h [
                | inl old ↦ i.1 (inl old)
                | inr (e, has) ↦ i.1 (inr (e, ground (arith, has, other)))
              ]),
            )
            f x)
    ]

-- A device is hung below its area, unless it stands right below the root.
abbrev Attached : Node → Node → Node → Text → Tree → Type 0
Attached c m n area t = Above c m t ⊎ ((m ≡ n) × (is_top area ≡ false) × Hosts area c t)

attach-Above :
    (c m root n : Node) (area : Text) (below : Tree)
    → Above c m (attach root n area below) ↔ Attached c m n area below
unfolding attach
attach-Above c m root n area below = elim (Bool-cases (is_top area)) [
  | inl top ↦
      let a = append_last-Above c m n below in
      rw top (
        (λ h. inl (a.0 h)),
        (λ (h : Above c m below ⊎ ((m ≡ n) × (true ≡ false) × Hosts area c below)). elim h [
          | inl old ↦ a.1 old
          | inr (e, f, _) ↦ absurd (false≢true (sym f))
        ]),
      )
  | inr lower ↦
      let a = add_to-Above c m n area below in
      let l = append_last-Above c m n (add_to n area below) in
      let here : Above c m (add_to n area below) ↔ Attached c m n area below = (
        (λ h. elim (a.0 h) [ inl old ↦ inl old | inr (e, host) ↦ inr (e, lower, host) ]),
        (λ h. elim h [ inl old ↦ a.1 (inl old) | inr (e, f, host) ↦ a.1 (inr (e, host)) ]),
      ) in
      elim (Bool-cases (is_area area root)) [
        | inl at ↦
            let e : attach root n area below ≡ append_last n (add_to n area below) =
              rw (lower, at) refl in
            subst (λ t. Above c m t ↔ Attached c m n area below) (sym e)
              ((λ h. here.0 (l.0 h)), (λ h. l.1 (here.1 h)))
        | inr other ↦
            let e : attach root n area below ≡ add_to n area below = rw (lower, other) refl in
            subst (λ t. Above c m t ↔ Attached c m n area below) (sym e) here
      ]
]

-- A device hosts nothing: an area has the same hosts afterwards.
attach-Hosts :
    (area at : Text) (c root n : Node) (below : Tree)
    → IsDevice n
    → Hosts area c (attach root n at below) ↔ Hosts area c below
attach-Hosts area at c root n below d = (
  (λ (k, a, o). (
    k,
    a,
    elim o [
      | inl (i, e) ↦ elim ((attach-In k root n at below).0 i) [
        | inl old ↦ inl (old, e)
        | inr (same, _) ↦ absurd (no_area k a same)
      ]
      | inr above ↦ elim ((attach-Above c k root n at below).0 above) [
        | inl old ↦ inr old
        | inr (same, _, _) ↦ absurd (no_area k a same)
      ]
    ],
  )),
  (λ (k, a, o). (
    k,
    a,
    elim o [
      | inl (i, e) ↦ inl ((attach-In k root n at below).1 (inl i), e)
      | inr above ↦ inr ((attach-Above c k root n at below).1 (inl above))
    ],
  )),
)
  where
    no_area : (k : Node) → is_area area k ≡ true → k ≡ n → ⊥
    no_area k a same =
        let kind : is_kind k.kind kind_areas ≡ false =
          ap (λ (x : Node). is_kind x.kind kind_areas) same ∙ d in
        ground (arith, a, kind)

module _ (root : Node) (devices : Maps) (type_area : Text → Text) where
  -- The node is a device without a parent, `c` its area or above that.
  abbrev pub HungBelow : Node → Node → List (Text × Text) → Tree → Type 0
  HungBelow c m entries below =
      (key : Text) × IsEntry key parent_flag entries
      × (m ≡ new_node devices key parent_flag)
      × (is_top (type_area key) ≡ false)
      × Hosts (type_area key) c below

  pub place-Above :
      devices.kind ≡ kind_devices
      → (c m : Node) (entries : List (Text × Text)) (below : Tree)
      → Above c m (place root devices type_area entries below)
        ↔ Above c m below ⊎ HungBelow c m entries below
  unfolding place IsEntry new_node is_kind
  place-Above kinds c m [] below = (
    (λ old. inl old),
    (λ (h : Above c m below ⊎ HungBelow c m [] below). elim h [
      | inl old ↦ old
      | inr p ↦ absurd p.1
    ]),
  )
  place-Above kinds c m ((key, value) ∷ entries) below =
      elim (Bool-cases (text_eq value parent_flag)) [
        | inl same ↦
            let n = new_node devices key value in
            let below' = attach root n (type_area key) below in
            let is_parent : value ≡ parent_flag = text_eq_sound value parent_flag same in
            let rest = place-Above kinds c m entries below' in
            let attached = attach-Above c m root n (type_area key) below in
            let keep = λ (area : Text).
              attach-Hosts area (type_area key) c root n below
                (ap (λ k. is_kind k kind_areas) kinds) in
            rw same (
              (λ h. elim (rest.0 h) [
                | inl old ↦ elim (attached.0 old) [
                  | inl old' ↦ inl old'
                  | inr (w, lower, host) ↦ inr (
                    key,
                    inl (ap (λ v. (key, v)) (sym is_parent)),
                    w ∙ ap (λ v. new_node devices key v) is_parent,
                    lower,
                    host,
                  )
                ]
                | inr (key', e, w, lower, host) ↦
                    inr (key', inr e, w, lower, (keep (type_area key')).0 host)
              ]),
              (λ (h : Above c m below ⊎ HungBelow c m ((key, value) ∷ entries) below). elim h [
                | inl old ↦ rest.1 (inl (attached.1 (inl old)))
                | inr (key', e, w, lower, host) ↦ elim e [
                  | inl at ↦
                      let same_key = ap (λ (x : Text × Text). type_area x.0) at in
                      rest.1 (
                        inl (
                          attached.1 (
                            inr (
                              w ∙ ap (λ (x : Text × Text). new_node devices x.0 x.1) at,
                              sym (ap is_top same_key) ∙ lower,
                              subst (λ area. Hosts area c below) same_key host,
                            ))))
                  | inr later ↦ rest.1 (inr (key', later, w, lower, (keep (type_area key')).1 host))
                ]
              ]),
            )
        | inr other ↦
            let rest = place-Above kinds c m entries below in
            rw other (
              (λ h. elim (rest.0 h) [
                | inl old ↦ inl old
                | inr (key', e, w, lower, host) ↦ inr (key', inr e, w, lower, host)
              ]),
              (λ (h : Above c m below ⊎ HungBelow c m ((key, value) ∷ entries) below). elim h [
                | inl old ↦ rest.1 (inl old)
                | inr (key', e, w, lower, host) ↦ elim e [
                  | inl at ↦ absurd (
                      false≢true (
                        sym other
                        ∙ ap (λ (x : Text × Text). text_eq x.1 parent_flag) (sym at)
                        ∙ text_eq_refl parent_flag))
                  | inr later ↦ rest.1 (inr (key', later, w, lower, host))
                ]
              ]),
            )
      ]
