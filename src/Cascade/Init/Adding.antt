-- ===== src/Cascade/Init/Adding.antt =====
-- A node put behind the last of the siblings, or below an area, in `InitDeleteTreeStruct` of
-- WPD_MTP_dataDlg.cpp.
use shujugongxiang.Prelude.{
  ◌≡◌, refl, ap, ap₂, ◌∙◌, ◌⊎◌, inl, inr, ◌↔◌, true, false, ◌||◌, Bool-cases, arith,
}
use mathlib.Core.Bool.{false≢true}
use shujugongxiang.Text.Defs.{Text}
use shujugongxiang.Cascade.{kind_areas, is_kind, Node, Tree, null, node}
use shujugongxiang.Cascade.Members.{In}
use shujugongxiang.Cascade.Init.{is_area, has_area, append_last, add_to, place}

pub append_last-In : (m n : Node) (t : Tree) → In m (append_last n t) ↔ In m t ⊎ (m ≡ n)
unfolding append_last In
append_last-In m n null = (
  (λ (h : (m ≡ n) ⊎ ⊥ ⊎ ⊥). elim h [
    | inl e ↦ inr e
    | inr rest ↦ elim rest [ inl nothing ↦ absurd nothing | inr nothing ↦ absurd nothing ]
  ]),
  (λ (h : ⊥ ⊎ (m ≡ n)). elim h [ inl nothing ↦ absurd nothing | inr e ↦ inl e ]),
)
append_last-In m n (node k first next) =
    let rest = append_last-In m n next in
    (
      (λ (h : (m ≡ k) ⊎ In m first ⊎ In m (append_last n next)). elim h [
        | inl e ↦ inl (inl e)
        | inr below ↦ elim below [
          | inl f ↦ inl (inr (inl f))
          | inr x ↦ elim (rest.0 x) [ inl old ↦ inl (inr (inr old)) | inr e ↦ inr e ]
        ]
      ]),
      (λ (h : ((m ≡ k) ⊎ In m first ⊎ In m next) ⊎ (m ≡ n)). elim h [
        | inl old ↦ elim old [
          | inl e ↦ inl e
          | inr below ↦ elim below [ inl f ↦ inr (inl f) | inr x ↦ inr (inr (rest.1 (inl x))) ]
        ]
        | inr e ↦ inr (inr (rest.1 (inr e)))
      ]),
    )

-- A device is never the entry of an area.
abbrev pub IsDevice : Node → Type 0
IsDevice n = is_kind n.kind kind_areas ≡ false

pub append_last-has_area :
    (area : Text) (n : Node) (t : Tree)
    → IsDevice n
    → has_area area (append_last n t) ≡ has_area area t
unfolding append_last has_area
append_last-has_area area n null d = ground arith
append_last-has_area area n (node k first next) d =
    ap (λ b. is_area area k || (has_area area first || b)) (append_last-has_area area n next d)

pub add_to-has_area :
    (area place : Text) (n : Node) (t : Tree)
    → IsDevice n
    → has_area area (add_to n place t) ≡ has_area area t
unfolding add_to has_area
add_to-has_area area place n null d = refl
add_to-has_area area place n (node k first next) d = elim (Bool-cases (is_area place k)) [
  | inl here ↦ rw here (
      ap₂ (λ a b. is_area area k || (a || b))
        (append_last-has_area area n (add_to n place first) d
          ∙ add_to-has_area area place n first d)
        (add_to-has_area area place n next d))
  | inr other ↦ rw other (
      ap₂ (λ a b. is_area area k || (a || b)) (add_to-has_area area place n first d)
        (add_to-has_area area place n next d))
]

-- The node is put below the area, if the area is there.
pub add_to-In :
    (m n : Node) (area : Text) (t : Tree)
    → In m (add_to n area t) ↔ In m t ⊎ ((m ≡ n) × (has_area area t ≡ true))
unfolding add_to has_area In
add_to-In m n area null = (
  (λ nothing. absurd nothing),
  (λ (h : ⊥ ⊎ ((m ≡ n) × (false ≡ true))). elim h [
    | inl nothing ↦ absurd nothing
    | inr (e, f) ↦ absurd (false≢true f)
  ]),
)
add_to-In m n area (node k first next) =
    let f = add_to-In m n area first in
    let x = add_to-In m n area next in
    elim (Bool-cases (is_area area k)) [
      | inl here ↦
          let l = append_last-In m n (add_to n area first) in
          rw here (
            (λ (h : (m ≡ k)
                  ⊎ In m (append_last n (add_to n area first))
                  ⊎ In m (add_to n area next)).
                elim h [
                  | inl e ↦ inl (inl e)
                  | inr rest ↦ elim rest [
                    | inl below ↦ elim (l.0 below) [
                      | inl old ↦ elim (f.0 old) [
                        | inl old' ↦ inl (inr (inl old'))
                        | inr (e, _) ↦ inr (e, refl)
                      ]
                      | inr e ↦ inr (e, refl)
                    ]
                    | inr beside ↦ elim (x.0 beside) [
                      | inl old ↦ inl (inr (inr old))
                      | inr (e, _) ↦ inr (e, refl)
                    ]
                  ]
                ]),
            (λ (h : ((m ≡ k) ⊎ In m first ⊎ In m next) ⊎ ((m ≡ n) × (true ≡ true))). elim h [
              | inl old ↦ elim old [
                | inl e ↦ inl e
                | inr rest ↦ elim rest [
                  | inl below ↦ inr (inl (l.1 (inl (f.1 (inl below)))))
                  | inr beside ↦ inr (inr (x.1 (inl beside)))
                ]
              ]
              | inr (e, _) ↦ inr (inl (l.1 (inr e)))
            ]),
          )
      | inr other ↦ rw other (
        (λ (h : (m ≡ k) ⊎ In m (add_to n area first) ⊎ In m (add_to n area next)). elim h [
          | inl e ↦ inl (inl e)
          | inr rest ↦ elim rest [
            | inl below ↦ elim (f.0 below) [
              | inl old ↦ inl (inr (inl old))
              | inr (e, has) ↦ inr (e, rw has refl)
            ]
            | inr beside ↦ elim (x.0 beside) [
              | inl old ↦ inl (inr (inr old))
              | inr (e, has) ↦ inr (e, ground (arith, has))
            ]
          ]
        ]),
        (λ (h : ((m ≡ k) ⊎ In m first ⊎ In m next)
              ⊎ ((m ≡ n) × ((has_area area first || has_area area next) ≡ true))).
            elim h [
              | inl old ↦ elim old [
                | inl e ↦ inl e
                | inr rest ↦ elim rest [
                  | inl below ↦ inr (inl (f.1 (inl below)))
                  | inr beside ↦ inr (inr (x.1 (inl beside)))
                ]
              ]
              | inr (e, has) ↦ elim (Bool-cases (has_area area first)) [
                | inl there ↦ inr (inl (f.1 (inr (e, there))))
                | inr missing ↦ inr (inr (x.1 (inr (e, ground (arith, has, missing)))))
              ]
            ]),
      )
    ]
