-- ===== src/Cascade/Init/Hosts.antt =====
-- The areas that host a device which `InitDeleteTreeStruct` of WPD_MTP_dataDlg.cpp puts into the tree.
use shujugongxiang.Prelude.{
  ◌≡◌, refl, ap, sym, ◌∙◌, ◌⊎◌, inl, inr, ◌↔◌, true, ◌||◌, Bool-cases, arith,
}
use mathlib.Core.Bool.{false≢true}
use shujugongxiang.Text.Defs.{Text}
use shujugongxiang.Cascade.{Node, Tree, null, node}
use shujugongxiang.Cascade.Members.{In}
use shujugongxiang.Cascade.Above.{Above, Over}
use shujugongxiang.Cascade.Init.{is_area, has_area, append_last}

-- The node is this area, or above it.
abbrev pub Hosts : Text → Node → Tree → Type 0
Hosts area c t = (k : Node) × (is_area area k ≡ true) × Over c k t

-- `has_area` finds an area exactly where one stands.
pub has_area-In :
    (area : Text) (t : Tree)
    → (has_area area t ≡ true) ↔ ((k : Node) × (is_area area k ≡ true) × In k t)
unfolding has_area In
has_area-In area null = ((λ f. absurd (false≢true f)), (λ h. absurd h.2))
has_area-In area (node n first next) =
    let below = has_area-In area first in
    let beside = has_area-In area next in
    (
      (λ has. elim (Bool-cases (is_area area n)) [
        | inl here ↦ (n, here, inl refl)
        | inr other ↦ elim (Bool-cases (has_area area first)) [
          | inl f ↦ let (k, a, i) = below.0 f in (k, a, inr (inl i))
          | inr missing ↦
              let (k, a, i) = beside.0 (ground (arith, has, other, missing)) in (k, a, inr (inr i))
        ]
      ]),
      (λ (k, a, i). elim i [
        | inl e ↦ let here = sym (ap (is_area area) e) ∙ a in rw here refl
        | inr rest ↦ elim rest [
          | inl f ↦ let has = below.1 (k, a, f) in ground (arith, has)
          | inr x ↦ let has = beside.1 (k, a, x) in ground (arith, has)
        ]
      ]),
    )

-- The hosts among siblings and what is below them.
abbrev Parts : Text → Node → Node → Tree → Tree → Type 0
Parts area c n first next =
    (((c ≡ n) × (is_area area n ≡ true)) ⊎ ((c ≡ n) × (has_area area first ≡ true)))
    ⊎ Hosts area c first
    ⊎ Hosts area c next

Hosts-node :
    (area : Text) (c n : Node) (first next : Tree)
    → Hosts area c (node n first next) ↔ Parts area c n first next
unfolding In Above
Hosts-node area c n first next = (
  (λ (k, a, o). elim o [
    | inl (i, e) ↦ elim i [
      | inl at ↦ inl (inl (e ∙ at, sym (ap (is_area area) at) ∙ a))
      | inr rest ↦ elim rest [
        | inl f ↦ inr (inl (k, a, inl (f, e)))
        | inr x ↦ inr (inr (k, a, inl (x, e)))
      ]
    ]
    | inr above ↦ elim above [
      | inl (e, i) ↦ inl (inr (e, (has_area-In area first).1 (k, a, i)))
      | inr rest ↦ elim rest [ inl f ↦ inr (inl (k, a, inr f)) | inr x ↦ inr (inr (k, a, inr x)) ]
    ]
  ]),
  (λ (h : Parts area c n first next). elim h [
    | inl own ↦ elim own [
      | inl (e, a) ↦ (n, a, inl (inl refl, e))
      | inr (e, has) ↦ let (k, a, i) = (has_area-In area first).0 has in (k, a, inr (inl (e, i)))
    ]
    | inr rest ↦ elim rest [
      | inl (k, a, o) ↦ elim o [
        | inl (i, e) ↦ (k, a, inl (inr (inl i), e))
        | inr above ↦ (k, a, inr (inr (inl above)))
      ]
      | inr (k, a, o) ↦ elim o [
        | inl (i, e) ↦ (k, a, inl (inr (inr i), e))
        | inr above ↦ (k, a, inr (inr (inr above)))
      ]
    ]
  ]),
)

pub append_last-Above : (c m n : Node) (t : Tree) → Above c m (append_last n t) ↔ Above c m t
unfolding append_last Above In
append_last-Above c m n null = (
  (λ (h : ((c ≡ n) × ⊥) ⊎ ⊥ ⊎ ⊥). elim h [
    | inl own ↦ own.1
    | inr rest ↦ elim rest [ inl nothing ↦ nothing | inr nothing ↦ nothing ]
  ]),
  (λ nothing. absurd nothing),
)
append_last-Above c m n (node k first next) =
    let beside = append_last-Above c m n next in
    (
      (λ (h : ((c ≡ k) × In m first) ⊎ Above c m first ⊎ Above c m (append_last n next)). elim h [
        | inl own ↦ inl own
        | inr rest ↦ elim rest [ inl f ↦ inr (inl f) | inr x ↦ inr (inr (beside.0 x)) ]
      ]),
      (λ (h : ((c ≡ k) × In m first) ⊎ Above c m first ⊎ Above c m next). elim h [
        | inl own ↦ inl own
        | inr rest ↦ elim rest [ inl f ↦ inr (inl f) | inr x ↦ inr (inr (beside.1 x)) ]
      ]),
    )

-- Above before, or the host of the node that is put in.
abbrev pub Hung : Node → Node → Node → Text → Tree → Type 0
Hung c m n area t = Above c m t ⊎ ((m ≡ n) × Hosts area c t)

module _ (c m n k : Node) (area : Text) (first next first' next' : Tree) where
  -- From what stands in and above in the children and the siblings to the whole.
  pub add_to-node :
      (In m first' ↔ In m first ⊎ ((m ≡ n) × ((is_area area k || has_area area first) ≡ true)))
      → (Above c m first' ↔ Hung c m n area first)
      → (Above c m next' ↔ Hung c m n area next)
      → Above c m (node k first' next') ↔ Hung c m n area (node k first next)
  unfolding Above
  add_to-node i f x =
      let hosts = Hosts-node area c k first next in
      (
        (λ (h : ((c ≡ k) × In m first') ⊎ Above c m first' ⊎ Above c m next'). elim h [
          | inl (e, inside) ↦ elim (i.0 inside) [
            | inl old ↦ inl (inl (e, old))
            | inr (at, has) ↦ inr (
              at,
              hosts.1 (
                  inl (elim (Bool-cases (is_area area k)) [
                    | inl here ↦ inl (e, here)
                    | inr other ↦ inr (e, ground (arith, has, other))
                  ])),
            )
          ]
          | inr rest ↦ elim rest [
            | inl below ↦ elim (f.0 below) [
              | inl old ↦ inl (inr (inl old))
              | inr (at, host) ↦ inr (at, hosts.1 (inr (inl host)))
            ]
            | inr beside ↦ elim (x.0 beside) [
              | inl old ↦ inl (inr (inr old))
              | inr (at, host) ↦ inr (at, hosts.1 (inr (inr host)))
            ]
          ]
        ]),
        (λ (h : (((c ≡ k) × In m first) ⊎ Above c m first ⊎ Above c m next)
              ⊎ ((m ≡ n) × Hosts area c (node k first next))).
            elim h [
              | inl old ↦ elim old [
                | inl (e, inside) ↦ inl (e, i.1 (inl inside))
                | inr rest ↦ elim rest [
                  | inl below ↦ inr (inl (f.1 (inl below)))
                  | inr beside ↦ inr (inr (x.1 (inl beside)))
                ]
              ]
              | inr (at, host) ↦ elim (hosts.0 host) [
                | inl own ↦ elim own [
                  | inl (e, here) ↦ inl (e, i.1 (inr (at, ground (arith, here))))
                  | inr (e, has) ↦ inl (e, i.1 (inr (at, ground (arith, has))))
                ]
                | inr rest ↦ elim rest [
                  | inl below ↦ inr (inl (f.1 (inr (at, below))))
                  | inr beside ↦ inr (inr (x.1 (inr (at, beside))))
                ]
              ]
            ]),
      )
