-- ===== src/Cascade/Above.antt =====
-- Which node stands above which in the trees of WPD_MTP_dataDlg.cpp, and what
-- `DeleteAreaAndDeviceFindID` dooms.
use shujugongxiang.Prelude.{◌≡◌, refl, sym, subst, ◌↔◌, ◌∙◌, ◌⊎◌, inl, inr, true, ◌&&◌}
use shujugongxiang.Text.Defs.{Text, text_eq}
use shujugongxiang.Cascade.{Node, Tree, null, node}
use shujugongxiang.Cascade.Members.{In, Doomed}

-- `m` is below `c`, at any depth.
unfoldable pub Above : Node → Node → Tree → Type 0
Above c m null = ⊥
Above c m (node n first next) = ((c ≡ n) × In m first) ⊎ Above c m first ⊎ Above c m next

abbrev pub IsMarked : Text → Node → Type 0
IsMarked flag n = (n.delete_flag && text_eq n.delete_text flag) ≡ true

-- The node is `m`, or above it.
abbrev pub Over : Node → Node → Tree → Type 0
Over c m t = (In m t × (c ≡ m)) ⊎ Above c m t

Over-In :
    (c m : Node) (n : Node) (first next : Tree) → Over c m first → Over c m (node n first next)
unfolding In Above
Over-In c m n first next o = elim o [
  | inl (i, e) ↦ inl (inr (inl i), e)
  | inr a ↦ inr (inr (inl a))
]

Over-beside :
    (c m : Node) (n : Node) (first next : Tree) → Over c m next → Over c m (node n first next)
unfolding In Above
Over-beside c m n first next o = elim o [
  | inl (i, e) ↦ inl (inr (inr i), e)
  | inr a ↦ inr (inr (inr a))
]

-- A node is doomed when it or a node above it is marked.
pub Doomed-Over :
    (flag : Text) (m : Node) (t : Tree)
    → Doomed flag m t ↔ ((c : Node) × IsMarked flag c × Over c m t)
unfolding Doomed In Above
Doomed-Over flag m null =
    ((λ h. absurd h), (λ h. elim h.2 [ inl o ↦ absurd o.0 | inr a ↦ absurd a ]))
Doomed-Over flag m (node n first next) =
    let below = Doomed-Over flag m first in
    let beside = Doomed-Over flag m next in
    (
      (λ (h : (IsMarked flag n × ((m ≡ n) ⊎ In m first))
            ⊎ Doomed flag m first
            ⊎ Doomed flag m next).
          elim h [
            | inl (marked, w) ↦ elim w [
              | inl e ↦ (n, marked, inl (inl e, sym e))
              | inr i ↦ (n, marked, inr (inl (refl, i)))
            ]
            | inr rest ↦ elim rest [
              | inl f ↦ let (c, marked, o) = below.0 f in (c, marked, Over-In c m n first next o)
              | inr x ↦
                  let (c, marked, o) = beside.0 x in (c, marked, Over-beside c m n first next o)
            ]
          ]),
      (λ (c, marked, o). elim o [
        | inl (i, e) ↦ elim i [
          | inl at ↦ inl (subst (λ k. IsMarked flag k) (e ∙ at) marked, inl at)
          | inr rest ↦ elim rest [
            | inl f ↦ inr (inl (below.1 (c, marked, inl (f, e))))
            | inr x ↦ inr (inr (beside.1 (c, marked, inl (x, e))))
          ]
        ]
        | inr a ↦ elim a [
          | inl (at, i) ↦ inl (subst (λ k. IsMarked flag k) at marked, inr i)
          | inr rest ↦ elim rest [
            | inl f ↦ inr (inl (below.1 (c, marked, inr f)))
            | inr x ↦ inr (inr (beside.1 (c, marked, inr x)))
          ]
        ]
      ]),
    )
