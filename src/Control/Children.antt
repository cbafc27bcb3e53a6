-- ===== src/Control/Children.antt =====
-- The items that `FindChildTree` and `FindChildTreeType` of WPD_MTP_dataDlg.cpp insert below an item.
use shujugongxiang.Prelude.{
  ℕ, zero, suc, ◌<◌, ◌≡◌, refl, ap, sym, subst, ◌↔◌, ◌∙◌, ◌⊎◌, inl, inr, true, false, Option, none,
  some, List, [], ◌∷◌, ◌++◌, Bool-cases, arith,
}
use mathlib.Core.Bool.{false≢true}
use shujugongxiang.Text.Defs.{Text, is_empty, text_eq, text_eq_sound, text_eq_refl}
use shujugongxiang.Sync.Selection.{Item, Items, nil, cons, add_id}
use shujugongxiang.Cascade.Members.{IsKey}
use shujugongxiang.Cascade.Build.{IsEntry, Falls}
use shujugongxiang.Control.{TextMap, join, find_children}

-- The id stands below the first one, by the map of parents.
pub data Under (parents : TextMap) : Text → Text → Type 0 where
  child : (key value : Text) → IsEntry key value parents → Under parents value key
  deeper :
      (key value x : Text) → IsEntry key value parents → Under parents key x → Under parents value x

abbrev pub HasText : Text → Type 0
HasText x = is_empty x ≡ false

pub IsKey-append : (x : Text) (xs ys : List Text) → IsKey x (xs ++ ys) ↔ IsKey x xs ⊎ IsKey x ys
unfolding IsKey
IsKey-append x [] ys = ((λ h. inr h), (λ h. elim h [ inl n ↦ absurd n | inr r ↦ r ]))
IsKey-append x (k ∷ xs) ys =
    let (there, back) = IsKey-append x xs ys in
    (
      (λ h. elim h [
        | inl e ↦ inl (inl e)
        | inr later ↦ elim (there later) [ inl l ↦ inl (inr l) | inr r ↦ inr r ]
      ]),
      (λ h. elim h [
        | inl l ↦ elim l [ inl e ↦ inl e | inr m ↦ inr (back (inl m)) ]
        | inr r ↦ inr (back (inr r))
      ]),
    )

pub add_id-IsKey : (x k : Text) → IsKey x (add_id k) ↔ (x ≡ k) × HasText x
unfolding IsKey add_id
add_id-IsKey x [] = ((λ h. absurd h), (λ h. absurd (false≢true (sym h.1 ∙ ap is_empty h.0))))
add_id-IsKey x (c ∷ k) =
    ((λ h. elim h [ inl e ↦ (e, ap is_empty e) | inr n ↦ absurd n ]), (λ h. inl h.0))

-- What stands below `id` by one of these entries.
abbrev pub By : TextMap → Text → Text → TextMap → Type 0
By parents id x entries =
    (key : Text) × (value : Text) × IsEntry key value entries
    × (value ≡ id)
    × ((x ≡ key) ⊎ Under parents key x)

pub Under-By : {parents : TextMap} {id x : Text} → Under parents id x → By parents id x parents
Under-By (child key value e) = (key, value, e, refl, inl refl)
Under-By (deeper key value x e below) = (key, value, e, refl, inr below)

pub By-Under : (parents : TextMap) (id x : Text) → By parents id x parents → Under parents id x
By-Under parents id x (key, value, e, same, way) =
    subst (λ v. Under parents v x) same
      (elim way [
        | inl is_key ↦ subst (λ k. Under parents value k) (sym is_key) (child key value e)
        | inr below ↦ deeper key value x e below
      ])

By-match :
    (parents : TextMap) (id key value x : Text) (entries : TextMap)
    → text_eq id value ≡ true
    → By parents id x ((key, value) ∷ entries)
      ↔ ((x ≡ key) ⊎ Under parents key x) ⊎ By parents id x entries
unfolding IsEntry
By-match parents id key value x entries same = (
  (λ b. elim b.2 [
    | inl at ↦ inl (subst (λ k. (x ≡ k) ⊎ Under parents k x) (ap (λ (e : Text × Text). e.0) at) b.4)
    | inr later ↦ inr (b.0, b.1, later, b.3, b.4)
  ]),
  (λ h. elim h [
    | inl way ↦ (key, value, inl refl, sym (text_eq_sound id value same), way)
    | inr b ↦ (b.0, b.1, inr b.2, b.3, b.4)
  ]),
)

By-other :
    (parents : TextMap) (id key value x : Text) (entries : TextMap)
    → text_eq id value ≡ false
    → By parents id x ((key, value) ∷ entries) ↔ By parents id x entries
unfolding IsEntry
By-other parents id key value x entries other = (
  (λ b. elim b.2 [
    | inl at ↦
        let same : id ≡ value = sym b.3 ∙ ap (λ (e : Text × Text). e.1) at in
        absurd (false≢true (sym other ∙ ap (text_eq id) (sym same) ∙ text_eq_refl id))
    | inr later ↦ (b.0, b.1, later, b.3, b.4)
  ]),
  (λ b. (b.0, b.1, inr b.2, b.3, b.4)),
)

module _ (make : Text → Items → Item) (ids : Items → List Text) (ids_nil : ids nil ≡ [])
    (ids_cons : (k : Text) (below rest : Items)
      → ids (cons (make k below) rest) ≡ (add_id k ++ ids below) ++ ids rest)
    (parents : TextMap) where
  -- The items are made, and their ids are those below `id` by one of these entries.
  abbrev pub Made : ℕ → Text → TextMap → Type 0
  Made fuel id entries =
      (t : Items) × (find_children make parents fuel id entries ≡ some t)
      × ((x : Text) → IsKey x (ids t) ↔ HasText x × By parents id x entries)

  pub ids_cons-IsKey :
      (x k : Text) (below rest : Items)
      → IsKey x (ids (cons (make k below) rest))
        ↔ ((x ≡ k) × HasText x) ⊎ IsKey x (ids below) ⊎ IsKey x (ids rest)
  ids_cons-IsKey x k below rest =
      let outer = IsKey-append x (add_id k ++ ids below) (ids rest) in
      let inner = IsKey-append x (add_id k) (ids below) in
      rw ids_cons (
        (λ h. elim (outer.0 h) [
          | inl l ↦ elim (inner.0 l) [
            | inl own ↦ inl ((add_id-IsKey x k).0 own)
            | inr b ↦ inr (inl b)
          ]
          | inr r ↦ inr (inr r)
        ]),
        (λ h. elim h [
          | inl own ↦ outer.1 (inl (inner.1 (inl ((add_id-IsKey x k).1 own))))
          | inr more ↦ elim more [
            | inl b ↦ outer.1 (inl (inner.1 (inr b)))
            | inr r ↦ outer.1 (inr r)
          ]
        ]),
      )

  Made-match :
      (fuel : ℕ) (id key value : Text) (entries : TextMap)
      → text_eq id value ≡ true
      → Made fuel key parents
      → Made (suc fuel) id entries
      → Made (suc fuel) id ((key, value) ∷ entries)
  unfolding find_children join
  Made-match fuel id key value entries same below rest = (
    cons (make key below.0) rest.0,
    rw (same, below.1, rest.1) refl,
    λ x.
        let (there, back) = ids_cons-IsKey x key below.0 rest.0 in
        let (split, unite) = By-match parents id key value x entries same in
        (
          (λ h. elim (there h) [
            | inl own ↦ (own.1, unite (inl (inl own.0)))
            | inr more ↦ elim more [
              | inl b ↦
                  let (has, by) = (below.2 x).0 b in
                  (has, unite (inl (inr (By-Under parents key x by))))
              | inr r ↦ let (has, by) = (rest.2 x).0 r in (has, unite (inr by))
            ]
          ]),
          (λ h. elim (split h.1) [
            | inl way ↦ elim way [
              | inl e ↦ back (inl (e, h.0))
              | inr u ↦ back (inr (inl ((below.2 x).1 (h.0, Under-By u))))
            ]
            | inr by ↦ back (inr (inr ((rest.2 x).1 (h.0, by))))
          ]),
        ),
  )

  Made-other :
      (fuel : ℕ) (id key value : Text) (entries : TextMap)
      → text_eq id value ≡ false
      → Made (suc fuel) id entries
      → Made (suc fuel) id ((key, value) ∷ entries)
  unfolding find_children
  Made-other fuel id key value entries other rest = (
    rest.0,
    rw other rest.1,
    λ x.
        let (drop, keep) = By-other parents id key value x entries other in
        (
          (λ h. let (has, by) = (rest.2 x).0 h in (has, keep by)),
          (λ h. (rest.2 x).1 (h.0, drop h.1)),
        ),
  )

  Made-nil : (fuel : ℕ) (id : Text) → Made fuel id []
  unfolding find_children IsKey IsEntry
  Made-nil zero id = (nil, refl, λ x. rw ids_nil ((λ h. absurd h), (λ h. h.1.2)))
  Made-nil (suc fuel) id = (nil, refl, λ x. rw ids_nil ((λ h. absurd h), (λ h. h.1.2)))

  module _ (depth : Text → ℕ) (falls : Falls depth parents) where
    -- If the parents have no cycle, the items below `id` are made, with fuel above its depth.
    pub find_children-Made :
        (fuel : ℕ) (id : Text) (entries : TextMap)
        → Falls depth entries
        → depth id < fuel
        → Made fuel id entries
    find_children-Made fuel id [] h enough = Made-nil fuel id
    find_children-Made zero id (entry ∷ entries) h enough = absurd (omega arith)
    find_children-Made (suc fuel) id ((key, value) ∷ entries) h enough =
        elim (Bool-cases (text_eq id value)) [
          | inl same ↦
              Made-match fuel id key value entries same
                (find_children-Made fuel key parents falls
                  (omega (arith, h.0, ap depth (text_eq_sound id value same))))
                (find_children-Made (suc fuel) id entries h.1 enough)
          | inr other ↦
              Made-other fuel id key value entries other
                (find_children-Made (suc fuel) id entries h.1 enough)
        ]

-- No ids of the other kind are among them.
module _ (make : Text → Items → Item) (ids : Items → List Text) (ids_nil : ids nil ≡ [])
    (ids_cons : (k : Text) (below rest : Items)
      → ids (cons (make k below) rest) ≡ ids below ++ ids rest)
    (parents : TextMap) where
  pub join-silent :
      (key : Text) (below rest : Option Items) (t : Items)
      → ((b : Items) → below ≡ some b → ids b ≡ [])
      → ((r : Items) → rest ≡ some r → ids r ≡ [])
      → join (make key) below rest ≡ some t
      → ids t ≡ []
  unfolding join
  join-silent key none rest t b r h = cc
  join-silent key (some below) none t b r h = cc
  join-silent key (some below) (some rest) t b r h =
      let e : cons (make key below) rest ≡ t = cc in
      sym (ap ids e) ∙ ids_cons key below rest ∙ rw (b below refl, r rest refl) refl

  pub find_children-silent :
      (fuel : ℕ) (id : Text) (entries : TextMap) (t : Items)
      → find_children make parents fuel id entries ≡ some t
      → ids t ≡ []
  unfolding find_children
  find_children-silent zero id [] t h = let e : nil ≡ t = cc in sym (ap ids e) ∙ ids_nil
  find_children-silent (suc fuel) id [] t h = let e : nil ≡ t = cc in sym (ap ids e) ∙ ids_nil
  find_children-silent zero id (entry ∷ entries) t h = cc
  find_children-silent (suc fuel) id ((key, value) ∷ entries) t h =
      elim (Bool-cases (text_eq id value)) [
        | inl same ↦
            join-silent key (find_children make parents fuel key parents)
              (find_children make parents (suc fuel) id entries) t
              (find_children-silent fuel key parents) (find_children-silent (suc fuel) id entries)
              (rw same at h)
        | inr other ↦ find_children-silent (suc fuel) id entries t (rw other at h)
      ]
