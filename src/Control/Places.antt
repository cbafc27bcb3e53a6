-- ===== src/Control/Places.antt =====
-- What `Init_areas_tree` of WPD_MTP_dataDlg.cpp does to the items of the control by placing a device.
use shujugongxiang.Prelude.{
  ◌≡◌, refl, ap, ap₂, sym, subst, ◌↔◌, ◌∙◌, ◌⊎◌, inl, inr, true, false, List, [], ◌++◌, append-nil,
  append_assoc, Bool-cases,
}
use mathlib.Core.Bool.{false≢true}
use shujugongxiang.Text.Defs.{Text, text_eq, text_eq_sound, text_eq_refl}
use shujugongxiang.Sync.Selection.{
  Item, Items, item, nil, cons, add_id, area_of, find_child_id, child_ids, find_child_type_id,
  child_type_ids,
}
use shujugongxiang.Cascade.Members.{IsKey}
use shujugongxiang.Control.{append_items, add_to_item, add_to_items}
use shujugongxiang.Control.Children.{HasText, IsKey-append, add_id-IsKey}

-- The item is one of these, or stands below one, at any depth.
unfoldable pub InItems : Item → Items → Type 0
InItems j nil = ⊥
InItems j (cons (item a d children) rest) =
    (j ≡ item a d children) ⊎ InItems j children ⊎ InItems j rest

pub InItems-append :
    (j : Item) (xs ys : Items) → InItems j (append_items xs ys) → InItems j xs ⊎ InItems j ys
unfolding InItems append_items
InItems-append j nil ys h = inr h
InItems-append j (cons (item a d children) rest) ys h = elim h [
  | inl e ↦ inl (inl e)
  | inr more ↦ elim more [
    | inl c ↦ inl (inr (inl c))
    | inr r ↦ elim (InItems-append j rest ys r) [ inl x ↦ inl (inr (inr x)) | inr y ↦ inr y ]
  ]
]

pub child_ids-append :
    (xs ys : Items) → child_ids (append_items xs ys) ≡ child_ids xs ++ child_ids ys
unfolding child_ids append_items
child_ids-append nil ys = refl
child_ids-append (cons i rest) ys =
    ap (λ t. find_child_id i ++ t) (child_ids-append rest ys)
    ∙ sym (append_assoc (find_child_id i) (child_ids rest) (child_ids ys))

pub child_type_ids-append :
    (xs ys : Items) → child_type_ids (append_items xs ys) ≡ child_type_ids xs ++ child_type_ids ys
unfolding child_type_ids append_items
child_type_ids-append nil ys = refl
child_type_ids-append (cons i rest) ys =
    ap (λ t. find_child_type_id i ++ t) (child_type_ids-append rest ys)
    ∙ sym (append_assoc (find_child_type_id i) (child_type_ids rest) (child_type_ids ys))

-- The areas of an item are among those of the control.
pub InItems-ids :
    (x : Text) (j : Item) (t : Items)
    → InItems j t
    → IsKey x (find_child_id j)
    → IsKey x (child_ids t)
unfolding InItems child_ids
InItems-ids x j nil h k = absurd h
InItems-ids x j (cons (item a d children) rest) h k =
    let i = item a d children in
    let outer = IsKey-append x (find_child_id i) (child_ids rest) in
    elim h [
      | inl e ↦ outer.1 (inl (subst (λ n. IsKey x (find_child_id n)) e k))
      | inr more ↦ elim more [
        | inl c ↦ outer.1 (
            inl (
              (IsKey-append x (add_id a) (child_ids children)).1
                (inr (InItems-ids x j children c k))))
        | inr r ↦ outer.1 (inr (InItems-ids x j rest r k))
      ]
    ]

module _ (area : Text) (new : Items) where
  mutual
    unfolding find_child_id add_to_item

    pub add_to_item-areas :
        (i : Item) → child_ids new ≡ [] → find_child_id (add_to_item area new i) ≡ find_child_id i
    add_to_item-areas (item a d children) silent = elim (Bool-cases (text_eq a area)) [
      | inl same ↦ rw same (
          ap (λ t. add_id a ++ t)
            (child_ids-append (add_to_items area new children) new
              ∙ ap₂ (λ xs ys. xs ++ ys) (add_to_items-areas children silent) silent
              ∙ append-nil (child_ids children)))
      | inr other ↦ rw other (ap (λ t. add_id a ++ t) (add_to_items-areas children silent))
    ]

    pub add_to_items-areas :
        (is : Items) → child_ids new ≡ [] → child_ids (add_to_items area new is) ≡ child_ids is
    add_to_items-areas nil silent = refl
    add_to_items-areas (cons i rest) silent =
        ap₂ (λ xs ys. xs ++ ys) (add_to_item-areas i silent) (add_to_items-areas rest silent)

  pub add_to_item-area : (i : Item) → area_of (add_to_item area new i) ≡ area_of i
  unfolding add_to_item area_of
  add_to_item-area (item a d children) = refl

  pub InItems-add_to_items :
      (j : Item) (is : Items)
      → InItems j (add_to_items area new is)
      → ((i : Item) × InItems i is × (j ≡ add_to_item area new i)) ⊎ InItems j new
  unfolding InItems add_to_item
  InItems-add_to_items j nil h = absurd h
  InItems-add_to_items j (cons (item a d children) rest) h =
      let below = InItems-add_to_items j children in
      elim h [
        | inl e ↦ inl (item a d children, inl refl, e)
        | inr more ↦ elim more [
          | inl c ↦ elim (Bool-cases (text_eq a area)) [
            | inl same ↦
                elim (InItems-append j (add_to_items area new children) new (rw same at c)) [
                  | inl old ↦ elim (below old) [
                    | inl b ↦ inl (b.0, inr (inl b.1), b.2)
                    | inr n ↦ inr n
                  ]
                  | inr n ↦ inr n
                ]
            | inr other ↦ elim (below (rw other at c)) [
              | inl b ↦ inl (b.0, inr (inl b.1), b.2)
              | inr n ↦ inr n
            ]
          ]
          | inr r ↦ elim (InItems-add_to_items j rest r) [
            | inl b ↦ inl (b.0, inr (inr b.1), b.2)
            | inr n ↦ inr n
          ]
        ]
      ]

  module _ (x : Text) (has : HasText area) where
    -- A device of the item afterwards: one of before, or a new one, if the area is the item's or one of
    -- those below it.
    abbrev Adds : List Text → List Text → List Text → Type 0
    Adds after areas before =
        IsKey x after ↔ IsKey x before ⊎ (IsKey area areas × IsKey x (child_type_ids new))

    Adds-append :
        (after1 after2 areas1 areas2 before1 before2 : List Text)
        → Adds after1 areas1 before1
        → Adds after2 areas2 before2
        → Adds (after1 ++ after2) (areas1 ++ areas2) (before1 ++ before2)
    Adds-append after1 after2 areas1 areas2 before1 before2 one two =
        let after = IsKey-append x after1 after2 in
        let areas = IsKey-append area areas1 areas2 in
        let before = IsKey-append x before1 before2 in
        (
          (λ h. elim (after.0 h) [
            | inl l ↦ elim (one.0 l) [
              | inl b ↦ inl (before.1 (inl b))
              | inr n ↦ inr (areas.1 (inl n.0), n.1)
            ]
            | inr r ↦ elim (two.0 r) [
              | inl b ↦ inl (before.1 (inr b))
              | inr n ↦ inr (areas.1 (inr n.0), n.1)
            ]
          ]),
          (λ h. elim h [
            | inl b ↦ elim (before.0 b) [
              | inl l ↦ after.1 (inl (one.1 (inl l)))
              | inr r ↦ after.1 (inr (two.1 (inl r)))
            ]
            | inr n ↦ elim (areas.0 n.0) [
              | inl l ↦ after.1 (inl (one.1 (inr (l, n.1))))
              | inr r ↦ after.1 (inr (two.1 (inr (r, n.1))))
            ]
          ]),
        )

    -- The item's own device and area, neither of which is the area that is looked for.
    Adds-own : (a d : Text) → text_eq a area ≡ false → Adds (add_id d) (add_id a) (add_id d)
    Adds-own a d other = (
      (λ h. inl h),
      (λ h. elim h [
        | inl b ↦ b
        | inr n ↦
            let e = ((add_id-IsKey area a).0 n.0).0 in
            absurd (false≢true (sym other ∙ ap (λ t. text_eq t area) (sym e) ∙ text_eq_refl area))
      ]),
    )

    -- The new devices are behind those of the item whose area is looked for.
    Adds-here :
        (a d : Text) (after areas before : List Text)
        → text_eq a area ≡ true
        → Adds after areas before
        → Adds (add_id d ++ (after ++ child_type_ids new)) (add_id a ++ areas) (add_id d ++ before)
    Adds-here a d after areas before same below =
        let own = IsKey-append x (add_id d) (after ++ child_type_ids new) in
        let behind = IsKey-append x after (child_type_ids new) in
        let old = IsKey-append x (add_id d) before in
        let at = IsKey-append area (add_id a) areas in
        let here = at.1 (inl ((add_id-IsKey area a).1 (sym (text_eq_sound a area same), has))) in
        (
          (λ h. elim (own.0 h) [
            | inl o ↦ inl (old.1 (inl o))
            | inr b ↦ elim (behind.0 b) [
              | inl c ↦ elim (below.0 c) [ inl e ↦ inl (old.1 (inr e)) | inr n ↦ inr (here, n.1) ]
              | inr n ↦ inr (here, n)
            ]
          ]),
          (λ h. elim h [
            | inl b ↦ elim (old.0 b) [
              | inl o ↦ own.1 (inl o)
              | inr e ↦ own.1 (inr (behind.1 (inl (below.1 (inl e)))))
            ]
            | inr n ↦ own.1 (inr (behind.1 (inr n.1)))
          ]),
        )

    mutual
      unfolding find_child_id find_child_type_id add_to_item IsKey

      pub add_to_item-devices :
          (i : Item)
          → Adds
              (find_child_type_id (add_to_item area new i))
              (find_child_id i)
              (find_child_type_id i)
      add_to_item-devices (item a d children) =
          let below = add_to_items-devices children in
          elim (Bool-cases (text_eq a area)) [
            | inl same ↦
                rw (same, child_type_ids-append (add_to_items area new children) new)
                  (Adds-here a d (child_type_ids (add_to_items area new children))
                    (child_ids children) (child_type_ids children) same below)
            | inr other ↦ rw other (
                Adds-append (add_id d) (child_type_ids (add_to_items area new children)) (add_id a)
                  (child_ids children) (add_id d) (child_type_ids children) (Adds-own a d other)
                  below)
          ]

      pub add_to_items-devices :
          (is : Items)
          → Adds (child_type_ids (add_to_items area new is)) (child_ids is) (child_type_ids is)
      add_to_items-devices nil =
          ((λ h. absurd h), (λ h. elim h [ inl n ↦ absurd n | inr n ↦ absurd n.0 ]))
      add_to_items-devices (cons i rest) =
          Adds-append (find_child_type_id (add_to_item area new i))
            (child_type_ids (add_to_items area new rest)) (find_child_id i) (child_ids rest)
            (find_child_type_id i) (child_type_ids rest) (add_to_item-devices i)
            (add_to_items-devices rest)
