-- ===== src/Control/Load.antt =====
-- The maps that `Init_areas_tree` of WPD_MTP_dataDlg.cpp fills from the rows of the server's tables.
use shujugongxiang.Prelude.{
  ◌≡◌, refl, ap, ap₂, sym, subst, ◌↔◌, ◌∙◌, ◌⊎◌, inl, inr, Bool, true, false, List, [], ◌∷◌,
  Bool-cases, if◌then◌else◌,
}
use mathlib.Core.Bool.{false≢true}
use shujugongxiang.Text.Defs.{Text, text_eq, text_eq_refl, text_eq_sound}
use shujugongxiang.Sync.World.{Row}
use shujugongxiang.Sync.Record.{column}
use shujugongxiang.Cascade.Build.{IsEntry}
use shujugongxiang.Control.{TextMap, set_key, value_of}

-- The key has an entry.
unfoldable pub IsBound : Text → TextMap → Type 0
IsBound key [] = ⊥
IsBound key (e ∷ table) = (e.0 ≡ key) ⊎ IsBound key table

-- The row is one of these.
unfoldable pub InRows : Row → List Row → Type 0
InRows row [] = ⊥
InRows row (r ∷ rows) = (row ≡ r) ⊎ InRows row rows

-- No two rows have the same id.
unfoldable pub IsDistinct : List Row → Type 0
IsDistinct [] = Unit {0}
IsDistinct (r ∷ rows) =
    ((row : Row) → InRows row rows → ¬ (column row 0 ≡ column r 0)) × IsDistinct rows

set_key-IsEntry :
    (k v key value : Text) (table : TextMap)
    → ¬ IsBound k table
    → IsEntry key value (set_key k v table)
      ↔ IsEntry key value table ⊎ (◌≡◌ {A = Text × Text} (key, value) (k, v))
unfolding set_key IsEntry IsBound
set_key-IsEntry k v key value [] free = (
  (λ h. elim h [ inl e ↦ inr e | inr n ↦ absurd n ]),
  (λ h. elim h [ inl n ↦ absurd n | inr e ↦ inl e ]),
)
set_key-IsEntry k v key value ((k', v') ∷ table) free =
    let (there, back) = set_key-IsEntry k v key value table (λ b. free (inr b)) in
    elim (Bool-cases (text_eq k' k)) [
      | inl same ↦ absurd (free (inl (text_eq_sound k' k same)))
      | inr other ↦ rw other (
        (λ (h : (◌≡◌ {A = Text × Text} (key, value) (k', v'))
              ⊎ IsEntry key value (set_key k v table)).
            elim h [
              | inl e ↦ inl (inl e)
              | inr later ↦ elim (there later) [ inl l ↦ inl (inr l) | inr e ↦ inr e ]
            ]),
        (λ (h : ((◌≡◌ {A = Text × Text} (key, value) (k', v')) ⊎ IsEntry key value table)
              ⊎ (◌≡◌ {A = Text × Text} (key, value) (k, v))).
            elim h [
              | inl old ↦ elim old [ inl e ↦ inl e | inr l ↦ inr (back (inl l)) ]
              | inr e ↦ inr (back (inr e))
            ]),
      )
    ]

set_key-IsBound :
    (k v key : Text) (table : TextMap)
    → IsBound key (set_key k v table)
    → (k ≡ key) ⊎ IsBound key table
unfolding set_key IsBound
set_key-IsBound k v key [] h = h
set_key-IsBound k v key ((k', v') ∷ table) h = elim (Bool-cases (text_eq k' k)) [
  | inl same ↦ inr (rw same at h)
  | inr other ↦
      let h' : (k' ≡ key) ⊎ IsBound key (set_key k v table) = rw other at h in
      elim h' [
        | inl e ↦ inr (inl e)
        | inr later ↦ elim (set_key-IsBound k v key table later) [
          | inl e ↦ inl e
          | inr b ↦ inr (inr b)
        ]
      ]
]

-- One map, filled from the rows that are taken; the id stands in their first column.
module _ (value_in : Row → Text) (taken : Row → Bool) where
  unfoldable pub fill : List Row → TextMap → TextMap
  fill [] table = table
  fill (row ∷ rows) table =
      fill rows (if taken row then set_key (column row 0) (value_in row) table else table)

  -- The entries of the rows that are taken.
  abbrev pub FromRows : List Row → Text → Text → Type 0
  FromRows rows key value =
      (row : Row) × InRows row rows
      × ((taken row ≡ true) × (key ≡ column row 0) × (value ≡ value_in row))

  FromRows-cons :
      (r : Row) (rows : List Row) (key value : Text)
      → FromRows (r ∷ rows) key value
        ↔ ((taken r ≡ true) × (key ≡ column r 0) × (value ≡ value_in r)) ⊎ FromRows rows key value
  unfolding InRows
  FromRows-cons r rows key value = (
    (λ h. elim h.1 [
      | inl e ↦ inl (
          subst (λ (row : Row). (taken row ≡ true) × (key ≡ column row 0) × (value ≡ value_in row))
            e h.2)
      | inr later ↦ inr (h.0, later, h.2)
    ]),
    (λ h. elim h [ inl own ↦ (r, inl refl, own) | inr f ↦ (f.0, inr f.1, f.2) ]),
  )

  pub fill-IsEntry :
      (rows : List Row) (table : TextMap) (key value : Text)
      → IsDistinct rows
      → ((row : Row) → InRows row rows → ¬ IsBound (column row 0) table)
      → IsEntry key value (fill rows table) ↔ IsEntry key value table ⊎ FromRows rows key value
  unfolding fill InRows IsDistinct
  fill-IsEntry [] table key value distinct free =
      ((λ h. inl h), (λ h. elim h [ inl t ↦ t | inr f ↦ absurd f.1 ]))
  fill-IsEntry (r ∷ rows) table key value distinct free =
      let k = column r 0 in
      let v = value_in r in
      let (split, unite) = FromRows-cons r rows key value in
      elim (Bool-cases (taken r)) [
        | inl yes' ↦
            let (there, back) =
              fill-IsEntry rows (set_key k v table) key value distinct.1 (λ row i b.
                elim (set_key-IsBound k v (column row 0) table b) [
                  | inl e ↦ distinct.0 row i (sym e)
                  | inr bound ↦ free row (inr i) bound
                ]) in
            let (put, take) = set_key-IsEntry k v key value table (free r (inl refl)) in
            let result : IsEntry key value (fill rows (set_key k v table))
                ↔ IsEntry key value table ⊎ FromRows (r ∷ rows) key value =
              (
                (λ h. elim (there h) [
                  | inl e ↦ elim (put e) [
                    | inl t ↦ inl t
                    | inr at ↦ inr (
                        unite (
                          inl (
                            yes',
                            ap (λ (e : Text × Text). e.0) at,
                            ap (λ (e : Text × Text). e.1) at,
                          )))
                  ]
                  | inr f ↦ inr (unite (inr f))
                ]),
                (λ h. elim h [
                  | inl t ↦ back (inl (take (inl t)))
                  | inr f ↦ elim (split f) [
                    | inl own ↦ back (inl (take (inr (ap₂ (λ x y. (x, y)) own.1 own.2))))
                    | inr later ↦ back (inr later)
                  ]
                ]),
              ) in
            subst
              (λ b.
                IsEntry key value (fill rows (if b then set_key k v table else table))
                ↔ IsEntry key value table ⊎ FromRows (r ∷ rows) key value)
              (sym yes') result
        | inr no' ↦
            let (there, back) =
              fill-IsEntry rows table key value distinct.1 (λ row i b. free row (inr i) b) in
            let result : IsEntry key value (fill rows table)
                ↔ IsEntry key value table ⊎ FromRows (r ∷ rows) key value =
              (
                (λ h. elim (there h) [ inl t ↦ inl t | inr f ↦ inr (unite (inr f)) ]),
                (λ h. elim h [
                  | inl t ↦ back (inl t)
                  | inr f ↦ elim (split f) [
                    | inl own ↦ absurd (false≢true (sym no' ∙ own.0))
                    | inr later ↦ back (inr later)
                  ]
                ]),
              ) in
            subst
              (λ b.
                IsEntry key value (fill rows (if b then set_key k v table else table))
                ↔ IsEntry key value table ⊎ FromRows (r ∷ rows) key value)
              (sym no') result
      ]

value_of-set_key :
    (key value : Text) (table : TextMap) → value_of key (set_key key value table) ≡ value
unfolding value_of set_key
value_of-set_key key value [] = rw (text_eq_refl key) refl
value_of-set_key key value ((k, v) ∷ table) = elim (Bool-cases (text_eq k key)) [
  | inl same ↦ rw (same, same) refl
  | inr other ↦ rw (other, other) (value_of-set_key key value table)
]

value_of-set_other :
    (key other value : Text) (table : TextMap)
    → text_eq other key ≡ false
    → value_of key (set_key other value table) ≡ value_of key table
unfolding value_of set_key
value_of-set_other key other value [] h = rw h refl
value_of-set_other key other value ((k, v) ∷ table) h = elim (Bool-cases (text_eq k other)) [
  | inl same ↦
      let missed : text_eq k key ≡ false =
        ap (λ t. text_eq t key) (text_eq_sound k other same) ∙ h in
      rw (same, missed) refl
  | inr differs ↦ elim (Bool-cases (text_eq k key)) [
    | inl found ↦ rw (differs, found) refl
    | inr missed ↦ rw (differs, missed) (value_of-set_other key other value table h)
  ]
]

-- What is looked up in a map that takes all rows.
module _ (value_in : Row → Text) where
  unfoldable pub all_rows : List Row → TextMap → TextMap
  all_rows rows table = fill value_in (λ row. true) rows table

  value_of-kept :
      (key : Text) (rows : List Row) (table : TextMap)
      → ((row : Row) → InRows row rows → ¬ (column row 0 ≡ key))
      → value_of key (all_rows rows table) ≡ value_of key table
  unfolding all_rows fill InRows
  value_of-kept key [] table h = refl
  value_of-kept key (r ∷ rows) table h = elim (Bool-cases (text_eq (column r 0) key)) [
    | inl same ↦ absurd (h r (inl refl) (text_eq_sound (column r 0) key same))
    | inr other ↦
        value_of-kept key rows (set_key (column r 0) (value_in r) table) (λ row i. h row (inr i))
        ∙ value_of-set_other key (column r 0) (value_in r) table other
  ]

  -- The value of a row stands under its id, whatever the map held before.
  pub value_of-fill :
      (rows : List Row) (table : TextMap) (row : Row)
      → IsDistinct rows
      → InRows row rows
      → value_of (column row 0) (all_rows rows table) ≡ value_in row
  unfolding all_rows fill InRows IsDistinct
  value_of-fill [] table row distinct i = absurd i
  value_of-fill (r ∷ rows) table row distinct i = elim i [
    | inl e ↦
        ap (λ (x : Row). value_of (column x 0) (all_rows (r ∷ rows) table)) e
        ∙ value_of-kept (column r 0) rows (set_key (column r 0) (value_in r) table) distinct.0
        ∙ value_of-set_key (column r 0) (value_in r) table
        ∙ ap value_in (sym e)
    | inr later ↦ value_of-fill rows (set_key (column r 0) (value_in r) table) row distinct.1 later
  ]
