-- ===== src/Text/Chunks.antt =====
-- `GetArrayItems` of `WPD_MTP_data/WPD_MTP_dataDlg.cpp`: the list of ids in arrays of at most
-- MAXARRAYSIZE, so that an SQL statement over one of them keeps a bounded length.
use shujugongxiang.Prelude.{
  ℕ, zero, suc, ◌+◌, ◌*◌, ◌/◌, ◌%◌, ◌≤◌, ◌≡◌, refl, ap, ap₂, sym, ◌∙◌, none, some, inl, inr,
  Option-cases, List, [], ◌∷◌, ◌++◌, length, take, drop, get_elem?, length-take, take_split,
  take_all, All, ◌==◌, if◌then◌else◌, arith,
}
use mathlib.Core.List.{flatten}
use shujugongxiang.Text.Defs.{Text, is_empty}

abbrev pub max_array_size : ℕ
max_array_size = 20

-- The inner loop with `rounds` left: the items of one array, and the index after them. An empty
-- item breaks the loop and is not stepped over.
pub fill_array : ℕ → List Text → ℕ → List Text × ℕ
fill_array zero items index = ([], index)
fill_array (suc rounds) items index =
    let rest = fill_array rounds items (index + 1) in
    elim (get_elem? items index) [
      | none ↦ ([], index)
      | some text ↦ if is_empty text then ([], index) else (text ∷ rest.0, rest.1)
    ]

-- The outer loop over the arrays.
pub fill_arrays : ℕ → List Text → ℕ → List (List Text)
fill_arrays zero items index = []
fill_arrays (suc count) items index =
    let filled = fill_array max_array_size items index in
    filled.0 ∷ fill_arrays count items filled.1

-- `maxIndex`; the arrays are not allocated if it is 0.
pub array_count : ℕ → ℕ
array_count size = size / max_array_size + (if size % max_array_size == 0 then 0 else 1)

pub get_array_items : List Text → List (List Text)
get_array_items items = fill_arrays (array_count (length items)) items 0

-- The items up to the first empty one.
unfoldable pub up_to_empty : List Text → List Text
up_to_empty [] = []
up_to_empty (text ∷ items) = if is_empty text then [] else text ∷ up_to_empty items

drop-get_elem? :
    (items : List Text) (i : ℕ) (text : Text)
    → get_elem? items i ≡ some text
    → drop i items ≡ text ∷ drop (i + 1) items
drop-get_elem? [] i text h = cc
drop-get_elem? (x ∷ items) zero text h = ap (λ t. t ∷ items) (ground arith)
drop-get_elem? (x ∷ items) (suc i) text h =
    let shift : suc i + 1 ≡ suc (i + 1) = omega arith in rw shift (drop-get_elem? items i text h)

drop_past : (items : List Text) (i : ℕ) → get_elem? items i ≡ none → drop i items ≡ []
drop_past [] zero h = refl
drop_past [] (suc i) h = refl
drop_past (x ∷ items) zero h = cc
drop_past (x ∷ items) (suc i) h = drop_past items i h

module _ (rounds : ℕ) (items : List Text) (index : ℕ) where
  fill_array-past : get_elem? items index ≡ none → fill_array (suc rounds) items index ≡ ([], index)
  unfolding fill_array
  fill_array-past e = rw (e, fill_array) refl

  fill_array-empty :
      get_elem? items index ≡ some [] → fill_array (suc rounds) items index ≡ ([], index)
  unfolding fill_array
  fill_array-empty e = rw (e, fill_array) refl

  fill_array-more :
      (c : ℕ) (text : Text)
      → get_elem? items index ≡ some (c ∷ text)
      → fill_array (suc rounds) items index ≡ (
        (c ∷ text) ∷ (fill_array rounds items (index + 1)).0,
        (fill_array rounds items (index + 1)).1,
      )
  unfolding fill_array
  fill_array-more c text e = rw (e, fill_array) refl

abbrev Fills : ℕ → List Text → ℕ → List Text × ℕ → Type 0
Fills rounds items index result =
    (result.0 ≡ take rounds (up_to_empty (drop index items)))
    × (up_to_empty (drop result.1 items) ≡ drop rounds (up_to_empty (drop index items)))

up_to_empty-nil : up_to_empty [] ≡ []
unfolding up_to_empty
up_to_empty-nil = refl

up_to_empty-empty : (items : List Text) → up_to_empty ([] ∷ items) ≡ []
unfolding up_to_empty
up_to_empty-empty items = refl

up_to_empty-more :
    (c : ℕ) (text : Text) (items : List Text)
    → up_to_empty ((c ∷ text) ∷ items) ≡ (c ∷ text) ∷ up_to_empty items
unfolding up_to_empty
up_to_empty-more c text items = refl

fill_found :
    (rounds : ℕ) (items : List Text) (index : ℕ) (text : Text)
    → get_elem? items index ≡ some text
    → Fills rounds items (index + 1) (fill_array rounds items (index + 1))
    → Fills (suc rounds) items index (fill_array (suc rounds) items index)
fill_found rounds items index [] found rest =
    rw
      (
        fill_array-empty rounds items index found,
        drop-get_elem? items index [] found,
        up_to_empty-empty (drop (index + 1) items),
      )
      (refl, refl)
fill_found rounds items index (c ∷ text) found rest =
    rw
      (
        fill_array-more rounds items index c text found,
        drop-get_elem? items index (c ∷ text) found,
        up_to_empty-more c text (drop (index + 1) items),
      )
      (ap (λ t. (c ∷ text) ∷ t) rest.0, rest.1)

fill_array-zero : (items : List Text) (index : ℕ) → fill_array zero items index ≡ ([], index)
unfolding fill_array
fill_array-zero items index = refl

-- One array takes the next items up to an empty one, at most as many as there are rounds.
fill_array-Fills :
    (rounds : ℕ) (items : List Text) (index : ℕ)
    → Fills rounds items index (fill_array rounds items index)
fill_array-Fills zero items index = rw (fill_array-zero items index) (refl, refl)
fill_array-Fills (suc rounds) items index = elim (Option-cases (get_elem? items index)) [
  | inl past ↦
      rw (fill_array-past rounds items index past, drop_past items index past, up_to_empty-nil)
        (refl, refl)
  | inr (text, found) ↦
      fill_found rounds items index text found (fill_array-Fills rounds items (index + 1))
]

length-fill_array :
    (rounds : ℕ) (items : List Text) (index : ℕ) → length (fill_array rounds items index).0 ≤ rounds
length-fill_array rounds items index =
    rw (fill_array-Fills rounds items index).0
      (omega (arith, length-take rounds (up_to_empty (drop index items))))

flatten-fill_arrays :
    (count : ℕ) (items : List Text) (index : ℕ)
    → flatten (fill_arrays count items index)
      ≡ take (count * max_array_size) (up_to_empty (drop index items))
unfolding fill_arrays flatten
flatten-fill_arrays zero items index = refl
flatten-fill_arrays (suc count) items index =
    let fills = fill_array-Fills max_array_size items index in
    let split : suc count * max_array_size ≡ max_array_size + count * max_array_size =
      omega arith in
    rw split (
      ap₂ ◌++◌ fills.0 (
        flatten-fill_arrays count items (fill_array max_array_size items index).1
        ∙ ap (take (count * max_array_size)) fills.1)
      ∙ sym (take_split max_array_size (count * max_array_size) (up_to_empty (drop index items))))

fill_arrays_sizes :
    (count : ℕ) (items : List Text) (index : ℕ)
    → All (λ chunk. length chunk ≤ max_array_size) (fill_arrays count items index)
unfolding fill_arrays
fill_arrays_sizes zero items index = tt
fill_arrays_sizes (suc count) items index =
    (length-fill_array max_array_size items index, fill_arrays_sizes count items _)

length-up_to_empty : (items : List Text) → length (up_to_empty items) ≤ length items
unfolding up_to_empty
length-up_to_empty [] = omega arith
length-up_to_empty ([] ∷ items) = omega arith
length-up_to_empty ((c ∷ text) ∷ items) = omega (arith, length-up_to_empty items)

array_count_enough : (n : ℕ) → n ≤ array_count n * max_array_size
unfolding array_count
array_count_enough n = ground arith

-- The arrays hold, in order, exactly the items before the first empty one, and each array holds at
-- most MAXARRAYSIZE of them: a list with no empty item goes through whole.
pub get_array_items_lem :
    (items : List Text)
    → (flatten (get_array_items items) ≡ up_to_empty items)
      × All (λ chunk. length chunk ≤ max_array_size) (get_array_items items)
unfolding get_array_items
get_array_items_lem items = (
  flatten-fill_arrays (array_count (length items)) items 0
      ∙ take_all (array_count (length items) * max_array_size) (up_to_empty items)
          (omega (arith, length-up_to_empty items, array_count_enough (length items))),
  fill_arrays_sizes (array_count (length items)) items 0,
)
