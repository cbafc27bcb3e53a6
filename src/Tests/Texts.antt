-- ===== src/Tests/Texts.antt =====
-- The text functions of WPD_MTP_dataDlg.cpp on concrete texts.
use shujugongxiang.Prelude.{refl, ◌≤◌, ◌≡◌, some, List, [], ◌∷◌, ◌++◌, length, All, arith}
use mathlib.Core.List.{flatten}
use shujugongxiang.Text.Defs.{Text, codes}
use shujugongxiang.Text.Chunks.{max_array_size, get_array_items, up_to_empty, get_array_items_lem}
use shujugongxiang.Text.Escape.{
  quote, starts_quote, escape_field, read_literal, read_literal-escape_field,
}
use shujugongxiang.Sync.World.{Row}
use shujugongxiang.Sync.Task.{task_value}
use shujugongxiang.Sync.Task.Literals.{read_literal-task_value}
use shujugongxiang.Sync.Selection.{Item, item, nil, cons}

abbrev three_ids : List Text
three_ids = codes "1" ∷ [] ∷ codes "3" ∷ []

get_array_items_lem_example :
    (flatten (get_array_items three_ids) ≡ up_to_empty three_ids)
    × All (λ chunk. length chunk ≤ max_array_size) (get_array_items three_ids)
get_array_items_lem_example = get_array_items_lem three_ids

read_literal-escape_field_example :
    read_literal (escape_field (codes "it's") ++ (quote ∷ codes ");"))
    ≡ some (codes "it's", codes ");")
unfolding starts_quote
read_literal-escape_field_example = read_literal-escape_field (codes "it's") (codes ");") refl

abbrev named_row : Row
named_row = codes "1" ∷ codes "7" ∷ codes "5" ∷ codes "a' or 1=1" ∷ []

read_literal-task_value_example :
    (literal : Text) × (task_value named_row 3 ≡ quote ∷ literal)
    × (read_literal literal ≡ some (codes "a", codes " or 1=1" ++ (quote ∷ codes ",")))
read_literal-task_value_example =
    read_literal-task_value named_row 3 (codes "a") (codes "or 1=1") 32 refl refl refl
      ((omega arith, omega arith), tt) refl

abbrev plant : Item
plant = item (codes "1") [] (cons (item [] (codes "7") nil) (cons (item (codes "2") [] nil) nil))
