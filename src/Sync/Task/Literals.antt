-- ===== src/Sync/Task/Literals.antt =====
-- The SQL literals that `Synchrodata_work_task` of WPD_MTP_dataDlg.cpp writes for the server.
use shujugongxiang.Prelude.{ℕ, ◌≡◌, ◌≢◌, ap, false, some, [], ◌∷◌, ◌++◌, ◌==◌, append_assoc, All}
use shujugongxiang.Text.Defs.{Text, codes}
use shujugongxiang.Text.Escape.{quote, backslash, read_literal, read_literal_unescaped}
use shujugongxiang.Sync.World.{Row}
use shujugongxiang.Sync.Record.{quoted, column}
use shujugongxiang.Sync.Task.{task_value}

-- A field with a quote in it, no backslash or quote before, and behind it a character that is no quote, is
-- written as a literal that the server ends at this quote: what follows in the field is read as SQL.
-- This holds for each column but that of the state (9) and that of the execution time (15).
pub read_literal-task_value :
    (row : Row) (i : ℕ) (before after : Text) (c : ℕ)
    → (i == 9) ≡ false
    → (i == 15) ≡ false
    → column row i ≡ before ++ (quote ∷ c ∷ after)
    → All (λ d. (d ≢ quote) × (d ≢ backslash)) before
    → (c == quote) ≡ false
    → (literal : Text) × (task_value row i ≡ quote ∷ literal)
      × (read_literal literal ≡ some (before, (c ∷ after) ++ (quote ∷ codes ",")))
unfolding task_value quoted
read_literal-task_value row i before after c state time field plain other = (
  (before ++ (quote ∷ c ∷ after)) ++ (quote ∷ codes ","),
  rw (state, time, field)
      (ap (λ t. quote ∷ t) (append_assoc (before ++ (quote ∷ c ∷ after)) (quote ∷ []) (codes ","))),
  read_literal_unescaped before after (codes ",") c plain other,
)
