-- ===== src/Sqlite/Query.antt =====
-- `QuickSelectDataCount` and `QuickSelectData` of `WPD_MTP_data/sqlite3/CSQLite.cpp`, on the integer
-- count and without a `select_bind`, as the dialog calls them.
pub mod Rows
use mathlib.Core.Option
use shujugongxiang.Prelude.{
  ℕ, zero, suc, Bool, true, false, Option, none, some, List, [], ◌∷◌, ◌++◌, map, if◌then◌else◌,
}
use shujugongxiang.Text.Defs.{Text, codes, decimal}
use shujugongxiang.Sync.World.{Row}
use shujugongxiang.Sqlite.Api.{
  Code, sqlite_ok, sqlite_row, sqlite_done, other_code, Api, api_step, Value, sqlite_integer,
  sqlite_text, sqlite_float, sqlite_null, sqlite_blob, Library, Lite, L, give, ◌>>=◌, ◌>>◌, call,
  ◌and_then◌, finalize, ask, record_last_error,
}
use shujugongxiang.Sqlite.Wrapper.{sqlite3_prepare, run_text}

-- The text of a column in the array that is given back. A number with a fraction is read and dropped.
unfoldable pub value_text : Value → Text
value_text (sqlite_integer negative n) = if negative then codes "-" ++ decimal n else decimal n
value_text (sqlite_text t) = t
value_text sqlite_float = []
value_text sqlite_null = []
value_text sqlite_blob = []

-- `count` after the columns of a row: the last integer, with its sign.
pub last_integer : Bool × ℕ → List Value → Bool × ℕ
last_integer count [] = count
last_integer count (sqlite_integer negative n ∷ values) = last_integer (negative, n) values
last_integer count (sqlite_text t ∷ values) = last_integer count values
last_integer count (sqlite_float ∷ values) = last_integer count values
last_integer count (sqlite_null ∷ values) = last_integer count values
last_integer count (sqlite_blob ∷ values) = last_integer count values

module _ (lib : Library) where
  -- The end of a query that was prepared.
  abbrev pub end_query : L Bool
  end_query = finalize and_then run_text lib (codes "commit") and_then finalize

  abbrev pub current : L (List Value)
  current s = (lib.columns s.calls, s)

  -- `do … while (1)` on fuel; `none` is a loop that still runs. On an error the statement is finalized
  -- here too.
  pub count_loop : ℕ → Bool × ℕ → L (Option (Bool × ℕ))
  count_loop zero count = give none
  count_loop (suc fuel) count = do
    code ← ask lib (λ s. api_step s.stmt)
    elim code [
      | sqlite_row ↦ (do values ← current; count_loop fuel (last_integer count values))
      | sqlite_done ↦ give (some count)
      | _ ↦ finalize >> give (some count)
    ]

  -- The BOOL and `count`; a statement that cannot be prepared is recorded.
  pub quick_select_data_count : ℕ → Text → Bool × ℕ → L (Option (Bool × (Bool × ℕ)))
  quick_select_data_count fuel sql count = do
    started ← run_text lib (codes "BEGIN TRANSACTION") and_then finalize
    if started
        then (do
          prepared ← sqlite3_prepare lib sql
          if prepared
              then (do
                counted ← count_loop fuel count
                elim counted [
                  | none ↦ give none
                  | some n ↦ (do done ← end_query; give (some (done, n)))
                ])
              else record_last_error lib >> give (some (false, count)))
        else give (some (false, count))

  -- `while (curcnt < count)` on fuel, with the rounds left to `count`: a code that is neither a row nor
  -- the end leads to the next round. Whether it ended, and the rows set up to here.
  unfoldable pub select_loop : ℕ → ℕ → L (Bool × List Row)
  select_loop zero left = give (false, [])
  select_loop (suc fuel) zero = give (true, [])
  select_loop (suc fuel) (suc left) = do
    code ← ask lib (λ s. api_step s.stmt)
    elim code [
      | sqlite_row ↦ (do
        values ← current
        (ended, rows) ← select_loop fuel left
        give (ended, map value_text values ∷ rows))
      | sqlite_done ↦ give (true, [])
      | _ ↦ select_loop fuel (suc left)
    ]

  -- The BOOL, or `none` while the loop runs, and the rows that were set in the array; a failed commit
  -- leaves them there.
  unfoldable pub finish_select : Bool → List Row → L (Option Bool × List Row)
  finish_select false rows = give (none, rows)
  finish_select true rows = do done ← end_query; give (some done, rows)

  unfoldable pub start_select : Text → L Bool
  start_select sql =
      run_text lib (codes "BEGIN TRANSACTION") and_then finalize and_then sqlite3_prepare lib sql

  unfoldable pub quick_select_data : ℕ → Text → ℕ → L (Option Bool × List Row)
  quick_select_data fuel sql count = do
    ready ← start_select sql
    if ready
        then (do (ended, rows) ← select_loop fuel count; finish_select ended rows)
        else give (some false, [])
