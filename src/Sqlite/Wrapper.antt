-- ===== src/Sqlite/Wrapper.antt =====
-- The operations of `CSQLite` of `WPD_MTP_data/sqlite3/CSQLite.cpp`, on rows whose pointers are set. An
-- exception that a function catches is its FALSE.
pub mod Event
pub mod Runs
pub mod Transaction
use shujugongxiang.Prelude.{
  ℕ, zero, suc, ◌+◌, Bool, true, false, Option, none, some, List, [], ◌∷◌, ◌++◌, if◌then◌else◌,
}
use shujugongxiang.Text.Defs.{Text, codes}
use shujugongxiang.Sync.World.{Row}
use shujugongxiang.Sqlite.Api.{
  Code, sqlite_ok, sqlite_row, sqlite_done, other_code, Pointer, Api, wait_event, set_event,
  api_open, api_close, api_exec, api_prepare, api_step, api_finalize, api_reset, api_bind, Library,
  Lite, L, give, ◌>>=◌, ◌>>◌, add_call, call, ◌and_then◌, finalize, ask, record_last_error,
}

-- `if (stmt) sqlite3_finalize(stmt);`
unfoldable pub finalize_if_set : L (Unit {0})
finalize_if_set s = elim s.stmt [ none ↦ give tt s | some p ↦ call (λ t. api_finalize t.stmt) s ]

-- What sqlite_step and sqlite3_prepare do on a failure; `pDB` keeps its value.
unfoldable pub give_up : L Bool
give_up = finalize_if_set >> (call (λ s. api_close s.db) >> give false)

module _ (lib : Library) where
  pub exec_sql : Text → L Bool
  exec_sql sql = do
    code ← ask lib (λ s. api_exec s.db sql)
    elim code [ sqlite_ok ↦ give true | _ ↦ record_last_error lib >> give false ]

  -- sqlite3_open stores a connection also if it fails.
  pub store_opened : Text → L Code
  store_opened path s =
      let after = add_call (api_open path) s in
      (lib.code s.calls (api_open path), record after { db = lib.opened s.calls })

  pub open_data_base : Text → Bool → L Bool
  open_data_base path synchronous = do
    call (λ s. wait_event)
    code ← store_opened path
    elim code [
      | sqlite_ok ↦
          if synchronous
          then (do
            off ← exec_sql (codes "PRAGMA synchronous = OFF;")
            if off then give true else record_last_error lib >> give false)
          else give true
      | _ ↦ (do
        call (λ s. api_close s.db)
        call (λ s. set_event)
        record_last_error lib
        give false)
    ]

  pub close_open : L Bool
  close_open = do
    code ← ask lib (λ s. api_close s.db)
    elim code [
      | sqlite_ok ↦ λ s. (true, record s { db = none })
      | _ ↦ record_last_error lib >> give false
    ]

  pub close_data_base : L Bool
  close_data_base = do
    call (λ s. set_event)
    λ s. elim s.db [ none ↦ give true s | some p ↦ close_open s ]

  -- A failure leaves the transaction open.
  pub insert_data : Text → L Bool
  insert_data sql =
      exec_sql (codes "begin transaction;")
      and_then exec_sql sql
      and_then exec_sql (codes "commit transaction;")

  unfoldable pub sqlite_step : L Bool
  sqlite_step = do
    code ← ask lib (λ s. api_step s.stmt)
    elim code [ sqlite_done ↦ give true | _ ↦ give_up ]

  -- sqlite3_prepare_v2 stores a statement.
  unfoldable pub store_prepared : Text → L Code
  store_prepared sql s =
      let after = add_call (api_prepare s.db sql) s in
      (lib.code s.calls (api_prepare s.db sql), record after { stmt = lib.prepared s.calls })

  unfoldable pub sqlite3_prepare : Text → L Bool
  sqlite3_prepare sql = do
    code ← store_prepared sql
    elim code [ sqlite_ok ↦ give true | _ ↦ give_up ]

  -- `!sqlite3_prepare(…) || !sqlite_step()`
  unfoldable pub run_text : Text → L Bool
  run_text sql = sqlite3_prepare sql and_then sqlite_step

  -- The loop of sqlite3_bind from the i-th variable on; GetAt past the end throws.
  pub bind_from : ℕ → ℕ → Row → L Bool
  bind_from i zero row = give true
  bind_from i (suc left) [] = give false
  bind_from i (suc left) (value ∷ row) =
      call (λ s. api_bind s.stmt i value) >> bind_from (i + 1) left row

  pub sqlite3_bind : Row → ℕ → L Bool
  sqlite3_bind row number = bind_from 1 number row

  -- The loop over the rows.
  pub change_loop : List Row → ℕ → L Bool
  change_loop [] number = give true
  change_loop (row ∷ rows) number =
      sqlite3_bind row number
      and_then sqlite_step
      and_then (call (λ s. api_reset s.stmt) >> change_loop rows number)

  unfoldable pub quick_delet_data : Text → List Row → ℕ → L Bool
  quick_delet_data sql rows number =
      run_text (codes "BEGIN TRANSACTION")
      and_then finalize
      and_then sqlite3_prepare sql
      and_then change_loop rows number
      and_then finalize
      and_then run_text (codes "commit")
      and_then finalize

  -- The same calls; each failure is recorded before it is returned.
  pub quick_insert_data : Text → List Row → ℕ → L Bool
  quick_insert_data sql rows number = do
    done ← quick_delet_data sql rows number
    if done then give true else record_last_error lib >> give false

  pub begin_transaction : L Bool
  begin_transaction = run_text (codes "BEGIN TRANSACTION") and_then finalize

  pub commit : L Bool
  commit = run_text (codes "commit") and_then finalize
