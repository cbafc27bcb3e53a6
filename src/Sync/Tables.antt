-- ===== src/Sync/Tables.antt =====
-- The steps that `Synchrodata_work_template`, `…_work_type` and `…_device_info` of
-- `WPD_MTP_data/WPD_MTP_dataDlg.cpp` each write out with the names of their table: rows of the server
-- go to the phone, rows deleted on the server leave the phone. Runs of blanks inside the SQL texts are
-- written as one.
pub mod Effects
pub mod Template
pub mod WorkType
pub mod Device
pub mod Area
use shujugongxiang.Prelude.{
  Bool, true, false, none, some, Option, List, [], ◌∷◌, ◌++◌, map, ltb, length, if◌then◌else◌,
}
use shujugongxiang.Text.Defs.{Text, codes}
use shujugongxiang.Sync.World.{
  Row, Call, insert_rows, delete_rows, mysql_select, write_log, Env, M, pure, ◌>>=◌, ◌>>◌, do_call,
  ask, ask_rows, add_updates, log_mysql_error, log_sqlite_error, first_size,
}
use shujugongxiang.Sync.Record.{column}

-- What one table puts into these steps: the query for rows to copy, the statement that stores a row on
-- the phone, the row as it is stored, and the statement that marks it on the server; the query for
-- deleted rows and the statement that deletes one.
pub record Table : Type 0 where
  pub select_sql : Text
  pub store_sql : Text
  pub stored_row : Row → Row
  pub mark : Row → Text
  pub deleted_sql : Text
  pub delete_sql : Text

abbrev pub insert_call : Table → List Row → Call
insert_call t rows =
    insert_rows t.store_sql (map (λ row. some (t.stored_row row)) rows)
      (first_size (map t.stored_row rows))

abbrev pub delete_call : Text → List Row → Call
delete_call delete_sql rows = delete_rows delete_sql (map (λ row. some (column row 0 ∷ [])) rows) 1

module _ (env : Env) where
  -- The marks were built in a list of the call's own; they join `m_updateMysqlData` only here.
  pub store_rows : Table → List Row → M Bool
  store_rows t rows = do
    stored ← ask env (insert_call t rows)
    if stored
        then add_updates (map t.mark rows) >> pure true
        else log_sqlite_error env t.store_sql >> pure false

  -- "1.": rows that are not synchronised.
  pub copy_rows : Table → M Bool
  copy_rows t = do
    (selected, rows) ← ask_rows env (mysql_select t.select_sql)
    if selected then (if ltb 0 (length rows) then store_rows t rows else pure true) else (do
      do_call (write_log (codes "同步新数据操作失败!" ++ t.select_sql))
      log_mysql_error env
      pure false)

  -- `logged` is the statement that a failure writes to the log.
  pub delete_ids : Text → Text → List Row → M Bool
  delete_ids delete_sql logged rows = do
    deleted ← ask env (delete_call delete_sql rows)
    if deleted then pure true else (do
      do_call (write_log (codes "删除操作失败!" ++ logged))
      log_sqlite_error env []
      pure false)

  -- "2.": rows deleted on the server; `none` is a query that failed.
  pub remove_rows : Text → Text → Text → M (Option Bool)
  remove_rows deleted_sql delete_sql logged = do
    (selected, rows) ← ask_rows env (mysql_select deleted_sql)
    if selected
        then (do
          deleted ← if ltb 0 (length rows) then delete_ids delete_sql logged rows else pure true
          pure (some deleted))
        else (do do_call (write_log (codes "删除操作失败!" ++ logged)); log_mysql_error env; pure none)

-- `retRes` goes to FALSE on a failed query as on a failed deletion.
abbrev pub removed_all : Option Bool → Bool
removed_all none = false
removed_all (some deleted) = deleted
