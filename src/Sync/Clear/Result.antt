-- ===== src/Sync/Clear/Result.antt =====
-- What `Synchrodata_clear_record` of WPD_MTP_dataDlg.cpp reports, and what it does to the phone's
-- database.
use shujugongxiang.Prelude.{
  ℕ, ◌-◌, Bool, ◌&&◌, none, some, List, [], ◌∷◌, ◌++◌, map, take, replicate, length, ltb,
}
use shujugongxiang.Text.Defs.{Text}
use shujugongxiang.Sync.World.{
  Row, Call, path_exists, open_db, count_rows, select_rows, delete_rows, Env, Session, make_call,
  first_size,
}
use shujugongxiang.Sync.Clear.{clear_task_sql, clear_record_sql, clear_count_sql, clear_select_sql}

-- The deletion of the rows found, tasks first.
abbrev pub deletes : ℕ → List Row → List Call
deletes count found =
    let ids = map some found ++ replicate (count - length found) none in
    delete_rows clear_task_sql ids (first_size found)
    ∷ delete_rows clear_record_sql ids (first_size found)
    ∷ []

module _ (env : Env) (path begin_time end_time : Text) (s : Session) where
  abbrev pub checked : Session
  checked = make_call (path_exists path) s

  abbrev pub opened : Session
  opened = make_call (open_db path) checked

  abbrev pub count_call : Call
  count_call = count_rows (clear_count_sql begin_time end_time)

  abbrev pub counted : Session
  counted = make_call count_call opened

  abbrev pub rows_counted : ℕ
  rows_counted = env.count opened.calls count_call

  abbrev pub select_call : Call
  select_call = select_rows (clear_select_sql begin_time end_time) rows_counted

  abbrev pub rows_found : List Row
  rows_found = take rows_counted (env.rows counted.calls select_call)

  -- Rows were counted, and the selection succeeded.
  abbrev pub has_selected : Bool
  has_selected = ltb 0 rows_counted && env.yes counted.calls select_call

  -- Fewer rows were found than counted, so that a null pointer is read.
  abbrev pub is_short : Bool
  is_short = has_selected && ltb (length rows_found) rows_counted
