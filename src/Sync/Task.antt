-- ===== src/Sync/Task.antt =====
-- `Synchrodata_work_task` of `WPD_MTP_data/WPD_MTP_dataDlg.cpp`: work tasks from the phone to the
-- server; or, towards the phone, deletion of cancelled tasks and the new tasks of the server.
pub mod Marks
pub mod Literals
use shujugongxiang.Prelude.{
  ℕ, zero, suc, ◌+◌, ◌-◌, Bool, true, false, none, some, List, [], ◌∷◌, ◌++◌, map, ltb, ◌==◌,
  length, take, set, get_or, replicate, if◌then◌else◌,
}
use mathlib.Core.List.{flat_map}
use shujugongxiang.Text.Defs.{Text, codes, is_empty, text_eq}
use shujugongxiang.Text.Escape.{quoted_list}
use shujugongxiang.Sync.World.{
  Row, path_exists, open_db, close_db, count_rows, select_rows, insert_rows, delete_rows, exec_sql,
  mysql_select, write_log, Env, M, pure, ◌>>=◌, ◌>>◌, do_call, ask, ask_rows, ask_count,
  add_updates, log_mysql_error, log_sqlite_error, show_log, first_size,
}
use shujugongxiang.Sync.Record.{Direction, to_phone, to_pc, other_dir, quoted, column}
use shujugongxiang.Sync.Statements.{update_mysql_db}

-- Columns of `enum MyEnum`: 0 Id, 8 State, 9 SynchronState, 15 ExecutorTime, of 19.
pub task_columns : Text
task_columns =
    codes
      "`Id`,`DeviceId`,`RFId`,`WorkName`,`WorkTemplateId`,`Cycle`,`StartTime`,`Executor`,`State`,`SynchronState`,`CreateDate`,`CreateUserId`,Level,Frequency,AllId,ExecutorTime,ExecutorLevel,TaskRemark,OverdueRemark"

-- One value of the statement for the server, with its comma: the state is 1, an empty execution time
-- is null, and no value is converted.
pub task_value : Row → ℕ → Text
task_value row i =
    if i == 9
    then codes "'1',"
    else if i == 15
    then (if is_empty (column row i) then codes "null," else quoted (column row i) ++ codes ",")
    else quoted (column row i) ++ codes ","

-- The loop `for (indEnum = …; indEnum < work_task_max - 1; ++indEnum)` with its rounds left.
pub task_values : ℕ → ℕ → Row → Text
task_values zero i row = []
task_values (suc rounds) i row = task_value row i ++ task_values rounds (i + 1) row

pub task_statement : Text → Row → Text
task_statement system_time row =
    codes "Replace  INTO `work_task` ("
    ++ (task_columns
        ++ (codes ",SynchronTime) VALUES("
            ++ (task_values 18 0 row
                ++ (quoted (column row 18) ++ (codes "," ++ (quoted system_time ++ codes ");"))))))

-- A new task (State 1) becomes a task in progress (State 2).
pub task_mark : Row → Text
task_mark row =
    if text_eq (column row 8) (codes "1")
    then codes "UPDATE work_task set SynchronState ='1' ,State='2' where Id="
      ++ (quoted (column row 0) ++ codes ";")
    else codes "UPDATE work_task set SynchronState ='1'  where Id="
      ++ (quoted (column row 0) ++ codes ";")

pub task_limits : Text → Text → Text
task_limits begin_time cur_time =
    codes "CreateDate >= "
    ++ (quoted begin_time ++ (codes " and CreateDate <= " ++ (quoted cur_time ++ codes ";")))

pub phone_task_mark_sql : Text
phone_task_mark_sql = codes "update work_task set SynchronState='1' where Id = ?"

pub phone_task_store_sql : Text
phone_task_store_sql =
    codes "Replace  INTO `work_task` ("
    ++ (task_columns ++ codes ") VALUES(?,?,?,?,?,?,?,?,?,?,?,?,?,?,?,?,?,?,?);")

-- Tasks with this state, their subtasks, and tasks whose device is gone.
pub removed_task_sql : Text → Text
removed_task_sql state =
    codes
      "Select Id from work_task where AllId in(SELECT Id FROM `work_task` where Level='0' and SynchronState="
    ++ (quoted state
        ++ (codes ") or Id in(SELECT Id FROM `work_task` where Level = '0' and  SynchronState="
            ++ (quoted state ++ codes ") or DeviceId not in(select Id from device_info);")))

module _ (env : Env) where
  -- The rows of the phone that wait for the server, and how many were counted; the BOOL is `ret`.
  pub phone_tasks : Text → Text → Text → M (Bool × ℕ × List Row)
  phone_tasks begin_time cur_time devices = do
    let where_sql =
        codes " FROM `work_task` where DeviceId in("
        ++ (devices ++ (codes ") and SynchronState='0' and  " ++ task_limits begin_time cur_time))
    let count_sql = codes "SELECT count(*)" ++ where_sql
    let select_sql = codes "SELECT " ++ (task_columns ++ where_sql)
    (counted, count) ← ask_count env (count_rows count_sql)
    if counted
        then (if ltb 0 count
            then (do
              (selected, found) ← ask_rows env (select_rows select_sql count)
              if selected
                  then pure (true, count, take count found)
                  else log_sqlite_error env select_sql >> pure (false, count, []))
            else pure (true, 0, []))
        else log_sqlite_error env count_sql >> pure (false, 0, [])

  -- The branch `tongbu_to_pc`; `ret` is set anew by the count. The array of ids exists if rows were
  -- counted; an entry that no row filled was never set.
  pub task_to_pc : Text → Text → Text → M Bool
  task_to_pc begin_time cur_time devices = do
    (timed, times) ← ask_rows env (mysql_select (codes "select now() as Systemtime;"))
    let system_time = column (get_or times 0 []) 0
    if ltb (length (if timed then times else [])) 1
        then do_call (write_log (codes "同步PC端-数据操作失败!select now() as Systemtime;"))
        else pure tt
    (ret, count, rows) ← phone_tasks begin_time cur_time devices
    stored ← update_mysql_db env (map (task_statement system_time) rows)
    if stored
        then (if ltb 0 count
            then (do
              let ids =
                  map (λ row. some (column row 0 ∷ [])) rows ++ replicate (count - length rows) none
              marked ← ask env (insert_rows phone_task_mark_sql ids 1)
              pure ret)
            else pure ret)
        else (do
          show_log env (codes "从phone更新RFId和完成状态到服务端work_task失败!")
          log_mysql_error env
          pure false)

  -- The four deletions on the phone; their result is kept in `retTemp` and not used.
  pub delete_phone_tasks : List Row → M (Unit {0})
  delete_phone_tasks ids = do
    let rows = map some ids
    tasks ← ask env (delete_rows (codes "delete from work_task where Id=?") rows 1)
    subtasks ← ask env (delete_rows (codes "delete from work_task where AllId=?") rows 1)
    records ← ask env (delete_rows (codes "DELETE FROM work_record where WorkTaskId =?;") rows 1)
    orphans ← ask env (
        exec_sql
          (codes "delete from work_record where WorkTaskId not in(select Id from work_task)"))
    pure tt

  pub delete_statements : Row → List Text
  delete_statements id =
      (codes "delete from work_task where Id=" ++ (quoted (column id 0) ++ codes ";"))
      ∷ (codes "DELETE FROM work_record where WorkTaskId =" ++ (quoted (column id 0) ++ codes ";"))
      ∷ []

  -- Parts 2.1 and 2.2: tasks with state 2 leave the phone, tasks with state 3 the server too. `ret` is
  -- the result so far.
  pub delete_tasks : Bool → Text → Bool → M Bool
  delete_tasks ret state on_server = do
    let sql = removed_task_sql state
    (selected, rows) ← ask_rows env (mysql_select sql)
    if selected
        then (if ltb 0 (length rows)
            then (do
              let ids = map (λ row. column row 0 ∷ []) rows
              delete_phone_tasks ids
              if ret
                  then pure tt
                  else do_call (write_log (codes "删除操作失败!" ++ sql)) >> log_sqlite_error env []
              if on_server then update_mysql_db env (flat_map delete_statements ids) else pure true
              pure ret)
            else pure ret)
        else (do do_call (write_log (codes "删除操作失败!" ++ sql)); log_mysql_error env; pure false)

  -- The new tasks: stored on the phone, their marks queued if that succeeded.
  pub store_tasks : Bool → List Row → M Bool
  store_tasks ret rows = do
    let data_rows = map (λ row. some (set row 9 (codes "1"))) rows
    stored ← ask env (insert_rows phone_task_store_sql data_rows (first_size rows))
    if stored
        then add_updates (map task_mark rows) >> pure ret
        else log_sqlite_error env phone_task_store_sql >> pure false

  -- The branch `tongbu_to_phone`.
  pub task_to_phone : Text → Text → Text → M Bool
  task_to_phone begin_time cur_time devices = do
    cancelled ← delete_tasks true (codes "2") false
    removed ← delete_tasks cancelled (codes "3") true
    let sql =
        codes "SELECT "
        ++ (task_columns
            ++ (codes " FROM `work_task` where DeviceId in("
                ++ (devices
                    ++ (codes ") and SynchronState='0' and State<>'0' and "
                        ++ task_limits begin_time cur_time))))
    (selected, rows) ← ask_rows env (mysql_select sql)
    if selected
        then (if ltb 0 (length rows) then store_tasks removed rows else pure removed)
        else (do do_call (write_log (codes "同步新数据操作失败!" ++ sql)); log_mysql_error env; pure false)

  pub task_in_db : Text → Text → Text → Direction → M Bool
  task_in_db begin_time cur_time devices to_pc = task_to_pc begin_time cur_time devices
  task_in_db begin_time cur_time devices to_phone = task_to_phone begin_time cur_time devices
  task_in_db begin_time cur_time devices other_dir = pure true

  pub synchrodata_work_task : Text → Text → List Text → Text → Direction → M Bool
  synchrodata_work_task begin_time cur_time ids path dir = do
    exists ← ask env (path_exists path)
    if exists
        then (do
          opened ← ask env (open_db path)
          result ←
              if opened
              then (do
                ret ← task_in_db begin_time cur_time (quoted_list ids) dir
                do_call close_db
                pure ret)
              else (do
                do_call (write_log (codes "同步新数据操作失败!"))
                do_call (write_log (codes "打开中间数据库失败!" ++ path))
                pure false)
          do_call (write_log (codes "同步表[work_task]操作完成!"))
          pure result)
        else (do_call (write_log (codes "数据库文件不存在:" ++ path)) >> pure false)
