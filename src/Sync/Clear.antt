-- ===== src/Sync/Clear.antt =====
-- `Synchrodata_clear_record` of `WPD_MTP_data/WPD_MTP_dataDlg.cpp`: finished tasks of a time span and
-- their records are deleted on the phone.
pub mod Result
use shujugongxiang.Prelude.{
  ℕ, ◌-◌, Bool, true, false, ◌&&◌, Option, none, some, List, [], ◌∷◌, ◌++◌, map, not, ltb, length,
  take, replicate, if◌then◌else◌,
}
use shujugongxiang.Text.Defs.{Text, codes}
use shujugongxiang.Sync.World.{
  Row, Call, path_exists, open_db, close_db, count_rows, select_rows, delete_rows, write_log, Env,
  Session, M, pure, ◌>>=◌, ◌>>◌, do_call, ask, ask_rows, ask_count, first_size,
}
use shujugongxiang.Sync.Record.{quoted}

pub finished_tasks : Text → Text → Text
finished_tasks begin_time end_time =
    codes
      "(SELECT Id FROM `work_task` where Level='0' and (State = '3' or State = '6')  and  CreateDate >= "
    ++ (quoted begin_time ++ (codes " and CreateDate <= " ++ (quoted end_time ++ codes ")")))

pub clear_where : Text → Text → Text
clear_where begin_time end_time =
    codes " from work_task where AllId in"
    ++ (finished_tasks begin_time end_time
        ++ (codes " or Id in" ++ (finished_tasks begin_time end_time ++ codes "; ")))

pub clear_count_sql : Text → Text → Text
clear_count_sql begin_time end_time = codes "Select count(*)" ++ clear_where begin_time end_time

pub clear_select_sql : Text → Text → Text
clear_select_sql begin_time end_time = codes "Select Id" ++ clear_where begin_time end_time

pub clear_task_sql : Text
clear_task_sql = codes "delete from work_task where Id=?"

pub clear_record_sql : Text
clear_record_sql = codes "DELETE FROM work_record where WorkTaskId =?;"

module _ (env : Env) where
  -- The rows that were found; a place that no row filled keeps its null pointer. The first place is
  -- read before the deletions, all places after them; FALSE is a null pointer that is read.
  pub delete_found : ℕ → List Row → M Bool
  delete_found count rows = do
    let ids = map some rows ++ replicate (count - length rows) none
    if ltb 0 (length rows)
        then (do
          tasks ← ask env (delete_rows clear_task_sql ids (first_size rows))
          records ← ask env (delete_rows clear_record_sql ids (first_size rows))
          pure (not (ltb (length rows) count)))
        else pure false

  -- The results of the steps go to an inner `ret`, the function returns the outer one; `none` is the
  -- error of a null pointer, after which nothing more is done.
  pub clear_in_db : Text → Text → Text → M (Option Bool)
  clear_in_db path begin_time end_time = do
    let count_sql = clear_count_sql begin_time end_time
    (counted, count) ← ask_count env (count_rows count_sql)
    if counted
        then (do
          all_there ←
              if ltb 0 count
              then (do
                (selected, found) ←
                    ask_rows env (select_rows (clear_select_sql begin_time end_time) count)
                if selected then delete_found count (take count found) else pure true)
              else pure true
          if all_there then (do do_call close_db; pure (some true)) else pure none)
        else (do
          do_call (write_log (codes "同步新数据操作失败!" ++ count_sql))
          do_call (write_log (codes "打开中间数据库失败!" ++ path))
          pure (some false))

  pub synchrodata_clear_record : Text → Text → Text → M (Option Bool)
  synchrodata_clear_record path begin_time end_time = do
    exists ← ask env (path_exists path)
    if exists
        then (do
          opened ← ask env (open_db path)
          if opened
              then clear_in_db path begin_time end_time
              else (do_call (write_log (codes "打开中间数据库失败!" ++ path)) >> pure (some false)))
        else (do_call (write_log (codes "数据库文件不存在:" ++ path)) >> pure (some false))
