-- ===== src/Sync/Tables/WorkType.antt =====
-- `Synchrodata_work_type` of `WPD_MTP_data/WPD_MTP_dataDlg.cpp`: kinds of work of the chosen devices go
-- to the phone, deleted ones leave it.
pub mod Closing
use shujugongxiang.Prelude.{Bool, false, true, ◌&&◌, List, ◌∷◌, [], ◌++◌, if◌then◌else◌}
use shujugongxiang.Text.Defs.{Text, codes}
use shujugongxiang.Text.Escape.{quoted_list}
use shujugongxiang.Sync.World.{
  Row, path_exists, open_db, close_db, write_log, Env, M, pure, ◌>>=◌, ◌>>◌, do_call, ask,
}
use shujugongxiang.Sync.Record.{Direction, to_phone, to_pc, other_dir, quoted, column}
use shujugongxiang.Sync.Tables.{Table, copy_rows, remove_rows, removed_all}
use shujugongxiang.Sync.Tables.Template.{window}

pub type_mark : Row → Text
type_mark row =
    codes "UPDATE work_type set SynchronState ='1' where Id="
    ++ (quoted (column row 0) ++ codes ";")

pub type_select_sql : Text → Text → Text → Text
type_select_sql begin_time cur_time devices =
    codes
      "SELECT `Id`,`Name`,`ProcessName`,`Results`,`SynchronState`,`CreateDate`,`CreateUserId`,DeviceId FROM `work_type` where SynchronState='0' and "
    ++ (window [] begin_time cur_time ++ (codes " and DeviceId in(" ++ (devices ++ codes "); ")))

pub type_deleted_sql : Text → Text → Text
type_deleted_sql begin_time cur_time =
    codes "SELECT `Id` FROM `work_type` where SynchronState='2' and "
    ++ (window [] begin_time cur_time ++ codes "; ")

pub type_table : Text → Text → Text → Table
type_table begin_time cur_time devices = record {
  select_sql = type_select_sql begin_time cur_time devices;
  store_sql =
      codes
        "Replace INTO `work_type` (`Id`,`Name`,`ProcessName`,`Results`,`SynchronState`,`CreateDate`,`CreateUserId`,DeviceId) VALUES(?,?,?,?,?,?,?,?);";
  stored_row = λ row. row;
  mark = type_mark;
  deleted_sql = type_deleted_sql begin_time cur_time;
  delete_sql = codes "delete from work_type where Id=?";
}

module _ (env : Env) where
  -- On the open database.
  pub type_in_db : Table → M Bool
  type_in_db t = do
    copied ← copy_rows env t
    removed ← remove_rows env t.deleted_sql t.delete_sql t.deleted_sql
    do_call close_db
    pure (copied && removed_all removed)

  pub type_to_phone : Text → Table → M Bool
  type_to_phone path t = do
    exists ← ask env (path_exists path)
    if exists
        then (do
          opened ← ask env (open_db path)
          result ← if opened then type_in_db t else (do
            do_call (write_log (codes "删除操作失败!"))
            do_call (write_log (codes "打开中间数据库失败!" ++ path))
            pure false)
          do_call (write_log (codes "同步表[work_type]操作完成!"))
          pure result)
        else (do_call (write_log (codes "数据库文件不存在:" ++ path)) >> pure false)

  pub synchrodata_work_type : Text → Text → List Text → Text → Direction → M Bool
  synchrodata_work_type begin_time cur_time ids path to_pc = pure true
  synchrodata_work_type begin_time cur_time ids path to_phone =
      type_to_phone path (type_table begin_time cur_time (quoted_list ids))
  synchrodata_work_type begin_time cur_time ids path other_dir =
      type_to_phone path (type_table begin_time cur_time (quoted_list ids))
