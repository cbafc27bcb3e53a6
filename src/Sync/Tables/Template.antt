-- ===== src/Sync/Tables/Template.antt =====
-- `Synchrodata_work_template` of `WPD_MTP_data/WPD_MTP_dataDlg.cpp`: templates of the chosen devices go
-- to the phone, deleted templates leave it.
pub mod Closing
use shujugongxiang.Prelude.{
  Bool, false, true, ◌&&◌, Option, none, some, List, ◌∷◌, [], ◌++◌, if◌then◌else◌,
}
use shujugongxiang.Text.Defs.{Text, codes}
use shujugongxiang.Text.Escape.{quoted_list}
use shujugongxiang.Sync.World.{
  Row, path_exists, open_db, close_db, write_log, Env, M, pure, ◌>>=◌, ◌>>◌, do_call, ask,
}
use shujugongxiang.Sync.Record.{Direction, to_phone, to_pc, other_dir, quoted, column}
use shujugongxiang.Sync.Tables.{Table, copy_rows, remove_rows}

-- `CreateDate >= '…' and CreateDate <= '…'`, with the name of the table where the source has one.
pub window : Text → Text → Text → Text
window alias begin_time cur_time =
    alias
    ++ (codes "CreateDate >= "
        ++ (quoted begin_time
            ++ (codes " and " ++ (alias ++ (codes "CreateDate <= " ++ quoted cur_time)))))

pub template_mark : Row → Text
template_mark row =
    codes "UPDATE work_template set SynchronState ='1' where Id="
    ++ (quoted (column row 0) ++ codes ";")

pub template_select_sql : Text → Text → Text → Text
template_select_sql begin_time cur_time devices =
    codes
      "SELECT te.`Id`,te.`DeviceId`,te.`WorkTypeId`,te.ClassName,te.`Number`,te.`ProcessName`,te.`Results`,te.`SynchronState`,te.`CreateDate`,te.`CreateUserId` FROM `work_template` te,work_type tk where (te.SynchronState ='0' or te.SynchronState ='1') and tk.DeviceId in("
    ++ (devices
        ++ (codes ") and "
            ++ (window (codes "tk.") begin_time cur_time ++ codes " and tk.Id = te.WorkTypeId; ")))

pub template_deleted_sql : Text → Text → Text
template_deleted_sql begin_time cur_time =
    codes "SELECT `Id` FROM `work_template` where SynchronState='2' and "
    ++ (window [] begin_time cur_time ++ codes "; ")

pub template_table : Text → Text → Text → Table
template_table begin_time cur_time devices = record {
  select_sql = template_select_sql begin_time cur_time devices;
  store_sql =
      codes
        "Replace INTO `work_template` (`Id`,`DeviceId`,`WorkTypeId`,ClassName,`Number`,`ProcessName`,`Results`,`SynchronState`,`CreateDate`,`CreateUserId`) VALUES(?,?,?,?,?,?,?,?,?,?);";
  stored_row = λ row. row;
  mark = template_mark;
  deleted_sql = template_deleted_sql begin_time cur_time;
  delete_sql = codes "delete from work_template where Id=?";
}

module _ (env : Env) where
  -- A query for deleted templates that fails returns at once; `copied` is `retRes` so far.
  pub template_close : Bool → Option Bool → M Bool
  template_close copied none = pure false
  template_close copied (some deleted) = do
    do_call close_db
    do_call (write_log (codes "同步表[work_template]操作完成!"))
    pure (copied && deleted)

  -- On the open database.
  pub template_in_db : Table → M Bool
  template_in_db t = do
    copied ← copy_rows env t
    removed ← remove_rows env t.deleted_sql t.delete_sql t.deleted_sql
    template_close copied removed

  pub template_to_phone : Text → Table → M Bool
  template_to_phone path t = do
    exists ← ask env (path_exists path)
    if exists
        then (do
          opened ← ask env (open_db path)
          if opened then template_in_db t else (do
            do_call (write_log (codes "同步新数据操作失败!"))
            do_call (write_log (codes "打开中间数据库失败!" ++ path))
            do_call (write_log (codes "同步表[work_template]操作完成!"))
            pure false))
        else (do_call (write_log (codes "数据库文件不存在:" ++ path)) >> pure false)

  pub synchrodata_work_template : Text → Text → List Text → Text → Direction → M Bool
  synchrodata_work_template begin_time cur_time ids path to_pc = pure true
  synchrodata_work_template begin_time cur_time ids path to_phone =
      template_to_phone path (template_table begin_time cur_time (quoted_list ids))
  synchrodata_work_template begin_time cur_time ids path other_dir =
      template_to_phone path (template_table begin_time cur_time (quoted_list ids))
