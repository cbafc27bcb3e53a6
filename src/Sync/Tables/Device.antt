-- ===== src/Sync/Tables/Device.antt =====
-- `Synchrodata_device_info` of `WPD_MTP_data/WPD_MTP_dataDlg.cpp`: RFID tags that the phone read go to
-- the server, or devices go to the phone and deleted devices leave it.
pub mod Marks
use shujugongxiang.Prelude.{
  ℕ, zero, suc, ◌+◌, ◌-◌, ◌/◌, ◌%◌, Bool, true, false, ◌&&◌, Option, none, some, List, [], ◌∷◌,
  ◌++◌, map, not, ltb, length, take, set, replicate, if◌then◌else◌,
}
use shujugongxiang.Text.Defs.{Text, codes, is_empty, text_eq, decimal}
use shujugongxiang.Text.Escape.{quoted_list}
use shujugongxiang.Sync.World.{
  Row, Call, open_db, close_db, count_rows, select_rows, insert_rows, write_log, show_log, Env, M,
  pure, ◌>>=◌, ◌>>◌, do_call, ask, ask_rows, ask_count, log_mysql_error, log_sqlite_error, when,
}
use shujugongxiang.Sync.Record.{Direction, to_phone, to_pc, other_dir, quoted, column}
use shujugongxiang.Sync.Statements.{update_mysql_db}
use shujugongxiang.Sync.Switch.{Scope, scope_areas, scope_devices}
use shujugongxiang.Sync.Tables.{Table, copy_rows, remove_rows, removed_all}
use shujugongxiang.Sync.Tables.Template.{window}

-- Column 0 is the id; of the phone's rows, column 1 is the RFID.
pub rfid_statement : Row → Text
rfid_statement row =
    codes "UPDATE device_info set RFID ="
    ++ (quoted (column row 1) ++ (codes " where Id=" ++ (quoted (column row 0) ++ codes ";")))

-- The column that the chosen ids are compared with.
pub scope_column : Scope → Text
scope_column scope_areas = codes "AreaId"
scope_column scope_devices = codes "Id"

pub waiting_sql : Text → Scope → Text → Text → Text → Text
waiting_sql what scope begin_time cur_time ids =
    codes "SELECT "
    ++ (what
        ++ (codes " FROM `device_info` where "
            ++ (scope_column scope
                ++ (codes " in("
                    ++ (ids
                        ++ (codes ") and "
                            ++ (window [] begin_time cur_time
                                ++ codes " and SynchronState='0';")))))))

pub rfid_mark_sql : Text
rfid_mark_sql = codes "update device_info set SynchronState='1' where Id = ?"

-- IsBindRFID, a bit of the server, as a digit; the bit 0 arrives as an empty text.
pub bit_text : Text → Text
bit_text t = if is_empty t then codes "0" else if text_eq t (1 ∷ []) then codes "1" else t

pub device_mark : Row → Text
device_mark row =
    codes "UPDATE device_info set SynchronState ='1' where Id="
    ++ (quoted (column row 0) ++ codes ";")

pub device_row : Row → Row
device_row row = set (set row 7 (codes "1")) 11 (bit_text (column row 11))

pub device_columns : Text
device_columns =
    codes
      "`Id`,`RFID`,`Name`,`Picture`,`TypeId`,`Info`,`AreaId`,`SynchronState`,`CreateDate`,`CreateUserId`,ParentId,IsBindRFID "

pub device_select_sql : Scope → Text → Text → Text → Text
device_select_sql scope begin_time cur_time ids =
    codes "SELECT "
    ++ (device_columns
        ++ (codes " FROM `device_info` where "
            ++ (scope_column scope
                ++ (codes " in("
                    ++ (ids
                        ++ (codes ") and SynchronState='0' and "
                            ++ (window [] begin_time cur_time ++ codes ";")))))))

-- With devices chosen, the ids play no part.
pub device_deleted_sql : Scope → Text → Text → Text → Text
device_deleted_sql scope_areas begin_time cur_time ids =
    codes "SELECT `Id` FROM `device_info` where AreaId in("
    ++ (ids
        ++ (codes ") and SynchronState='2' and " ++ (window [] begin_time cur_time ++ codes " ;")))
device_deleted_sql scope_devices begin_time cur_time ids =
    codes "SELECT `Id` FROM `device_info` where SynchronState='2' and "
    ++ (window [] begin_time cur_time ++ codes " ;")

pub device_table : Scope → Text → Text → Text → Table
device_table scope begin_time cur_time ids = record {
  select_sql = device_select_sql scope begin_time cur_time ids;
  store_sql =
      codes "Replace INTO `device_info` ("
      ++ (device_columns ++ codes ") VALUES(?,?,?,?,?,?,?,?,?,?,?,?);");
  stored_row = device_row;
  mark = device_mark;
  deleted_sql = device_deleted_sql scope begin_time cur_time ids;
  delete_sql = codes "delete from device_info where Id=?";
}

-- The call that marks the rows on the phone: of the ids, as many as rows were given are set.
abbrev pub mark_tags_call : ℕ → List Row → Call
mark_tags_call count rows =
    insert_rows rfid_mark_sql
      (map (λ row. some (column row 0 ∷ [])) rows ++ replicate (count - length rows) none) 1

module _ (env : Env) where
  -- The rows, once there are `count` to fetch. If the query for them fails, the array of ids exists,
  -- and none of it is set.
  pub fetch_tags : Text → Text → ℕ → M (Bool × ℕ × List Row)
  fetch_tags count_sql select_sql count = do
    do_call (write_log (count_sql ++ (codes "同步的数据条数为[" ++ (decimal count ++ codes "];"))))
    (selected, found) ← ask_rows env (select_rows select_sql count)
    if selected
        then pure (true, count, take count found)
        else log_sqlite_error env count_sql >> pure (false, count, [])

  -- The tags that wait on the phone, with `ret` and the number of rows that was counted.
  pub phone_tags : Scope → Text → Text → Text → M (Bool × ℕ × List Row)
  phone_tags scope begin_time cur_time ids = do
    let count_sql = waiting_sql (codes "count(*)") scope begin_time cur_time ids
    let select_sql = waiting_sql (codes "`Id`,`RFID`") scope begin_time cur_time ids
    (counted, count) ← ask_count env (count_rows count_sql)
    if counted
        then (if ltb 0 count then fetch_tags count_sql select_sql count else pure (true, 0, []))
        else log_sqlite_error env count_sql >> pure (false, 0, [])

  -- The rows that the phone gave are marked there, once the server has them.
  pub mark_tags : ℕ → List Row → Bool → M Bool
  mark_tags count rows ret =
      if ltb 0 count
      then (do
        marked ← ask env (mark_tags_call count rows)
        if marked
            then pure ret
            else (do do_call (write_log (codes "device_info 同步RFID 同步新数据操作失败!")); pure false))
      else pure ret

  -- The branch `tongbu_to_pc`.
  pub device_to_pc : Scope → Text → Text → Text → M Bool
  device_to_pc scope begin_time cur_time ids = do
    (ret, count, rows) ← phone_tags scope begin_time cur_time ids
    stored ← update_mysql_db env (map rfid_statement rows)
    if stored
        then mark_tags count rows ret
        else (do show_log env (codes "从phone更新RFId到服务端失败!"); log_mysql_error env; pure false)

  -- The branch `tongbu_to_phone`.
  pub device_to_phone : Table → M Bool
  device_to_phone t = do
    copied ← copy_rows env t
    removed ← remove_rows env t.deleted_sql t.delete_sql t.deleted_sql
    pure (copied && removed_all removed)

  pub device_in_db : Text → Text → Text → Direction → Scope → M Bool
  device_in_db begin_time cur_time ids to_pc scope = device_to_pc scope begin_time cur_time ids
  device_in_db begin_time cur_time ids to_phone scope =
      device_to_phone (device_table scope begin_time cur_time ids)
  device_in_db begin_time cur_time ids other_dir scope = pure true

  pub synchrodata_device_info : Text → Text → List Text → Text → Direction → Scope → M Bool
  synchrodata_device_info begin_time cur_time ids path dir scope = do
    opened ← ask env (open_db path)
    result ←
        if opened
        then (do
          ret ← device_in_db begin_time cur_time (quoted_list ids) dir scope
          do_call close_db
          pure ret)
        else (do
          do_call (write_log (codes "同步新数据操作失败!"))
          do_call (write_log (codes "打开中间数据库失败!" ++ path))
          pure false)
    do_call (write_log (codes "同步表[device_info]操作完成!"))
    pure result
