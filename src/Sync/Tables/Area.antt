-- ===== src/Sync/Tables/Area.antt =====
-- `Synchrodata_areas` of `WPD_MTP_data/WPD_MTP_dataDlg.cpp`: the areas of the tree control go to the
-- phone, deleted areas leave it. `Synchrodata_device_type` is switched off in the source.
use shujugongxiang.Prelude.{
  Bool, true, false, ◌&&◌, some, List, ◌++◌, map, ltb, length, set, if◌then◌else◌,
}
use shujugongxiang.Text.Defs.{Text, codes}
use shujugongxiang.Text.Escape.{quoted_list}
use shujugongxiang.Sync.World.{
  Row, open_db, close_db, insert_rows, mysql_select, write_log, show_log, Env, M, pure, ◌>>=◌, ◌>>◌,
  do_call, ask, ask_rows, log_mysql_error, log_sqlite_error,
}
use shujugongxiang.Sync.Record.{Direction, to_phone, column}
use shujugongxiang.Sync.Removal.{map_to_array}
use shujugongxiang.Sync.Tables.{remove_rows, removed_all}
use shujugongxiang.Sync.Tables.Device.{bit_text}

-- The query for the areas with these ids, quoted.
pub area_select_sql : Text → Text
area_select_sql ids =
    codes
      "SELECT `areas`.`Id`, `areas`.`Code`, `areas`.`Name`, `areas`.`ParentId`, `areas`.`CreateDate`, `areas`.`CreateUserId`, `areas`.`Info`, `areas`.`SynchronState`, `areas`.`isDelete` FROM `areas` where Id in("
    ++ (ids ++ codes ");")

pub area_store_sql : Text
area_store_sql =
    codes
      "Replace INTO `areas` (Id,Code,Name,ParentID,CreateDate,CreateUserId) VALUES(?,?,?,?,?,?);"

pub area_deleted_sql : Text
area_deleted_sql = codes "SELECT `areas`.`Id` FROM `areas` where SynchronState='2';"

-- Columns 7 and 8 are changed, though only PHONE_AREAS_NUM of the nine are stored.
pub area_row : Row → Row
area_row row = set (set row 7 (codes "1")) 8 (bit_text (column row 8))

module _ (env : Env) where
  pub store_areas : List Row → M Bool
  store_areas rows = do
    stored ← ask env (insert_rows area_store_sql (map (λ row. some (area_row row)) rows) 6)
    if stored then pure true else log_sqlite_error env area_store_sql >> pure false

  pub copy_areas : Text → M Bool
  copy_areas sql = do
    (selected, rows) ← ask_rows env (mysql_select sql)
    if selected then (if ltb 0 (length rows) then store_areas rows else pure true) else (do
      do_call (write_log (codes "同步新数据操作失败!" ++ sql))
      log_mysql_error env
      show_log env (codes "同步区域操作失败")
      pure false)

  -- On the open database; a failed deletion logs the query for the areas, not its own.
  pub areas_in_db : List Text → M Bool
  areas_in_db keys = do
    let sql = area_select_sql (quoted_list keys)
    copied ← if ltb 0 (length keys) then copy_areas sql else pure true
    removed ← remove_rows env area_deleted_sql (codes "delete from areas where Id=?") sql
    do_call close_db
    pure (copied && removed_all removed)

  pub areas_to_phone : List Text → Text → M Bool
  areas_to_phone keys path = do
    opened ← ask env (open_db path)
    if opened then areas_in_db keys else (do
      do_call (write_log (codes "同步新数据操作失败!" ++ area_select_sql (quoted_list keys)))
      do_call (write_log (codes "打开中间数据库失败!" ++ path))
      pure false)

  -- `keys` are those of `m_mapTreeIDToCtrl`, in the order in which the map gives them.
  pub synchrodata_areas : List Text → Text → Direction → M Bool
  synchrodata_areas keys path dir = do
    result ← elim dir [ to_phone ↦ areas_to_phone (map_to_array keys) path | _ ↦ pure true ]
    do_call (write_log (codes "同步表[areas]操作完成!"))
    pure result
