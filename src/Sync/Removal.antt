-- ===== src/Sync/Removal.antt =====
-- `DeleteAreaAndDevice` of `WPD_MTP_data/WPD_MTP_dataDlg.cpp`: the areas and devices that the deletion
-- tree marks leave the phone, those marked for real deletion the server too; then deleted users.
pub mod Effects
pub mod Rows
use shujugongxiang.Prelude.{
  ℕ, Bool, true, false, ◌&&◌, Option, none, some, List, [], ◌∷◌, ◌++◌, map, not, ltb, length,
  if◌then◌else◌,
}
use mathlib.Core.List.{flat_map}
use shujugongxiang.Text.Defs.{Text, codes, is_empty}
use shujugongxiang.Cascade.{Tree, null, node, Node, Found, delete_area_and_device_find_id}
use shujugongxiang.Cascade.Doomed.{nothing_found}
use shujugongxiang.Sync.World.{
  Row, Call, path_exists, open_db, close_db, exec_sql, delete_rows, mysql_select, mysql_query,
  mysql_one_query, write_log, Env, Session, M, pure, ◌>>=◌, ◌>>◌, do_call, ask, ask_rows,
  log_mysql_error, log_sqlite_error, first_size,
}
use shujugongxiang.Sync.Statements.{update_mysql_db}
use shujugongxiang.Sync.Record.{quoted, column}

-- FUNMAPTOSTRARY: the keys that are not empty.
pub map_to_array : List Text → List Text
map_to_array [] = []
map_to_array (key ∷ keys) =
    let rest = map_to_array keys in if is_empty key then rest else key ∷ rest

abbrev pub id_rows : List Text → List (Option Row)
id_rows ids = map (λ id. some (id ∷ [])) ids

pub device_sql : Text
device_sql = codes "delete from device_info where Id=?"

pub area_sql : Text
area_sql = codes "delete from areas where Id=?"

pub area_user_sql : Text
area_user_sql = codes "delete from user_table where data_areas=?"

-- What belongs to devices that are gone.
pub orphan_sql : Text
orphan_sql =
    codes
      "DELETE FROM work_type WHERE DeviceId NOT in (SELECT id FROM device_info); DELETE FROM work_template WHERE WorkTypeId NOT in(SELECT id FROM work_type); DELETE FROM work_task WHERE DeviceId NOT in(SELECT id FROM device_info); DELETE FROM work_record WHERE DeviceId NOT in(SELECT id from device_info);"

pub device_removal : Text → Text
device_removal id = codes "delete from device_info where Id=" ++ (quoted id ++ codes ";")

pub area_removal : Text → List Text
area_removal id =
    (codes "delete from areas where Id=" ++ (quoted id ++ codes ";"))
    ∷ (codes "delete from sys_user where data_areas=" ++ (quoted id ++ codes ";"))
    ∷ []

pub removed_users_sql : Text
removed_users_sql =
    codes "SELECT `id` FROM  `sys_user` where SynchronState='2' or SynchronState='3';"

module _ (env : Env) where
  -- 2.1: the result stays in an inner `retRes`.
  pub remove_devices : List Text → List Text → M (Unit {0})
  remove_devices real want = do
    devices ← ask env (delete_rows device_sql (id_rows (real ++ want)) 1)
    orphans ← ask env (exec_sql orphan_sql)
    if devices && orphans
        then (do
          sent ← update_mysql_db env (map device_removal real)
          swept ← ask env (mysql_query orphan_sql)
          pure tt)
        else pure tt

  -- 2.2
  pub remove_areas : List Text → List Text → Bool → M Bool
  remove_areas real want ret = do
    areas ← ask env (delete_rows area_sql (id_rows (real ++ want)) 1)
    users ← ask env (delete_rows area_user_sql (id_rows (real ++ want)) 1)
    if areas && users
        then (do sent ← update_mysql_db env (flat_map area_removal real); pure (ret && sent))
        else (do do_call (write_log (codes "清除区域:删除本地数据错误!")); log_mysql_error env; pure false)

  -- 2.3
  pub remove_users : Bool → M Bool
  remove_users ret = do
    (selected, rows) ← ask_rows env (mysql_select removed_users_sql)
    if selected
        then (if ltb 0 (length rows)
            then (do
              removed ← ask env (
                  delete_rows (codes "delete from user_table where id=?")
                    (map (λ row. some (column row 0 ∷ [])) rows) 1)
              if removed then pure ret else (do
                do_call (write_log (codes "删除操作失败!" ++ removed_users_sql))
                log_sqlite_error env []
                pure false))
            else pure ret)
        else (do do_call (write_log (codes "真删用户错误!")); log_mysql_error env; pure false)

  -- The users with state 3 leave the server.
  pub remove_server_users : Bool → M Bool
  remove_server_users ret = do
    let sql = codes "delete FROM  `sys_user` where SynchronState='3';"
    removed ← ask env (mysql_one_query sql)
    if removed
        then pure ret
        else (do (λ s. do_call (write_log (env.mysql_error s.calls ++ sql)) s); pure false)

  -- The work on the open database.
  pub remove_found : Found → Found → M Bool
  remove_found real want = do
    let devices = map_to_array real.devices
    let devices_want = map_to_array want.devices
    let areas = map_to_array real.areas
    let areas_want = map_to_array want.areas
    if ltb 0 (length (devices ++ devices_want))
        then remove_devices devices devices_want
        else pure tt
    ret1 ←
        if ltb 0 (length (areas ++ areas_want))
        then remove_areas areas areas_want true
        else pure true
    ret2 ← remove_users ret1
    remove_server_users ret2

  -- A null pointer to the tree ends the call at once.
  pub delete_area_and_device : Tree → Text → M Bool
  delete_area_and_device null path = pure true
  delete_area_and_device (node n first next) path = do
    let found = delete_area_and_device_find_id (node n first next) (nothing_found, nothing_found)
    exists ← ask env (path_exists path)
    if exists
        then (do
          opened ← ask env (open_db path)
          result ←
              if opened
              then (do ret ← remove_found found.0 found.1; do_call close_db; pure ret)
              else (do_call (write_log (codes "打开中间数据库失败!" ++ path)) >> pure false)
          do_call (write_log (codes "删除操作完成!"))
          pure result)
        else (do_call (write_log (codes "数据库文件不存在:" ++ path)) >> pure false)
