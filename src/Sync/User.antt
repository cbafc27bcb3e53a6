-- ===== src/Sync/User.antt =====
-- `Synchrodata_sys_user` of `WPD_MTP_data/WPD_MTP_dataDlg.cpp`: users of the chosen areas go from the
-- server to the phone, deleted users leave the phone.
pub mod Marks
use shujugongxiang.Prelude.{
  ℕ, Bool, true, false, ◌&&◌, Option, none, some, List, [], ◌∷◌, ◌++◌, map, not, ltb, length,
  if◌then◌else◌,
}
use shujugongxiang.Text.Defs.{Text, codes}
use shujugongxiang.Text.Escape.{quoted_list}
use shujugongxiang.Sync.World.{
  Row, Call, path_exists, open_db, close_db, insert_rows, delete_rows, mysql_select, write_log, Env,
  Session, M, pure, ◌>>=◌, ◌>>◌, do_call, ask, ask_rows, add_updates, log_mysql_error,
  log_sqlite_error, first_size,
}
use shujugongxiang.Sync.Record.{quoted, column}

pub user_select_sql : Text → Text
user_select_sql areas =
    codes
      "SELECT u.id,u.user_name,u.real_name,u.password,r.role_name,a.Name, u.SynchronState ,u.pwd_key,u.role_id ,u.data_areas FROM `sys_user` u , sys_role r, areas a where (u.SynchronState='0' or u.SynchronState='1') and u.data_areas in("
    ++ (areas ++ codes ") and u.data_areas = a.Id and u.role_id = r.id; ")

pub deleted_user_sql : Text → Text
deleted_user_sql areas =
    codes "SELECT `id` FROM  `sys_user` where SynchronState='2' and data_areas in("
    ++ (areas ++ codes "); ")

pub user_store_sql : Text
user_store_sql =
    codes
      "Replace  INTO `user_table` (`Id`,`LoginName`,`Name`,`Password`,`Role`,`AreaName`,`SynchronState`,pwd_key,RoleId,data_areas) VALUES(?,?,?,?,?,?,?,?,?,?);"

pub user_delete_sql : Text
user_delete_sql = codes "delete from user_table where id=?"

-- The statement that marks a user of the server as synchronised.
pub user_mark : Row → Text
user_mark row =
    codes "UPDATE sys_user set SynchronState ='1' where id=" ++ (quoted (column row 0) ++ codes ";")

module _ (env : Env) where
  -- The marks are queued before the rows are stored, and stay queued if that fails.
  pub store_users : List Row → M Bool
  store_users rows = do
    add_updates (map user_mark rows)
    stored ← ask env (insert_rows user_store_sql (map some rows) (first_size rows))
    if stored then pure true else log_sqlite_error env [] >> pure false

  pub select_users : Text → M Bool
  select_users areas = do
    (selected, rows) ← ask_rows env (mysql_select (user_select_sql areas))
    if selected then (if ltb 0 (length rows) then store_users rows else pure true) else (do
      do_call (write_log (codes "同步新数据操作失败!" ++ user_select_sql areas))
      log_mysql_error env
      pure false)

  pub delete_users : Text → M Bool
  delete_users areas = do
    (selected, rows) ← ask_rows env (mysql_select (deleted_user_sql areas))
    if selected
        then (if ltb 0 (length rows)
            then (do
              deleted ←
                  ask env
                    (delete_rows user_delete_sql (map (λ row. some (column row 0 ∷ [])) rows) 1)
              if deleted then pure true else (do
                do_call (write_log (codes "删除操作失败!" ++ deleted_user_sql areas))
                log_sqlite_error env []
                pure false))
            else pure true)
        else (do
          do_call (write_log (codes "删除操作失败!" ++ deleted_user_sql areas))
          log_mysql_error env
          pure false)

  pub synchrodata_sys_user : List Text → Text → M Bool
  synchrodata_sys_user ids path = do
    exists ← ask env (path_exists path)
    if exists
        then (do
          opened ← ask env (open_db path)
          if opened
              then (do
                stored ← select_users (quoted_list ids)
                deleted ← delete_users (quoted_list ids)
                do_call close_db
                do_call (write_log (codes "同步表[sys_user]操作完成!"))
                pure (stored && deleted))
              else (do_call (write_log (codes "打开中间数据库失败!" ++ path)) >> pure false))
        else (do_call (write_log (codes "数据库文件不存在:" ++ path)) >> pure false)
