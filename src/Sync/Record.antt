-- ===== src/Sync/Record.antt =====
-- `Synchrodata_work_record` of `WPD_MTP_data/WPD_MTP_dataDlg.cpp`: work records from the phone to the
-- server, or from the server to the phone. Runs of blanks inside the SQL texts are written as one.
pub mod Marks
pub mod Closing
use shujugongxiang.Prelude.{
  ℕ, zero, suc, ◌+◌, ◌-◌, Bool, true, false, ◌&&◌, Option, none, some, List, [], ◌∷◌, ◌++◌, map,
  not, ltb, ◌==◌, length, take, set, get_or, replicate, if◌then◌else◌,
}
use shujugongxiang.Text.Defs.{Text, codes}
use shujugongxiang.Text.Escape.{escape_field, quoted_list, quote}
use shujugongxiang.Sync.World.{
  Row, Call, path_exists, open_db, close_db, count_rows, select_rows, insert_rows, mysql_select,
  write_log, show_log, Env, Session, M, pure, ◌>>=◌, ◌>>◌, do_call, ask, ask_rows, ask_count,
  add_updates, log_mysql_error, log_sqlite_error, when, first_size,
}
use shujugongxiang.Sync.Statements.{update_mysql_db}

-- `enum tongbu_dir`; any other value is `other_dir`.
pub data Direction : Type 0 where
  to_phone to_pc other_dir : Direction

-- `'%s'` of a value.
unfoldable pub quoted : Text → Text
quoted value = quote ∷ (value ++ (quote ∷ []))

-- A row of ten columns, in the order of `enum work_record_enum`: Id, DeviceId, WorkTaskId, Number,
-- ProcessName, Results, SynchronState, CreateDate, CreateUserId, ClassName.
abbrev pub column : Row → ℕ → Text
column row i = get_or row i []

-- The values between commas.
pub values_list : List Text → Text
values_list [] = []
values_list (v ∷ []) = v
values_list (v ∷ w ∷ vs) = v ++ (codes "," ++ values_list (w ∷ vs))

-- The statement that stores one row of the phone on the server; its fields are converted before.
pub record_statement : Row → Text
record_statement row =
    let field = λ (i : ℕ). quoted (escape_field (column row i)) in
    codes
      "REPLACE INTO work_record(`Id`,`DeviceId`,`WorkTaskId`,`Number`,`ProcessName`,`Results`,`SynchronState`,`CreateDate`,`CreateUserId`,ClassName) values("
    ++ (values_list (
          field 0
          ∷ field 1
          ∷ field 2
          ∷ field 3
          ∷ field 4
          ∷ field 5
          ∷ codes "'1'"
          ∷ field 7
          ∷ field 8
          ∷ field 9
          ∷ [])
        ++ codes ");")

-- The statement that marks a row of the server as synchronised.
pub record_mark : Row → Text
record_mark row =
    codes "UPDATE work_record set SynchronState ='1'  where Id="
    ++ (quoted (column row 0) ++ codes ";")

pub record_window : Text → Text → Text
record_window begin_time cur_time =
    codes "where SynchronState='0' and CreateDate >= "
    ++ (quoted begin_time ++ (codes " and CreateDate <= " ++ quoted cur_time))

pub record_columns : Text
record_columns =
    codes
      "`Id`,`DeviceId`,`WorkTaskId`,`Number`,`ProcessName`,`Results`,`SynchronState`,`CreateDate`,"

pub phone_mark_sql : Text
phone_mark_sql = codes "UPDATE work_record set SynchronState ='1' where Id=?;"

pub phone_store_sql : Text
phone_store_sql =
    codes "REPLACE INTO work_record("
    ++ (record_columns ++ codes "`Executor`,ClassName) VALUES(?,?,?,?,?,?,?,?,?,?);")

pub record_server_sql : Text → Text → Text
record_server_sql begin_time cur_time =
    codes "SELECT "
    ++ (record_columns
        ++ (codes "`CreateUserId`,ClassName FROM `work_record` "
            ++ (record_window begin_time cur_time ++ codes ";")))

-- The rows as they are stored on the phone: marked as synchronised.
pub phone_rows : List Row → List (Option Row)
phone_rows rows = map (λ row. some (set row 6 (codes "1"))) rows

module _ (env : Env) where
  -- The rows of the phone are stored on the server, and if that succeeds marked on the phone. The
  -- array of ids has an entry for each row counted; one that no row filled was never set.
  pub store_and_mark : ℕ → List Row → M (Unit {0})
  store_and_mark count rows = do
    let ids = map (λ row. some (column row 0 ∷ [])) rows ++ replicate (count - length rows) none
    stored ← update_mysql_db env (map record_statement rows)
    if stored
        then (do
          marked ← ask env (insert_rows phone_mark_sql ids 1)
          when (not marked) (log_sqlite_error env []))
        else (do show_log env (codes "从phone更新记录数据服务端work_record失败!"); log_mysql_error env)

  -- The branch `tongbu_to_pc`. It reports no failure: every one is answered by `retRes &= TRUE`.
  pub record_to_pc : Text → Text → Text → M (Unit {0})
  record_to_pc begin_time cur_time devices = do
    let limits = record_window begin_time cur_time
    let count_sql =
        codes "SELECT count(*) FROM `work_record` "
        ++ (limits ++ (codes " and DeviceId in(" ++ (devices ++ codes ");")))
    let select_sql =
        codes "SELECT "
        ++ (record_columns
            ++ (codes "`Executor`,ClassName FROM `work_record` "
                ++ (limits ++ (codes " and  DeviceId in(" ++ (devices ++ codes ");")))))
    (counted, count) ← ask_count env (count_rows count_sql)
    if counted
        then (if ltb 0 count
            then (do
              (selected, found) ← ask_rows env (select_rows select_sql count)
              if selected
                  then store_and_mark count (take count found)
                  else log_sqlite_error env select_sql)
            else pure tt)
        else log_sqlite_error env count_sql

  -- The rows of the server are stored on the phone; the statements that mark them on the server wait
  -- in `m_updateMysqlData` if that succeeded.
  pub store_on_phone : List Row → M (Unit {0})
  store_on_phone rows = do
    stored ← ask env (insert_rows phone_store_sql (phone_rows rows) (first_size rows))
    if stored then add_updates (map record_mark rows) else log_sqlite_error env phone_store_sql

  -- The branch `tongbu_to_phone`.
  pub record_to_phone : Text → Text → M Bool
  record_to_phone begin_time cur_time = do
    let sql = record_server_sql begin_time cur_time
    (selected, rows) ← ask_rows env (mysql_select sql)
    if selected
        then (if ltb 0 (length rows) then store_on_phone rows >> pure true else pure true)
        else (do do_call (write_log (codes "同步新数据操作失败!" ++ sql)); log_mysql_error env; pure false)

  pub record_in_db : Text → Text → Text → Direction → M Bool
  record_in_db begin_time cur_time devices to_pc =
      record_to_pc begin_time cur_time devices >> pure true
  record_in_db begin_time cur_time devices to_phone = record_to_phone begin_time cur_time
  record_in_db begin_time cur_time devices other_dir = pure true

  -- `strAryAreaID` holds device ids; the time window is the clock's.
  pub synchrodata_work_record : Text → Text → List Text → Text → Direction → M Bool
  synchrodata_work_record begin_time cur_time ids path dir = do
    exists ← ask env (path_exists path)
    if exists
        then (do
          opened ← ask env (open_db path)
          if opened
              then (do
                result ← record_in_db begin_time cur_time (quoted_list ids) dir
                do_call close_db
                do_call (write_log (codes "同步表[work_record]操作完成!"))
                pure result)
              else (do
                do_call (write_log (codes "同步新数据操作失败!"))
                do_call (write_log (codes "打开中间数据库失败!" ++ path))
                pure false))
        else (do_call (write_log (codes "数据库文件不存在:" ++ path)) >> pure false)
