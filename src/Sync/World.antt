-- ===== src/Sync/World.antt =====
-- What the dialog of `WPD_MTP_data/WPD_MTP_dataDlg.cpp` asks of the code around it: files, the two
-- databases, the log. Each call is recorded, and answered by an environment that knows all calls
-- made before; nothing else is assumed of it.
use shujugongxiang.Prelude.{ℕ, Bool, true, false, Option, List, [], ◌∷◌, ◌++◌, length}
use shujugongxiang.Text.Defs.{Text}

abbrev pub Row : Type 0
Row = List Text

pub data Call : Type 0 where
  -- PathFileExists
  path_exists : Text → Call
  -- CSQLite: OpenDataBase, CloseDataBase, QuickSelectDataCount, QuickSelectData, DeleteData
  open_db : Text → Call
  close_db : Call
  count_rows : Text → Call
  select_rows : Text → ℕ → Call
  exec_sql : Text → Call
  -- QuickInsertData and QuickDeletData: the statement, the rows (`none` is a pointer that was never
  -- set), and how many columns of each are bound
  insert_rows delete_rows : Text → List (Option Row) → ℕ → Call
  -- CMyDataBase: InitMyDataBase, Close, Select, Query, OneQuery
  mysql_init : Call
  mysql_close : Call
  mysql_select mysql_query mysql_one_query : Text → Call
  -- CLogRecord::WriteRecordToFile, and a line in the dialog's list
  write_log show_line : Text → Call

-- The BOOL, the count and the rows that a call gives back, and the error texts.
pub record Env : Type 0 where
  pub yes : List Call → Call → Bool
  pub count : List Call → Call → ℕ
  pub rows : List Call → Call → List Row
  -- CSQLite::GetLastErrorStr and CMyDataBase::GetErrorInfo.
  pub sqlite_error : List Call → Text
  pub mysql_error : List Call → Text

-- The calls made so far, first to last, and `m_updateMysqlData`.
pub record Session : Type 0 where
  pub calls : List Call
  pub updates : List Text

abbrev pub M : Type 0 → Type 0
M A = Session → A × Session

abbrev pub pure : {A : Type 0} → A → M A
pure a s = (a, s)

infixl 5 ◌>>=◌ ◌>>◌
abbrev pub ◌>>=◌ : {A B : Type 0} → M A → (A → M B) → M B
◌>>=◌ m f s = let (a, s') = m s in f a s'

abbrev pub ◌>>◌ : {A B : Type 0} → M A → M B → M B
◌>>◌ m k s = let (a, s') = m s in k s'

abbrev pub make_call : Call → Session → Session
make_call c s = record s { calls = s.calls ++ (c ∷ []) }

-- A call whose result is not used.
abbrev pub do_call : Call → M (Unit {0})
do_call c s = (tt, make_call c s)

-- `m_updateMysqlData.RemoveAll()`, and `AddTail` of each statement.
abbrev pub clear_updates : M (Unit {0})
clear_updates s = (tt, record s { updates = [] })

abbrev pub add_updates : List Text → M (Unit {0})
add_updates statements s = (tt, record s { updates = s.updates ++ statements })

module _ (env : Env) where
  abbrev pub ask : Call → M Bool
  ask c s = (env.yes s.calls c, make_call c s)

  -- A query: its BOOL and its rows.
  abbrev pub ask_rows : Call → M (Bool × List Row)
  ask_rows c s = ((env.yes s.calls c, env.rows s.calls c), make_call c s)

  abbrev pub ask_count : Call → M (Bool × ℕ)
  ask_count c s = ((env.yes s.calls c, env.count s.calls c), make_call c s)

  -- CLogRecord::WriteRecordToFile of the server's error.
  abbrev pub log_mysql_error : M (Unit {0})
  log_mysql_error s = do_call (write_log (env.mysql_error s.calls)) s

  -- ... and of SQLite's error, with more text behind it.
  abbrev pub log_sqlite_error : Text → M (Unit {0})
  log_sqlite_error t s = do_call (write_log (env.sqlite_error s.calls ++ t)) s

  -- `ShowLog`: the list, the log, and the server's error.
  unfoldable pub show_log : Text → M (Unit {0})
  show_log t = do_call (show_line t) >> do_call (write_log t) >> log_mysql_error

-- `if (b) m`.
abbrev pub when : Bool → M (Unit {0}) → M (Unit {0})
when true m = m
when false m = pure tt

-- The number of columns of the first row, `ppAryData[0]->GetSize()`.
abbrev pub first_size : List Row → ℕ
first_size [] = 0
first_size (row ∷ rows) = length row
