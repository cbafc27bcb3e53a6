-- ===== src/Sync/Statements.antt =====
-- `UpdateMysqlDB` of `WPD_MTP_data/WPD_MTP_dataDlg.cpp`: a list of SQL statements is sent to the
-- server in batches of at most UPDATEMAX.
pub mod Loop
pub mod Batches
pub mod Untouched
use shujugongxiang.Prelude.{
  ℕ, zero, suc, ◌+◌, ◌≤◌, ◌<◌, ◌≡◌, ◌≢◌, refl, ap, sym, ◌∙◌, ◌⊎◌, inl, inr, Bool, true, false, ◌&&◌,
  Option, none, some, List, [], ◌∷◌, ◌++◌, append-nil, append_assoc, not, map, ltb, ◌==◌, length,
  length-append, All, All-append, Bool-cases, if◌then◌else◌, arith,
}
use mathlib.Core.List.{flatten}
use shujugongxiang.Text.Defs.{Text, is_empty}
use shujugongxiang.Sync.World.{
  Call, mysql_query, mysql_one_query, write_log, Env, Session, M, pure, ◌>>=◌, ◌>>◌, do_call, ask,
  make_call,
}

abbrev pub update_max : ℕ
update_max = 100

module _ (env : Env) where
  -- The loop, with `sqlNum` and `strTemp`; `none` is its `return FALSE`. After a flush the loop
  -- comes back to the same statement with a counter of 0 and an empty text, and takes it.
  pub update_loop : List Text → ℕ → Text → M (Option (ℕ × Text))
  update_loop [] sql_num temp = pure (some (sql_num, temp))
  update_loop (statement ∷ list) sql_num temp =
      let flush = (do
        sent ← ask env (mysql_query temp)
        if sent then update_loop list 1 statement else pure none) in
      let take_it = update_loop list (sql_num + 1) (temp ++ statement) in
      if ltb update_max (sql_num + 1) then flush else take_it

  -- The rest is sent by OneQuery or Query; a failure is logged.
  pub send_rest : ℕ → Text → M Bool
  send_rest sql_num temp = do
    sent ←
        if not (is_empty temp) && (sql_num == 1)
        then ask env (mysql_one_query temp)
        else if not (is_empty temp) && ltb 1 sql_num
        then ask env (mysql_query temp)
        else pure true
    if sent then pure true else do_call (write_log temp) >> pure false

  pub update_mysql_db : List Text → M Bool
  update_mysql_db list = do
    left ← update_loop list 0 []
    elim left [ none ↦ pure false | some (sql_num, temp) ↦ send_rest sql_num temp ]
