-- ===== src/Mysql.antt =====
-- `WPD_MTP_data/mysql/MyDataBase.cpp`: the connection to the server, over the functions of the MySQL
-- client. The client is a parameter: each call is recorded, and answered by what was called before.
pub mod Results
use shujugongxiang.Prelude.{
  ℕ, zero, suc, Bool, true, false, not, Option, none, some, List, [], ◌∷◌, ◌++◌, map, if◌then◌else◌,
}
use shujugongxiang.Text.Defs.{Text, codes}
use shujugongxiang.Sync.World.{Row}

-- MySQLConInfo.
pub record ConInfo : Type 0 where
  pub server : Text
  pub user : Text
  pub password : Text
  pub database : Text
  pub port : ℕ

pub data ClientCall : Type 0 where
  -- CMutex::Lock and Unlock of `g_clsMutex`
  lock unlock : ClientCall
  -- mysql_library_init, mysql_init, mysql_options with the character set, mysql_real_connect, mysql_close
  library_init instance_init charset_gbk close_connection : ClientCall
  connect : ConInfo → ClientCall
  -- mysql_query, mysql_set_server_option, mysql_store_result, mysql_free_result, mysql_next_result
  send_query : Text → ClientCall
  multi_statements_on multi_statements_off store_result free_result next_result : ClientCall

pub record Client : Type 0 where
  -- A connection, or 0 of mysql_query.
  pub succeeds : List ClientCall → ClientCall → Bool
  -- mysql_next_result gives 0: one more result. Else there is none, or its statement failed.
  pub more : List ClientCall → Bool
  -- The rows of the result that was stored; a NULL is `none`.
  pub stored : List ClientCall → List (List (Option Text))
  pub error_number : List ClientCall → ℕ
  pub error_text : List ClientCall → Text

-- `MysqlConInfo`, `m_isConnect`, `ErrorNum`, `ErrorInfo`, and all calls made so far.
pub record DataBase : Type 0 where
  pub calls : List ClientCall
  pub con_info : ConInfo
  pub is_connect : Bool
  pub error_num : ℕ
  pub error_info : Text

abbrev pub B : Type 0 → Type 0
B A = DataBase → A × DataBase

abbrev pub give : {A : Type 0} → A → B A
give a s = (a, s)

infixl 5 ◌>>=◌ ◌>>◌
abbrev pub ◌>>=◌ : {A C : Type 0} → B A → (A → B C) → B C
◌>>=◌ m f s = let (a, s') = m s in f a s'

abbrev pub ◌>>◌ : {A C : Type 0} → B A → B C → B C
◌>>◌ m k s = let (a, s') = m s in k s'

abbrev pub add_call : ClientCall → DataBase → DataBase
add_call c s = record s { calls = s.calls ++ (c ∷ []) }

abbrev pub call : ClientCall → B (Unit {0})
call c s = (tt, add_call c s)

-- The object is made once, by GetInstance.
pub new_data_base : ConInfo → DataBase
new_data_base info = record {
  calls = [];
  con_info = info;
  is_connect = false;
  error_num = 0;
  error_info = codes "ok";
}

pub set_my_sql_con_info : ConInfo → B (Unit {0})
set_my_sql_con_info info s = (tt, record s { con_info = info })

-- A column of a row, a NULL as the empty text.
pub cell_text : Option Text → Text
cell_text none = []
cell_text (some t) = t

module _ (client : Client) where
  abbrev pub ask : ClientCall → B Bool
  ask c s = (client.succeeds s.calls c, add_call c s)

  pub error_into_mysql : B (Unit {0})
  error_into_mysql s = (
    tt,
    record s { error_num = client.error_number s.calls; error_info = client.error_text s.calls },
  )

  pub open_connection : B Bool
  open_connection s =
      (do
        connected ← ask (connect s.con_info)
        if connected then give true else error_into_mysql >> give false)
        s

  -- The mutex is locked whatever the result.
  pub init_my_data_base : ConInfo → B Bool
  init_my_data_base info = do
    call lock
    set_my_sql_con_info info
    call library_init
    call instance_init
    call charset_gbk
    connected ← open_connection
    λ s. (connected, record s { is_connect = connected })

  pub close : B (Unit {0})
  close = call close_connection >> call unlock

  -- The result is stored, and not freed; that storing it fails is not modelled.
  pub select : Text → B (Bool × List Row)
  select sql = do
    sent ← ask (send_query sql)
    if sent
        then (do
          call store_result
          λ s. ((true, map (λ line. map cell_text line) (client.stored s.calls)), s))
        else error_into_mysql >> give (false, [])

  -- `do … while (!mysql_next_result(…))` on fuel; `none` is a loop that still runs.
  pub result_loop : ℕ → B (Option (Unit {0}))
  result_loop zero = give none
  result_loop (suc fuel) = do
    call store_result
    call free_result
    again ← (λ s. (client.more s.calls, add_call next_result s))
    if again then result_loop fuel else give (some tt)

  pub finish_query : Bool → Option (Unit {0}) → B (Option Bool)
  finish_query sent none = give none
  finish_query sent (some done) =
      if sent then give (some true) else error_into_mysql >> give (some false)

  -- Several statements in one text.
  pub query : ℕ → Text → B (Option Bool)
  query fuel sql = do
    call multi_statements_on
    sent ← ask (send_query sql)
    call multi_statements_off
    ended ← result_loop fuel
    finish_query sent ended

  pub one_query : Text → B Bool
  one_query sql = do
    sent ← ask (send_query sql)
    if sent then give true else error_into_mysql >> give false
