-- ===== src/Tests/Databases.antt =====
-- The synchronisation of WPD_MTP_dataDlg.cpp with databases that answer every call.
use shujugongxiang.Prelude.{
  ◌≡◌, refl, ◌⊎◌, true, false, ◌&&◌, List, [], ◌∷◌, ◌++◌, map, length, ltb, if◌then◌else◌,
}
use shujugongxiang.Text.Defs.{Text, codes}
use shujugongxiang.Text.Chunks.{get_array_items}
use shujugongxiang.Sync.World.{Row, path_exists, open_db, close_db, Env, Session, pure, make_call}
use shujugongxiang.Sync.Phone.{phone_calls}
use shujugongxiang.Sync.Statements.{update_mysql_db}
use shujugongxiang.Sync.Statements.Loop.{Sends}
use shujugongxiang.Sync.Statements.Batches.{update_mysql_db-Sends}
use shujugongxiang.Sync.Record.{to_pc, record_statement, store_and_mark, synchrodata_work_record}
use shujugongxiang.Sync.Record.Marks.{
  mark_call, Queues, server_query, store_and_mark-phone_calls, record_to_phone-updates,
}
use shujugongxiang.Sync.Record.Closing.{in_db, synchrodata_work_record_phone}
use shujugongxiang.Sync.User.{user_mark, select_users}
use shujugongxiang.Sync.User.Marks.{store_call, users_query, users_found, select_users_lem}
use shujugongxiang.Sync.Selection.{Item, item, nil}
use shujugongxiang.Sync.Switch.{
  radio_work, scope_areas, Tables, run_ids, user_body, device_body, work_body, begin_switch_data,
}
use shujugongxiang.Sync.Switch.Closing.{Closes, Refused, begin_switch_data-Closes}
use shujugongxiang.Sync.Switch.Onward.{
  ◌and_also◌, over_all, marks_told, users_told, devices_told, work_told, goes_on,
}

abbrev pub record_row : Row
record_row = codes "5" ∷ codes "7" ∷ codes "1" ∷ []

-- Every call succeeds, every query finds the same row.
abbrev pub world : Env
world = record {
  yes = λ calls c. true;
  count = λ calls c. 1;
  rows = λ calls c. record_row ∷ [];
  sqlite_error = λ calls. [];
  mysql_error = λ calls. [];
}

abbrev pub start : Session
start = record { calls = []; updates = codes "old" ∷ [] }

abbrev tables : Tables
tables = record {
  delete_area_and_device = pure true;
  sys_user = λ ids. pure true;
  areas = pure true;
  device_info = λ scope ids. pure true;
  work_template = λ ids. pure true;
  work_type = λ ids. pure true;
  work_task = λ ids. pure true;
  work_record = λ ids. pure true;
}

abbrev two_statements : List Text
two_statements = codes "a;" ∷ codes "b;" ∷ []

update_mysql_db-Sends_example :
    (sends : Sends two_statements start (update_mysql_db world two_statements start).1)
    × ((update_mysql_db world two_statements start).0 ≡ true → sends.left ≡ [])
update_mysql_db-Sends_example = update_mysql_db-Sends world two_statements start (refl, (refl, tt))

store_and_mark-phone_calls_example :
    phone_calls (store_and_mark world 1 (record_row ∷ []) start).1.calls
    ≡ phone_calls start.calls
      ++ (if (update_mysql_db world (map record_statement (record_row ∷ [])) start).0
          then mark_call 1 (record_row ∷ []) ∷ []
          else [])
store_and_mark-phone_calls_example = store_and_mark-phone_calls world 1 (record_row ∷ []) start

record_to_phone-updates_example :
    Queues world
      (codes "2018-06-01")
      (codes "2018-06-30")
      start
      (world.rows start.calls (server_query world (codes "2018-06-01") (codes "2018-06-30")))
record_to_phone-updates_example =
    record_to_phone-updates world (codes "2018-06-01") (codes "2018-06-30") start

abbrev path : Text
path = codes "phone.db"

synchrodata_work_record_phone_example :
    let is_open =
      world.yes start.calls (path_exists path)
      && world.yes (make_call (path_exists path) start).calls (open_db path) in
    let branch =
      in_db world (codes "2018-06-01") (codes "2018-06-30") (codes "7" ∷ []) path to_pc start in
    let result =
      synchrodata_work_record world
        (codes "2018-06-01")
        (codes "2018-06-30")
        (codes "7" ∷ [])
        path
        to_pc
        start in
    (result.0 ≡ (is_open && branch.0))
    × (phone_calls result.1.calls ≡ (
        if is_open
        then phone_calls branch.1.calls ++ (close_db ∷ [])
        else phone_calls start.calls
          ++ (if world.yes start.calls (path_exists path) then open_db path ∷ [] else [])))
synchrodata_work_record_phone_example =
    synchrodata_work_record_phone world (codes "2018-06-01") (codes "2018-06-30") (codes "7" ∷ [])
      path to_pc start

select_users_lem_example :
    let result = select_users world (codes "'1'") start in
    let rows = users_found world (codes "'1'") start in
    let queued = record (make_call (users_query world (codes "'1'")) start) {
      updates = start.updates ++ map user_mark rows;
    } in
    (result.1.updates ≡ start.updates ++ map user_mark rows)
    × (phone_calls result.1.calls
        ≡ phone_calls start.calls ++ (if ltb 0 (length rows) then store_call rows ∷ [] else []))
    × (result.0 ≡ (
        world.yes start.calls (users_query world (codes "'1'"))
        && (if ltb 0 (length rows) then world.yes queued.calls (store_call rows) else true)))
select_users_lem_example = select_users_lem world (codes "'1'") start

abbrev chosen : Item
chosen = item [] (codes "7") nil

begin_switch_data-Closes_example :
    Closes (begin_switch_data world tables radio_work chosen start)
    ⊎ Refused world radio_work chosen (begin_switch_data world tables radio_work chosen start)
begin_switch_data-Closes_example =
    begin_switch_data-Closes world tables radio_work chosen start refl

abbrev chosen_ids : List Text
chosen_ids = codes "7" ∷ []

abbrev empty_queue : Session
empty_queue = record start { updates = [] }

-- The operations on tasks fail.
abbrev failing : Tables
failing = record tables { work_task = λ ids. pure false }

goes_on_example :
    (run_ids world (user_body world failing) chosen_ids true start
      ≡ (over_all (users_told world failing) (get_array_items chosen_ids) and_also marks_told world)
          empty_queue)
    × (run_ids world (device_body world failing scope_areas) chosen_ids true start
        ≡ (over_all (devices_told world failing scope_areas) (get_array_items chosen_ids)
              and_also marks_told world)
            empty_queue)
    × (run_ids world (work_body world failing) chosen_ids true start
        ≡ (over_all (work_told world failing) (get_array_items chosen_ids)
              and_also marks_told world)
            empty_queue)
goes_on_example = goes_on world failing scope_areas chosen_ids start
