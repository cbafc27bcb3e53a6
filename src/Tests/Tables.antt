-- ===== src/Tests/Tables.antt =====
-- The operations on single tables of WPD_MTP_dataDlg.cpp, and a run over them, with databases that
-- answer every call.
use shujugongxiang.Prelude.{◌≡◌, true, ◌&&◌, List, [], ◌∷◌, ◌++◌, ltb, if◌then◌else◌}
use shujugongxiang.Text.Defs.{Text, codes}
use shujugongxiang.Text.Chunks.{get_array_items}
use shujugongxiang.Cascade.{null}
use shujugongxiang.Sync.Phone.{phone_calls}
use shujugongxiang.Sync.Record.{to_phone}
use shujugongxiang.Sync.Run.{Choices, tables_of, pc_choices, task_and_record, run_to_pc}
use shujugongxiang.Sync.Switch.{scope_areas, run_ids, work_body}
use shujugongxiang.Sync.Switch.Result.{◌then_if◌, each, send_queued}
use shujugongxiang.Sync.Tables.{Table}
use shujugongxiang.Sync.Tables.Device.{mark_tags_call, device_to_pc}
use shujugongxiang.Sync.Tables.Device.Marks.{tags, tags_sent, device_to_pc_lem}
use shujugongxiang.Sync.Tables.Effects.{opened_at, opens, tried, changes, marks, steps_done}
use shujugongxiang.Sync.Tables.Template.{template_table, template_to_phone}
use shujugongxiang.Sync.Tables.Template.Closing.{closes, template_to_phone_lem}
use shujugongxiang.Sync.Tables.WorkType.{type_table}
use shujugongxiang.Tests.Databases.{world, start}

abbrev phone_path : Text
phone_path = codes "phone.db"

abbrev first_day : Text
first_day = codes "2018-06-01"

abbrev last_day : Text
last_day = codes "2018-06-30"

abbrev types : Table
types = type_table first_day last_day (codes "'7'")

abbrev templates : Table
templates = template_table first_day last_day (codes "'7'")

template_to_phone_lem_example :
    let at = opened_at phone_path start in
    let result = template_to_phone world phone_path templates start in
    (result.0 ≡ (opens world phone_path start && steps_done world templates at))
    × (result.1.updates
        ≡ start.updates ++ (if opens world phone_path start then marks world templates at else []))
    × (phone_calls result.1.calls
        ≡ phone_calls start.calls
          ++ (tried world phone_path start
              ++ (if opens world phone_path start
                  then changes world templates at ++ closes world templates at
                  else [])))
template_to_phone_lem_example = template_to_phone_lem world templates phone_path start

device_to_pc_lem_example :
    let tags' = tags world scope_areas first_day last_day (codes "'7'") start in
    let sent = tags_sent world scope_areas first_day last_day (codes "'7'") start in
    let result = device_to_pc world scope_areas first_day last_day (codes "'7'") start in
    let call = mark_tags_call tags'.0.1 tags'.0.2 in
    (result.0
      ≡ (sent.0 && (tags'.0.0 && (if ltb 0 tags'.0.1 then world.yes sent.1.calls call else true))))
    × (phone_calls result.1.calls
        ≡ phone_calls start.calls
          ++ (if sent.0 then (if ltb 0 tags'.0.1 then call ∷ [] else []) else []))
device_to_pc_lem_example = device_to_pc_lem world scope_areas first_day last_day (codes "'7'") start

abbrev choices : Choices
choices = record {
  delete_tree = null;
  keys = codes "1" ∷ [];
  direction = to_phone;
  times = λ calls. (first_day, last_day);
}

abbrev device_ids : List Text
device_ids = codes "7" ∷ []

run_to_pc_example :
    (run_ids world
      (work_body world (tables_of world (pc_choices world choices phone_path) phone_path))
      device_ids
      true
      start).0
    ≡ ((each (task_and_record world choices phone_path) (get_array_items device_ids)
          then_if send_queued world)
        (record start { updates = [] })).0
run_to_pc_example = run_to_pc world choices phone_path device_ids start
