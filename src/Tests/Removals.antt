-- ===== src/Tests/Removals.antt =====
-- Tasks and deletions of WPD_MTP_dataDlg.cpp with databases that answer every call.
use shujugongxiang.Prelude.{◌≡◌, true, ◌&&◌, List, [], ◌∷◌, ◌++◌, if◌then◌else◌}
use mathlib.Core.List.{flat_map}
use shujugongxiang.Text.Defs.{Text, codes}
use shujugongxiang.Sync.Phone.{phone_calls}
use shujugongxiang.Sync.Statements.{update_mysql_db}
use shujugongxiang.Sync.Statements.Loop.{server_texts}
use shujugongxiang.Sync.Removal.{area_removal, remove_areas}
use shujugongxiang.Sync.Removal.Effects.{
  areas_call, area_users_call, areas_done, area_users_done, remove_areas_lem,
}
use shujugongxiang.Tests.Databases.{world, start}

abbrev real : List Text
real = codes "7" ∷ []

abbrev want : List Text
want = codes "8" ∷ []

remove_areas_lem_example :
    let result = remove_areas world real want true start in
    let done =
      world.yes start.calls (areas_call world real want start)
      && world.yes
          (areas_done world real want start).calls
          (area_users_call world real want start) in
    let sent =
      update_mysql_db world (flat_map area_removal real) (area_users_done world real want start) in
    (phone_calls result.1.calls
      ≡ phone_calls start.calls
        ++ (areas_call world real want start ∷ area_users_call world real want start ∷ []))
    × (result.0 ≡ (done && (true && sent.0)))
    × (server_texts result.1.calls
        ≡ (if done then server_texts sent.1.calls else server_texts start.calls))
remove_areas_lem_example = remove_areas_lem world real want start true
