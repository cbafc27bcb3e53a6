-- ===== src/Sync/Switch.antt =====
-- `BeginSwitchData` of `WPD_MTP_data/WPD_MTP_dataDlg.cpp`: one run of the synchronisation, over the
-- operations on the single tables.
pub mod Closing
pub mod Result
pub mod Onward
use shujugongxiang.Prelude.{
  ◌≡◌, refl, Bool, true, false, ◌&&◌, List, [], ◌∷◌, ◌++◌, not, ltb, length, if◌then◌else◌,
}
use shujugongxiang.Text.Defs.{Text, codes, is_empty}
use shujugongxiang.Text.Chunks.{get_array_items}
use shujugongxiang.Sync.World.{
  Call, mysql_init, mysql_close, Env, Session, M, pure, ◌>>=◌, ◌>>◌, do_call, ask, clear_updates,
  log_mysql_error, show_log,
}
use shujugongxiang.Sync.Statements.{update_mysql_db}
use shujugongxiang.Sync.Selection.{Item, area_of, device_of, find_child_id, find_child_type_id}

-- `enum radio_name`, and `enum tongbu_fw`.
pub data Radio : Type 0 where
  radio_user radio_devices radio_work : Radio

pub data Scope : Type 0 where
  scope_areas scope_devices : Scope

-- The operations on the tables, with the path, direction and clock of this run.
pub record Tables : Type 0 where
  pub delete_area_and_device : M Bool
  pub sys_user : List Text → M Bool
  pub areas : M Bool
  pub device_info : Scope → List Text → M Bool
  pub work_template : List Text → M Bool
  pub work_type : List Text → M Bool
  pub work_task : List Text → M Bool
  pub work_record : List Text → M Bool

module _ (env : Env) where
  -- `if (!Synchrodata_…(…)) { ShowLog(…); ret = FALSE; }`
  pub report : M Bool → Text → Bool → M Bool
  report operation message ret = do
    done ← operation
    if done then pure ret else show_log env message >> pure false

  -- The loop over the arrays of ids, with `ret`; an empty array is passed over.
  pub for_arrays : (List Text → Bool → M Bool) → List (List Text) → Bool → M Bool
  for_arrays body [] ret = pure ret
  for_arrays body (ids ∷ arrays) ret = do
    ret' ← if ltb 0 (length ids) then body ids ret else pure ret
    for_arrays body arrays ret'

  -- "00.": the marks that were queued are sent.
  pub send_updates : Bool → M Bool
  send_updates ret s = report (update_mysql_db env s.updates) (codes "更新服务端数据库 同步状态失败 -同步失败!") ret s

  -- What each choice does with its ids.
  pub run_ids : (List Text → Bool → M Bool) → List Text → Bool → M Bool
  run_ids body ids ret = do
    clear_updates
    ret' ← for_arrays body (get_array_items ids) ret
    send_updates ret'

  module _ (tables : Tables) where
    pub user_body : List Text → Bool → M Bool
    user_body ids = report (tables.sys_user ids) (codes "设备类型表(sys_user) -同步失败!")

    pub device_body : Scope → List Text → Bool → M Bool
    device_body scope ids =
        report (tables.device_info scope ids) (codes "设备类型表(device_info) -同步失败!")

    -- Templates before types, tasks before records.
    pub work_body : List Text → Bool → M Bool
    work_body ids ret = do
      ret1 ← report (tables.work_template ids) (codes "设备类型表(work_template) -同步失败!") ret
      ret2 ← report (tables.work_type ids) (codes "设备类型表(work_type) -同步失败!") ret1
      ret3 ← report (tables.work_task ids) (codes "设备类型表(work_task) -同步失败!") ret2
      report (tables.work_record ids) (codes "设备类型表(work_record) -同步失败!") ret3

    -- The end of a run that has the connection.
    pub close_after : M Bool → M Bool
    close_after run = do ret ← run; do_call mysql_close; pure ret

    -- For users only areas may be chosen: the refusal returns before `Close`.
    pub switch_user : Item → M Bool
    switch_user i =
        if not (is_empty (device_of i))
        then show_log env (codes "同步用户只能选择区域,请选择区域重试!") >> pure false
        else close_after (
            if not (is_empty (area_of i))
            then run_ids user_body (find_child_id i) true
            else pure true)

    pub switch_devices : Item → M Bool
    switch_devices i = close_after (
        tables.areas
        >> (if not (is_empty (device_of i))
            then run_ids (device_body scope_devices) (find_child_type_id i) true
            else if not (is_empty (area_of i))
            then run_ids (device_body scope_areas) (find_child_id i) true
            else pure true))

    -- Both choices collect the devices below the item.
    pub switch_work : Item → M Bool
    switch_work i = close_after (
        if not (is_empty (device_of i))
        then run_ids work_body (find_child_type_id i) true
        else if not (is_empty (area_of i))
        then run_ids work_body (find_child_type_id i) true
        else pure true)

    pub switch_by : Radio → Item → M Bool
    switch_by radio_user i = switch_user i
    switch_by radio_devices i = switch_devices i
    switch_by radio_work i = switch_work i

    pub begin_switch_data : Radio → Item → M Bool
    begin_switch_data radio i = do
      clear_updates
      connected ← ask env mysql_init
      if connected
          then (do deleted ← tables.delete_area_and_device; switch_by radio i)
          else (do show_log env (codes "连接失败,请重新插入设备再重试!"); log_mysql_error env; pure false)
