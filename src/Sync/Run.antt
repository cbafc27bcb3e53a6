-- ===== src/Sync/Run.antt =====
-- A run of `BeginSwitchData` of `WPD_MTP_data/WPD_MTP_dataDlg.cpp` with the operations on the tables that
-- it calls.
use mathlib.Core.Path.{fun_ext}
use shujugongxiang.Prelude.{◌≡◌, ap, ◌∙◌, Bool, true, List, []}
use shujugongxiang.Text.Defs.{Text}
use shujugongxiang.Text.Chunks.{get_array_items}
use shujugongxiang.Cascade.{Tree}
use shujugongxiang.Sync.World.{Call, Env, Session, M}
use shujugongxiang.Sync.Record.{Direction, to_pc, synchrodata_work_record}
use shujugongxiang.Sync.User.{synchrodata_sys_user}
use shujugongxiang.Sync.Task.{synchrodata_work_task}
use shujugongxiang.Sync.Removal
use shujugongxiang.Sync.Selection.{Item}
use shujugongxiang.Sync.Switch.{Radio, scope_areas, Tables, run_ids, work_body, begin_switch_data}
use shujugongxiang.Sync.Switch.Result.{
  ◌then_if◌, each, send_queued, then_if-skip, work_tables, switch_result,
}
use shujugongxiang.Sync.Tables.Area.{synchrodata_areas}
use shujugongxiang.Sync.Tables.Device.{synchrodata_device_info}
use shujugongxiang.Sync.Tables.Template.{synchrodata_work_template}
use shujugongxiang.Sync.Tables.Template.Closing.{synchrodata_work_template-to_pc}
use shujugongxiang.Sync.Tables.WorkType.{synchrodata_work_type}
use shujugongxiang.Sync.Tables.WorkType.Closing.{synchrodata_work_type-to_pc}

-- What a run reads of the dialog: `m_deleteTree`, the keys of `m_mapTreeIDToCtrl` that have an item, the
-- direction; and the clock, as the begin of the time span and its end.
pub record Choices : Type 0 where
  pub delete_tree : Tree
  pub keys : List Text
  pub direction : Direction
  pub times : List Call → Text × Text

module _ (env : Env) (choices : Choices) where
  -- `COleDateTime::GetTickCount()` and what is computed of it, at the start of an operation.
  pub at_times : (Text → Text → M Bool) → M Bool
  at_times operation s = operation (choices.times s.calls).0 (choices.times s.calls).1 s

  pub tables_of : Text → Tables
  tables_of path = record {
    delete_area_and_device = Removal.delete_area_and_device env choices.delete_tree path;
    sys_user = λ ids. synchrodata_sys_user env ids path;
    areas = synchrodata_areas env choices.keys path choices.direction;
    device_info = λ scope ids.
        at_times (λ b c. synchrodata_device_info env b c ids path choices.direction scope);
    work_template =
        λ ids. at_times (λ b c. synchrodata_work_template env b c ids path choices.direction);
    work_type = λ ids. at_times (λ b c. synchrodata_work_type env b c ids path choices.direction);
    work_task = λ ids. at_times (λ b c. synchrodata_work_task env b c ids path choices.direction);
    work_record =
        λ ids. at_times (λ b c. synchrodata_work_record env b c ids path choices.direction);
  }

  pub switch_data : Radio → Item → Text → M Bool
  switch_data radio i path = begin_switch_data env (tables_of path) radio i

module _ (env : Env) (choices : Choices) (path : Text) where
  -- The same choices, with the direction to the PC.
  abbrev pub pc_choices : Choices
  pc_choices = record choices { direction = to_pc }

  -- What is left of the four tables: tasks, then records.
  abbrev pub task_and_record : List Text → M Bool
  task_and_record ids =
      at_times env choices (λ b c. synchrodata_work_task env b c ids path to_pc)
      then_if at_times env choices (λ b c. synchrodata_work_record env b c ids path to_pc)

  work_tables-to_pc :
      (ids : List Text) → work_tables env (tables_of env pc_choices path) ids ≡ task_and_record ids
  unfolding tables_of at_times
  work_tables-to_pc ids =
      let tables = tables_of env pc_choices path in
      then_if-skip (tables.work_template ids) _ (λ s.
        synchrodata_work_template-to_pc env (choices.times s.calls).0 (choices.times s.calls).1 ids
          path s)
      ∙ then_if-skip (tables.work_type ids) _ (λ s.
        synchrodata_work_type-to_pc env (choices.times s.calls).0 (choices.times s.calls).1 ids path
          s)

  -- A run towards the PC over arrays of devices returns TRUE exactly if the operations on tasks and on
  -- records, array by array, and then the sending of the queued marks would all return TRUE one after
  -- the other, started with an empty queue: templates and types of work take no part.
  pub run_to_pc :
      (ids : List Text) (s : Session)
      → (run_ids env (work_body env (tables_of env pc_choices path)) ids true s).0
        ≡ ((each task_and_record (get_array_items ids) then_if send_queued env)
            (record s { updates = [] })).0
  run_to_pc ids s =
      (switch_result env (tables_of env pc_choices path) scope_areas ids s).2
      ∙ ap
          (λ op.
            ((each op (get_array_items ids) then_if send_queued env) (record s { updates = [] })).0)
          (fun_ext work_tables-to_pc)
