-- ===== src/Sync/Task/Marks.antt =====
-- When `Synchrodata_work_task` of WPD_MTP_dataDlg.cpp marks tasks, and what it reports.
use shujugongxiang.Prelude.{
  ◌≡◌, refl, sym, Bool, ◌&&◌, Option, some, List, [], ◌++◌, inl, inr, map, set, length, append-nil,
  Bool-cases, ltb, if◌then◌else◌,
}
use shujugongxiang.Text.Defs.{Text, codes}
use shujugongxiang.Sync.World.{Row, Call, insert_rows, mysql_select, Env, Session, first_size}
use shujugongxiang.Sync.Task.{
  task_mark, phone_task_store_sql, removed_task_sql, delete_tasks, store_tasks,
}

abbrev pub task_rows : List Row → List (Option Row)
task_rows rows = map (λ row. some (set row 9 (codes "1"))) rows

abbrev pub store_tasks_call : List Row → Call
store_tasks_call rows = insert_rows phone_task_store_sql (task_rows rows) (first_size rows)

module _ (env : Env) where
  -- New tasks go to the phone in one insert. The marks for the server are queued if that succeeds,
  -- and none if it fails; then the result is FALSE, else what it was before.
  pub store_tasks_lem :
      (ret : Bool) (rows : List Row) (s : Session)
      → let stored = env.yes s.calls (store_tasks_call rows) in
        let result = store_tasks env ret rows s in
        (result.0 ≡ (stored && ret))
        × (result.1.updates ≡ s.updates ++ (if stored then map task_mark rows else []))
  unfolding store_tasks
  store_tasks_lem ret rows s = elim (Bool-cases (env.yes s.calls (store_tasks_call rows))) [
    | inl stored ↦ rw stored (refl, refl)
    | inr refused ↦ rw refused (refl, sym (append-nil s.updates))
  ]

  -- The deletion of cancelled tasks fails exactly if the query for them does: the replies to the
  -- deletions on the phone, and on the server, play no part.
  pub delete_tasks_lem :
      (ret : Bool) (state : Text) (on_server : Bool) (s : Session)
      → let result = delete_tasks env ret state on_server s in
        result.0 ≡ (env.yes s.calls (mysql_select (removed_task_sql state)) && ret)
  unfolding delete_tasks
  delete_tasks_lem ret state on_server s =
      elim (Bool-cases (env.yes s.calls (mysql_select (removed_task_sql state)))) [
        | inl selected ↦
            elim (Bool-cases
              (ltb 0 (length (env.rows s.calls (mysql_select (removed_task_sql state)))))) [
                | inl any ↦ rw (selected, any) refl
                | inr empty ↦ rw (selected, empty) refl
              ]
        | inr refused ↦ rw refused refl
      ]
