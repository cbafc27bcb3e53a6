-- ===== src/Sync/Switch/Result.antt =====
-- What a run of `BeginSwitchData` of WPD_MTP_dataDlg.cpp reports.
use mathlib.Core.Path.{fun_ext}
use shujugongxiang.Prelude.{
  ◌≡◌, refl, ap, sym, ◌∙◌, Bool, true, false, List, [], ◌∷◌, inl, inr, Bool-cases, length, ltb,
  arith, if◌then◌else◌,
}
use shujugongxiang.Text.Defs.{Text, codes}
use shujugongxiang.Text.Chunks.{get_array_items}
use shujugongxiang.Sync.World.{Env, Session, M, pure, ◌>>=◌}
use shujugongxiang.Sync.Statements.{update_mysql_db}
use shujugongxiang.Sync.Switch.{
  Scope, Tables, report, for_arrays, send_updates, run_ids, user_body, device_body, work_body,
}

-- The specification: operations one after the other, up to the first that returns FALSE.
infixr 6 ◌then_if◌
pub ◌then_if◌ : M Bool → M Bool → M Bool
◌then_if◌ a b = do done ← a; if done then b else pure false

pub each : (List Text → M Bool) → List (List Text) → M Bool
each op [] = pure true
each op (ids ∷ arrays) = (if ltb 0 (length ids) then op ids else pure true) then_if each op arrays

pub send_queued : Env → M Bool
send_queued env s = update_mysql_db env s.updates s

-- `body`, which goes on after a failure, reports what `op` does.
abbrev pub Reports : (Bool → M Bool) → M Bool → Type 0
Reports body op =
    ((s : Session) → (body false s).0 ≡ false)
    × ((s : Session) → (body true s).0 ≡ (op s).0)
    × ((s : Session) → (op s).0 ≡ true → (body true s).1 ≡ (op s).1)

then_if-true : (a b : M Bool) (s : Session) → (a s).0 ≡ true → (a then_if b) s ≡ b (a s).1
unfolding ◌then_if◌
then_if-true a b s e = rw e refl

then_if-false : (a b : M Bool) (s : Session) → (a s).0 ≡ false → (a then_if b) s ≡ (false, (a s).1)
unfolding ◌then_if◌
then_if-false a b s e = rw e refl

-- An operation that does nothing is passed over.
pub then_if-skip : (a b : M Bool) → ((s : Session) → a s ≡ (true, s)) → (a then_if b) ≡ b
then_if-skip a b h = fun_ext λ s. then_if-true a b s (ap (λ r. r.0) (h s)) ∙ ap (λ r. b r.1) (h s)

-- Two reporting steps in a row.
Reports-bind :
    (f g : Bool → M Bool) (a b : M Bool)
    → Reports f a
    → Reports g b
    → Reports (λ ret. f ret >>= g) (a then_if b)
Reports-bind f g a b hf hg = (
  λ s. ap (λ r. (g r (f false s).1).0) (hf.0 s) ∙ hg.0 (f false s).1,
  λ s. elim (Bool-cases (a s).0) [
    | inl done ↦
        ap (λ r. (g r (f true s).1).0) (hf.1 s ∙ done)
        ∙ hg.1 (f true s).1
        ∙ ap (λ t. (b t).0) (hf.2 s done)
        ∙ sym (ap (λ r. r.0) (then_if-true a b s done))
    | inr failed ↦
        ap (λ r. (g r (f true s).1).0) (hf.1 s ∙ failed)
        ∙ hg.0 (f true s).1
        ∙ sym (ap (λ r. r.0) (then_if-false a b s failed))
  ],
  λ s both. elim (Bool-cases (a s).0) [
    | inl done ↦
        let rest : (b (a s).1).0 ≡ true = sym (ap (λ r. r.0) (then_if-true a b s done)) ∙ both in
        ap (λ r. (g r (f true s).1).1) (hf.1 s ∙ done)
        ∙ ap (λ t. (g true t).1) (hf.2 s done)
        ∙ hg.2 (a s).1 rest
        ∙ sym (ap (λ r. r.1) (then_if-true a b s done))
    | inr failed ↦ absurd (ground (arith, both, ap (λ r. r.0) (then_if-false a b s failed)))
  ],
)

module _ (env : Env) where
  report-Reports : (op : M Bool) (message : Text) → Reports (report env op message) op
  unfolding report
  report-Reports op message = (
    λ s. elim (Bool-cases (op s).0) [ inl done ↦ rw done refl | inr failed ↦ rw failed refl ],
    λ s. elim (Bool-cases (op s).0) [ inl done ↦ rw done refl | inr failed ↦ rw failed refl ],
    λ s done. rw done refl,
  )

  Reports-pure : Reports (λ ret. pure ret) (pure true)
  Reports-pure = (λ s. refl, λ s. refl, λ s _. refl)

  Reports-if :
      (b : Bool) (body : Bool → M Bool) (op : M Bool)
      → Reports body op
      → Reports (λ ret. if b then body ret else pure ret) (if b then op else pure true)
  Reports-if true body op h = h
  Reports-if false body op h = Reports-pure

  for_arrays-Reports :
      (body : List Text → Bool → M Bool) (op : List Text → M Bool)
      → ((ids : List Text) → Reports (body ids) (op ids))
      → (arrays : List (List Text)) → Reports (for_arrays env body arrays) (each op arrays)
  unfolding for_arrays each
  for_arrays-Reports body op h [] = Reports-pure
  for_arrays-Reports body op h (ids ∷ arrays) =
      Reports-bind (λ ret. if ltb 0 (length ids) then body ids ret else pure ret)
        (for_arrays env body arrays) (if ltb 0 (length ids) then op ids else pure true)
        (each op arrays) (Reports-if (ltb 0 (length ids)) (body ids) (op ids) (h ids))
        (for_arrays-Reports body op h arrays)

  abbrev send_message : Text
  send_message = codes "更新服务端数据库 同步状态失败 -同步失败!"

  send-Reports : Reports (send_updates env) (send_queued env)
  unfolding send_updates send_queued
  send-Reports = (
    λ s. (report-Reports (update_mysql_db env s.updates) send_message).0 s,
    λ s. (report-Reports (update_mysql_db env s.updates) send_message).1 s,
    λ s. (report-Reports (update_mysql_db env s.updates) send_message).2 s,
  )

  run_ids-result :
      (body : List Text → Bool → M Bool) (op : List Text → M Bool)
      → ((ids : List Text) → Reports (body ids) (op ids))
      → (ids : List Text) (s : Session)
      → (run_ids env body ids true s).0
        ≡ ((each op (get_array_items ids) then_if send_queued env) (record s { updates = [] })).0
  unfolding run_ids
  run_ids-result body op h ids s =
      (Reports-bind (for_arrays env body (get_array_items ids)) (send_updates env)
          (each op (get_array_items ids)) (send_queued env)
          (for_arrays-Reports body op h (get_array_items ids)) send-Reports).1
        (record s { updates = [] })

  module _ (tables : Tables) where
    -- The four tables of one array of devices.
    abbrev pub work_tables : List Text → M Bool
    work_tables ids =
        tables.work_template ids
        then_if tables.work_type ids
        then_if tables.work_task ids
        then_if tables.work_record ids

    work_body-Reports : (ids : List Text) → Reports (work_body env tables ids) (work_tables ids)
    unfolding work_body
    work_body-Reports ids =
        let a = tables.work_template ids in
        let b = tables.work_type ids in
        let c = tables.work_task ids in
        let d = tables.work_record ids in
        let m1 = codes "设备类型表(work_template) -同步失败!" in
        let m2 = codes "设备类型表(work_type) -同步失败!" in
        let m3 = codes "设备类型表(work_task) -同步失败!" in
        let m4 = codes "设备类型表(work_record) -同步失败!" in
        let f3 = λ (ret : Bool). report env c m3 ret >>= report env d m4 in
        let f2 = λ (ret : Bool). report env b m2 ret >>= f3 in
        Reports-bind (report env a m1) f2 a (b then_if c then_if d) (report-Reports a m1) (
          Reports-bind (report env b m2) f3 b (c then_if d) (report-Reports b m2) (
            Reports-bind (report env c m3) (report env d m4) c d (report-Reports c m3)
              (report-Reports d m4)))

    -- For users, for devices in either scope, and for work: though a run goes on after a failure, it
    -- returns TRUE exactly if the operations on all arrays of ids, one after the other, and then the
    -- sending of the queued marks, would all return TRUE, started with an empty queue.
    pub switch_result :
        (scope : Scope) (ids : List Text) (s : Session)
        → let start = record s { updates = [] } in
          let arrays = get_array_items ids in
          ((run_ids env (user_body env tables) ids true s).0
            ≡ ((each tables.sys_user arrays then_if send_queued env) start).0)
          × ((run_ids env (device_body env tables scope) ids true s).0
              ≡ ((each (tables.device_info scope) arrays then_if send_queued env) start).0)
          × ((run_ids env (work_body env tables) ids true s).0
              ≡ ((each work_tables arrays then_if send_queued env) start).0)
    unfolding user_body device_body
    switch_result scope ids s = (
      run_ids-result (user_body env tables) tables.sys_user
          (λ ids. report-Reports (tables.sys_user ids) _) ids s,
      run_ids-result (device_body env tables scope) (tables.device_info scope)
          (λ ids. report-Reports (tables.device_info scope ids) _) ids s,
      run_ids-result (work_body env tables) work_tables work_body-Reports ids s,
    )
