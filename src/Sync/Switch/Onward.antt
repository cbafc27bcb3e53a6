-- ===== src/Sync/Switch/Onward.antt =====
-- That a run of `BeginSwitchData` of WPD_MTP_dataDlg.cpp goes on after a failure.
use shujugongxiang.Prelude.{
  ◌≡◌, refl, ap, ◌∙◌, Bool, true, false, ◌&&◌, List, [], ◌∷◌, inl, inr, Bool-cases, length, ltb,
  if◌then◌else◌,
}
use shujugongxiang.Text.Defs.{Text, codes}
use shujugongxiang.Text.Chunks.{get_array_items}
use shujugongxiang.Sync.World.{Env, Session, M, pure, ◌>>=◌, ◌>>◌, show_log}
use shujugongxiang.Sync.Statements.{update_mysql_db}
use shujugongxiang.Sync.Switch.{
  Scope, Tables, report, for_arrays, send_updates, run_ids, user_body, device_body, work_body,
}

-- The specification: both operations, one after the other whatever the first returned.
infixr 6 ◌and_also◌
pub ◌and_also◌ : M Bool → M Bool → M Bool
◌and_also◌ a b = do x ← a; y ← b; pure (x && y)

pub over_all : (List Text → M Bool) → List (List Text) → M Bool
over_all op [] = pure true
over_all op (ids ∷ arrays) =
    (if ltb 0 (length ids) then op ids else pure true) and_also over_all op arrays

-- The operation, and a message if it failed.
pub told : Env → M Bool → Text → M Bool
told env op message = do done ← op; if done then pure true else show_log env message >> pure false

-- `body` does what `op` does, and its result is TRUE if it was given TRUE and `op` returned TRUE.
abbrev Follows : (Bool → M Bool) → M Bool → Type 0
Follows body op = (ret : Bool) (s : Session) → body ret s ≡ (ret && (op s).0, (op s).1)

and_assoc : (a b c : Bool) → ((a && b) && c) ≡ (a && (b && c))
and_assoc true b c = refl
and_assoc false b c = refl

Follows-bind :
    (f g : Bool → M Bool) (a b : M Bool)
    → Follows f a
    → Follows g b
    → Follows (λ ret. f ret >>= g) (a and_also b)
unfolding ◌and_also◌
Follows-bind f g a b hf hg ret s =
    ap (λ r. g r.0 r.1) (hf ret s)
    ∙ hg (ret && (a s).0) (a s).1
    ∙ ap (λ x. (x, (b (a s).1).1)) (and_assoc ret (a s).0 (b (a s).1).0)

Follows-pure : Follows (λ ret. pure ret) (pure true)
Follows-pure true s = refl
Follows-pure false s = refl

Follows-if :
    (b : Bool) (body : Bool → M Bool) (op : M Bool)
    → Follows body op
    → Follows (λ ret. if b then body ret else pure ret) (if b then op else pure true)
Follows-if true body op h = h
Follows-if false body op h = Follows-pure

module _ (env : Env) where
  report-Follows :
      (op : M Bool) (message : Text) → Follows (report env op message) (told env op message)
  unfolding report told
  report-Follows op message true s = elim (Bool-cases (op s).0) [
    | inl done ↦ rw done refl
    | inr failed ↦ rw failed refl
  ]
  report-Follows op message false s = elim (Bool-cases (op s).0) [
    | inl done ↦ rw done refl
    | inr failed ↦ rw failed refl
  ]

  for_arrays-Follows :
      (body : List Text → Bool → M Bool) (op : List Text → M Bool)
      → ((ids : List Text) → Follows (body ids) (op ids))
      → (arrays : List (List Text)) → Follows (for_arrays env body arrays) (over_all op arrays)
  unfolding for_arrays over_all
  for_arrays-Follows body op h [] = Follows-pure
  for_arrays-Follows body op h (ids ∷ arrays) =
      Follows-bind (λ ret. if ltb 0 (length ids) then body ids ret else pure ret)
        (for_arrays env body arrays) (if ltb 0 (length ids) then op ids else pure true)
        (over_all op arrays) (Follows-if (ltb 0 (length ids)) (body ids) (op ids) (h ids))
        (for_arrays-Follows body op h arrays)

  -- The queued marks are sent last, and a failure is told.
  pub marks_told : M Bool
  marks_told s = told env (update_mysql_db env s.updates) (codes "更新服务端数据库 同步状态失败 -同步失败!") s

  send-Follows : Follows (send_updates env) marks_told
  unfolding send_updates marks_told
  send-Follows ret s = report-Follows (update_mysql_db env s.updates) _ ret s

  run_ids-Follows :
      (body : List Text → Bool → M Bool) (op : List Text → M Bool)
      → ((ids : List Text) → Follows (body ids) (op ids))
      → (ids : List Text) (s : Session)
      → run_ids env body ids true s
        ≡ (over_all op (get_array_items ids) and_also marks_told) (record s { updates = [] })
  unfolding run_ids
  run_ids-Follows body op h ids s =
      Follows-bind (for_arrays env body (get_array_items ids)) (send_updates env)
        (over_all op (get_array_items ids)) marks_told
        (for_arrays-Follows body op h (get_array_items ids)) send-Follows true
        (record s { updates = [] })

  module _ (tables : Tables) where
    pub users_told : List Text → M Bool
    users_told ids = told env (tables.sys_user ids) (codes "设备类型表(sys_user) -同步失败!")

    pub devices_told : Scope → List Text → M Bool
    devices_told scope ids =
        told env (tables.device_info scope ids) (codes "设备类型表(device_info) -同步失败!")

    -- The four tables of one array of devices.
    pub work_told : List Text → M Bool
    work_told ids =
        told env (tables.work_template ids) (codes "设备类型表(work_template) -同步失败!")
        and_also told env (tables.work_type ids) (codes "设备类型表(work_type) -同步失败!")
        and_also told env (tables.work_task ids) (codes "设备类型表(work_task) -同步失败!")
        and_also told env (tables.work_record ids) (codes "设备类型表(work_record) -同步失败!")

    work_body-Follows : (ids : List Text) → Follows (work_body env tables ids) (work_told ids)
    unfolding work_body work_told
    work_body-Follows ids =
        let m1 = codes "设备类型表(work_template) -同步失败!" in
        let m2 = codes "设备类型表(work_type) -同步失败!" in
        let m3 = codes "设备类型表(work_task) -同步失败!" in
        let m4 = codes "设备类型表(work_record) -同步失败!" in
        let f4 = report env (tables.work_record ids) m4 in
        let f3 = λ (ret : Bool). report env (tables.work_task ids) m3 ret >>= f4 in
        let f2 = λ (ret : Bool). report env (tables.work_type ids) m2 ret >>= f3 in
        let c = told env (tables.work_task ids) m3 in
        let d = told env (tables.work_record ids) m4 in
        let b = told env (tables.work_type ids) m2 in
        Follows-bind (report env (tables.work_template ids) m1) f2
          (told env (tables.work_template ids) m1) (b and_also c and_also d)
          (report-Follows (tables.work_template ids) m1)
          (Follows-bind (report env (tables.work_type ids) m2) f3 b (c and_also d)
            (report-Follows (tables.work_type ids) m2)
            (Follows-bind (report env (tables.work_task ids) m3) f4 c d
              (report-Follows (tables.work_task ids) m3)
              (report-Follows (tables.work_record ids) m4)))

    -- A run for users, for devices in either scope, and for work goes on after a failure: it starts with
    -- an empty queue, carries out the operations on all arrays of ids that are not empty, one after the
    -- other whatever they return, with a message after each that failed, and then sends the queued
    -- marks. It returns TRUE exactly if all of these returned TRUE.
    pub goes_on :
        (scope : Scope) (ids : List Text) (s : Session)
        → let start = record s { updates = [] } in
          let arrays = get_array_items ids in
          (run_ids env (user_body env tables) ids true s
            ≡ (over_all users_told arrays and_also marks_told) start)
          × (run_ids env (device_body env tables scope) ids true s
              ≡ (over_all (devices_told scope) arrays and_also marks_told) start)
          × (run_ids env (work_body env tables) ids true s
              ≡ (over_all work_told arrays and_also marks_told) start)
    unfolding user_body device_body users_told devices_told
    goes_on scope ids s = (
      run_ids-Follows (user_body env tables) users_told
          (λ ids. report-Follows (tables.sys_user ids) _) ids s,
      run_ids-Follows (device_body env tables scope) (devices_told scope)
          (λ ids. report-Follows (tables.device_info scope ids) _) ids s,
      run_ids-Follows (work_body env tables) work_told work_body-Follows ids s,
    )
