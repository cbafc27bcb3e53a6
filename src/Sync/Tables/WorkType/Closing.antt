-- ===== src/Sync/Tables/WorkType/Closing.antt =====
-- `Synchrodata_work_type` of WPD_MTP_dataDlg.cpp from the opening of the phone's database to its closing.
use shujugongxiang.Prelude.{
  ◌≡◌, refl, sym, true, ◌&&◌, List, [], ◌∷◌, ◌++◌, inl, inr, append-nil, append_assoc, Bool-cases,
  if◌then◌else◌,
}
use shujugongxiang.Text.Defs.{Text}
use shujugongxiang.Sync.World.{path_exists, open_db, close_db, Env, Session, make_call}
use shujugongxiang.Sync.Phone.{phone_calls, phone_calls-append}
use shujugongxiang.Sync.Tables.{Table}
use shujugongxiang.Sync.Tables.Effects.{
  opened_at, opens, tried, changes, marks, steps_phone, steps_updates, steps_done,
}
use shujugongxiang.Sync.Tables.WorkType.{type_in_db, type_to_phone, synchrodata_work_type}
use shujugongxiang.Sync.Record.{to_pc}

module _ (env : Env) (t : Table) (path : Text) (s : Session) where
  -- Types of work: with the file there and its database open, the phone gets the insert of the new
  -- rows and the deletion of the deleted ones, each if there are any, and then one close; the marks of
  -- the new rows are queued if the phone took the insert, and the result tells whether both queries and
  -- both changes succeeded. Otherwise the result is FALSE, nothing is queued, and the phone sees
  -- nothing but a refused open.
  pub type_to_phone_lem :
      let at = opened_at path s in
      let result = type_to_phone env path t s in
      (result.0 ≡ (opens env path s && steps_done env t at))
      × (result.1.updates ≡ s.updates ++ (if opens env path s then marks env t at else []))
      × (phone_calls result.1.calls
          ≡ phone_calls s.calls
            ++ (tried env path s
                ++ (if opens env path s then changes env t at ++ (close_db ∷ []) else [])))
  unfolding type_to_phone type_in_db phone_calls
  type_to_phone_lem = elim (Bool-cases (env.yes s.calls (path_exists path))) [
    | inl there ↦
        elim (Bool-cases (env.yes (make_call (path_exists path) s).calls (open_db path))) [
          | inl opened ↦
              rw (there, opened)
                (
                  refl,
                  steps_updates env t (opened_at path s),
                  simp (phone_calls-append, append-nil, steps_phone, append_assoc),
                )
          | inr refused ↦
              rw (there, refused)
                (refl, sym (append-nil s.updates), simp (phone_calls-append, append-nil))
        ]
    | inr missing ↦
        rw missing (refl, sym (append-nil s.updates), simp (phone_calls-append, append-nil))
  ]

-- Types of work never go to the PC.
pub synchrodata_work_type-to_pc :
    (env : Env) (begin_time cur_time : Text) (ids : List Text) (path : Text) (s : Session)
    → synchrodata_work_type env begin_time cur_time ids path to_pc s ≡ (true, s)
unfolding synchrodata_work_type
synchrodata_work_type-to_pc env begin_time cur_time ids path s = refl
