-- ===== src/Sync/Record/Closing.antt =====
-- `Synchrodata_work_record` of WPD_MTP_dataDlg.cpp opens and closes the phone's database.
use shujugongxiang.Prelude.{
  ◌≡◌, refl, Bool, ◌&&◌, List, [], ◌∷◌, ◌++◌, inl, inr, append-nil, Bool-cases, if◌then◌else◌,
}
use shujugongxiang.Text.Defs.{Text}
use shujugongxiang.Text.Escape.{quoted_list}
use shujugongxiang.Sync.World.{path_exists, open_db, close_db, Env, Session, make_call}
use shujugongxiang.Sync.Record.{Direction, record_in_db, synchrodata_work_record}
use shujugongxiang.Sync.Phone.{phone_calls, phone_calls-append}

module _ (env : Env) where
  abbrev pub in_db : Text → Text → List Text → Text → Direction → Session → Bool × Session
  in_db begin_time cur_time ids path dir s =
      record_in_db env begin_time cur_time (quoted_list ids) dir
        (make_call (open_db path) (make_call (path_exists path) s))

  -- If the file is there and its database opens, the call's effect on the phone is that of the
  -- branch for its direction, on the opened database, and then one close, and its result is the
  -- branch's; otherwise it returns FALSE, and the phone sees nothing but a refused open.
  pub synchrodata_work_record_phone :
      (begin_time cur_time : Text) (ids : List Text) (path : Text) (dir : Direction) (s : Session)
      → let opened =
          env.yes s.calls (path_exists path)
          && env.yes (make_call (path_exists path) s).calls (open_db path) in
        let branch = in_db begin_time cur_time ids path dir s in
        let result = synchrodata_work_record env begin_time cur_time ids path dir s in
        (result.0 ≡ (opened && branch.0))
        × (phone_calls result.1.calls ≡ (
            if opened
            then phone_calls branch.1.calls ++ (close_db ∷ [])
            else phone_calls s.calls
              ++ (if env.yes s.calls (path_exists path) then open_db path ∷ [] else [])))
  unfolding synchrodata_work_record phone_calls
  synchrodata_work_record_phone begin_time cur_time ids path dir s =
      elim (Bool-cases (env.yes s.calls (path_exists path))) [
        | inl there ↦
            elim (Bool-cases (env.yes (make_call (path_exists path) s).calls (open_db path))) [
              | inl opened ↦ rw (there, opened) (refl, simp (phone_calls-append, append-nil))
              | inr refused ↦ rw (there, refused) (refl, simp (phone_calls-append, append-nil))
            ]
        | inr missing ↦ rw missing (refl, simp (phone_calls-append, append-nil))
      ]
