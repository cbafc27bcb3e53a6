-- ===== src/Sync/User/Marks.antt =====
-- When `Synchrodata_sys_user` of WPD_MTP_dataDlg.cpp queues the marks of users, and what it does to
-- the phone's database.
use shujugongxiang.Prelude.{
  ◌≡◌, refl, sym, true, false, ◌&&◌, some, List, [], ◌∷◌, ◌++◌, inl, inr, map, length, append-nil,
  Bool-cases, ltb, if◌then◌else◌, arith,
}
use shujugongxiang.Text.Defs.{Text}
use shujugongxiang.Sync.World.{
  Row, Call, insert_rows, mysql_select, Env, Session, make_call, first_size,
}
use shujugongxiang.Sync.User.{user_select_sql, user_store_sql, user_mark, store_users, select_users}
use shujugongxiang.Sync.Phone.{phone_calls, phone_calls-append}

abbrev pub store_call : List Row → Call
store_call rows = insert_rows user_store_sql (map some rows) (first_size rows)

no_rows :
    (marks : List Text) (rows : List Row)
    → ltb 0 (length rows) ≡ false
    → marks ≡ marks ++ map user_mark rows
no_rows marks [] e = sym (append-nil marks)
no_rows marks (row ∷ rows) e = absurd (ground arith)

module _ (env : Env) where
  abbrev pub users_query : Text → Call
  users_query areas = mysql_select (user_select_sql areas)

  -- The rows that the query gave, none if it failed.
  abbrev pub users_found : Text → Session → List Row
  users_found areas s =
      if env.yes s.calls (users_query areas) then env.rows s.calls (users_query areas) else []

  -- The marks of all users that the query gave are queued, and these users go to the phone in one
  -- insert, if there are any. The call returns TRUE exactly if the query and that insert succeed: a
  -- refused insert leaves the marks in the queue.
  pub select_users_lem :
      (areas : Text) (s : Session)
      → let result = select_users env areas s in
        let rows = users_found areas s in
        let queued = record (make_call (users_query areas) s) {
          updates = s.updates ++ map user_mark rows;
        } in
        (result.1.updates ≡ s.updates ++ map user_mark rows)
        × (phone_calls result.1.calls
            ≡ phone_calls s.calls ++ (if ltb 0 (length rows) then store_call rows ∷ [] else []))
        × (result.0 ≡ (
            env.yes s.calls (users_query areas)
            && (if ltb 0 (length rows) then env.yes queued.calls (store_call rows) else true)))
  unfolding select_users store_users phone_calls
  select_users_lem areas s = elim (Bool-cases (env.yes s.calls (users_query areas))) [
    | inl selected ↦ elim (Bool-cases (ltb 0 (length (env.rows s.calls (users_query areas))))) [
      | inl any ↦
          elim (Bool-cases (
            env.yes (make_call (users_query areas) s).calls
              (store_call (env.rows s.calls (users_query areas))))) [
                | inl stored ↦
                    rw (selected, any, stored) (refl, simp (phone_calls-append, append-nil), refl)
                | inr refused ↦
                    rw (selected, any, refused) (refl, simp (phone_calls-append, append-nil), refl)
              ]
      | inr empty ↦
          rw (selected, empty)
            (no_rows s.updates _ empty, simp (phone_calls-append, append-nil), refl)
    ]
    | inr failed ↦
        rw failed (sym (append-nil s.updates), simp (phone_calls-append, append-nil), refl)
  ]
