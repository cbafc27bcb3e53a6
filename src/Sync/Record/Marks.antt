-- ===== src/Sync/Record/Marks.antt =====
-- When `Synchrodata_work_record` of WPD_MTP_dataDlg.cpp marks rows as synchronised.
use shujugongxiang.Prelude.{
  ℕ, ◌-◌, ◌≡◌, refl, ap, sym, ◌∙◌, Bool, true, false, List, [], ◌∷◌, ◌++◌, ◌&&◌, some, none, inl,
  inr, map, replicate, length, ltb, append-nil, Bool-cases, if◌then◌else◌, arith,
}
use shujugongxiang.Text.Defs.{Text, codes}
use shujugongxiang.Sync.World.{
  Row, Call, insert_rows, mysql_select, write_log, show_line, show_log, Env, Session, make_call,
  first_size, when,
}
use shujugongxiang.Sync.Record.{
  column, record_statement, record_mark, record_server_sql, phone_rows, phone_mark_sql,
  phone_store_sql, store_and_mark, store_on_phone, record_to_phone,
}
use shujugongxiang.Sync.Statements.{update_mysql_db}
use shujugongxiang.Sync.Statements.Untouched.{update_mysql_db-Untouched}
use shujugongxiang.Sync.Phone.{phone_calls, phone_calls-make_call, Untouched, make_call-Untouched}

-- The call that marks the rows on the phone.
abbrev pub mark_call : ℕ → List Row → Call
mark_call count rows =
    insert_rows phone_mark_sql
      (map (λ row. some (column row 0 ∷ [])) rows ++ replicate (count - length rows) none) 1

abbrev failed_text : Text
failed_text = codes "从phone更新记录数据服务端work_record失败!"

module _ (env : Env) where
  pub write_log-Untouched : (t : Text) (s : Session) → Untouched s (make_call (write_log t) s)
  unfolding phone_calls
  write_log-Untouched t s = make_call-Untouched (write_log t) s refl

  pub show_log-Untouched : (t : Text) (s : Session) → Untouched s (show_log env t s).1
  unfolding show_log phone_calls
  show_log-Untouched t s =
      let s2 = make_call (write_log t) (make_call (show_line t) s) in
      write_log-Untouched (env.mysql_error s2.calls) s2
      ∙ write_log-Untouched t (make_call (show_line t) s)
      ∙ make_call-Untouched (show_line t) s refl

  mark-phone_calls :
      (count : ℕ) (rows : List Row) (s : Session)
      → phone_calls (make_call (mark_call count rows) s).calls
        ≡ phone_calls s.calls ++ (mark_call count rows ∷ [])
  unfolding phone_calls
  mark-phone_calls count rows s = phone_calls-make_call (mark_call count rows) s

  -- The phone's rows are marked by one call if `UpdateMysqlDB`, which was given a statement for each of
  -- them, returned TRUE; if it returned FALSE, nothing is changed on the phone. Whether the server took
  -- every one of these statements is not asked.
  pub store_and_mark-phone_calls :
      (count : ℕ) (rows : List Row) (s : Session)
      → phone_calls (store_and_mark env count rows s).1.calls
        ≡ phone_calls s.calls
          ++ (if (update_mysql_db env (map record_statement rows) s).0
              then mark_call count rows ∷ []
              else [])
  unfolding store_and_mark
  store_and_mark-phone_calls count rows s =
      let r = update_mysql_db env (map record_statement rows) s in
      let kept : Untouched s r.1 = update_mysql_db-Untouched env (map record_statement rows) s in
      let marked =
        mark-phone_calls count rows r.1 ∙ ap (λ l. l ++ (mark_call count rows ∷ [])) kept in
      elim (Bool-cases r.0) [
        | inl stored ↦ elim (Bool-cases (env.yes r.1.calls (mark_call count rows))) [
          | inl taken ↦ rw (stored, taken, when) marked
          | inr refused ↦
              let s2 = make_call (mark_call count rows) r.1 in
              rw (stored, refused, when)
                (write_log-Untouched (env.sqlite_error s2.calls ++ []) s2 ∙ marked)
        ]
        | inr failed ↦
            let s2 = (show_log env failed_text r.1).1 in
            rw failed (
              write_log-Untouched (env.mysql_error s2.calls) s2
              ∙ show_log-Untouched failed_text r.1
              ∙ kept
              ∙ sym (append-nil (phone_calls s.calls)))
      ]

  store_on_phone-updates :
      (rows : List Row) (s : Session)
      → (store_on_phone env rows s).1.updates
        ≡ s.updates
          ++ (if env.yes s.calls (insert_rows phone_store_sql (phone_rows rows) (first_size rows))
              then map record_mark rows
              else [])
  unfolding store_on_phone
  store_on_phone-updates rows s =
      elim (Bool-cases
        (env.yes s.calls (insert_rows phone_store_sql (phone_rows rows) (first_size rows)))) [
          | inl stored ↦ rw stored refl
          | inr refused ↦ rw refused (sym (append-nil s.updates))
        ]

  abbrev pub server_query : Text → Text → Call
  server_query begin_time cur_time = mysql_select (record_server_sql begin_time cur_time)

  abbrev pub Queues : Text → Text → Session → List Row → Type 0
  Queues begin_time cur_time s rows =
      let query = server_query begin_time cur_time in
      ((record_to_phone env begin_time cur_time s).0 ≡ env.yes s.calls query)
      × ((record_to_phone env begin_time cur_time s).1.updates
          ≡ s.updates
            ++ (if env.yes s.calls query
                  && env.yes (make_call query s).calls
                      (insert_rows phone_store_sql (phone_rows rows) (first_size rows))
                then map record_mark rows
                else []))

  -- From the server to the phone: the statements that mark the server's rows are queued behind those
  -- that wait already if the query gave rows and the phone's database took them all in one insert;
  -- otherwise none is queued. The call fails exactly if the query does.
  pub record_to_phone-updates :
      (begin_time cur_time : Text) (s : Session)
      → Queues begin_time cur_time s (env.rows s.calls (server_query begin_time cur_time))
  unfolding record_to_phone
  record_to_phone-updates begin_time cur_time s =
      by_rows (env.rows s.calls (server_query begin_time cur_time)) refl
    where
      nothing : (b : Bool) → s.updates ≡ s.updates ++ (if b then map record_mark [] else [])
      nothing true = sym (append-nil s.updates)
      nothing false = sym (append-nil s.updates)

      by_rows :
          (rows : List Row)
          → env.rows s.calls (server_query begin_time cur_time) ≡ rows
          → Queues begin_time cur_time s rows
      by_rows [] e = elim (Bool-cases (env.yes s.calls (server_query begin_time cur_time))) [
        | inl selected ↦ rw (selected, e) (refl, nothing _)
        | inr refused ↦ rw refused (refl, sym (append-nil s.updates))
      ]
      by_rows (row ∷ rows) e =
          elim (Bool-cases (env.yes s.calls (server_query begin_time cur_time))) [
            | inl selected ↦
                let some_rows : ltb 0 (length (row ∷ rows)) ≡ true = ground arith in
                rw (selected, e, some_rows)
                  (
                    refl,
                    store_on_phone-updates (row ∷ rows)
                        (make_call (server_query begin_time cur_time) s),
                  )
            | inr refused ↦ rw refused (refl, sym (append-nil s.updates))
          ]
