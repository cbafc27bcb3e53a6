-- ===== src/Sync/Tables/Device/Marks.antt =====
-- When `Synchrodata_device_info` of WPD_MTP_dataDlg.cpp marks the phone's devices as synchronised.
use shujugongxiang.Prelude.{
  ℕ, ◌≡◌, refl, ap, sym, ◌∙◌, Bool, true, ◌&&◌, List, [], ◌∷◌, ◌++◌, inl, inr, map, append-nil,
  Bool-cases, ltb, arith, if◌then◌else◌,
}
use shujugongxiang.Text.Defs.{Text, codes, decimal}
use shujugongxiang.Sync.World.{
  Row, count_rows, select_rows, write_log, show_log, Env, Session, make_call,
}
use shujugongxiang.Sync.Phone.{phone_calls, phone_calls-append, Untouched, make_call-Untouched}
use shujugongxiang.Sync.Record.Marks.{write_log-Untouched, show_log-Untouched}
use shujugongxiang.Sync.Statements.{update_mysql_db}
use shujugongxiang.Sync.Statements.Untouched.{update_mysql_db-Untouched}
use shujugongxiang.Sync.Switch.{Scope}
use shujugongxiang.Sync.Tables.Device.{
  fetch_tags, waiting_sql, rfid_statement, mark_tags_call, phone_tags, mark_tags, device_to_pc,
}

module _ (env : Env) where
  mark_tags_lem :
      (count : ℕ) (rows : List Row) (ret : Bool) (s : Session)
      → let call = mark_tags_call count rows in
        let result = mark_tags env count rows ret s in
        (result.0 ≡ (ret && (if ltb 0 count then env.yes s.calls call else true)))
        × (phone_calls result.1.calls
            ≡ phone_calls s.calls ++ (if ltb 0 count then call ∷ [] else []))
  unfolding mark_tags phone_calls
  mark_tags_lem count rows ret s = elim (Bool-cases (ltb 0 count)) [
    | inl any ↦ elim (Bool-cases (env.yes s.calls (mark_tags_call count rows))) [
      | inl marked ↦ rw (any, marked) (ground arith, simp (phone_calls-append, append-nil))
      | inr refused ↦ rw (any, refused) (ground arith, simp (phone_calls-append, append-nil))
    ]
    | inr empty ↦ rw empty (ground arith, sym (append-nil (phone_calls s.calls)))
  ]

  fetch_tags-Untouched :
      (count_sql select_sql : Text) (count : ℕ) (s : Session)
      → Untouched s (fetch_tags env count_sql select_sql count s).1
  unfolding fetch_tags phone_calls
  fetch_tags-Untouched count_sql select_sql count s =
      let log = write_log (count_sql ++ (codes "同步的数据条数为[" ++ (decimal count ++ codes "];"))) in
      elim (Bool-cases (env.yes (make_call log s).calls (select_rows select_sql count))) [
        | inl selected ↦ rw selected (simp (phone_calls-append, append-nil))
        | inr refused ↦ rw refused (simp (phone_calls-append, append-nil))
      ]

  module _ (scope : Scope) (begin_time cur_time ids : Text) (s : Session) where
    phone_tags-Untouched : Untouched s (phone_tags env scope begin_time cur_time ids s).1
    unfolding phone_tags phone_calls
    phone_tags-Untouched =
        let counting = count_rows (waiting_sql (codes "count(*)") scope begin_time cur_time ids) in
        elim (Bool-cases (env.yes s.calls counting)) [
          | inl counted ↦ elim (Bool-cases (ltb 0 (env.count s.calls counting))) [
            | inl any ↦
                rw (counted, any)
                  (fetch_tags-Untouched _ _ _ (make_call counting s)
                    ∙ make_call-Untouched counting s refl)
            | inr empty ↦ rw (counted, empty) (simp (phone_calls-append, append-nil))
          ]
          | inr refused ↦ rw refused (simp (phone_calls-append, append-nil))
        ]

    abbrev pub tags : (Bool × ℕ × List Row) × Session
    tags = phone_tags env scope begin_time cur_time ids s

    abbrev pub tags_sent : Bool × Session
    tags_sent = update_mysql_db env (map rfid_statement tags.0.2) tags.1

    -- Tags from the phone to the server: the phone's devices are marked, by one call, if rows were
    -- counted and `UpdateMysqlDB` returned TRUE for the statements of all rows found; otherwise
    -- nothing is changed on the phone. The result is TRUE exactly if the rows were found, sent and
    -- marked.
    pub device_to_pc_lem :
        let result = device_to_pc env scope begin_time cur_time ids s in
        let call = mark_tags_call tags.0.1 tags.0.2 in
        (result.0 ≡ (
          tags_sent.0
          && (tags.0.0 && (if ltb 0 tags.0.1 then env.yes tags_sent.1.calls call else true))))
        × (phone_calls result.1.calls
            ≡ phone_calls s.calls
              ++ (if tags_sent.0 then (if ltb 0 tags.0.1 then call ∷ [] else []) else []))
    unfolding device_to_pc phone_calls
    device_to_pc_lem =
        let kept : Untouched s tags_sent.1 =
          update_mysql_db-Untouched env (map rfid_statement tags.0.2) tags.1
          ∙ phone_tags-Untouched in
        let marking = mark_tags_lem tags.0.1 tags.0.2 tags.0.0 tags_sent.1 in
        elim (Bool-cases tags_sent.0) [
          | inl sent ↦ rw sent (
            marking.0,
            marking.1
                ∙ ap
                    (λ l.
                      l ++ (if ltb 0 tags.0.1 then mark_tags_call tags.0.1 tags.0.2 ∷ [] else []))
                    kept,
          )
          | inr failed ↦
              let shown = (show_log env (codes "从phone更新RFId到服务端失败!") tags_sent.1).1 in
              rw failed (
                refl,
                write_log-Untouched env (env.mysql_error shown.calls) shown
                    ∙ show_log-Untouched env (codes "从phone更新RFId到服务端失败!") tags_sent.1
                    ∙ kept
                    ∙ sym (append-nil (phone_calls s.calls)),
              )
        ]
