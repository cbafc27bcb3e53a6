-- ===== src/Sync/Statements/Untouched.antt =====
-- `UpdateMysqlDB` of WPD_MTP_dataDlg.cpp and the phone's database file.
use shujugongxiang.Prelude.{
  ℕ, ◌+◌, ◌≡◌, refl, ◌∙◌, inl, inr, true, false, ◌&&◌, Option, none, some, List, [], ◌∷◌, ◌++◌, ltb,
  ◌==◌, not, Bool-cases, if◌then◌else◌,
}
use shujugongxiang.Text.Defs.{Text, is_empty}
use shujugongxiang.Sync.World.{
  Call, mysql_query, mysql_one_query, write_log, Env, Session, ◌>>=◌, ◌>>◌, do_call, pure, ask,
  make_call,
}
use shujugongxiang.Sync.Statements.{update_max, update_loop, send_rest, update_mysql_db}
use shujugongxiang.Sync.Statements.Batches.{update_mysql_db-none, update_mysql_db-some}
use shujugongxiang.Sync.Phone.{phone_calls, Untouched, make_call-Untouched}

module _ (env : Env) where
  query-Untouched : (t : Text) (s : Session) → Untouched s (make_call (mysql_query t) s)
  unfolding phone_calls
  query-Untouched t s = make_call-Untouched (mysql_query t) s refl

  one_query-Untouched : (t : Text) (s : Session) → Untouched s (make_call (mysql_one_query t) s)
  unfolding phone_calls
  one_query-Untouched t s = make_call-Untouched (mysql_one_query t) s refl

  log-Untouched : (t : Text) (s : Session) → Untouched s (make_call (write_log t) s)
  unfolding phone_calls
  log-Untouched t s = make_call-Untouched (write_log t) s refl

  loop-Untouched :
      (list : List Text) (n : ℕ) (temp : Text) (s : Session)
      → Untouched s (update_loop env list n temp s).1
  unfolding update_loop
  loop-Untouched [] n temp s = refl
  loop-Untouched (statement ∷ list) n temp s =
      let sent = make_call (mysql_query temp) s in
      elim (Bool-cases (ltb update_max (n + 1))) [
        | inl full ↦ elim (Bool-cases (env.yes s.calls (mysql_query temp))) [
          | inl accepted ↦
              rw (full, accepted) (loop-Untouched list 1 statement sent ∙ query-Untouched temp s)
          | inr refused ↦ rw (full, refused) (query-Untouched temp s)
        ]
        | inr room ↦ rw room (loop-Untouched list (n + 1) (temp ++ statement) s)
      ]

  after_ask :
      (c : Call) (t : Text) (s : Session)
      → Untouched s (make_call c s)
      → Untouched s
          ((do sent ← ask env c; if sent then pure true else do_call (write_log t) >> pure false)
            s).1
  after_ask c t s h = elim (Bool-cases (env.yes s.calls c)) [
    | inl accepted ↦ rw accepted h
    | inr refused ↦ rw refused (log-Untouched t (make_call c s) ∙ h)
  ]

  rest-Untouched : (n : ℕ) (temp : Text) (s : Session) → Untouched s (send_rest env n temp s).1
  unfolding send_rest
  rest-Untouched n temp s = elim (Bool-cases (not (is_empty temp) && (n == 1))) [
    | inl one ↦ rw one (after_ask (mysql_one_query temp) temp s (one_query-Untouched temp s))
    | inr other ↦ elim (Bool-cases (not (is_empty temp) && ltb 1 n)) [
      | inl many ↦ rw (other, many) (after_ask (mysql_query temp) temp s (query-Untouched temp s))
      | inr nothing ↦ rw (other, nothing) refl
    ]
  ]

  -- `UpdateMysqlDB` leaves the phone's database alone.
  pub update_mysql_db-Untouched :
      (list : List Text) (s : Session) → Untouched s (update_mysql_db env list s).1
  update_mysql_db-Untouched list s =
      step (update_loop env list 0 [] s) refl (loop-Untouched list 0 [] s)
    where
      step :
          (result : Option (ℕ × Text) × Session)
          → update_loop env list 0 [] s ≡ result
          → Untouched s result.1
          → Untouched s (update_mysql_db env list s).1
      step (none, s1) e h = rw (update_mysql_db-none env list s s1 e) h
      step (some (n, temp), s1) e h =
          rw (update_mysql_db-some env list s s1 n temp e) (rest-Untouched n temp s1 ∙ h)
