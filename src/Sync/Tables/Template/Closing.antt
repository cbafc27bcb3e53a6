-- ===== src/Sync/Tables/Template/Closing.antt =====
-- `Synchrodata_work_template` of WPD_MTP_dataDlg.cpp from the opening of the phone's database to its closing.
use shujugongxiang.Prelude.{
  ◌≡◌, refl, ap, ap₂, sym, ◌∙◌, Bool, true, false, ◌&&◌, Option, none, some, List, [], ◌∷◌, ◌++◌,
  inl, inr, append-nil, append_assoc, Bool-cases, arith, if◌then◌else◌,
}
use shujugongxiang.Text.Defs.{Text}
use shujugongxiang.Sync.World.{
  Call, path_exists, open_db, close_db, mysql_select, Env, Session, make_call,
}
use shujugongxiang.Sync.Phone.{phone_calls, phone_calls-append}
use shujugongxiang.Sync.Tables.{Table, copy_rows, removed_all}
use shujugongxiang.Sync.Tables.Effects.{
  opened_at, opens, tried, copied, removal, changes, marks, steps_phone, steps_updates, steps_done,
  remove_rows_lem,
}
use shujugongxiang.Sync.Tables.Template.{
  template_close, template_in_db, template_to_phone, synchrodata_work_template,
}
use shujugongxiang.Sync.Record.{to_pc}

module _ (env : Env) (t : Table) (s : Session) where
  abbrev pub deleted_given : Bool
  deleted_given = env.yes (copied env t s).calls (mysql_select t.deleted_sql)

  -- Closed only if the query for deleted rows succeeded.
  abbrev pub closes : List Call
  closes = if deleted_given then close_db ∷ [] else []

  template_close_lem :
      (done : Bool) (o : Option Bool) (s' : Session)
      → let result = template_close env done o s' in
        (result.0 ≡ (done && removed_all o))
        × (result.1.updates ≡ s'.updates)
        × (phone_calls result.1.calls
            ≡ phone_calls s'.calls ++ elim o [ none ↦ [] | some _ ↦ close_db ∷ [] ])
  unfolding template_close phone_calls
  template_close_lem done none s' = (ground arith, refl, sym (append-nil (phone_calls s'.calls)))
  template_close_lem done (some deleted) s' = (refl, refl, simp (phone_calls-append, append-nil))

  template_in_db_lem :
      let result = template_in_db env t s in
      (result.0 ≡ steps_done env t s)
      × (result.1.updates ≡ s.updates ++ marks env t s)
      × (phone_calls result.1.calls ≡ phone_calls s.calls ++ (changes env t s ++ closes))
  unfolding template_in_db
  template_in_db_lem =
      let r = removal env t s in
      let given =
        (remove_rows_lem env t.deleted_sql t.delete_sql t.deleted_sql (copied env t s)).0 in
      let closing = template_close_lem (copy_rows env t s).0 r.0 r.1 in
      (
        closing.0,
        closing.1 ∙ steps_updates env t s,
        closing.2
            ∙ ap₂ (λ calls o. calls ++ elim o [ none ↦ [] | some _ ↦ close_db ∷ [] ])
                (steps_phone env t s) given
            ∙ append_assoc (phone_calls s.calls) (changes env t s) _
            ∙ ap (λ l. phone_calls s.calls ++ (changes env t s ++ l)) (by_given deleted_given _),
      )
    where
      by_given :
          (b d : Bool)
          → (elim (if b then some d else none) [ none ↦ [] | some _ ↦ close_db ∷ [] ])
            ≡ (if b then close_db ∷ [] else [])
      by_given true d = refl
      by_given false d = refl

module _ (env : Env) (t : Table) (path : Text) (s : Session) where
  -- Templates: as for the types of work, but if the query for deleted templates fails, the database is
  -- left open.
  pub template_to_phone_lem :
      let at = opened_at path s in
      let result = template_to_phone env path t s in
      (result.0 ≡ (opens env path s && steps_done env t at))
      × (result.1.updates ≡ s.updates ++ (if opens env path s then marks env t at else []))
      × (phone_calls result.1.calls
          ≡ phone_calls s.calls
            ++ (tried env path s
                ++ (if opens env path s then changes env t at ++ closes env t at else [])))
  unfolding template_to_phone phone_calls
  template_to_phone_lem = elim (Bool-cases (env.yes s.calls (path_exists path))) [
    | inl there ↦
        elim (Bool-cases (env.yes (make_call (path_exists path) s).calls (open_db path))) [
          | inl opened ↦
              let inside = template_in_db_lem env t (opened_at path s) in
              rw (there, opened)
                (inside.0, inside.1, inside.2 ∙ simp (phone_calls-append, append_assoc))
          | inr refused ↦
              rw (there, refused)
                (refl, sym (append-nil s.updates), simp (phone_calls-append, append-nil))
        ]
    | inr missing ↦
        rw missing (refl, sym (append-nil s.updates), simp (phone_calls-append, append-nil))
  ]

-- Templates never go to the PC.
pub synchrodata_work_template-to_pc :
    (env : Env) (begin_time cur_time : Text) (ids : List Text) (path : Text) (s : Session)
    → synchrodata_work_template env begin_time cur_time ids path to_pc s ≡ (true, s)
unfolding synchrodata_work_template
synchrodata_work_template-to_pc env begin_time cur_time ids path s = refl
