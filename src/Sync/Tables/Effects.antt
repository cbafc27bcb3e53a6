-- ===== src/Sync/Tables/Effects.antt =====
-- What the steps on one table do to the phone's database and to the queue of marks.
use shujugongxiang.Prelude.{
  ◌≡◌, refl, ap, sym, ◌∙◌, Bool, true, ◌&&◌, Option, none, some, List, [], ◌∷◌, ◌++◌, inl, inr, map,
  length, append-nil, append_assoc, Bool-cases, ltb, if◌then◌else◌,
}
use shujugongxiang.Text.Defs.{Text}
use shujugongxiang.Sync.World.{
  Row, Call, path_exists, open_db, mysql_select, Env, Session, make_call,
}
use shujugongxiang.Sync.Tables.{
  Table, insert_call, delete_call, store_rows, copy_rows, delete_ids, remove_rows, removed_all,
}
use shujugongxiang.Sync.Phone.{phone_calls, phone_calls-append}

-- The rows that a query gives, none if it fails.
abbrev pub rows_given : Env → Text → Session → List Row
rows_given env sql s =
    if env.yes s.calls (mysql_select sql) then env.rows s.calls (mysql_select sql) else []

-- There are rows, and the phone takes them.
abbrev pub accepted : Env → Table → Session → Bool
accepted env t s =
    let rows = rows_given env t.select_sql s in
    ltb 0 (length rows)
    && env.yes (make_call (mysql_select t.select_sql) s).calls (insert_call t rows)

-- The calls of the two steps that reach the phone.
abbrev pub inserts : Env → Table → Session → List Call
inserts env t s =
    let rows = rows_given env t.select_sql s in
    if ltb 0 (length rows) then insert_call t rows ∷ [] else []

abbrev pub deletes : Env → Text → Text → Session → List Call
deletes env deleted_sql delete_sql s =
    let rows = rows_given env deleted_sql s in
    if ltb 0 (length rows) then delete_call delete_sql rows ∷ [] else []

-- The session in which the database was opened, whether it is open, and the open if it was tried.
abbrev pub opened_at : Text → Session → Session
opened_at path s = make_call (open_db path) (make_call (path_exists path) s)

abbrev pub opens : Env → Text → Session → Bool
opens env path s =
    env.yes s.calls (path_exists path)
    && env.yes (make_call (path_exists path) s).calls (open_db path)

abbrev pub tried : Env → Text → Session → List Call
tried env path s = if env.yes s.calls (path_exists path) then open_db path ∷ [] else []

module _ (env : Env) (t : Table) (s : Session) where
  pub copy_rows_lem :
      let result = copy_rows env t s in
      let rows = rows_given env t.select_sql s in
      (result.0 ≡ (
        env.yes s.calls (mysql_select t.select_sql)
        && (if ltb 0 (length rows) then accepted env t s else true)))
      × (result.1.updates ≡ s.updates ++ (if accepted env t s then map t.mark rows else []))
      × (phone_calls result.1.calls ≡ phone_calls s.calls ++ inserts env t s)
  unfolding copy_rows store_rows phone_calls
  copy_rows_lem =
      let query = mysql_select t.select_sql in
      elim (Bool-cases (env.yes s.calls query)) [
        | inl selected ↦ elim (Bool-cases (ltb 0 (length (env.rows s.calls query)))) [
          | inl any ↦
              elim (Bool-cases
                (env.yes (make_call query s).calls (insert_call t (env.rows s.calls query)))) [
                  | inl stored ↦
                      rw (selected, any, stored) (refl, refl, simp (phone_calls-append, append-nil))
                  | inr refused ↦
                      rw (selected, any, refused)
                        (refl, sym (append-nil s.updates), simp (phone_calls-append, append-nil))
                ]
          | inr empty ↦
              rw (selected, empty)
                (refl, sym (append-nil s.updates), simp (phone_calls-append, append-nil))
        ]
        | inr failed ↦
            rw failed (refl, sym (append-nil s.updates), simp (phone_calls-append, append-nil))
      ]

module _ (env : Env) (deleted_sql delete_sql logged : Text) (s : Session) where
  abbrev pub deletion_taken : Bool
  deletion_taken =
      let query = mysql_select deleted_sql in
      if ltb 0 (length (rows_given env deleted_sql s))
      then env.yes (make_call query s).calls (delete_call delete_sql (rows_given env deleted_sql s))
      else true

  pub remove_rows_lem :
      let result = remove_rows env deleted_sql delete_sql logged s in
      (result.0
        ≡ (if env.yes s.calls (mysql_select deleted_sql) then some deletion_taken else none))
      × (result.1.updates ≡ s.updates)
      × (phone_calls result.1.calls ≡ phone_calls s.calls ++ deletes env deleted_sql delete_sql s)
  unfolding remove_rows delete_ids phone_calls
  remove_rows_lem =
      let query = mysql_select deleted_sql in
      elim (Bool-cases (env.yes s.calls query)) [
        | inl selected ↦ elim (Bool-cases (ltb 0 (length (env.rows s.calls query)))) [
          | inl any ↦
              elim (Bool-cases (
                env.yes (make_call query s).calls
                  (delete_call delete_sql (env.rows s.calls query)))) [
                    | inl taken ↦
                        rw (selected, any, taken)
                          (refl, refl, simp (phone_calls-append, append-nil))
                    | inr refused ↦
                        rw (selected, any, refused)
                          (refl, refl, simp (phone_calls-append, append-nil))
                  ]
          | inr empty ↦ rw (selected, empty) (refl, refl, simp (phone_calls-append, append-nil))
        ]
        | inr failed ↦ rw failed (refl, refl, simp (phone_calls-append, append-nil))
      ]

module _ (env : Env) (t : Table) (s : Session) where
  -- The session after both steps, for a table that logs its own query.
  abbrev pub copied : Session
  copied = (copy_rows env t s).1

  abbrev pub removal : Option Bool × Session
  removal = remove_rows env t.deleted_sql t.delete_sql t.deleted_sql copied

  abbrev pub changes : List Call
  changes = inserts env t s ++ deletes env t.deleted_sql t.delete_sql copied

  abbrev pub marks : List Text
  marks = if accepted env t s then map t.mark (rows_given env t.select_sql s) else []

  pub steps_phone : phone_calls removal.1.calls ≡ phone_calls s.calls ++ changes
  steps_phone =
      (remove_rows_lem env t.deleted_sql t.delete_sql t.deleted_sql copied).2
      ∙ ap (λ l. l ++ deletes env t.deleted_sql t.delete_sql copied) (copy_rows_lem env t s).2
      ∙ append_assoc (phone_calls s.calls) (inserts env t s)
          (deletes env t.deleted_sql t.delete_sql copied)

  pub steps_updates : removal.1.updates ≡ s.updates ++ marks
  steps_updates =
      (remove_rows_lem env t.deleted_sql t.delete_sql t.deleted_sql copied).1
      ∙ (copy_rows_lem env t s).1

  -- The queries and the changes all succeed.
  abbrev pub steps_done : Bool
  steps_done = (copy_rows env t s).0 && removed_all removal.0
