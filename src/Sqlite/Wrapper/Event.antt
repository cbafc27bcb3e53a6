-- ===== src/Sqlite/Wrapper/Event.antt =====
-- `m_eventOpenDB` of CSQLite.cpp, which lets one object at a time have a database open.
use shujugongxiang.Prelude.{
  ◌≡◌, refl, ap, ◌∙◌, Bool, true, false, ◌&&◌, not, Option, none, some, List, [], ◌∷◌, ◌++◌,
  append_assoc, inl, inr, Bool-cases, if◌then◌else◌,
}
use shujugongxiang.Text.Defs.{Text, codes}
use shujugongxiang.Sqlite.Api.{
  Code, sqlite_ok, sqlite_row, sqlite_done, other_code, Api, wait_event, set_event, api_open,
  api_close, api_exec, Library, Lite, add_call,
}
use shujugongxiang.Sqlite.Wrapper.{exec_sql, store_opened, open_data_base}

-- Whether the event is signalled after these calls, if it was at their start. A wait takes the signal;
-- `none` is a wait that no signal ends.
unfoldable pub event : Bool → List Api → Option Bool
event b [] = some b
event true (wait_event ∷ calls) = event false calls
event false (wait_event ∷ calls) = none
event b (set_event ∷ calls) = event true calls
event b (c ∷ calls) = event b calls

abbrev pub is_ok : Code → Bool
is_ok c = elim c [ sqlite_ok ↦ true | _ ↦ false ]

abbrev go_on : Option Bool → List Api → Option Bool
go_on o ys = elim o [ none ↦ none | some b ↦ event b ys ]

event-append : (b : Bool) (xs ys : List Api) → event b (xs ++ ys) ≡ go_on (event b xs) ys
unfolding event
event-append b [] ys = refl
event-append true (wait_event ∷ xs) ys = event-append false xs ys
event-append false (wait_event ∷ xs) ys = refl
event-append b (set_event ∷ xs) ys = event-append true xs ys
event-append b (_ ∷ xs) ys = event-append b xs ys

-- Calls that follow a state of the event.
event-after :
    (b c : Bool) (xs ys : List Api) → event b xs ≡ some c → event b (xs ++ ys) ≡ event c ys
event-after b c xs ys e = event-append b xs ys ∙ ap (λ o. go_on o ys) e

module _ (lib : Library) where
  abbrev pub open_code : Text → Lite → Code
  open_code path s = lib.code (add_call wait_event s).calls (api_open path)

  abbrev pub opened_lite : Text → Lite → Lite
  opened_lite path s = (store_opened lib path (add_call wait_event s)).1

  exec_sql-event :
      (b c : Bool) (sql : Text) (s : Lite)
      → event b s.calls ≡ some c
      → event b (exec_sql lib sql s).1.calls ≡ some c
  unfolding exec_sql event
  exec_sql-event b c sql s h = by_code (lib.code s.calls (api_exec s.db sql)) refl
    where
      still : (c : Bool) → event c (api_exec s.db sql ∷ []) ≡ some c
      still true = refl
      still false = refl

      by_code :
          (d : Code)
          → lib.code s.calls (api_exec s.db sql) ≡ d
          → event b (exec_sql lib sql s).1.calls ≡ some c
      by_code sqlite_ok e = rw e (event-after b c s.calls _ h ∙ still c)
      by_code sqlite_row e = rw e (event-after b c s.calls _ h ∙ still c)
      by_code sqlite_done e = rw e (event-after b c s.calls _ h ∙ still c)
      by_code other_code e = rw e (event-after b c s.calls _ h ∙ still c)

  -- With the event signalled, `OpenDataBase` takes it exactly if sqlite3_open succeeds. It returns
  -- TRUE if that succeeds and the PRAGMA, where it is asked for, does too: a failed PRAGMA returns
  -- FALSE and keeps the event.
  pub open_data_base-event :
      (path : Text) (synchronous : Bool) (s : Lite)
      → event true s.calls ≡ some true
      → let r = open_data_base lib path synchronous s in
        let pragma = exec_sql lib (codes "PRAGMA synchronous = OFF;") (opened_lite path s) in
        (event true r.1.calls ≡ some (not (is_ok (open_code path s))))
        × (r.0 ≡ (is_ok (open_code path s) && (if synchronous then pragma.0 else true)))
  unfolding open_data_base store_opened event
  open_data_base-event path synchronous s h = by_code (open_code path s) synchronous refl
    where
      goal : Bool → Type 0
      goal synchronous =
          let r = open_data_base lib path synchronous s in
          let pragma = exec_sql lib (codes "PRAGMA synchronous = OFF;") (opened_lite path s) in
          (event true r.1.calls ≡ some (not (is_ok (open_code path s))))
          × (r.0 ≡ (is_ok (open_code path s) && (if synchronous then pragma.0 else true)))

      taken : event true (opened_lite path s).calls ≡ some false
      taken =
          ap (event true) (append_assoc s.calls (wait_event ∷ []) (api_open path ∷ []))
          ∙ event-after true true s.calls (wait_event ∷ api_open path ∷ []) h

      released :
          (closed : Api)
          → event false (closed ∷ set_event ∷ []) ≡ some true
          → event true (((opened_lite path s).calls ++ (closed ∷ [])) ++ (set_event ∷ []))
            ≡ some true
      released closed e =
          ap (event true) (append_assoc (opened_lite path s).calls (closed ∷ []) (set_event ∷ []))
          ∙ event-after true false (opened_lite path s).calls _ taken
          ∙ e

      pragma : Bool × Lite
      pragma = exec_sql lib (codes "PRAGMA synchronous = OFF;") (opened_lite path s)

      by_code : (c : Code) (synchronous : Bool) → open_code path s ≡ c → goal synchronous
      by_code sqlite_ok false e = rw e (taken, refl)
      by_code sqlite_ok true e = elim (Bool-cases pragma.0) [
        | inl off ↦ rw (e, off) (exec_sql-event true false _ (opened_lite path s) taken, refl)
        | inr refused ↦
            rw (e, refused) (exec_sql-event true false _ (opened_lite path s) taken, refl)
      ]
      by_code sqlite_row b e = rw e (released (api_close (opened_lite path s).db) refl, refl)
      by_code sqlite_done b e = rw e (released (api_close (opened_lite path s).db) refl, refl)
      by_code other_code b e = rw e (released (api_close (opened_lite path s).db) refl, refl)
