-- ===== src/Sqlite/Wrapper/Transaction.antt =====
-- The calls that `QuickInsertData` and `QuickDeletData` of CSQLite.cpp make.
use shujugongxiang.Prelude.{
  ℕ, ◌≤◌, ◌≡◌, refl, ap, ap₂, sym, ◌∙◌, ◌⊎◌, inl, inr, Bool, true, false, some, List, [], ◌∷◌, ◌++◌,
  append_assoc, length, All,
}
use mathlib.Core.Bool.{false≢true}
use mathlib.Core.List.{flat_map}
use shujugongxiang.Text.Defs.{Text, codes}
use shujugongxiang.Sync.World.{Row}
use shujugongxiang.Sqlite.Api.{
  Code, sqlite_ok, sqlite_row, sqlite_done, other_code, Pointer, Api, set_event, api_close,
  api_prepare, api_step, api_finalize, Library, Lite, L, add_call, ◌and_then◌, finalize,
}
use shujugongxiang.Sqlite.Wrapper.{
  sqlite3_prepare, run_text, change_loop, quick_delet_data, quick_insert_data, close_data_base,
  close_open,
}
use shujugongxiang.Sqlite.Wrapper.Runs.{
  row_calls, all_rows, Abandons, Runs, Seq, Pre, Same, and_then-Runs, weaken, and_then-Pre,
  finalize-Runs, Prepares, Texts, prepare-Runs, run_text-Runs, loop-Runs,
}

-- The specification: one transaction around a statement that runs once for each row, every statement
-- finalized.
abbrev pub transaction : Pointer → Text → List Row → ℕ → Pointer → Pointer → Pointer → List Api
transaction db sql rows number b q c =
    (api_prepare db (codes "BEGIN TRANSACTION") ∷ api_step b ∷ [])
    ++ ((api_finalize b ∷ [])
        ++ ((api_prepare db sql ∷ [])
            ++ (flat_map (row_calls q number) rows
                ++ ((api_finalize q ∷ [])
                    ++ ((api_prepare db (codes "commit") ∷ api_step c ∷ [])
                        ++ (api_finalize c ∷ []))))))

module _ (lib : Library) where
  module _ (db : Pointer) (sql : Text) (rows : List Row) (number : ℕ) where
    abbrev finalizing : Pointer → List Api
    finalizing p = api_finalize p ∷ []

    abbrev Tail : Pointer → List Api → Pointer → Type 0
    Tail = Seq (Texts db (codes "commit")) (Same finalizing)

    ending-Runs :
        (s : Lite)
        → s.db ≡ db
        → let r = (run_text lib (codes "commit") and_then finalize) s in
          Runs s r Tail ⊎ Abandons s r
    ending-Runs s e =
        and_then-Runs (Texts db (codes "commit")) (Same finalizing) (run_text lib (codes "commit"))
          finalize s (run_text-Runs lib db (codes "commit") s e)
          (λ same. inl (finalize-Runs (run_text lib (codes "commit") s).1))

    work : L Bool
    work =
        sqlite3_prepare lib sql
        and_then change_loop lib rows number
        and_then finalize
        and_then run_text lib (codes "commit")
        and_then finalize

    abbrev Work : Pointer → List Api → Pointer → Type 0
    Work = Seq (Prepares db sql) (Pre (all_rows rows number) (Pre finalizing Tail))

    work-Runs :
        (s : Lite)
        → s.db ≡ db
        → All (λ row. number ≤ length row) rows
        → Runs s (work s) Work ⊎ Abandons s (work s)
    unfolding work
    work-Runs s e h =
        let s1 = (sqlite3_prepare lib sql s).1 in
        let s2 = (change_loop lib rows number s1).1 in
        let s3 = (finalize s2).1 in
        let committing = run_text lib (codes "commit") and_then finalize in
        and_then-Runs (Prepares db sql) (Pre (all_rows rows number) (Pre finalizing Tail))
          (sqlite3_prepare lib sql)
          (change_loop lib rows number and_then finalize and_then committing) s
          (weaken (Prepares s.db sql) (Prepares db sql) s (sqlite3_prepare lib sql s)
            (λ made p. p ∙ ap (λ d. api_prepare d sql ∷ []) e) (prepare-Runs lib sql s))
          (λ e1.
            and_then-Pre (all_rows rows number) (Pre finalizing Tail) (change_loop lib rows number)
              (finalize and_then committing) s1 (loop-Runs lib rows number s1 h)
              (λ e2.
                and_then-Pre finalizing Tail finalize committing s2 (inl (finalize-Runs s2))
                  (λ e3. ending-Runs s3 (e3 ∙ e2 ∙ e1 ∙ e))))

    abbrev AllOf : Pointer → List Api → Pointer → Type 0
    AllOf = Seq (Texts db (codes "BEGIN TRANSACTION")) (Pre finalizing Work)

    whole-Runs :
        (s : Lite)
        → s.db ≡ db
        → All (λ row. number ≤ length row) rows
        → let r = quick_delet_data lib sql rows number s in Runs s r AllOf ⊎ Abandons s r
    unfolding quick_delet_data work
    whole-Runs s e h =
        let starting = run_text lib (codes "BEGIN TRANSACTION") in
        and_then-Runs (Texts db (codes "BEGIN TRANSACTION")) (Pre finalizing Work) starting
          (finalize and_then work) s (run_text-Runs lib db (codes "BEGIN TRANSACTION") s e)
          (λ e1.
            and_then-Pre finalizing Work finalize work (starting s).1
              (inl (finalize-Runs (starting s).1))
              (λ e2. work-Runs (finalize (starting s).1).1 (e2 ∙ e1 ∙ e) h))

    abbrev Committed : List Api → Type 0
    Committed made =
        (b : Pointer) × ((q : Pointer) × ((c : Pointer) × (made
              ≡ transaction db sql rows number b q c)))

    whole-Committed : (u v : Pointer) (made : List Api) → AllOf u made v → Committed made
    whole-Committed u v made
          (
            b,
            (
              m1,
              (
                m2,
                p1,
                (
                  m3,
                  (q, (m4, (m5, p4, (m6, (m7, (c, (m8, (m9, p8, (p9, same), j7))), j6), j5), j3))),
                  j2,
                ),
                j1,
              ),
            ),
          ) =
        (
          b,
          (
            q,
            (
              c,
              j1
                  ∙ ap₂ (λ x y. x ++ y) p1
                      (j2
                        ∙ ap (λ l. finalizing b ++ l)
                            (j3
                              ∙ ap₂ (λ x y. x ++ y) p4
                                  (j5
                                    ∙ ap (λ l. all_rows rows number q ++ l)
                                        (j6
                                          ∙ ap (λ l. finalizing q ++ l)
                                              (j7 ∙ ap₂ (λ x y. x ++ y) p8 p9))))),
            ),
          ),
        )

  -- Success with one transaction, or abandoned.
  abbrev pub Outcome : Text → List Row → ℕ → Lite → Bool × Lite → Type 0
  Outcome sql rows number s r =
      ((r.0 ≡ true)
        × ((b : Pointer) × ((q : Pointer) × ((c : Pointer) × (r.1.calls
                  ≡ s.calls ++ transaction s.db sql rows number b q c))))
        × (r.1.db ≡ s.db))
      ⊎ Abandons s r

  delet-Outcome :
      (sql : Text) (rows : List Row) (number : ℕ) (s : Lite)
      → All (λ row. number ≤ length row) rows
      → Outcome sql rows number s (quick_delet_data lib sql rows number s)
  delet-Outcome sql rows number s h = elim (whole-Runs s.db sql rows number s refl h) [
    | inl (done, (made, whole, calls), same) ↦
        let (b, (q, (c, e))) = whole-Committed s.db sql rows number s.stmt _ made whole in
        inl (done, (b, (q, (c, calls ∙ ap (λ l. s.calls ++ l) e))), same)
    | inr abandoned ↦ inr abandoned
  ]

  -- Insert and delete, every row with a column for each variable: a call returns TRUE with the library
  -- called for exactly one transaction around the statement, run once for each row, every statement
  -- finalized; or it returns FALSE with the connection closed last, and the object still holds it.
  pub changes-Outcome :
      (sql : Text) (rows : List Row) (number : ℕ) (s : Lite)
      → All (λ row. number ≤ length row) rows
      → Outcome sql rows number s (quick_delet_data lib sql rows number s)
        × Outcome sql rows number s (quick_insert_data lib sql rows number s)
  unfolding quick_insert_data
  changes-Outcome sql rows number s h =
      let deleting = delet-Outcome sql rows number s h in
      (
        deleting,
        elim deleting [
          | inl (done, made, same) ↦ rw done (inl (refl, made, same))
          | inr (failed, closed, same) ↦ rw failed (inr (refl, closed, same))
        ],
      )

  close_calls :
      (s : Lite) (p : ℕ)
      → s.db ≡ some p
      → (close_data_base lib s).1.calls ≡ s.calls ++ (set_event ∷ api_close (some p) ∷ [])
  unfolding close_data_base close_open
  close_calls s p e =
      let s' = add_call set_event s in by_code (lib.code s'.calls (api_close (some p))) refl
    where
      by_code :
          (c : Code)
          → lib.code (s.calls ++ (set_event ∷ [])) (api_close (some p)) ≡ c
          → (close_data_base lib s).1.calls ≡ s.calls ++ (set_event ∷ api_close (some p) ∷ [])
      by_code sqlite_ok e' = rw (e, e') (append_assoc s.calls (set_event ∷ []) _)
      by_code sqlite_row e' = rw (e, e') (append_assoc s.calls (set_event ∷ []) _)
      by_code sqlite_done e' = rw (e, e') (append_assoc s.calls (set_event ∷ []) _)
      by_code other_code e' = rw (e, e') (append_assoc s.calls (set_event ∷ []) _)

  -- An insert or a deletion that fails closes the connection, and the `CloseDataBase` after it closes
  -- the same connection again; every row has a column for each variable.
  pub closed_twice :
      (sql : Text) (rows : List Row) (number p : ℕ) (s : Lite)
      → All (λ row. number ≤ length row) rows
      → s.db ≡ some p
      → let r = quick_delet_data lib sql rows number s in
        r.0 ≡ false
        → (before : List Api) × ((close_data_base lib r.1).1.calls
            ≡ before ++ (api_close (some p) ∷ set_event ∷ api_close (some p) ∷ []))
  unfolding close_data_base close_open
  closed_twice sql rows number p s h e failed = elim (delet-Outcome sql rows number s h) [
    | inl (done, made, same) ↦ absurd (false≢true (sym failed ∙ done))
    | inr (_, (before, closed), same) ↦ (
      before,
      close_calls (quick_delet_data lib sql rows number s).1 p (same ∙ e)
          ∙ ap (λ l. l ++ closing) (closed ∙ ap (λ d. before ++ (api_close d ∷ [])) e)
          ∙ append_assoc before (api_close (some p) ∷ []) closing,
    )
  ]
    where
      closing : List Api
      closing = set_event ∷ api_close (some p) ∷ []
