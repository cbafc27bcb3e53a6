-- ===== src/Sqlite/Wrapper/Runs.antt =====
-- The steps of `QuickInsertData` and `QuickDeletData` of CSQLite.cpp: each succeeds with certain calls,
-- or closes the connection and fails.
use shujugongxiang.Prelude.{
  ℕ, zero, suc, ◌+◌, ◌≤◌, ◌≡◌, refl, ap, ap₂, subst, sym, ◌∙◌, ◌⊎◌, inl, inr, Bool, true, false,
  none, some, List, [], ◌∷◌, ◌++◌, append-nil, append_assoc, length, All, arith,
}
use mathlib.Core.List.{flat_map}
use shujugongxiang.Text.Defs.{Text}
use shujugongxiang.Sync.World.{Row}
use shujugongxiang.Sqlite.Api.{
  Code, sqlite_ok, sqlite_row, sqlite_done, other_code, Pointer, Api, api_close, api_prepare,
  api_step, api_finalize, api_reset, api_bind, Library, Lite, L, ◌>>◌, add_call, call, ◌and_then◌,
  and_then-true, and_then-false, finalize,
}
use shujugongxiang.Sqlite.Wrapper.{
  finalize_if_set, give_up, store_prepared, sqlite3_prepare, sqlite_step, run_text, bind_from,
  sqlite3_bind, change_loop,
}

-- Binding the first columns of a row to the variables from the i-th on.
unfoldable pub binds : Pointer → ℕ → ℕ → Row → List Api
binds p i zero row = []
binds p i (suc left) [] = []
binds p i (suc left) (value ∷ row) = api_bind p i value ∷ binds p (i + 1) left row

unfoldable pub row_calls : Pointer → ℕ → Row → List Api
row_calls p number row = binds p 1 number row ++ (api_step p ∷ api_reset p ∷ [])

-- The connection was closed last, and `pDB` still holds it.
abbrev pub Abandons : Lite → Bool × Lite → Type 0
Abandons s r =
    (r.0 ≡ false)
    × ((before : List Api) × (r.1.calls ≡ before ++ (api_close s.db ∷ [])))
    × (r.1.db ≡ s.db)

-- Success, with calls that stand in a relation to the statements before and after; or abandoned.
abbrev pub Runs : Lite → Bool × Lite → (Pointer → List Api → Pointer → Type 0) → Type 0
Runs s r P =
    (r.0 ≡ true)
    × ((made : List Api) × P s.stmt made r.1.stmt × (r.1.calls ≡ s.calls ++ made))
    × (r.1.db ≡ s.db)

abbrev pub Seq :
    (Pointer → List Api → Pointer → Type 0)
    → (Pointer → List Api → Pointer → Type 0)
    → Pointer
    → List Api
    → Pointer
    → Type 0
Seq P Q u made w =
    (v : Pointer) × ((first : List Api) × ((second : List Api) × P u first v
        × Q v second w
        × (made ≡ first ++ second)))

pub and_then-Runs :
    (P Q : Pointer → List Api → Pointer → Type 0) (a b : L Bool) (s : Lite)
    → Runs s (a s) P ⊎ Abandons s (a s)
    → ((a s).1.db ≡ s.db → Runs (a s).1 (b (a s).1) Q ⊎ Abandons (a s).1 (b (a s).1))
    → Runs s ((a and_then b) s) (Seq P Q) ⊎ Abandons s ((a and_then b) s)
and_then-Runs P Q a b s (inr (failed, closed, same)) hb =
    rw (and_then-false a b s failed) (inr (refl, closed, same))
and_then-Runs P Q a b s (inl (done, (made, p, calls), same)) hb =
    rw (and_then-true a b s done) elim (hb same) [
      | inl (done', (made', q, calls'), same') ↦ inl (
        done',
        (
          made ++ made',
          ((a s).1.stmt, (made, (made', p, q, refl))),
          calls' ∙ ap (λ l. l ++ made') calls ∙ append_assoc s.calls made made',
        ),
        same' ∙ same,
      )
      | inr (failed, (before, closed), same') ↦
          inr (failed, (before, closed ∙ ap (λ p. before ++ (api_close p ∷ [])) same), same' ∙ same)
    ]

pub weaken :
    (P Q : Pointer → List Api → Pointer → Type 0) (s : Lite) (r : Bool × Lite)
    → ((made : List Api) → P s.stmt made r.1.stmt → Q s.stmt made r.1.stmt)
    → Runs s r P ⊎ Abandons s r
    → Runs s r Q ⊎ Abandons s r
weaken P Q s r f (inl (done, (made, p, calls), same)) = inl (done, (made, f made p, calls), same)
weaken P Q s r f (inr abandoned) = inr abandoned

give_up-Abandons : (s : Lite) → Abandons s (give_up s)
unfolding give_up finalize_if_set
give_up-Abandons s = by_stmt s.stmt refl
  where
    by_stmt : (p : Pointer) → s.stmt ≡ p → Abandons s (give_up s)
    by_stmt none e = rw e (refl, (s.calls, refl), refl)
    by_stmt (some p) e = rw e (refl, (s.calls ++ (api_finalize (some p) ∷ []), refl), refl)

-- One statement, left as it is.
abbrev pub Same : (Pointer → List Api) → Pointer → List Api → Pointer → Type 0
Same made u calls v = (calls ≡ made u) × (v ≡ u)

-- Two parts that work on the same statement.
and_then-Same :
    (f g : Pointer → List Api) (a b : L Bool) (s : Lite)
    → Runs s (a s) (Same f) ⊎ Abandons s (a s)
    → Runs (a s).1 (b (a s).1) (Same g) ⊎ Abandons (a s).1 (b (a s).1)
    → Runs s ((a and_then b) s) (Same (λ p. f p ++ g p)) ⊎ Abandons s ((a and_then b) s)
and_then-Same f g a b s ha hb =
    weaken (Seq (Same f) (Same g)) (Same (λ p. f p ++ g p)) s ((a and_then b) s)
      (λ made (v, (first, (second, (p, v'), (q, w'), joined))).
        (joined ∙ ap₂ (λ x y. x ++ y) p (q ∙ ap g v'), w' ∙ v'))
      (and_then-Runs (Same f) (Same g) a b s ha (λ same. hb))

abbrev pub Pre :
    (Pointer → List Api)
    → (Pointer → List Api → Pointer → Type 0)
    → Pointer
    → List Api
    → Pointer
    → Type 0
Pre f R u made v = (rest : List Api) × R u rest v × (made ≡ f u ++ rest)

-- A part that keeps the statement, and what follows.
pub and_then-Pre :
    (f : Pointer → List Api) (R : Pointer → List Api → Pointer → Type 0) (a b : L Bool) (s : Lite)
    → Runs s (a s) (Same f) ⊎ Abandons s (a s)
    → ((a s).1.db ≡ s.db → Runs (a s).1 (b (a s).1) R ⊎ Abandons (a s).1 (b (a s).1))
    → Runs s ((a and_then b) s) (Pre f R) ⊎ Abandons s ((a and_then b) s)
and_then-Pre f R a b s ha hb =
    weaken (Seq (Same f) R) (Pre f R) s ((a and_then b) s)
      (λ made (v, (first, (second, (p, v'), r, joined))).
        (second, subst (λ u. R u second _) v' r, joined ∙ ap (λ x. x ++ second) p))
      (and_then-Runs (Same f) R a b s ha hb)

pub finalize-Runs : (s : Lite) → Runs s (finalize s) (Same (λ p. api_finalize p ∷ []))
finalize-Runs s = (refl, ((api_finalize s.stmt ∷ []), (refl, refl), refl), refl)

abbrev pub Prepares : Pointer → Text → Pointer → List Api → Pointer → Type 0
Prepares db sql u calls v = calls ≡ api_prepare db sql ∷ []

abbrev pub Texts : Pointer → Text → Pointer → List Api → Pointer → Type 0
Texts db sql u calls v = calls ≡ api_prepare db sql ∷ api_step v ∷ []

abbrev pub all_rows : List Row → ℕ → Pointer → List Api
all_rows rows number p = flat_map (row_calls p number) rows

module _ (lib : Library) where
  step-Runs :
      (s : Lite)
      → Runs s (sqlite_step lib s) (Same (λ p. api_step p ∷ [])) ⊎ Abandons s (sqlite_step lib s)
  unfolding sqlite_step
  step-Runs s = by_code (lib.code s.calls (api_step s.stmt)) refl
    where
      by_code :
          (c : Code)
          → lib.code s.calls (api_step s.stmt) ≡ c
          → Runs s (sqlite_step lib s) (Same (λ p. api_step p ∷ []))
            ⊎ Abandons s (sqlite_step lib s)
      by_code sqlite_done e = rw e (inl (refl, ((api_step s.stmt ∷ []), (refl, refl), refl), refl))
      by_code sqlite_ok e = rw e (inr (give_up-Abandons (add_call (api_step s.stmt) s)))
      by_code sqlite_row e = rw e (inr (give_up-Abandons (add_call (api_step s.stmt) s)))
      by_code other_code e = rw e (inr (give_up-Abandons (add_call (api_step s.stmt) s)))

  pub prepare-Runs :
      (sql : Text) (s : Lite)
      → Runs s (sqlite3_prepare lib sql s) (Prepares s.db sql)
        ⊎ Abandons s (sqlite3_prepare lib sql s)
  unfolding sqlite3_prepare store_prepared
  prepare-Runs sql s = by_code (lib.code s.calls (api_prepare s.db sql)) refl
    where
      by_code :
          (c : Code)
          → lib.code s.calls (api_prepare s.db sql) ≡ c
          → Runs s (sqlite3_prepare lib sql s) (Prepares s.db sql)
            ⊎ Abandons s (sqlite3_prepare lib sql s)
      by_code sqlite_ok e = rw e (inl (refl, ((api_prepare s.db sql ∷ []), refl, refl), refl))
      by_code sqlite_done e = rw e (inr (give_up-Abandons (store_prepared lib sql s).1))
      by_code sqlite_row e = rw e (inr (give_up-Abandons (store_prepared lib sql s).1))
      by_code other_code e = rw e (inr (give_up-Abandons (store_prepared lib sql s).1))

  pub run_text-Runs :
      (db : Pointer) (sql : Text) (s : Lite)
      → s.db ≡ db
      → Runs s (run_text lib sql s) (Texts db sql) ⊎ Abandons s (run_text lib sql s)
  unfolding run_text
  run_text-Runs db sql s e =
      let steps = Same (λ p. api_step p ∷ []) in
      let both =
        and_then-Runs (Prepares s.db sql) steps (sqlite3_prepare lib sql) (sqlite_step lib) s
          (prepare-Runs sql s) (λ same. step-Runs (sqlite3_prepare lib sql s).1) in
      weaken (Seq (Prepares s.db sql) steps) (Texts db sql) s (run_text lib sql s)
        (λ made (v, (first, (second, p, (q, v'), joined))).
          joined
          ∙ ap₂ (λ x y. x ++ y) p q
          ∙ ap₂ (λ d w. api_prepare d sql ∷ api_step w ∷ []) e (sym v'))
        both

  bind-Runs :
      (i left : ℕ) (row : Row) (s : Lite)
      → left ≤ length row
      → Runs s (bind_from lib i left row s) (Same (λ p. binds p i left row))
  unfolding bind_from binds
  bind-Runs i zero row s h = (refl, ([], (refl, refl), sym (append-nil s.calls)), refl)
  bind-Runs i (suc left) [] s h = absurd (omega arith)
  bind-Runs i (suc left) (value ∷ row) s h =
      let s' = add_call (api_bind s.stmt i value) s in
      let (done, (made, (p, v), calls), same) = bind-Runs (i + 1) left row s' (omega arith) in
      (
        done,
        (
          api_bind s.stmt i value ∷ made,
          (ap (λ l. api_bind s.stmt i value ∷ l) p, v),
          calls ∙ append_assoc s.calls (api_bind s.stmt i value ∷ []) made,
        ),
        same,
      )

  reset_and : List Row → ℕ → L Bool
  reset_and rows number = call (λ s. api_reset s.stmt) >> change_loop lib rows number

  pub loop-Runs :
      (rows : List Row) (number : ℕ) (s : Lite)
      → All (λ row. number ≤ length row) rows
      → Runs s (change_loop lib rows number s) (Same (all_rows rows number))
        ⊎ Abandons s (change_loop lib rows number s)
  unfolding change_loop sqlite3_bind row_calls reset_and flat_map
  loop-Runs [] number s h = inl (refl, ([], (refl, refl), sym (append-nil s.calls)), refl)
  loop-Runs (row ∷ rows) number s h =
      let s1 = (bind_from lib 1 number row s).1 in
      let s2 = (sqlite_step lib s1).1 in
      let rest = λ (p : Pointer). (api_reset p ∷ []) ++ all_rows rows number p in
      let after_reset : Runs s2 (reset_and rows number s2) (Same rest)
          ⊎ Abandons s2 (reset_and rows number s2) =
        elim (loop-Runs rows number (add_call (api_reset s2.stmt) s2) h.1) [
          | inl (done, (made, (p, v), calls), same) ↦ inl (
            done,
            (
              api_reset s2.stmt ∷ made,
              (ap (λ l. api_reset s2.stmt ∷ l) p, v),
              calls ∙ append_assoc s2.calls (api_reset s2.stmt ∷ []) made,
            ),
            same,
          )
          | inr abandoned ↦ inr abandoned
        ] in
      let both =
        and_then-Same (λ p. binds p 1 number row) (λ p. (api_step p ∷ []) ++ rest p)
          (bind_from lib 1 number row) (sqlite_step lib and_then reset_and rows number) s
          (inl (bind-Runs 1 number row s h.0))
          (and_then-Same (λ p. api_step p ∷ []) rest (sqlite_step lib) (reset_and rows number) s1
            (step-Runs s1) after_reset) in
      weaken (Same (λ p. binds p 1 number row ++ ((api_step p ∷ []) ++ rest p)))
        (Same (all_rows (row ∷ rows) number)) s (change_loop lib (row ∷ rows) number s)
        (λ made (p, v). (
          p
              ∙ sym (
                  append_assoc (binds s.stmt 1 number row) (api_step s.stmt ∷ api_reset s.stmt ∷ [])
                    (all_rows rows number s.stmt)),
          v,
        ))
        both
