-- ===== src/Sqlite/Query/Rows.antt =====
-- The loop of `QuickSelectData` of CSQLite.cpp: how many rows it sets, and when it ends.
use mathlib.Core.Bool.{false≢true}
use shujugongxiang.Prelude.{
  ℕ, zero, suc, ◌≤◌, ◌<◌, ◌≡◌, refl, ◌⊎◌, inl, inr, Bool, true, false, some, List, [], length,
  arith, Bool-cases,
}
use shujugongxiang.Text.Defs.{Text}
use shujugongxiang.Sync.World.{Row}
use shujugongxiang.Sqlite.Api.{
  Code, sqlite_ok, sqlite_row, sqlite_done, other_code, Pointer, Api, api_step, Library, Lite,
  add_call,
}
use shujugongxiang.Sqlite.Query.{select_loop, finish_select, start_select, quick_select_data}

-- Every step reaches a row or the end.
abbrev pub Answers : Library → Type 0
Answers lib =
    (calls : List Api) (p : Pointer)
    → (lib.code calls (api_step p) ≡ sqlite_row) ⊎ (lib.code calls (api_step p) ≡ sqlite_done)

module _ (lib : Library) where
  -- The loop sets at most as many rows as there is room for, after any number of rounds.
  select_loop-bounds : (fuel left : ℕ) (s : Lite) → length (select_loop lib fuel left s).0.1 ≤ left
  unfolding select_loop
  select_loop-bounds zero left s = omega arith
  select_loop-bounds (suc fuel) zero s = omega arith
  select_loop-bounds (suc fuel) (suc left) s =
      by_code (lib.code s.calls (api_step s.stmt)) refl (select_loop-bounds fuel left s')
        (select_loop-bounds fuel (suc left) s')
    where
      s' : Lite
      s' = add_call (api_step s.stmt) s

      by_code :
          (c : Code)
          → lib.code s.calls (api_step s.stmt) ≡ c
          → length (select_loop lib fuel left s').0.1 ≤ left
          → length (select_loop lib fuel (suc left) s').0.1 ≤ suc left
          → length (select_loop lib (suc fuel) (suc left) s).0.1 ≤ suc left
      by_code sqlite_row e shorter again = rw e (omega (arith, shorter))
      by_code sqlite_done e shorter again = rw e (omega arith)
      by_code sqlite_ok e shorter again = rw e again
      by_code other_code e shorter again = rw e again

  select_loop-ends :
      (fuel left : ℕ) (s : Lite)
      → Answers lib
      → left < fuel
      → (select_loop lib fuel left s).0.0 ≡ true
  unfolding select_loop
  select_loop-ends zero left s h small = absurd (omega arith)
  select_loop-ends (suc fuel) zero s h small = refl
  select_loop-ends (suc fuel) (suc left) s h small = elim (h s.calls s.stmt) [
    | inl e ↦ rw e (select_loop-ends fuel left (add_call (api_step s.stmt) s) h (omega arith))
    | inr e ↦ rw e refl
  ]

  -- While the steps of the query's statement answer with an error, the loop goes on: it has not ended
  -- after any number of rounds, as long as one row is still to be set.
  pub select_loop_endless :
      (fuel left : ℕ) (s : Lite)
      → ((calls : List Api) → lib.code calls (api_step s.stmt) ≡ other_code)
      → (select_loop lib fuel (suc left) s).0 ≡ (false, [])
  unfolding select_loop
  select_loop_endless zero left s h = refl
  select_loop_endless (suc fuel) left s h =
      rw (h s.calls) (select_loop_endless fuel left (add_call (api_step s.stmt) s) h)

  finish_select-rows :
      (ended : Bool) (rows : List Row) (s : Lite) → (finish_select lib ended rows s).0.1 ≡ rows
  unfolding finish_select
  finish_select-rows false rows s = refl
  finish_select-rows true rows s = refl

  -- The array has room for `count` rows, and no row is set behind its end, whatever the steps answer
  -- and after any number of rounds of the loop, whether it has ended or still runs.
  pub quick_select_data_bounds :
      (fuel : ℕ) (sql : Text) (count : ℕ) (s : Lite)
      → length (quick_select_data lib fuel sql count s).0.1 ≤ count
  unfolding quick_select_data
  quick_select_data_bounds fuel sql count s = elim (Bool-cases (start_select lib sql s).0) [
    | inl ready ↦
        let ((ended, rows), s') = select_loop lib fuel count (start_select lib sql s).1 in
        rw (ready, finish_select-rows ended rows s')
          (select_loop-bounds fuel count (start_select lib sql s).1)
    | inr refused ↦ rw refused (omega arith)
  ]

  finish_select-returns :
      (ended : Bool) (rows : List Row) (s : Lite)
      → ended ≡ true
      → (done : Bool) × ((finish_select lib ended rows s).0.0 ≡ some done)
  unfolding finish_select
  finish_select-returns false rows s e = absurd (false≢true e)
  finish_select-returns true rows s e = (_, refl)

  -- If every step reaches a row or the end, `QuickSelectData` returns within `count + 1` rounds of its
  -- loop, with at most `count` rows.
  pub quick_select_data_ends :
      (fuel : ℕ) (sql : Text) (count : ℕ) (s : Lite)
      → Answers lib
      → count < fuel
      → ((done : Bool) × ((quick_select_data lib fuel sql count s).0.0 ≡ some done))
        × (length (quick_select_data lib fuel sql count s).0.1 ≤ count)
  unfolding quick_select_data
  quick_select_data_ends fuel sql count s h enough = (
    elim (Bool-cases (start_select lib sql s).0) [
      | inl ready ↦
          let ((ended, rows), s') = select_loop lib fuel count (start_select lib sql s).1 in
          rw ready (
            finish_select-returns ended rows s'
              (select_loop-ends fuel count (start_select lib sql s).1 h enough))
      | inr refused ↦ rw refused (false, refl)
    ],
    quick_select_data_bounds fuel sql count s,
  )
