-- ===== src/Tests/Library.antt =====
-- CSQLite.cpp over a library that answers every call: SQLITE_DONE to a step, SQLITE_OK to the rest; and
-- over one whose steps of the second statement fail.
use shujugongxiang.Prelude.{
  ◌≤◌, ◌≡◌, refl, inr, Bool, true, false, ◌&&◌, not, none, some, List, [], ◌∷◌, ◌++◌, ◌==◌, length,
  if◌then◌else◌, arith,
}
use shujugongxiang.Text.Defs.{Text, codes, decimal, decimal_digits}
use shujugongxiang.Sync.World.{Row}
use shujugongxiang.Sqlite.Api.{
  Code, sqlite_ok, sqlite_row, sqlite_done, other_code, sqlite_integer, sqlite_float, ◌and_then◌,
  Api, set_event, api_close, api_prepare, api_step, Library, Lite,
}
use shujugongxiang.Sqlite.Wrapper.{
  finalize_if_set, give_up, store_prepared, sqlite3_prepare, sqlite_step, run_text, exec_sql,
  open_data_base, quick_delet_data, quick_insert_data, close_data_base,
}
use shujugongxiang.Sqlite.Wrapper.Event.{event, is_ok, open_code, opened_lite, open_data_base-event}
use shujugongxiang.Sqlite.Wrapper.Transaction.{Outcome, changes-Outcome, closed_twice}
use shujugongxiang.Sqlite.Query.{
  value_text, start_select, finish_select, select_loop, quick_select_data,
}
use shujugongxiang.Sqlite.Query.Rows.{
  quick_select_data_bounds, quick_select_data_ends, select_loop_endless,
}

abbrev answer : Api → Code
answer (api_step p) = sqlite_done
answer _ = sqlite_ok

abbrev library : Library
library = record {
  code = λ calls c. answer c;
  opened = λ calls. some 7;
  prepared = λ calls. some 1;
  columns = λ calls. [];
  message = λ calls. [];
}

abbrev refuse_prepare : Api → Code
refuse_prepare (api_prepare p sql) = other_code
refuse_prepare _ = sqlite_ok

-- No statement can be prepared.
abbrev refusing : Library
refusing = record library { code = λ calls c. refuse_prepare c; prepared = λ calls. none }

abbrev refuse_step : Api → Code
refuse_step (api_step p) = other_code
refuse_step _ = sqlite_ok

abbrev stuck : Library
stuck = record library { code = λ calls c. refuse_step c }

abbrev opened_object : Lite
opened_object = record { calls = []; db = some 7; stmt = some 1; error = [] }

abbrev two_rows : List Row
two_rows = (codes "5" ∷ []) ∷ (codes "6" ∷ codes "x" ∷ []) ∷ []

abbrev statement : Text
statement = codes "delete from areas where Id=?"

changes-Outcome_example :
    Outcome library statement two_rows 1 opened_object
      (quick_delet_data library statement two_rows 1 opened_object)
    × Outcome library statement two_rows 1 opened_object
        (quick_insert_data library statement two_rows 1 opened_object)
changes-Outcome_example =
    changes-Outcome library statement two_rows 1 opened_object (omega arith, (omega arith, tt))

prepare_refused : (quick_delet_data refusing statement two_rows 1 opened_object).0 ≡ false
unfolding quick_delet_data ◌and_then◌ run_text sqlite3_prepare store_prepared give_up
    finalize_if_set
prepare_refused = refl

closed_twice_example :
    (before : List Api) × ((close_data_base refusing
        (quick_delet_data refusing statement two_rows 1 opened_object).1).1.calls
      ≡ before ++ (api_close (some 7) ∷ set_event ∷ api_close (some 7) ∷ []))
closed_twice_example =
    closed_twice refusing statement two_rows 1 7 opened_object (omega arith, (omega arith, tt)) refl
      prepare_refused

abbrev closed_object : Lite
closed_object = record { calls = []; db = none; stmt = none; error = [] }

open_data_base-event_example :
    let r = open_data_base library (codes "phone.db") true closed_object in
    let pragma =
      exec_sql library
        (codes "PRAGMA synchronous = OFF;")
        (opened_lite library (codes "phone.db") closed_object) in
    (event true r.1.calls ≡ some (not (is_ok (open_code library (codes "phone.db") closed_object))))
    × (r.0 ≡ (
        is_ok (open_code library (codes "phone.db") closed_object)
        && (if true then pragma.0 else true)))
unfolding event
open_data_base-event_example =
    open_data_base-event library (codes "phone.db") true closed_object refl

-- The steps of the third statement always find a row, of a number and of one with a fraction.
abbrev answer_rows : Api → Code
answer_rows (api_step (some p)) = if p == 3 then sqlite_row else sqlite_done
answer_rows (api_step none) = other_code
answer_rows _ = sqlite_ok

abbrev fetching : Library
fetching = record library {
  code = λ calls c. answer_rows c;
  prepared = λ calls. some (length calls);
  columns = λ calls. sqlite_integer false 25 ∷ sqlite_float ∷ [];
}

abbrev fetched_rows : List Row
fetched_rows = (codes "25" ∷ [] ∷ []) ∷ (codes "25" ∷ [] ∷ []) ∷ []

two_rows_set :
    (quick_select_data fetching 3 statement 2 opened_object).0 ≡ (some true, fetched_rows)
unfolding quick_select_data start_select finish_select select_loop value_text decimal decimal_digits
    ◌and_then◌ run_text sqlite3_prepare store_prepared sqlite_step
two_rows_set = refl

-- Two of three rows are set when the third round is still to come.
quick_select_data_bounds_example :
    length (quick_select_data fetching 2 statement 3 opened_object).0.1 ≤ 3
quick_select_data_bounds_example = quick_select_data_bounds fetching 2 statement 3 opened_object

quick_select_data_ends_example :
    ((done : Bool) × ((quick_select_data library 3 statement 2 opened_object).0.0 ≡ some done))
    × (length (quick_select_data library 3 statement 2 opened_object).0.1 ≤ 2)
quick_select_data_ends_example =
    quick_select_data_ends library 3 statement 2 opened_object (λ calls p. inr refl) (omega arith)

select_loop_endless_example : (select_loop stuck 50 2 opened_object).0 ≡ (false, [])
select_loop_endless_example = select_loop_endless stuck 50 1 opened_object (λ calls. refl)
