-- ===== src/Sqlite/Api.antt =====
-- What `WPD_MTP_data/sqlite3/CSQLite.cpp` calls of the SQLite library and of Windows, and the object
-- that calls it. The library is a parameter: each call is recorded, and answered by what was called
-- before.
use shujugongxiang.Prelude.{
  ℕ, ◌≡◌, refl, Bool, true, false, Option, List, [], ◌∷◌, ◌++◌, if◌then◌else◌,
}
use shujugongxiang.Text.Defs.{Text}

-- SQLITE_OK, SQLITE_ROW, SQLITE_DONE, and every other code.
pub data Code : Type 0 where
  sqlite_ok sqlite_row sqlite_done other_code : Code

-- A pointer to a connection or a statement; `none` is NULL.
abbrev pub Pointer : Type 0
Pointer = Option ℕ

pub data Api : Type 0 where
  -- WaitForSingleObject and SetEvent of `m_eventOpenDB`.
  wait_event set_event : Api
  -- sqlite3_open, sqlite3_close, sqlite3_exec, sqlite3_prepare_v2
  api_open : Text → Api
  api_close : Pointer → Api
  api_exec api_prepare : Pointer → Text → Api
  -- sqlite3_step, sqlite3_finalize, sqlite3_reset, sqlite3_bind_text16
  api_step api_finalize api_reset : Pointer → Api
  api_bind : Pointer → ℕ → Text → Api

-- A column's type with its value: an integer as sqlite3_column_int gives it, with its sign.
pub data Value : Type 0 where
  sqlite_integer : Bool → ℕ → Value
  sqlite_text : Text → Value
  sqlite_float sqlite_null sqlite_blob : Value

pub record Library : Type 0 where
  pub code : List Api → Api → Code
  -- What sqlite3_open and sqlite3_prepare_v2 store through their pointers.
  pub opened : List Api → Pointer
  pub prepared : List Api → Pointer
  -- The columns of the row that a step reached, and sqlite3_errmsg.
  pub columns : List Api → List Value
  pub message : List Api → Text

-- A `CSQLite`, and all calls made so far: `pDB`, `stmt`, `m_strError`.
pub record Lite : Type 0 where
  pub calls : List Api
  pub db : Pointer
  pub stmt : Pointer
  pub error : Text

abbrev pub L : Type 0 → Type 0
L A = Lite → A × Lite

abbrev pub give : {A : Type 0} → A → L A
give a s = (a, s)

infixl 5 ◌>>=◌ ◌>>◌
abbrev pub ◌>>=◌ : {A B : Type 0} → L A → (A → L B) → L B
◌>>=◌ m f s = let (a, s') = m s in f a s'

abbrev pub ◌>>◌ : {A B : Type 0} → L A → L B → L B
◌>>◌ m k s = let (a, s') = m s in k s'

abbrev pub add_call : Api → Lite → Lite
add_call c s = record s { calls = s.calls ++ (c ∷ []) }

-- A call that takes an argument from the object, its code not used.
abbrev pub call : (Lite → Api) → L (Unit {0})
call c s = (tt, add_call (c s) s)

-- `if (!a || !b) return FALSE` and the like: `b` runs only after success.
infixr 6 ◌and_then◌
unfoldable pub ◌and_then◌ : L Bool → L Bool → L Bool
◌and_then◌ a b = do done ← a; if done then b else give false

pub and_then-true : (a b : L Bool) (s : Lite) → (a s).0 ≡ true → (a and_then b) s ≡ b (a s).1
unfolding ◌and_then◌
and_then-true a b s e = rw e refl

pub and_then-false :
    (a b : L Bool) (s : Lite) → (a s).0 ≡ false → (a and_then b) s ≡ (false, (a s).1)
unfolding ◌and_then◌
and_then-false a b s e = rw e refl

abbrev pub finalize : L Bool
finalize = call (λ s. api_finalize s.stmt) >> give true

module _ (lib : Library) where
  -- A call with its code.
  abbrev pub ask : (Lite → Api) → L Code
  ask c s = (lib.code s.calls (c s), add_call (c s) s)

  abbrev pub record_last_error : L (Unit {0})
  record_last_error s = (tt, record s { error = lib.message s.calls })
