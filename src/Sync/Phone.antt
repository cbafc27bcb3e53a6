-- ===== src/Sync/Phone.antt =====
-- The calls of WPD_MTP_dataDlg.cpp that reach the phone's database file, apart from the queries.
use shujugongxiang.Prelude.{◌≡◌, refl, ap, ◌∙◌, List, [], ◌∷◌, ◌++◌, append-nil}
use shujugongxiang.Sync.World.{
  Call, open_db, close_db, exec_sql, insert_rows, delete_rows, Session, make_call,
}

-- Opening, closing and changing it, in order.
unfoldable pub phone_calls : List Call → List Call
phone_calls [] = []
phone_calls (open_db t ∷ calls) = open_db t ∷ phone_calls calls
phone_calls (close_db ∷ calls) = close_db ∷ phone_calls calls
phone_calls (exec_sql t ∷ calls) = exec_sql t ∷ phone_calls calls
phone_calls (insert_rows t rows n ∷ calls) = insert_rows t rows n ∷ phone_calls calls
phone_calls (delete_rows t rows n ∷ calls) = delete_rows t rows n ∷ phone_calls calls
phone_calls (_ ∷ calls) = phone_calls calls

pub phone_calls-append :
    (xs ys : List Call) → phone_calls (xs ++ ys) ≡ phone_calls xs ++ phone_calls ys
unfolding phone_calls
phone_calls-append [] ys = refl
phone_calls-append (open_db t ∷ xs) ys = ap (λ l. open_db t ∷ l) (phone_calls-append xs ys)
phone_calls-append (close_db ∷ xs) ys = ap (λ l. close_db ∷ l) (phone_calls-append xs ys)
phone_calls-append (exec_sql t ∷ xs) ys = ap (λ l. exec_sql t ∷ l) (phone_calls-append xs ys)
phone_calls-append (insert_rows t rows n ∷ xs) ys =
    ap (λ l. insert_rows t rows n ∷ l) (phone_calls-append xs ys)
phone_calls-append (delete_rows t rows n ∷ xs) ys =
    ap (λ l. delete_rows t rows n ∷ l) (phone_calls-append xs ys)
phone_calls-append (_ ∷ xs) ys = phone_calls-append xs ys

-- The file is as it was.
abbrev pub Untouched : Session → Session → Type 0
Untouched s s' = phone_calls s'.calls ≡ phone_calls s.calls

-- One more call, and what it is to the file.
pub phone_calls-make_call :
    (c : Call) (s : Session)
    → phone_calls (make_call c s).calls ≡ phone_calls s.calls ++ phone_calls (c ∷ [])
phone_calls-make_call c s = phone_calls-append s.calls (c ∷ [])

pub make_call-Untouched :
    (c : Call) (s : Session) → phone_calls (c ∷ []) ≡ [] → Untouched s (make_call c s)
make_call-Untouched c s e =
    phone_calls-make_call c s
    ∙ ap (λ l. phone_calls s.calls ++ l) e
    ∙ append-nil (phone_calls s.calls)
