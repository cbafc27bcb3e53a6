-- ===== src/Mysql/Results.antt =====
-- What `CMyDataBase::Query` of MyDataBase.cpp reports.
use shujugongxiang.Prelude.{
  ℕ, zero, suc, ◌<◌, ◌≡◌, refl, false, some, List, [], ◌∷◌, ◌++◌, inl, inr, Bool-cases, arith,
}
use shujugongxiang.Text.Defs.{Text}
use shujugongxiang.Mysql.{
  ClientCall, send_query, multi_statements_on, multi_statements_off, store_result, free_result,
  next_result, Client, DataBase, add_call, result_loop, finish_query, query,
}

-- The calls before a round of the loop, and those when the round after `n` more asks for a result.
unfoldable pub calls_at : ℕ → List ClientCall → List ClientCall
calls_at zero calls = (calls ++ (store_result ∷ [])) ++ (free_result ∷ [])
calls_at (suc n) calls =
    calls_at n (((calls ++ (store_result ∷ [])) ++ (free_result ∷ [])) ++ (next_result ∷ []))

-- The calls made when the text has been sent.
abbrev pub calls_sent : Text → DataBase → List ClientCall
calls_sent sql s =
    (add_call multi_statements_off
      (add_call (send_query sql) (add_call multi_statements_on s))).calls

module _ (client : Client) where
  result_loop-ends :
      (n fuel : ℕ) (s : DataBase)
      → client.more (calls_at n s.calls) ≡ false
      → n < fuel
      → (result_loop client fuel s).0 ≡ some tt
  unfolding result_loop calls_at
  result_loop-ends n zero s h enough = absurd (omega (arith, enough))
  result_loop-ends zero (suc fuel) s h enough = rw h refl
  result_loop-ends (suc n) (suc fuel) s h enough =
      let s1 = add_call free_result (add_call store_result s) in
      elim (Bool-cases (client.more s1.calls)) [
        | inl again ↦
            rw again (result_loop-ends n fuel (add_call next_result s1) h (omega (arith, enough)))
        | inr last ↦ rw last refl
      ]

  -- If after at most `n` further results of this text the client says that there is none left,
  -- `Query` returns, with fuel above `n`, and its result is the reply to the first statement of the
  -- text: whether the later ones failed plays no part.
  pub query_lem :
      (n fuel : ℕ) (sql : Text) (s : DataBase)
      → client.more (calls_at n (calls_sent sql s)) ≡ false
      → n < fuel
      → (query client fuel sql s).0
        ≡ some (client.succeeds (add_call multi_statements_on s).calls (send_query sql))
  unfolding query finish_query
  query_lem n fuel sql s h enough =
      let s1 = add_call multi_statements_on s in
      let s2 = add_call multi_statements_off (add_call (send_query sql) s1) in
      let ended = result_loop-ends n fuel s2 h enough in
      elim (Bool-cases (client.succeeds s1.calls (send_query sql))) [
        | inl sent ↦ rw (ended, sent) refl
        | inr failed ↦ rw (ended, failed) refl
      ]
