-- ===== src/Sync/Statements/Batches.antt =====
-- What `UpdateMysqlDB` of WPD_MTP_dataDlg.cpp sends to the server.
use shujugongxiang.Prelude.{
  ℕ, ◌≤◌, ◌≡◌, refl, ap, sym, ◌∙◌, inl, inr, Bool, true, false, none, some, List, [], ◌∷◌, ◌++◌,
  append-nil, append_assoc, map, ◌==◌, length, drop, All, All-append, All-drop, Bool-cases,
  if◌then◌else◌, arith,
}
use mathlib.Core.Bool.{false≢true}
use mathlib.Core.List.{flatten, map-append}
use shujugongxiang.Text.Defs.{Text, is_empty}
use shujugongxiang.Sync.World.{
  Call, mysql_query, mysql_one_query, write_log, Env, Session, make_call, ◌>>=◌,
}
use shujugongxiang.Sync.Statements.{update_max, update_loop, send_rest, update_mysql_db}
use shujugongxiang.Sync.Statements.Loop.{
  server_texts, server_texts-append, flatten-append, Sends, Ends, update_loop-Ends,
}

module _ (env : Env) where
  abbrev rest_call : List Text → Call
  rest_call batch =
      if length batch == 1 then mysql_one_query (flatten batch) else mysql_query (flatten batch)

  -- A batch with text is sent whole, by one call.
  send_rest-some :
      (c : ℕ) (t : Text) (batch : List Text) (s : Session)
      → let b = (c ∷ t) ∷ batch in
        let s' = make_call (rest_call b) s in
        send_rest env (length b) (flatten b) s ≡ (
          env.yes s.calls (rest_call b),
          (if env.yes s.calls (rest_call b) then s' else make_call (write_log (flatten b)) s'),
        )
  unfolding send_rest flatten
  send_rest-some c t batch s = ground arith

  send_rest-nil : (s : Session) → send_rest env 0 [] s ≡ (true, s)
  unfolding send_rest
  send_rest-nil s = refl

  rest_texts :
      (batch : List Text) (s : Session) (accepted : Bool)
      → server_texts
          (if accepted
            then make_call (rest_call batch) s
            else make_call (write_log (flatten batch)) (make_call (rest_call batch) s)).calls
        ≡ server_texts s.calls ++ (flatten batch ∷ [])
  unfolding server_texts
  rest_texts batch s accepted = elim (Bool-cases (length batch == 1)) [
    | inl one ↦ rw one (both (mysql_one_query (flatten batch)) refl accepted)
    | inr many ↦ rw many (both (mysql_query (flatten batch)) refl accepted)
  ]
    where
      both :
          (c : Call)
          → server_texts (c ∷ []) ≡ flatten batch ∷ []
          → (a : Bool)
          → server_texts
              (if a
                then make_call c s
                else make_call (write_log (flatten batch)) (make_call c s)).calls
            ≡ server_texts s.calls ++ (flatten batch ∷ [])
      both c e true = server_texts-append s.calls (c ∷ []) ∙ ap (λ l. server_texts s.calls ++ l) e
      both c e false =
          server_texts-append (s.calls ++ (c ∷ [])) (write_log (flatten batch) ∷ [])
          ∙ append-nil _
          ∙ server_texts-append s.calls (c ∷ [])
          ∙ ap (λ l. server_texts s.calls ++ l) e

  rest_updates :
      (batch : List Text) (s : Session) (accepted : Bool)
      → (if accepted
          then make_call (rest_call batch) s
          else make_call (write_log (flatten batch)) (make_call (rest_call batch) s)).updates
        ≡ s.updates
  rest_updates batch s true = refl
  rest_updates batch s false = refl

  abbrev HasText : Text → Type 0
  HasText t = is_empty t ≡ false

  -- After the loop: the statements before `left` went out, and the rest goes out now.
  Sends-rest :
      (list : List Text) (s s1 : Session) (sent : List (List Text)) (left : List Text)
      → flatten sent ++ left ≡ list
      → All (λ batch. length batch ≤ update_max) sent
      → server_texts s1.calls ≡ server_texts s.calls ++ map flatten sent
      → s1.updates ≡ s.updates
      → All HasText left
      → length left ≤ update_max
      → (all : Sends list s (send_rest env (length left) (flatten left) s1).1) × (all.left ≡ [])
  unfolding flatten
  Sends-rest list s s1 sent [] order bound texts kept texted h = rw (send_rest-nil s1) (
    record {
      sent = sent;
      left = [];
      in_order = order;
      bounded = bound;
      texts = texts;
      kept = kept;
    },
    refl,
  )
  Sends-rest list s s1 sent ([] ∷ batch) order bound texts kept texted h = absurd (ground arith)
  Sends-rest list s s1 sent ((c ∷ t) ∷ batch) order bound texts kept texted h =
      let b = (c ∷ t) ∷ batch in
      let accepted = env.yes s1.calls (rest_call b) in
      rw (send_rest-some c t batch s1) (
        record {
          sent = sent ++ (b ∷ []);
          left = [];
          in_order =
              append-nil _
              ∙ flatten-append sent (b ∷ [])
              ∙ ap (λ l. flatten sent ++ l) (append-nil b)
              ∙ order;
          bounded = All-append (λ batch. length batch ≤ update_max) sent (b ∷ []) bound (h, tt);
          texts =
              rest_texts b s1 accepted
              ∙ ap (λ l. l ++ (flatten b ∷ [])) texts
              ∙ append_assoc (server_texts s.calls) (map flatten sent) (flatten b ∷ [])
              ∙ ap (λ l. server_texts s.calls ++ l) (sym (map-append flatten sent (b ∷ [])));
          kept = rest_updates b s1 accepted ∙ kept;
        },
        refl,
      )

  All-left :
      (sent : List (List Text)) (left list : List Text)
      → flatten sent ++ left ≡ list
      → All HasText list
      → All HasText left
  unfolding flatten
  All-left sent left list e h =
      rw (← drop_front (flatten sent) left, e) (All-drop HasText (length (flatten sent)) list h)
    where
      drop_front : (xs ys : List Text) → drop (length xs) (xs ++ ys) ≡ ys
      drop_front [] ys = refl
      drop_front (x ∷ xs) ys = drop_front xs ys

  pub update_mysql_db-none :
      (list : List Text) (s s1 : Session)
      → update_loop env list 0 [] s ≡ (none, s1)
      → update_mysql_db env list s ≡ (false, s1)
  unfolding update_mysql_db
  update_mysql_db-none list s s1 e = rw (e, ◌>>=◌) refl

  pub update_mysql_db-some :
      (list : List Text) (s s1 : Session) (n : ℕ) (temp : Text)
      → update_loop env list 0 [] s ≡ (some (n, temp), s1)
      → update_mysql_db env list s ≡ send_rest env n temp s1
  unfolding update_mysql_db
  update_mysql_db-some list s s1 n temp e = rw (e, ◌>>=◌) refl

  -- The statements go to the server in their order, at most UPDATEMAX in one batch, nothing twice
  -- and nothing left out in between; `m_updateMysqlData` is not touched. If the call returns TRUE,
  -- all of them went out.
  pub update_mysql_db-Sends :
      (list : List Text) (s : Session)
      → All HasText list
      → (sends : Sends list s (update_mysql_db env list s).1) × ((update_mysql_db env list s).0
            ≡ true
          → sends.left ≡ [])
  unfolding flatten
  update_mysql_db-Sends list s texted =
      let result = update_loop env list 0 [] s in
      let e : Ends list s result = update_loop-Ends env list [] s (omega arith) in
      elim e.ends [
        | inl refused ↦
            rw (update_mysql_db-none list s result.1 (λ i. (refused i, result.1)))
              (e.sends, λ (t : false ≡ true). absurd (false≢true t))
        | inr ended ↦
            let all =
              Sends-rest list s result.1 e.sends.sent e.sends.left e.sends.in_order e.sends.bounded
                e.sends.texts e.sends.kept
                (All-left e.sends.sent e.sends.left list e.sends.in_order texted) ended.1 in
            rw (update_mysql_db-some list s result.1 _ _ (λ i. (ended.0 i, result.1)))
              (all.0, λ _. all.1)
      ]
