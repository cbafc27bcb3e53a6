-- ===== src/Sync/Statements/Loop.antt =====
-- The batches that the loop of `UpdateMysqlDB` of WPD_MTP_dataDlg.cpp sends.
use shujugongxiang.Prelude.{
  ℕ, ◌+◌, ◌≤◌, ◌≡◌, refl, ap, sym, ◌∙◌, ◌⊎◌, inl, inr, true, false, Option, none, some, List, [],
  ◌∷◌, ◌++◌, append-nil, append_assoc, map, ltb, length, length-append, All, Bool-cases,
  if◌then◌else◌, arith,
}
use mathlib.Core.List.{flatten}
use shujugongxiang.Text.Defs.{Text}
use shujugongxiang.Sync.World.{Call, mysql_query, mysql_one_query, Env, Session, make_call}
use shujugongxiang.Sync.Statements.{update_max, update_loop}

-- The SQL texts that were sent to the server, in order.
unfoldable pub server_texts : List Call → List Text
server_texts [] = []
server_texts (mysql_query t ∷ calls) = t ∷ server_texts calls
server_texts (mysql_one_query t ∷ calls) = t ∷ server_texts calls
server_texts (_ ∷ calls) = server_texts calls

pub server_texts-append :
    (xs ys : List Call) → server_texts (xs ++ ys) ≡ server_texts xs ++ server_texts ys
unfolding server_texts
server_texts-append [] ys = refl
server_texts-append (mysql_query t ∷ xs) ys = ap (λ l. t ∷ l) (server_texts-append xs ys)
server_texts-append (mysql_one_query t ∷ xs) ys = ap (λ l. t ∷ l) (server_texts-append xs ys)
server_texts-append (_ ∷ xs) ys = server_texts-append xs ys

pub flatten-append {ℓ} :
    {A : Type ℓ} (xs ys : List (List A)) → flatten (xs ++ ys) ≡ flatten xs ++ flatten ys
unfolding flatten
flatten-append [] ys = refl
flatten-append (x ∷ xs) ys =
    ap (λ t. x ++ t) (flatten-append xs ys) ∙ sym (append_assoc x (flatten xs) (flatten ys))

-- The statements of `list` went out in order, at most UPDATEMAX to a batch, up to those in `left`,
-- and `m_updateMysqlData` is as before.
pub record Sends (list : List Text) (s s' : Session) : Type 0 where
  pub sent : List (List Text)
  pub left : List Text
  pub in_order : flatten sent ++ left ≡ list
  pub bounded : All (λ batch. length batch ≤ update_max) sent
  pub texts : server_texts s'.calls ≡ server_texts s.calls ++ map flatten sent
  pub kept : s'.updates ≡ s.updates

-- The loop ends with an unsent batch, or after a refused one.
pub record Ends (list : List Text) (s : Session) (result : Option (ℕ × Text) × Session)
    : Type 0 where
  pub sends : Sends list s result.1
  pub ends :
      (result.0 ≡ none)
      ⊎ ((result.0 ≡ some (length sends.left, flatten sends.left))
          × (length sends.left ≤ update_max))

-- One more text goes out first.
texts-make_call :
    (s : Session) (t : Text) (ts us : List Text)
    → us ≡ server_texts (make_call (mysql_query t) s).calls ++ ts
    → us ≡ server_texts s.calls ++ (t ∷ ts)
unfolding server_texts
texts-make_call s t ts us e =
    e
    ∙ ap (λ l. l ++ ts) (server_texts-append s.calls (mysql_query t ∷ []))
    ∙ append_assoc (server_texts s.calls) (t ∷ []) ts

Ends-flush :
    (batch list : List Text) (s : Session) (result : Option (ℕ × Text) × Session)
    → length batch ≤ update_max
    → Ends list (make_call (mysql_query (flatten batch)) s) result
    → Ends (batch ++ list) s result
unfolding flatten
Ends-flush batch list s result h e = record {
  sends = record {
    sent = batch ∷ e.sends.sent;
    left = e.sends.left;
    in_order =
        append_assoc batch (flatten e.sends.sent) e.sends.left
        ∙ ap (λ l. batch ++ l) e.sends.in_order;
    bounded = (h, e.sends.bounded);
    texts = texts-make_call s (flatten batch) (map flatten e.sends.sent) _ e.sends.texts;
    kept = e.sends.kept;
  };
  ends = e.ends;
}

-- A refused batch ends the loop.
Ends-refused : (list : List Text) (s : Session) → Ends list s (none, s)
unfolding flatten
Ends-refused list s = record {
  sends = record {
    sent = [];
    left = list;
    in_order = refl;
    bounded = tt;
    texts = sym (append-nil _);
    kept = refl;
  };
  ends = inl refl;
}

module _ (env : Env) where
  loop-flush :
      (statement : Text) (list : List Text) (n : ℕ) (temp : Text) (s : Session)
      → ltb update_max (n + 1) ≡ true
      → update_loop env (statement ∷ list) n temp s ≡ (
          if env.yes s.calls (mysql_query temp)
          then update_loop env list 1 statement (make_call (mysql_query temp) s)
          else (none, make_call (mysql_query temp) s))
  unfolding update_loop
  loop-flush statement list n temp s e = ground arith

  loop-take :
      (statement : Text) (list : List Text) (n : ℕ) (temp : Text) (s : Session)
      → ltb update_max (n + 1) ≡ false
      → update_loop env (statement ∷ list) n temp s
        ≡ update_loop env list (n + 1) (temp ++ statement) s
  unfolding update_loop
  loop-take statement list n temp s e = ground arith

  loop-nil : (n : ℕ) (temp : Text) (s : Session) → update_loop env [] n temp s ≡ (some (n, temp), s)
  unfolding update_loop
  loop-nil n temp s = refl

  pub update_loop-Ends :
      (list batch : List Text) (s : Session)
      → length batch ≤ update_max
      → Ends (batch ++ list) s (update_loop env list (length batch) (flatten batch) s)
  unfolding flatten
  update_loop-Ends [] batch s h = rw (loop-nil (length batch) (flatten batch) s) (record {
    sends = record {
      sent = [];
      left = batch;
      in_order = sym (append-nil batch);
      bounded = tt;
      texts = sym (append-nil _);
      kept = refl;
    };
    ends = inr (refl, h);
  })
  update_loop-Ends (statement ∷ list) batch s h =
      elim (Bool-cases (ltb update_max (length batch + 1))) [
        | inl full ↦ elim (Bool-cases (env.yes s.calls (mysql_query (flatten batch)))) [
          | inl sent ↦
              let next =
                update_loop-Ends list (statement ∷ []) (make_call (mysql_query (flatten batch)) s)
                  (omega arith) in
              rw (loop-flush statement list (length batch) (flatten batch) s full, sent)
                (Ends-flush batch (statement ∷ list) s _ h (rw append-nil at next))
          | inr refused ↦
              rw (loop-flush statement list (length batch) (flatten batch) s full, refused)
                (Ends-flush batch (statement ∷ list) s _ h (Ends-refused (statement ∷ list) _))
        ]
        | inr room ↦
            let next =
              update_loop-Ends list (batch ++ (statement ∷ [])) s
                (ground (arith, length-append batch (statement ∷ []))) in
            let size : length (batch ++ (statement ∷ [])) ≡ length batch + 1 =
              omega (arith, length-append batch (statement ∷ [])) in
            let joined : flatten (batch ++ (statement ∷ [])) ≡ flatten batch ++ statement =
              flatten-append batch (statement ∷ [])
              ∙ ap (λ l. flatten batch ++ l) (append-nil statement) in
            rw
              (
                loop-take statement list (length batch) (flatten batch) s room,
                ← size,
                ← joined,
                ← append_assoc batch (statement ∷ []) list,
              )
              next
      ]
