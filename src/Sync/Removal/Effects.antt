-- ===== src/Sync/Removal/Effects.antt =====
-- What `DeleteAreaAndDevice` of WPD_MTP_dataDlg.cpp deletes on the phone and on the server.
use shujugongxiang.Prelude.{
  ◌≡◌, refl, ap, sym, ◌∙◌, inl, inr, ◌↔◌, Bool, false, ◌&&◌, List, [], ◌∷◌, ◌++◌, map, append-nil,
  append_assoc, Bool-cases, if◌then◌else◌,
}
use mathlib.Core.Bool.{false≢true}
use mathlib.Core.List.{flat_map}
use shujugongxiang.Text.Defs.{Text, is_empty}
use shujugongxiang.Cascade.{Kind, Tree, real_flag, want_flag, delete_area_and_device_find_id}
use shujugongxiang.Cascade.Members.{IsKey, DoomedId, keys_of, IsGroup}
use shujugongxiang.Cascade.Doomed.{nothing_found, delete_area_and_device_find_id_lem}
use shujugongxiang.Sync.World.{Call, exec_sql, delete_rows, mysql_query, Env, Session, make_call}
use shujugongxiang.Sync.Phone.{
  phone_calls, phone_calls-append, phone_calls-make_call, make_call-Untouched,
}
use shujugongxiang.Sync.Statements.{update_mysql_db}
use shujugongxiang.Sync.Statements.Loop.{server_texts, server_texts-append}
use shujugongxiang.Sync.Statements.Untouched.{update_mysql_db-Untouched}
use shujugongxiang.Sync.Removal.{
  map_to_array, id_rows, device_sql, area_sql, area_user_sql, orphan_sql, device_removal,
  area_removal, remove_devices, remove_areas,
}

map_to_array-IsKey :
    (x : Text) (keys : List Text)
    → IsKey x (map_to_array keys) ↔ IsKey x keys × (is_empty x ≡ false)
unfolding map_to_array IsKey
map_to_array-IsKey x [] = ((λ h. absurd h), (λ h. h.0))
map_to_array-IsKey x ([] ∷ keys) =
    let rest = map_to_array-IsKey x keys in
    (
      (λ h. (inr (rest.0 h).0, (rest.0 h).1)),
      (λ h. elim h.0 [
        | inl e ↦ absurd (false≢true (sym h.1 ∙ ap is_empty e))
        | inr later ↦ rest.1 (later, h.1)
      ]),
    )
map_to_array-IsKey x ((c ∷ key) ∷ keys) =
    let rest = map_to_array-IsKey x keys in
    (
      (λ h. elim h [
        | inl e ↦ (inl e, ap is_empty e)
        | inr later ↦ (inr (rest.0 later).0, (rest.0 later).1)
      ]),
      (λ h. elim h.0 [ inl e ↦ inl e | inr later ↦ inr (rest.1 (later, h.1)) ]),
    )

pub through : {A B C D : Type 0} → A ↔ B × D → B ↔ C → A ↔ C × D
through e f = ((λ a. (f.0 (e.0 a).0, (e.0 a).1)), (λ c. e.1 (f.1 c.0, c.1)))

-- The arrays that the deletion works through hold exactly the ids, not empty, of the areas or devices
-- that are marked for real deletion or stand below a node that is, and likewise for wanted deletion.
pub map_to_array_doomed :
    (t : Tree) (kind : Kind) (x : Text)
    → IsGroup kind
    → let found = delete_area_and_device_find_id t (nothing_found, nothing_found) in
      (IsKey x (map_to_array (keys_of kind found.0))
        ↔ DoomedId real_flag kind x t × (is_empty x ≡ false))
      × (IsKey x (map_to_array (keys_of kind found.1))
          ↔ DoomedId want_flag kind x t × (is_empty x ≡ false))
map_to_array_doomed t kind x g =
    let found = delete_area_and_device_find_id t (nothing_found, nothing_found) in
    let keys = delete_area_and_device_find_id_lem t kind x g in
    (
      through (map_to_array-IsKey x (keys_of kind found.0)) keys.0,
      through (map_to_array-IsKey x (keys_of kind found.1)) keys.1,
    )

module _ (env : Env) (real want : List Text) (s : Session) where
  abbrev pub devices_call : Call
  devices_call = delete_rows device_sql (id_rows (real ++ want)) 1

  abbrev pub devices_done : Session
  devices_done = make_call devices_call s

  abbrev pub orphans_done : Session
  orphans_done = make_call (exec_sql orphan_sql) devices_done

  -- Devices: the phone loses those of both kinds in one call, then what belonged to them. If both
  -- calls succeed, the server gets the removal of those for real deletion and then loses what
  -- belonged to them; otherwise nothing is sent.
  pub remove_devices_lem :
      let result = remove_devices env real want s in
      (phone_calls result.1.calls
        ≡ phone_calls s.calls ++ (devices_call ∷ exec_sql orphan_sql ∷ []))
      × (result.1 ≡ (
          if env.yes s.calls devices_call && env.yes devices_done.calls (exec_sql orphan_sql)
          then make_call
              (mysql_query orphan_sql)
              (update_mysql_db env (map device_removal real) orphans_done).1
          else orphans_done))
  unfolding remove_devices phone_calls
  remove_devices_lem =
      let local =
        phone_calls-make_call (exec_sql orphan_sql) devices_done
        ∙ ap (λ l. l ++ (exec_sql orphan_sql ∷ [])) (phone_calls-make_call devices_call s)
        ∙ append_assoc (phone_calls s.calls) (devices_call ∷ []) (exec_sql orphan_sql ∷ []) in
      elim (Bool-cases
        (env.yes s.calls devices_call && env.yes devices_done.calls (exec_sql orphan_sql))) [
          | inl done ↦
              let sent = update_mysql_db env (map device_removal real) orphans_done in
              rw done (
                make_call-Untouched (mysql_query orphan_sql) sent.1 refl
                    ∙ update_mysql_db-Untouched env (map device_removal real) orphans_done
                    ∙ local,
                refl,
              )
          | inr refused ↦ rw refused (local, refl)
        ]

  abbrev pub areas_call : Call
  areas_call = delete_rows area_sql (id_rows (real ++ want)) 1

  abbrev pub area_users_call : Call
  area_users_call = delete_rows area_user_sql (id_rows (real ++ want)) 1

  abbrev pub areas_done : Session
  areas_done = make_call areas_call s

  abbrev pub area_users_done : Session
  area_users_done = make_call area_users_call areas_done

  -- Areas: the phone loses those of both kinds and their users. If both calls succeed, the server
  -- gets the removal of those for real deletion, and the call returns whether that and all before
  -- succeeded; otherwise nothing is sent, and it returns FALSE.
  pub remove_areas_lem :
      (ret : Bool)
      → let result = remove_areas env real want ret s in
        let done = env.yes s.calls areas_call && env.yes areas_done.calls area_users_call in
        let sent = update_mysql_db env (flat_map area_removal real) area_users_done in
        (phone_calls result.1.calls ≡ phone_calls s.calls ++ (areas_call ∷ area_users_call ∷ []))
        × (result.0 ≡ (done && (ret && sent.0)))
        × (server_texts result.1.calls
            ≡ (if done then server_texts sent.1.calls else server_texts s.calls))
  unfolding remove_areas phone_calls server_texts
  remove_areas_lem ret =
      let local =
        phone_calls-make_call area_users_call areas_done
        ∙ ap (λ l. l ++ (area_users_call ∷ [])) (phone_calls-make_call areas_call s)
        ∙ append_assoc (phone_calls s.calls) (areas_call ∷ []) (area_users_call ∷ []) in
      elim (Bool-cases (env.yes s.calls areas_call && env.yes areas_done.calls area_users_call)) [
        | inl done ↦ rw done (
          update_mysql_db-Untouched env (flat_map area_removal real) area_users_done ∙ local,
          refl,
          refl,
        )
        | inr refused ↦ rw refused (
          simp (phone_calls-append, append-nil)
              (append_assoc (phone_calls s.calls) (areas_call ∷ []) (area_users_call ∷ [])),
          refl,
          simp (server_texts-append, append-nil),
        )
      ]
