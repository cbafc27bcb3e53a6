-- ===== src/Control/Start.antt =====
-- The result of `Init_areas_tree` of WPD_MTP_dataDlg.cpp.
use shujugongxiang.Prelude.{
  ℕ, ◌<◌, ◌≡◌, refl, ap, ap₂, ◌∙◌, inl, inr, Bool, true, false, ◌&&◌, some, Bool-cases,
}
use mathlib.Core.Bool.{false≢true}
use shujugongxiang.Text.Defs.{Text, codes}
use shujugongxiang.Sync.World.{mysql_init, mysql_select, Env, Session, make_call, show_log}
use shujugongxiang.Sync.Selection.{Items, nil}
use shujugongxiang.Cascade.{Tree}
use shujugongxiang.Cascade.Build.{Falls}
use shujugongxiang.Cascade.Init.Whole.{init_delete_tree_struct_lem}
use shujugongxiang.Control.{
  Caches, Control, value_of, clear_caches, load_areas, load_types, areas_sql, device_info_sql,
  area_maps, type_maps, select_areas, select_types, load_caches, build_items, delete_tree,
  init_areas_tree,
}
use shujugongxiang.Control.Whole.{build_items_lem}

select_areas_lem :
    (env : Env) (c : Caches) (s : Session)
    → ((select_areas env c s).0.0 ≡ env.yes s.calls (mysql_select areas_sql))
      × ((select_areas env c s).0.0 ≡ true
          → (select_areas env c s).0.1 ≡ load_areas (env.rows s.calls (mysql_select areas_sql)) c)
unfolding select_areas
select_areas_lem env c s = elim (Bool-cases (env.yes s.calls (mysql_select areas_sql))) [
  | inl got ↦ rw got (refl, λ h. refl)
  | inr none' ↦ rw none' (refl, λ h. absurd (false≢true h))
]

select_types_lem :
    (env : Env) (c : Caches) (s : Session)
    → ((select_types env c s).0.0 ≡ env.yes s.calls (mysql_select device_info_sql))
      × ((select_types env c s).0.0 ≡ true
          → (select_types env c s).0.1
            ≡ load_types (env.rows s.calls (mysql_select device_info_sql)) c)
unfolding select_types
select_types_lem env c s = elim (Bool-cases (env.yes s.calls (mysql_select device_info_sql))) [
  | inl got ↦ rw got (refl, λ h. refl)
  | inr none' ↦ rw none' (refl, λ h. absurd (false≢true h))
]

both : (a b : Bool) → (a && b) ≡ true → (a ≡ true) × (b ≡ true)
both true b h = (refl, h)
both false b h = absurd (false≢true h)

module _ (env : Env) (c : Caches) (s : Session) where
  abbrev pub connected : Session
  connected = make_call mysql_init s

  -- The session after the query for the areas, with what follows its failure.
  abbrev pub asked_areas : Session
  asked_areas = (select_areas env c connected).1

  -- The server can be reached, and gives both tables.
  abbrev pub answered : Bool
  answered =
      env.yes s.calls mysql_init
      && (env.yes connected.calls (mysql_select areas_sql)
          && env.yes asked_areas.calls (mysql_select device_info_sql))

  pub load_caches_lem :
      ((load_caches env c s).0.0 ≡ answered)
      × (answered ≡ true
          → (load_caches env c s).0.1
            ≡ load_types
                (env.rows asked_areas.calls (mysql_select device_info_sql))
                (load_areas (env.rows connected.calls (mysql_select areas_sql)) c))
  unfolding load_caches
  load_caches_lem =
      let areas = select_areas_lem env c connected in
      let types = select_types_lem env (select_areas env c connected).0.1 asked_areas in
      elim (Bool-cases (env.yes s.calls mysql_init)) [
        | inr gone ↦ rw gone (refl, λ h. absurd (false≢true h))
        | inl there ↦ rw there (
          ap₂ (λ a b. a && b) areas.0 types.0,
          (λ h.
              let (got_areas, got_types) =
                both (env.yes connected.calls (mysql_select areas_sql))
                  (env.yes asked_areas.calls (mysql_select device_info_sql)) h in
              types.1 (types.0 ∙ got_types)
              ∙ ap (load_types (env.rows asked_areas.calls (mysql_select device_info_sql)))
                  (areas.1 (areas.0 ∙ got_areas))),
        )
      ]

module _ (env : Env) (fuel : ℕ) (user_area : Text) (c : Control) (s : Session) where
  abbrev pub started : Session
  started = (show_log env (codes "正在初始化树控件,请稍后...") s).1

  -- The caches afterwards.
  abbrev pub caches' : Caches
  caches' = (load_caches env (clear_caches c.caches) started).0.1

  -- What is left of the control: made from the caches, or emptied, with the old deletion tree.
  abbrev pub Left : Bool → Control → Type 0
  Left true r =
      (build_items fuel user_area caches' ≡ some r.items)
      × (delete_tree fuel user_area caches' ≡ some r.tree)
  Left false r = (r.items ≡ nil) × (r.tree ≡ c.tree)

  init_by :
      (ok : Bool) (items : Items) (tree : Tree)
      → (load_caches env (clear_caches c.caches) started).0.0 ≡ ok
      → build_items fuel user_area caches' ≡ some items
      → delete_tree fuel user_area caches' ≡ some tree
      → (r : Control) × ((init_areas_tree env fuel user_area c s).0 ≡ some (ok, r))
        × (r.caches ≡ caches')
        × (r.button_flash ≡ true)
        × Left ok r
  unfolding init_areas_tree
  init_by true items tree h made built = (
    record { caches = caches'; items = items; tree = tree; button_flash = true },
    rw (h, made, built) refl,
    refl,
    refl,
    (made, built),
  )
  init_by false items tree h made built = (
    record { caches = caches'; items = nil; tree = c.tree; button_flash = true },
    rw h refl,
    refl,
    refl,
    (refl, refl),
  )

  -- If the maps that were filled have no cycle of parents, Init_areas_tree ends, with fuel above every
  -- depth; it returns TRUE exactly if the server could be reached and gave both tables, and then the
  -- control and the deletion tree are made from them. Otherwise the control is empty, and the deletion
  -- tree is the one from before. The button for refreshing is enabled again in both cases.
  pub init_areas_tree_lem :
      (depth_a depth_t depth_a' depth_t' : Text → ℕ)
      → Falls depth_a caches'.area_parent
      → Falls depth_t caches'.type_parent
      → Falls depth_a' caches'.area_parent_delete
      → Falls depth_t' caches'.type_parent_delete
      → ((id : Text) → (depth_a id < fuel) × (depth_t id < fuel))
      → ((id : Text) → (depth_a' id < fuel) × (depth_t' id < fuel))
      → let ok = answered env (clear_caches c.caches) started in
        (r : Control) × ((init_areas_tree env fuel user_area c s).0 ≡ some (ok, r))
        × (r.caches ≡ caches')
        × (r.button_flash ≡ true)
        × Left ok r
  init_areas_tree_lem depth_a depth_t depth_a' depth_t' fa ft fa' ft' enough enough' =
      let made =
        build_items_lem caches' user_area depth_a depth_t fuel fa ft (λ id. (enough id).0)
          (λ id. (enough id).1) in
      let built =
        init_delete_tree_struct_lem (area_maps caches') (type_maps caches')
          (λ key. value_of key caches'.type_to_area_delete) user_area depth_a' depth_t' fuel refl
          refl fa' ft' (λ id. (enough' id).0) (λ id. (enough' id).1) in
      init_by (answered env (clear_caches c.caches) started) made.0 built.0
        (load_caches_lem env (clear_caches c.caches) started).0 made.1 built.1
