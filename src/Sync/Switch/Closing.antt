-- ===== src/Sync/Switch/Closing.antt =====
-- The connection to the server over a run of `BeginSwitchData` of WPD_MTP_dataDlg.cpp.
use shujugongxiang.Prelude.{◌≡◌, refl, ◌⊎◌, inl, inr, Bool, true, false, [], Bool-cases}
use shujugongxiang.Text.Defs.{codes, is_empty}
use shujugongxiang.Sync.World.{mysql_init, mysql_close, Env, Session, M, make_call, show_log}
use shujugongxiang.Sync.Selection.{Item, device_of}
use shujugongxiang.Sync.Switch.{
  Radio, radio_user, radio_devices, radio_work, Tables, close_after, switch_user, switch_devices,
  switch_work, switch_by, begin_switch_data,
}

-- The run ends with `Close`, all its other calls made before.
abbrev pub Closes : Bool × Session → Type 0
Closes result = (before : Session) × (result.1 ≡ make_call mysql_close before)

-- The run ends with the message of the refusal.
abbrev pub Refused : Env → Radio → Item → Bool × Session → Type 0
Refused env radio i result =
    (radio ≡ radio_user)
    × (is_empty (device_of i) ≡ false)
    × (result.0 ≡ false)
    × ((before : Session) × (result.1 ≡ (show_log env (codes "同步用户只能选择区域,请选择区域重试!") before).1))

module _ (env : Env) (tables : Tables) where
  close_after-Closes : (run : M Bool) (s : Session) → Closes (close_after env tables run s)
  unfolding close_after
  close_after-Closes run s = ((run s).1, refl)

  switch_by-Closes :
      (radio : Radio) (i : Item) (s : Session)
      → Closes (switch_by env tables radio i s)
        ⊎ Refused env radio i (switch_by env tables radio i s)
  unfolding switch_by switch_user switch_devices switch_work
  switch_by-Closes radio_user i s = elim (Bool-cases (is_empty (device_of i))) [
    | inl empty ↦ rw empty (inl (close_after-Closes _ s))
    | inr chosen ↦ rw chosen (inr (refl, refl, refl, (s, refl)))
  ]
  switch_by-Closes radio_devices i s = inl (close_after-Closes _ s)
  switch_by-Closes radio_work i s = inl (close_after-Closes _ s)

  begin-connected :
      (radio : Radio) (i : Item) (s : Session)
      → let s' = make_call mysql_init (record s { updates = [] }) in
        env.yes s.calls mysql_init ≡ true
        → begin_switch_data env tables radio i s
          ≡ switch_by env tables radio i (tables.delete_area_and_device s').1
  unfolding begin_switch_data
  begin-connected radio i s e = rw e refl

  -- A run that connected to the server ends with `Close`, unless it is a run for users with a device
  -- chosen: that one ends with a message and returns FALSE, without `Close`.
  pub begin_switch_data-Closes :
      (radio : Radio) (i : Item) (s : Session)
      → env.yes s.calls mysql_init ≡ true
      → Closes (begin_switch_data env tables radio i s)
        ⊎ Refused env radio i (begin_switch_data env tables radio i s)
  begin_switch_data-Closes radio i s e =
      rw (begin-connected radio i s e) (switch_by-Closes radio i _)
