-- ===== src/Transfer/Threads/Exchange.antt =====
-- What the threads of WPD_MTP_dataDlg.cpp do to the file on the device, and to the dialog.
use shujugongxiang.Prelude.{
  ◌≡◌, refl, Bool, true, false, [], ◌∷◌, ◌++◌, inl, inr, Bool-cases, if◌then◌else◌,
}
use shujugongxiang.Text.Defs.{Text, codes}
use shujugongxiang.Sync.World.{Env, M}
use shujugongxiang.Sync.Switch.{Radio}
use shujugongxiang.Transfer.World.{close_device, ask_user, DeviceEnv, Dialog, add_call, lift, show}
use shujugongxiang.Transfer.File.{Config, begin_phone_to_pc, begin_pc_to_phone}
use shujugongxiang.Transfer.Threads.{
  question, title, zdtopc_allowed, minus_one, close_if_set, no_device, move_file, exchange,
  my_controlling_function,
}

close_if_set-closed : (s : Dialog) → (close_if_set s).1.has_device ≡ false
unfolding close_if_set
close_if_set-closed s = elim (Bool-cases s.has_device) [
  | inl device ↦ rw device refl
  | inr none_set ↦ rw none_set refl
]

exchange-closed :
    (env : Env) (dev : DeviceEnv) (config : Config) (work : Text → M Bool) (s : Dialog)
    → (exchange env dev config work s).1.has_device ≡ false
unfolding exchange
exchange-closed env dev config work s = close_if_set-closed _

-- A device that is open when the file has been moved is closed by the last call.
exchange-calls :
    (env : Env) (dev : DeviceEnv) (config : Config) (work : Text → M Bool) (s : Dialog)
    → let t = (move_file env dev config work s).1 in
      (exchange env dev config work s).1.calls
      ≡ (if t.has_device then t.calls ++ (close_device ∷ []) else t.calls)
unfolding exchange close_if_set
exchange-calls env dev config work s =
    elim (Bool-cases (move_file env dev config work s).1.has_device) [
      | inl device ↦ rw device refl
      | inr none_set ↦ rw none_set refl
    ]

module _ (env : Env) (dev : DeviceEnv) (config : Config) (work : Text → M Bool) (s : Dialog) where
  -- BeginPhoneToPc, and then the work and BeginPcToPhone.
  abbrev pub fetched : Bool × Dialog
  fetched = begin_phone_to_pc env dev config s

  abbrev pub worked : Bool × Dialog
  worked = lift (work fetched.1.file_path) fetched.1

  abbrev pub sent : Bool × Dialog
  sent = begin_pc_to_phone env dev worked.1

  module _ (radio : Radio) where
    abbrev pub asked : Dialog
    asked = add_call (ask_user (question radio) (title s.tongbu_dir)) (no_device s).1

    abbrev pub agreed : Bool
    agreed = dev.done s.calls s.sync.calls (ask_user (question radio) (title s.tongbu_dir))

    -- What the run does between the question and the closing of the device.
    abbrev pub moved : Dialog
    moved =
        (move_file env dev config work
          (show env (codes "正在同步...") (record asked { button_flash = false })).1).1

    -- However the run ends, the thread's flag is cleared and the button to the phone enabled. If the
    -- user agreed, the last call on the device closes it, if the run opened one; the button for
    -- refreshing is enabled, and the one to the PC if the choice is not users. If the run was called
    -- off, the device gets no call but the question is asked, the button to the PC is enabled whatever
    -- the choice, and the one for refreshing is left as it was.
    pub my_controlling_function_dialog :
        let result = my_controlling_function env dev config work radio s in
        (result.1.thread_flag ≡ false)
        × (result.1.bt_tophone ≡ true)
        × (result.1.button_zdtopc ≡ (if agreed then zdtopc_allowed radio else true))
        × (result.1.button_flash ≡ (if agreed then true else s.button_flash))
        × (result.1.has_device ≡ false)
        × (result.1.calls ≡ (
            if agreed
            then if moved.has_device then moved.calls ++ (close_device ∷ []) else moved.calls
            else asked.calls))
        × (result.0 ≡ (if agreed then 0 else minus_one))
    unfolding my_controlling_function no_device
    my_controlling_function_dialog =
        let started = (show env (codes "正在同步...") (record asked { button_flash = false })).1 in
        let closed = exchange-closed env dev config work started in
        let calls = exchange-calls env dev config work started in
        elim (Bool-cases agreed) [
          | inl agree ↦ elim (Bool-cases (exchange env dev config work started).0) [
            | inl done ↦ rw (agree, done) (refl, refl, refl, refl, closed, calls, refl)
            | inr failed ↦ rw (agree, failed) (refl, refl, refl, refl, closed, calls, refl)
          ]
          | inr refuse ↦ rw refuse (refl, refl, refl, refl, refl, refl, refl)
        ]
