-- ===== src/Transfer/Threads/Flag.antt =====
-- That of the threads of WPD_MTP_dataDlg.cpp only MyControllingFunction changes `m_threadFlag`.
use shujugongxiang.Prelude.{refl, ◌∙◌, Bool, true, false, inl, inr, Bool-cases}
use shujugongxiang.Text.Defs.{Text}
use shujugongxiang.Sync.World.{Env, M}
use shujugongxiang.Transfer.World.{DeviceEnv, Dialog, lift}
use shujugongxiang.Transfer.File.{Config, begin_phone_to_pc}
use shujugongxiang.Transfer.File.Flag.{
  Keeps, begin_phone_to_pc-Keeps, begin_pc_to_phone-Keeps, begin_reback_data-Keeps,
}
use shujugongxiang.Transfer.Threads.{
  close_if_set, no_device, move_file, exchange, begin_clear_thread, begin_reback_thread,
}

close_if_set-Keeps : (s : Dialog) → Keeps s (close_if_set s).1
unfolding close_if_set
close_if_set-Keeps s = elim (Bool-cases s.has_device) [
  | inl device ↦ rw device refl
  | inr none_set ↦ rw none_set refl
]

module _ (env : Env) (dev : DeviceEnv) where
  exchange-Keeps :
      (config : Config) (work : Text → M Bool) (s : Dialog)
      → Keeps s (exchange env dev config work s).1
  unfolding exchange move_file
  exchange-Keeps config work s =
      let (got, s1) = begin_phone_to_pc env dev config s in
      let (done, s2) = lift (work s1.file_path) s1 in
      let fetched = begin_phone_to_pc-Keeps env dev config s in
      elim (Bool-cases got) [
        | inl here ↦ elim (Bool-cases done) [
          | inl worked ↦
              rw (here, worked)
                (close_if_set-Keeps _ ∙ begin_pc_to_phone-Keeps env dev s2 ∙ fetched)
          | inr failed ↦ rw (here, failed) (close_if_set-Keeps _ ∙ fetched)
        ]
        | inr missing ↦ rw missing (close_if_set-Keeps _ ∙ fetched)
      ]

  -- A clearing leaves the flag as it is.
  pub begin_clear_thread-Keeps :
      (config : Config) (work : Text → M Bool) (in_order : Bool) (s : Dialog)
      → Keeps s (begin_clear_thread env dev config work in_order s).1
  unfolding begin_clear_thread no_device
  begin_clear_thread-Keeps config work false s = refl
  begin_clear_thread-Keeps config work true s =
      let s1 = (no_device s).1 in
      let kept = exchange-Keeps config work s1 in
      elim (Bool-cases (exchange env dev config work s1).0) [
        | inl done ↦ rw done kept
        | inr failed ↦ rw failed kept
      ]

  -- Taking a clearing back leaves the flag as it is.
  pub begin_reback_thread-Keeps :
      (config : Config) (s : Dialog) → Keeps s (begin_reback_thread env dev config s).1
  unfolding begin_reback_thread
  begin_reback_thread-Keeps config s = begin_reback_data-Keeps env dev config _ s
