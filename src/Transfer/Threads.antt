-- ===== src/Transfer/Threads.antt =====
-- The threads of `WPD_MTP_data/WPD_MTP_dataDlg.cpp` that move the phone's database, and the buttons that
-- start them, in the release build (neither DEBUG nor MYTEST is defined).
pub mod Exchange
pub mod Flag
pub mod Schedule
use shujugongxiang.Prelude.{
  ℕ, Bool, true, false, ◌&&◌, not, Option, none, some, List, [], ◌∷◌, ◌++◌, if◌then◌else◌,
}
use shujugongxiang.Text.Defs.{Text, codes, is_empty}
use shujugongxiang.Sync.World.{Env, M}
use shujugongxiang.Sync.Record.{Direction, to_phone, to_pc, other_dir}
use shujugongxiang.Sync.Switch.{Radio, radio_user, radio_devices, radio_work}
use shujugongxiang.Transfer.World.{
  DeviceCall, close_device, ask_user, DeviceEnv, Dialog, D, pure, ◌>>=◌, ◌>>◌, lift, change, read,
  do_device, ask_device, show,
}
use shujugongxiang.Transfer.File.{Config, begin_phone_to_pc, begin_pc_to_phone, begin_reback_data}

-- `return -1` of a UINT.
abbrev pub minus_one : ℕ
minus_one = 4294967295

pub question : Radio → Text
question radio_work = codes "正在进行[同步任务],请点击确认开始!"
question radio_user = codes "正在进行[同步用户],请点击确认开始!"
question radio_devices = codes "正在进行[同步设备],请点击确认开始!"

pub title : Direction → Text
title to_phone = codes "提示:从PC同步到终端"
title to_pc = codes "提示:从终端同步到PC"
title other_dir = []

-- For users there is no way to the PC.
pub zdtopc_allowed : Radio → Bool
zdtopc_allowed radio_user = false
zdtopc_allowed radio_devices = true
zdtopc_allowed radio_work = true

-- `if (gDevice) { gDevice->Close(); gDevice->Release(); gDevice = nullptr; }`
pub close_if_set : D (Unit {0})
close_if_set s =
    if s.has_device
    then (tt, record s { calls = s.calls ++ (close_device ∷ []); has_device = false })
    else (tt, s)

-- `IPortableDevice* gDevice = nullptr`, a variable of the thread.
pub no_device : D (Unit {0})
no_device = change (λ s. record s { has_device = false })

module _ (env : Env) (dev : DeviceEnv) (config : Config) where
  -- The file comes to the PC, the work is done on it, and it goes back; each only after the one before
  -- returned TRUE.
  pub move_file : (Text → M Bool) → D Bool
  move_file work = do
    got ← begin_phone_to_pc env dev config
    if got
        then (do
          path ← read (λ s. s.file_path)
          worked ← lift (work path)
          if worked then begin_pc_to_phone env dev else pure false)
        else pure false

  pub exchange : (Text → M Bool) → D Bool
  exchange work = do ret ← move_file work; close_if_set; pure ret

  -- `work` is BeginSwitchData, `radio` is `m_radioChoose`, which does not change during the run.
  pub my_controlling_function : (Text → M Bool) → Radio → D ℕ
  my_controlling_function work radio = do
    no_device
    dir ← read (λ s. s.tongbu_dir)
    agreed ← ask_device dev (ask_user (question radio) (title dir))
    if agreed
        then (do
          change (λ s. record s { button_flash = false })
          show env (codes "正在同步...")
          ret ← exchange work
          change (λ s. record s {
            thread_flag = false;
            bt_tophone = true;
            button_zdtopc = zdtopc_allowed radio;
            button_flash = true;
          })
          if ret then show env (codes "同步完成...") else show env (codes "同步失败...")
          pure 0)
        else (do
          show env (codes "取消同步操作")
          change (λ s. record s { thread_flag = false; bt_tophone = true; button_zdtopc = true })
          pure minus_one)

  -- `work` is Synchrodata_clear_record with the chosen time; `in_order` is its comparison.
  pub begin_clear_thread : (Text → M Bool) → Bool → D ℕ
  begin_clear_thread work in_order =
      no_device
      >> (if in_order
          then (do
            ret ← exchange work
            if ret
                then show env (codes "清除操作完成!") >> pure 1
                else show env (codes "清除操作失败!") >> pure 0)
          else (do
            show env (codes "开始时间必须小于或者等于结束时间!")
            show env (codes "终止清除操作!")
            pure minus_one))

  pub begin_reback_thread : D Bool
  begin_reback_thread = do
    name ← read (λ s. s.copy_name)
    begin_reback_data env dev config (codes ".//backUp//" ++ name)

  -- The buttons; the result is whether a thread was started. `has_item` is `m_treeCtrl_curItem`.
  pub on_bn_clicked_bt_tophone : Bool → D Bool
  on_bn_clicked_bt_tophone has_item =
      if has_item
      then (do
        change (λ s. record s { tongbu_dir = to_phone; button_zdtopc = false })
        busy ← read (λ s. s.thread_flag)
        if busy
            then show env (codes "同步繁忙,请稍等或者重新插拔设备再试!!") >> pure false
            else change (λ s. record s { thread_flag = true }) >> pure true)
      else (show env (codes "请选择一个区域或者设备") >> pure false)

  pub on_bn_clicked_button_zdtopc : Bool → D Bool
  on_bn_clicked_button_zdtopc has_item =
      if has_item
      then (do
        change (λ s. record s { tongbu_dir = to_pc; bt_tophone = false })
        busy ← read (λ s. s.thread_flag)
        if busy
            then show env (codes "连接失败,请重新插入设备再重试!!") >> pure false
            else change (λ s. record s { thread_flag = true }) >> pure true)
      else (show env (codes "请选择一个区域或者设备") >> pure false)

  -- The flag is set before the question, and a refusal leaves it set.
  pub on_bn_clicked_button_begin_clear : D Bool
  on_bn_clicked_button_begin_clear = do
    change (λ s. record s { clear_flag = true })
    agreed ← ask_device dev (ask_user (codes "请点击[是]开始清除操作!") (codes "提示:清除操作!"))
    if agreed
        then show env (codes "开始进行清除操作!") >> pure true
        else show env (codes "取消清除操作!") >> pure false

  pub on_bn_clicked_button_reback : D Bool
  on_bn_clicked_button_reback = do
    agreed ← ask_device dev (ask_user (codes "请点击[是]开始恢复操作!") (codes "提示:恢复操作!"))
    if agreed
        then (do
          name ← read (λ s. s.copy_name)
          if is_empty name then show env (codes "上一次非清除操作,无回滚数据!") >> pure false else pure true)
        else show env (codes "取消恢复操作") >> pure false
