-- ===== src/Transfer/File.antt =====
-- `BeginPhoneToPc`, `BeginPcToPhone` and `BeginRebackData` of `WPD_MTP_data/WPD_MTP_dataDlg.cpp`.
pub mod Writes
pub mod Flag
use shujugongxiang.Prelude.{
  ℕ, zero, suc, ◌+◌, Bool, true, false, ◌&&◌, ◌||◌, not, Option, none, some, List, [], ◌∷◌, ◌++◌,
  ◌==◌, if◌then◌else◌,
}
use shujugongxiang.Text.Defs.{Text, codes, is_empty, text_eq}
use shujugongxiang.Sync.World.{Env}
use shujugongxiang.Transfer.World.{
  DeviceCall, open_content, release_content, close_device, object_by_name, object_in, fetch_object,
  delete_object, send_object, file_exists, delete_file, copy_file, DeviceEnv, Dialog, D, pure,
  ◌>>=◌, ◌>>◌, change, read, do_device, write, ask_device, ask_object, buffer_text, error_text,
  ask_open, show,
}

-- The device chosen in the combo box, `m_fileName`, `m_aryFileName`, and the time of the copy as text.
pub record Config : Type 0 where
  pub chosen : Option Text
  pub file_name : Text
  pub path_names : List Text
  pub clock : Text

abbrev pub local_path : Config → Text
local_path config = codes ".//" ++ config.file_name

pub missing_file : Text × Text → Bool
missing_file ids = is_empty ids.0 || is_empty ids.1

pub forget_ids : D (Unit {0})
forget_ids = change (λ s. record s { dir_id = []; file_id = [] })

-- After a clearing the copy's name and the device are kept, after anything else they are forgotten.
pub keep_copy : Text → Text → D (Unit {0})
keep_copy name device = change (λ s.
    if s.clear_flag
    then record s { copy_name = name; clear_device_id = device; clear_flag = false }
    else record s { copy_name = []; clear_device_id = [] })

module _ (env : Env) (dev : DeviceEnv) where
  -- The loop over `m_aryFileName` from an index on, with `dirID` and `fileID`.
  pub find_objects : ℕ → List Text → Text → Text → D (Text × Text)
  find_objects index [] dir file = pure (dir, file)
  find_objects zero (name ∷ names) dir file = do
    id ← ask_object dev (object_by_name name)
    message ← buffer_text dev
    write (name ++ (codes "#2597dirID[" ++ (id ++ (codes "]#err" ++ (message ++ codes "#end")))))
    find_objects 1 names id file
  find_objects (suc zero) (name ∷ names) dir file = do
    id ← ask_object dev (object_in dir (name ++ codes ".db"))
    write (name ++ (codes "#2604fileID[" ++ (id ++ codes "]#end")))
    find_objects 2 names dir id
  find_objects (suc (suc index)) (name ∷ names) dir file = do
    id ← ask_object dev (object_in file name)
    write (name ++ (codes "#2609fileID[" ++ (id ++ codes "]#end")))
    find_objects (suc (suc (suc index))) names file id

  -- From the content of the device to the ids of the folder and of the file; `none` is a return FALSE.
  pub open_file : Config → D (Option (Text × Text))
  open_file config = do
    content ← ask_device dev open_content
    if content
        then (do
          ids ← find_objects 0 config.path_names [] []
          if missing_file ids
              then (do
                show env (codes "丢失数据库文件,请确保文件存在!----")
                do_device release_content
                pure none)
              else (do change (λ s. record s { dir_id = ids.0; file_id = ids.1 }); pure (some ids)))
        else (do
          number ← error_text dev
          show env (
              codes "! Failed to get IPortableDeviceContent from IPortableDevice, hr = 0x"
              ++ (number ++ codes "\n"))
          pure none)

  -- The replies to the fetch and to the copy are not used.
  pub fetch_file : Config → Text → Text → D Bool
  fetch_file config device file = do
    fetched ← ask_device dev (fetch_object file)
    copied ← ask_device dev (copy_file (local_path config) (codes ".//backUp//" ++ config.clock))
    keep_copy config.clock device
    change (λ s. record s { file_path = local_path config })
    do_device release_content
    pure true

  pub fetch_found : Config → Text → Option (Text × Text) → D Bool
  fetch_found config device none = pure false
  fetch_found config device (some ids) = fetch_file config device ids.1

  -- On the chosen device.
  pub fetch_from : Config → Text → D Bool
  fetch_from config device = do
    forget_ids
    change (λ s. record s { file_path = local_path config })
    do_device (delete_file (local_path config))
    (opened, stored) ← ask_open dev device
    change (λ s. record s { has_device = stored })
    if not opened && not stored
        then show env (codes "设备连接失败,获取设备失败!") >> pure false
        else (do found ← open_file config; fetch_found config device found)

  pub fetch_chosen : Config → Option Text → D Bool
  fetch_chosen config none = show env (codes "请选择一项设备") >> pure false
  fetch_chosen config (some device) = fetch_from config device

  pub begin_phone_to_pc : Config → D Bool
  begin_phone_to_pc config = fetch_chosen config config.chosen

  -- The file on the device is deleted before the new one is sent, and the local one in any case.
  pub begin_pc_to_phone : D Bool
  begin_pc_to_phone = do
    file ← read (λ s. s.file_id)
    do_device (delete_object file)
    dir ← read (λ s. s.dir_id)
    path ← read (λ s. s.file_path)
    sent ← ask_device dev (send_object dir path)
    message ← buffer_text dev
    write message
    do_device (delete_file path)
    pure sent

  -- The copy replaces the file on the device.
  pub replace_file : Text → D Bool
  replace_file path = do
    file ← read (λ s. s.file_id)
    do_device (delete_object file)
    dir ← read (λ s. s.dir_id)
    sent ← ask_device dev (send_object dir path)
    message ← buffer_text dev
    write message
    do_device close_device
    if sent then show env (codes "恢复数据库成功!") >> pure true else pure false

  -- On the chosen device, which has to be the one that was cleared.
  pub reback_on : Config → Text → D Bool
  reback_on config device = do
    cleared ← read (λ s. s.clear_device_id)
    if text_eq device cleared
        then (do
          forget_ids
          (opened, stored) ← ask_open dev device
          if not opened && not stored then show env (codes "设备连接失败,获取设备失败!") >> pure false else (do
            found ← open_file config
            elim found [ none ↦ pure false | some ids ↦ replace_file (local_path config) ]))
        else (show env (codes "恢复失败:清除和恢复的设备不一致") >> pure false)

  pub begin_reback_data : Config → Text → D Bool
  begin_reback_data config path = do
    show env (codes "开始恢复数据库!")
    exists ← ask_device dev (file_exists path)
    if exists
        then (do
          copied ← ask_device dev (copy_file path (local_path config))
          if copied
              then elim config.chosen [
                | none ↦ show env (codes "请选择一项设备") >> pure false
                | some device ↦ reback_on config device
              ]
              else (do
                number ← error_text dev
                show env (codes "恢复失败:拷贝中间文件失败err=" ++ number)
                pure false))
        else (show env (codes "恢复失败:无效文件路径-" ++ path) >> pure false)
