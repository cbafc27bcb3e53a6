-- ===== src/Transfer/World.antt =====
-- What the transfer functions of `WPD_MTP_data/WPD_MTP_dataDlg.cpp` ask of the portable device and of
-- Windows, and the members and globals that they change. Each call is recorded, and answered by an
-- environment that knows all calls made before, those of the synchronisation included.
use shujugongxiang.Prelude.{Bool, List, [], ◌∷◌, ◌++◌}
use shujugongxiang.Text.Defs.{Text}
use shujugongxiang.Sync.Record.{Direction}
use shujugongxiang.Sync.World.{Call, Session, Env, M, show_log, write_log, do_call}

pub data DeviceCall : Type 0 where
  -- OpenDevice, IPortableDevice::Content and the Release of what that gave, Close with Release
  open_device : Text → DeviceCall
  open_content release_content close_device : DeviceCall
  -- getSpecifiedObjectID, and getIDByParentID of a parent and a name
  object_by_name : Text → DeviceCall
  object_in : Text → Text → DeviceCall
  -- TransforDataFromDevice, DeleteDataFromDevice, TransferDataToDevice to a folder from a path
  fetch_object delete_object : Text → DeviceCall
  send_object : Text → Text → DeviceCall
  -- PathFileExists, DeleteFile, CopyFile
  file_exists delete_file : Text → DeviceCall
  copy_file : Text → Text → DeviceCall
  -- MessageBox with a text and a title
  ask_user : Text → Text → DeviceCall

pub record DeviceEnv : Type 0 where
  -- The BOOL, success of an HRESULT, or the answer IDYES.
  pub done : List DeviceCall → List Call → DeviceCall → Bool
  -- Whether OpenDevice stored a device.
  pub stores_device : List DeviceCall → List Call → Text → Bool
  -- The object's id, empty for a null pointer; `buffErr`; a number of an error as the message has it.
  pub object : List DeviceCall → List Call → DeviceCall → Text
  pub buffer : List DeviceCall → List Call → Text
  pub error_number : List DeviceCall → List Call → Text

-- `gDirID`, `gFileID`, `gFilePath`, `m_copyName`, `m_clearDeviceID`, `m_clearFlag`, `m_threadFlag`,
-- `m_tongbu_dir`, whether the thread's `gDevice` is set, and whether the three buttons are enabled.
pub record Dialog : Type 0 where
  pub sync : Session
  pub calls : List DeviceCall
  pub dir_id : Text
  pub file_id : Text
  pub file_path : Text
  pub copy_name : Text
  pub clear_device_id : Text
  pub clear_flag : Bool
  pub thread_flag : Bool
  pub tongbu_dir : Direction
  pub has_device : Bool
  pub bt_tophone : Bool
  pub button_zdtopc : Bool
  pub button_flash : Bool

abbrev pub D : Type 0 → Type 0
D A = Dialog → A × Dialog

abbrev pub pure : {A : Type 0} → A → D A
pure a s = (a, s)

infixl 5 ◌>>=◌ ◌>>◌
abbrev pub ◌>>=◌ : {A B : Type 0} → D A → (A → D B) → D B
◌>>=◌ m f s = let (a, s') = m s in f a s'

abbrev pub ◌>>◌ : {A B : Type 0} → D A → D B → D B
◌>>◌ m k s = let (a, s') = m s in k s'

-- What the synchronisation does, and what it reads of the dialog.
abbrev pub lift : {A : Type 0} → M A → D A
lift m s = let (a, sync') = m s.sync in (a, record s { sync = sync' })

abbrev pub change : (Dialog → Dialog) → D (Unit {0})
change f s = (tt, f s)

abbrev pub read : {A : Type 0} → (Dialog → A) → D A
read f s = (f s, s)

abbrev pub add_call : DeviceCall → Dialog → Dialog
add_call c s = record s { calls = s.calls ++ (c ∷ []) }

abbrev pub do_device : DeviceCall → D (Unit {0})
do_device c s = (tt, add_call c s)

abbrev pub write : Text → D (Unit {0})
write t = lift (do_call (write_log t))

module _ (dev : DeviceEnv) where
  abbrev pub ask_device : DeviceCall → D Bool
  ask_device c s = (dev.done s.calls s.sync.calls c, add_call c s)

  abbrev pub ask_object : DeviceCall → D Text
  ask_object c s = (dev.object s.calls s.sync.calls c, add_call c s)

  abbrev pub buffer_text : D Text
  buffer_text s = (dev.buffer s.calls s.sync.calls, s)

  abbrev pub error_text : D Text
  error_text s = (dev.error_number s.calls s.sync.calls, s)

  -- OpenDevice: its result, and the pointer that it stores.
  abbrev pub ask_open : Text → D (Bool × Bool)
  ask_open id s = (
    (dev.done s.calls s.sync.calls (open_device id), dev.stores_device s.calls s.sync.calls id),
    add_call (open_device id) s,
  )

module _ (env : Env) where
  abbrev pub show : Text → D (Unit {0})
  show t = lift (show_log env t)
