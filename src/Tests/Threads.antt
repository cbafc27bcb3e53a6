-- ===== src/Tests/Threads.antt =====
-- The threads of WPD_MTP_dataDlg.cpp with a device that answers every call.
use shujugongxiang.Prelude.{◌≡◌, Bool, true, false, some, [], ◌∷◌, ◌++◌, if◌then◌else◌}
use shujugongxiang.Text.Defs.{Text, codes}
use shujugongxiang.Sync.World.{M, pure}
use shujugongxiang.Sync.Record.{to_phone}
use shujugongxiang.Sync.Switch.{radio_user}
use shujugongxiang.Transfer.World.{close_device, DeviceEnv, Dialog}
use shujugongxiang.Transfer.File.{Config}
use shujugongxiang.Transfer.Threads.{zdtopc_allowed, minus_one, my_controlling_function}
use shujugongxiang.Transfer.Threads.Exchange.{asked, agreed, moved, my_controlling_function_dialog}
use shujugongxiang.Tests.Databases.{world, start}

abbrev pub phone : DeviceEnv
phone = record {
  done = λ calls sync c. true;
  stores_device = λ calls sync id. true;
  object = λ calls sync c. codes "o1";
  buffer = λ calls sync. [];
  error_number = λ calls sync. codes "2";
}

abbrev pub config : Config
config = record {
  chosen = some (codes "usb");
  file_name = codes "safetydata.db";
  path_names = codes "app" ∷ codes "safetydata" ∷ [];
  clock = codes "2018-06-30-12-00-00";
}

abbrev pub dialog : Dialog
dialog = record {
  sync = start;
  calls = [];
  dir_id = [];
  file_id = [];
  file_path = [];
  copy_name = [];
  clear_device_id = [];
  clear_flag = false;
  thread_flag = true;
  tongbu_dir = to_phone;
  has_device = false;
  bt_tophone = true;
  button_zdtopc = false;
  button_flash = true;
}

abbrev no_work : Text → M Bool
no_work path = pure true

my_controlling_function_dialog_example :
    let result = my_controlling_function world phone config no_work radio_user dialog in
    let agreed' = agreed world phone config no_work dialog radio_user in
    let moved' = moved world phone config no_work dialog radio_user in
    (result.1.thread_flag ≡ false)
    × (result.1.bt_tophone ≡ true)
    × (result.1.button_zdtopc ≡ (if agreed' then zdtopc_allowed radio_user else true))
    × (result.1.button_flash ≡ (if agreed' then true else dialog.button_flash))
    × (result.1.has_device ≡ false)
    × (result.1.calls ≡ (
        if agreed'
        then if moved'.has_device then moved'.calls ++ (close_device ∷ []) else moved'.calls
        else (asked world phone config no_work dialog radio_user).calls))
    × (result.0 ≡ (if agreed' then 0 else minus_one))
my_controlling_function_dialog_example =
    my_controlling_function_dialog world phone config no_work dialog radio_user
