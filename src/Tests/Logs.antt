-- ===== src/Tests/Logs.antt =====
-- LogRecord.cpp with a folder of one day in its folder of log files.
use shujugongxiang.Prelude.{◌≡◌, ◌↔◌, refl, true, false, none, [], ◌∷◌, ◌++◌}
use shujugongxiang.Text.Defs.{codes}
use shujugongxiang.Cascade.Members.{IsKey}
use shujugongxiang.Log.{
  Listing, no_more, file_found, folder_found, dots_found, LogEnv, LogRecord, backslash, text_less,
  is_old, with_backslash, last_part, traverse_dir, old_files, cleared,
}
use shujugongxiang.Log.Clearing.{
  all_files, drop_last, logfiles, is_name, is_name-IsName, clear_log_lem,
}

abbrev day_folder : Listing
day_folder = dots_found (
    dots_found
      (file_found (codes "2018-06-30-09.log") (file_found (codes "2018-06-30-10.log") no_more)))

abbrev log_listing : Listing
log_listing = dots_found (
    dots_found
      (folder_found (codes "2018-06-30") day_folder (file_found (codes "day.ini") no_more)))

abbrev log_env : LogEnv
log_env = record {
  path_exists = λ calls path. true;
  is_directory = λ calls path. true;
  succeeds = λ calls c. true;
  listing = λ calls path. log_listing;
  call_path = codes "C:\\app";
  clear_day = λ calls. 0;
  date_before = λ day. codes "2018-06-30";
  date = codes "2018-06-30";
  hour = codes "2018-06-30-10";
  moment = codes "2018-06-30 10:05:00:\r\n";
}

abbrev log_record : LogRecord
log_record = record { app_path = codes "C:\\app"; log_file_dir = []; log_file = none; calls = [] }

-- A file of the current day is deleted, though only older ones are to go.
todays_file_cleared :
    cleared log_env 0 log_record ≡ codes "C:\\app\\logfiles\\2018-06-30\\2018-06-30-09.log" ∷ []
unfolding traverse_dir old_files is_old text_less last_part with_backslash
todays_file_cleared = refl

named : is_name (codes "2018-06-30-09.log") ≡ true
unfolding is_name
named = refl

clear_log_lem_example :
    let path =
      codes "C:\\app\\logfiles\\2018-06-30"
      ++ (backslash ∷ codes "2018-06-30" ++ (codes "-" ++ codes "09.log")) in
    IsKey path (cleared log_env 0 log_record)
    ↔ IsKey path (all_files (logfiles log_env 0 log_record) (drop_last log_listing))
      × (text_less (codes "2018-06-30") (codes "2018-06-30") ≡ false)
clear_log_lem_example =
    clear_log_lem log_env 0 log_record (codes "C:\\app\\logfiles\\2018-06-30") (codes "2018-06-30")
      (codes "09.log") (is_name-IsName (codes "2018-06-30-09.log") named) refl
