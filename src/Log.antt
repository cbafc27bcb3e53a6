-- ===== src/Log.antt =====
-- `WPD_MTP_data/logrecord/LogRecord.cpp`: the log file of each hour, and the deletion of old ones. What the
-- file system and the clock give is a parameter.
pub mod Clearing
use shujugongxiang.Prelude.{
  ℕ, Bool, true, false, Option, none, some, List, [], ◌∷◌, ◌++◌, map, ltb, ◌==◌, if◌then◌else◌,
}
use shujugongxiang.Text.Defs.{Text, codes, is_empty}

-- What CFileFind finds in a folder, in its order; the second is a folder with what is in it, the third
-- is `.` or `..`.
pub data Listing : Type 0 where
  no_more : Listing
  file_found : Text → Listing → Listing
  folder_found : Text → Listing → Listing → Listing
  dots_found : Listing → Listing

-- CFileFind::FindNextFile: there is one behind.
abbrev pub has_more : Listing → Bool
has_more no_more = false
has_more (file_found name rest) = true
has_more (folder_found name inner rest) = true
has_more (dots_found rest) = true

abbrev pub backslash : ℕ
backslash = 92

-- `if (dir.Right(1) != "\\") dir += "\\"`.
unfoldable pub with_backslash : Text → Text
with_backslash [] = backslash ∷ []
with_backslash (c ∷ []) = if c == backslash then c ∷ [] else c ∷ backslash ∷ []
with_backslash (c ∷ d ∷ path) = c ∷ with_backslash (d ∷ path)

-- CFileFind::GetFilePath.
abbrev pub in_folder : Text → Text → Text
in_folder path name = with_backslash path ++ name

-- An entry is looked at if there is one more behind it.
unfoldable pub traverse_dir : Text → Listing → List Text
traverse_dir path no_more = []
traverse_dir path (file_found name rest) =
    let later = traverse_dir path rest in if has_more rest then in_folder path name ∷ later else []
traverse_dir path (folder_found name inner rest) =
    let within = traverse_dir (in_folder path name) inner in
    let later = traverse_dir path rest in if has_more rest then within ++ later else []
traverse_dir path (dots_found rest) = traverse_dir path rest

-- `s < t` of two CStrings.
unfoldable pub text_less : Text → Text → Bool
text_less s [] = false
text_less [] (d ∷ t) = true
text_less (c ∷ s) (d ∷ t) =
    let rest = text_less s t in if ltb c d then true else if ltb d c then false else rest

-- What stands behind the last backslash.
unfoldable pub last_part : Text → Text → Text
last_part part [] = part
last_part part (c ∷ path) = if c == backslash then last_part path path else last_part part path

-- The name of the file is before that of the day.
unfoldable pub is_old : Text → Text → Bool
is_old day path = text_less (last_part path path) (day ++ codes ".log")

unfoldable pub old_files : Text → List Text → List Text
old_files day [] = []
old_files day (path ∷ paths) =
    let rest = old_files day paths in if is_old day path then path ∷ rest else rest

-- The calls on the file system that change it.
pub data LogCall : Type 0 where
  write_ini delete_file create_directory : Text → LogCall
  -- CFile::Open without and with modeCreate, Close, and Write at the end of the file
  open_file create_file : Text → LogCall
  close_file : LogCall
  write_text : Text → LogCall

pub record LogEnv : Type 0 where
  pub path_exists : List LogCall → Text → Bool
  pub is_directory : List LogCall → Text → Bool
  pub succeeds : List LogCall → LogCall → Bool
  pub listing : List LogCall → Text → Listing
  -- The path of the program, the days in day.ini, and the date that many days ago.
  pub call_path : Text
  pub clear_day : List LogCall → ℕ
  pub date_before : ℕ → Text
  -- `%Y-%m-%d`, `%Y-%m-%d-%H`, and `%Y-%m-%d %H:%M:%S:\r\n` of now.
  pub date : Text
  pub hour : Text
  pub moment : Text

-- `m_apppath`, `m_logFileDir`, the path of the file that `m_logFile` has open, and the calls made so far.
pub record LogRecord : Type 0 where
  pub app_path : Text
  pub log_file_dir : Text
  pub log_file : Option Text
  pub calls : List LogCall

abbrev pub log_call : LogCall → LogRecord → LogRecord
log_call c s = record s { calls = s.calls ++ (c ∷ []) }

module _ (env : LogEnv) where
  -- The files that are deleted.
  abbrev pub cleared : ℕ → LogRecord → List Text
  cleared day s =
      let dir = s.app_path ++ codes "\\logfiles" in
      old_files (env.date_before day) (traverse_dir dir (env.listing s.calls dir))

  pub clear_log : ℕ → LogRecord → LogRecord
  clear_log day s = record s { calls = s.calls ++ map delete_file (cleared day s) }

  -- `clear_log` after the default was written to day.ini, where it is missing.
  pub clear_old : LogRecord → LogRecord
  clear_old s =
      let ini = s.app_path ++ codes "\\logfiles\\day.ini" in
      let s1 = if env.path_exists s.calls ini then s else log_call (write_ini ini) s in
      clear_log (env.clear_day s1.calls) s1

  -- The folder is created in the current directory.
  pub init_log_record : LogRecord → Bool × LogRecord
  init_log_record s =
      let s1 = clear_old (record s { app_path = env.call_path }) in
      let dir = s1.app_path ++ codes "\\logfiles" in
      let make = create_directory (codes "logfiles") in
      let ready = record s1 { log_file_dir = dir } in
      if env.path_exists s1.calls dir
      then (true, ready)
      else if env.succeeds s1.calls make
      then (true, log_call make ready)
      else (false, log_call make s1)

  -- The path of the hour's file: in the folder of the day, if it is there or can be created.
  pub hour_path : LogRecord → Text × LogRecord
  hour_path s =
      let folder = s.log_file_dir ++ codes "\\" ++ env.date in
      let name = codes "\\" ++ env.hour ++ codes ".log" in
      let make = create_directory folder in
      if env.is_directory s.calls folder
      then (folder ++ name, s)
      else if env.succeeds s.calls make
      then (folder ++ name, log_call make s)
      else (s.log_file_dir ++ name, log_call make s)

  pub open_log : LogCall → Text → LogRecord → Bool × LogRecord
  open_log c path s =
      if env.succeeds s.calls c
      then (true, log_call c (record s { log_file = some path }))
      else (false, log_call c s)

  -- FALSE is the early return.
  pub ready_file : Text → LogRecord → Bool × LogRecord
  ready_file path s = elim s.log_file [
    | some opened ↦
        if env.path_exists s.calls path
        then (true, s)
        else open_log (create_file path) path (log_call close_file (record s { log_file = none }))
    | none ↦
        if env.path_exists s.calls path
        then open_log (open_file path) path s
        else open_log (create_file path) path s
  ]

  pub write_record_to_file : Text → LogRecord → LogRecord
  write_record_to_file text s =
      let (path, s1) = hour_path s in
      let (ready, s2) = ready_file path s1 in
      if ready then log_call (write_text (env.moment ++ text ++ codes "\r\n")) s2 else s2
