-- ===== src/Tests/Files.antt =====
-- The copies that OnClose of WPD_MTP_dataDlg.cpp clears, and the settings that InitConfig reads.
use shujugongxiang.Prelude.{
  ℕ, ◌<◌, ◌≡◌, refl, ◌↔◌, Bool, some, List, [], ◌∷◌, length, if◌then◌else◌, arith,
}
use shujugongxiang.Text.Defs.{Text, codes, text_eq}
use shujugongxiang.Text.Split.{Cuts}
use shujugongxiang.Log.{Listing, no_more, file_found, dots_found, text_less, with_backslash}
use shujugongxiang.Backup.{set_normal, remove_file, is_kept, delete_directory}
use shujugongxiang.Backup.Removed.{Removes, OldAt, delete_directory_lem}
use shujugongxiang.Settings.{Ini, Settings, phone_path, phone_split, init_config}
use shujugongxiang.Settings.Names.{Configured, init_config_lem}

abbrev copies : Listing
copies = dots_found (
    file_found (codes "2018-06-28-10-00-00")
      (file_found (codes "2018-06-30-10-00-00") (file_found (codes "说明.txt") no_more)))

abbrev limit : Text
limit = codes "2018-06-29-12-00-00"

-- The copy from before the limit goes, the later one and the note stay.
old_copy_removed :
    delete_directory limit (codes "B") copies
    ≡ set_normal (codes "B\\2018-06-28-10-00-00")
      ∷ remove_file (codes "B\\2018-06-28-10-00-00")
      ∷ []
unfolding delete_directory is_kept text_less text_eq with_backslash
old_copy_removed = refl

delete_directory_lem_example :
    Removes (codes "B\\2018-06-28-10-00-00") (delete_directory limit (codes "B") copies)
    ↔ OldAt limit (codes "B\\2018-06-28-10-00-00") (codes "B") copies
delete_directory_lem_example =
    delete_directory_lem limit (codes "B\\2018-06-28-10-00-00") (codes "B") copies

abbrev ini : Ini
ini section key default =
    if text_eq key (codes "path")
    then codes "app/safetydata"
    else if text_eq key (codes "split")
    then codes "/"
    else if text_eq key (codes "type")
    then codes ".db"
    else default

abbrev port_number : Text → ℕ
port_number text = 3306

abbrev settings : Settings
settings = record {
  mysql_login = record { server = []; user = []; password = []; database = []; port = 0 };
  ary_file_name = [];
  file_name = [];
}

path_short : length (phone_path ini) < 15
unfolding text_eq
path_short = omega arith

init_config_lem_example :
    (names : List Text) × Cuts (phone_split ini) (phone_path ini) names
    × ((result : Bool × Settings) × (init_config 15 ini port_number settings ≡ some result)
        × Configured ini port_number settings names result)
init_config_lem_example = init_config_lem 15 ini port_number settings refl path_short
