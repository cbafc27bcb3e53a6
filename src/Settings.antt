-- ===== src/Settings.antt =====
-- `InitConfig` of `WPD_MTP_data/WPD_MTP_dataDlg.cpp`: the login of the server, and the phone's file, from
-- config.ini. GetPrivateProfileString and `atoi` are parameters.
pub mod Names
use shujugongxiang.Prelude.{
  ℕ, Bool, true, false, ◌||◌, Option, none, some, List, [], ◌∷◌, ◌++◌, if◌then◌else◌,
}
use shujugongxiang.Text.Defs.{Text, codes, is_empty}
use shujugongxiang.Text.Split.{my_string_split}
use shujugongxiang.Mysql.{ConInfo}

-- The value of a section's key, with the default for a missing one.
abbrev pub Ini : Type 0
Ini = Text → Text → Text → Text

-- `m_mysqlLogin`, `m_aryFileName`, `m_fileName`.
pub record Settings : Type 0 where
  pub mysql_login : ConInfo
  pub ary_file_name : List Text
  pub file_name : Text

-- The character at the buffer's start, which ends an empty text.
pub first_char : Text → ℕ
first_char [] = 0
first_char (c ∷ text) = c

unfoldable pub last_name : List Text → Text
last_name [] = []
last_name (name ∷ []) = name
last_name (name ∷ next ∷ names) = last_name (next ∷ names)

pub read_login : Ini → (Text → ℕ) → ConInfo
read_login ini atoi =
    let field = λ (key default : Text). ini (codes "DATABASE") key default in
    record {
      server = field (codes "server") (codes "127.0.0.1");
      user = field (codes "username") (codes "root");
      password = field (codes "password") (codes "root");
      database = field (codes "database") (codes "userDB");
      port = atoi (field (codes "port") (codes "3306"));
    }

abbrev pub phone_path : Ini → Text
phone_path ini = ini (codes "PHONE") (codes "path") []

abbrev pub phone_split : Ini → ℕ
phone_split ini = first_char (ini (codes "PHONE") (codes "split") [])

abbrev pub phone_type : Ini → Text
phone_type ini = ini (codes "PHONE") (codes "type") []

-- After the path was split.
pub with_names : Text → List Text → Settings → Bool × Settings
with_names type names s =
    let s' = record s { ary_file_name = names } in
    if is_empty names || is_empty type
    then (false, s')
    else (true, record s' { file_name = last_name names ++ type })

-- `none` is a recursion of MyStringSplit deeper than the fuel.
pub init_config : ℕ → Ini → (Text → ℕ) → Settings → Option (Bool × Settings)
init_config fuel ini atoi s =
    elim (my_string_split fuel (phone_path ini) s.ary_file_name (phone_split ini)) [
      | none ↦ none
      | some names ↦
          some (with_names (phone_type ini) names (record s { mysql_login = read_login ini atoi }))
    ]
