-- ===== src/Settings/Names.antt =====
-- The name of the phone's file that `InitConfig` of WPD_MTP_dataDlg.cpp configures.
use shujugongxiang.Prelude.{
  ℕ, zero, suc, ◌<◌, ◌≡◌, refl, ap, sym, Bool, ◌&&◌, not, some, List, [], ◌∷◌, ◌++◌, length, inl,
  inr, Bool-cases, if◌then◌else◌, arith,
}
use shujugongxiang.Text.Defs.{Text, is_empty}
use shujugongxiang.Text.Split.{my_string_split, split-nil, Cuts, my_string_split-Cuts}
use shujugongxiang.Settings.{
  Ini, Settings, last_name, read_login, phone_path, phone_split, phone_type, with_names,
  init_config,
}

-- There are no pieces exactly for an empty path.
pieces-empty :
    (fuel division : ℕ) (path : Text) (names : List Text)
    → my_string_split fuel path [] division ≡ some names
    → length path < fuel
    → Cuts division path names
    → is_empty names ≡ is_empty path
pieces-empty zero division path names e enough cuts = absurd (omega arith)
pieces-empty (suc fuel) division [] names e enough cuts =
    let none_left : [] ≡ names = cc (e, split-nil fuel [] division) in sym (ap is_empty none_left)
pieces-empty (suc fuel) division (c ∷ path) [] e enough cuts = cc (cuts.no_pieces refl)
pieces-empty (suc fuel) division (c ∷ path) (name ∷ names) e enough cuts = refl

-- What is read, and what comes of it.
abbrev pub Configured : Ini → (Text → ℕ) → Settings → List Text → Bool × Settings → Type 0
Configured ini atoi s names result =
    (result.0 ≡ (not (is_empty (phone_path ini)) && not (is_empty (phone_type ini))))
    × (result.1.mysql_login ≡ read_login ini atoi)
    × (result.1.ary_file_name ≡ names)
    × (result.1.file_name ≡ (if result.0 then last_name names ++ phone_type ini else s.file_name))

with_names-Configured :
    (ini : Ini) (atoi : Text → ℕ) (s : Settings) (names : List Text)
    → is_empty names ≡ is_empty (phone_path ini)
    → Configured ini atoi s names
        (with_names (phone_type ini) names (record s { mysql_login = read_login ini atoi }))
unfolding with_names
with_names-Configured ini atoi s names e = rw (sym e) (elim (Bool-cases (is_empty names)) [
  | inl none_left ↦ rw none_left (refl, refl, refl, refl)
  | inr some_left ↦ elim (Bool-cases (is_empty (phone_type ini))) [
    | inl no_type ↦ rw (some_left, no_type) (refl, refl, refl, refl)
    | inr typed ↦ rw (some_left, typed) (refl, refl, refl, refl)
  ]
])

-- Started with no names, and with fuel above the length of the path, InitConfig ends; it reads the login
-- with its defaults, cuts the path at the separator into names, and returns TRUE exactly if a path and a
-- type are configured. Then the phone's file is named by the last name and the type; otherwise the
-- name of the file stays.
pub init_config_lem :
    (fuel : ℕ) (ini : Ini) (atoi : Text → ℕ) (s : Settings)
    → s.ary_file_name ≡ []
    → length (phone_path ini) < fuel
    → (names : List Text) × Cuts (phone_split ini) (phone_path ini) names
      × ((result : Bool × Settings) × (init_config fuel ini atoi s ≡ some result)
          × Configured ini atoi s names result)
unfolding init_config with_names
init_config_lem fuel ini atoi s fresh enough =
    let (names, split, cuts) =
      my_string_split-Cuts fuel (phone_path ini) [] (phone_split ini) enough in
    (
      names,
      cuts,
      (
        with_names (phone_type ini) names (record s { mysql_login = read_login ini atoi }),
        rw (fresh, split, init_config) refl,
        with_names-Configured ini atoi s names
            (pieces-empty fuel (phone_split ini) (phone_path ini) names split enough cuts),
      ),
    )
