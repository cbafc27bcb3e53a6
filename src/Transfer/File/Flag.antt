-- ===== src/Transfer/File/Flag.antt =====
-- That the transfer functions of WPD_MTP_dataDlg.cpp leave `m_threadFlag` as it is.
use shujugongxiang.Prelude.{
  ℕ, zero, suc, ◌≡◌, refl, ◌∙◌, Bool, false, ◌&&◌, not, Option, none, some, List, [], ◌∷◌, ◌++◌,
  inl, inr, Bool-cases,
}
use shujugongxiang.Text.Defs.{Text, codes, text_eq}
use shujugongxiang.Sync.World.{Env}
use shujugongxiang.Transfer.World.{
  open_device, open_content, file_exists, copy_file, delete_object, send_object, delete_file,
  DeviceEnv, Dialog, add_call, pure, ◌>>◌, show,
}
use shujugongxiang.Transfer.File.{
  Config, local_path, missing_file, forget_ids, keep_copy, find_objects, open_file, fetch_file,
  fetch_found, fetch_from, fetch_chosen, begin_phone_to_pc, begin_pc_to_phone, replace_file,
  reback_on, begin_reback_data,
}

abbrev pub Keeps : Dialog → Dialog → Type 0
Keeps s s' = s'.thread_flag ≡ s.thread_flag

keep_copy-Keeps : (name device : Text) (s : Dialog) → Keeps s (keep_copy name device s).1
unfolding keep_copy
keep_copy-Keeps name device s = elim (Bool-cases s.clear_flag) [
  | inl cleared ↦ rw cleared refl
  | inr other ↦ rw other refl
]

module _ (env : Env) (dev : DeviceEnv) where
  find_objects-Keeps :
      (index : ℕ) (names : List Text) (dir file : Text) (s : Dialog)
      → Keeps s (find_objects env dev index names dir file s).1
  unfolding find_objects
  find_objects-Keeps index [] dir file s = refl
  find_objects-Keeps zero (name ∷ names) dir file s = find_objects-Keeps 1 names _ file _
  find_objects-Keeps (suc zero) (name ∷ names) dir file s = find_objects-Keeps 2 names dir _ _
  find_objects-Keeps (suc (suc index)) (name ∷ names) dir file s =
      find_objects-Keeps (suc (suc (suc index))) names file _ _

  open_file-Keeps : (config : Config) (s : Dialog) → Keeps s (open_file env dev config s).1
  unfolding open_file
  open_file-Keeps config s =
      let s1 = record s { calls = s.calls ++ (open_content ∷ []) } in
      let found = find_objects env dev 0 config.path_names [] [] s1 in
      let searched = find_objects-Keeps 0 config.path_names [] [] s1 in
      elim (Bool-cases (dev.done s.calls s.sync.calls open_content)) [
        | inl content ↦ elim (Bool-cases (missing_file found.0)) [
          | inl missing ↦ rw (content, missing) searched
          | inr there ↦ rw (content, there) searched
        ]
        | inr refused ↦ rw refused refl
      ]

  fetch_found-Keeps :
      (config : Config) (device : Text) (found : Option (Text × Text)) (s : Dialog)
      → Keeps s (fetch_found env dev config device found s).1
  unfolding fetch_found fetch_file
  fetch_found-Keeps config device none s = refl
  fetch_found-Keeps config device (some ids) s = keep_copy-Keeps config.clock device _

  -- The rest of both functions that open the device, with what comes before a failure.
  opened-Keeps :
      (config : Config) (s : Dialog) (next : Option (Text × Text) → Dialog → Bool × Dialog)
      → ((found : Option (Text × Text)) (s' : Dialog) → Keeps s' (next found s').1)
      → Keeps s (next (open_file env dev config s).0 (open_file env dev config s).1).1
  opened-Keeps config s next keeps =
      keeps (open_file env dev config s).0 (open_file env dev config s).1 ∙ open_file-Keeps config s

  fetch_from-Keeps :
      (config : Config) (device : Text) (s : Dialog)
      → Keeps s (fetch_from env dev config device s).1
  unfolding fetch_from forget_ids
  fetch_from-Keeps config device s =
      let s1 = add_call (delete_file (local_path config)) s in
      let stored = dev.stores_device s1.calls s.sync.calls device in
      elim (Bool-cases (not (dev.done s1.calls s.sync.calls (open_device device)) && not stored)) [
        | inl failed ↦ rw failed refl
        | inr there ↦ rw there (
            opened-Keeps config _ (fetch_found env dev config device)
              (fetch_found-Keeps config device))
      ]

  fetch_chosen-Keeps :
      (config : Config) (choice : Option Text) (s : Dialog)
      → Keeps s (fetch_chosen env dev config choice s).1
  unfolding fetch_chosen
  fetch_chosen-Keeps config none s = refl
  fetch_chosen-Keeps config (some device) s = fetch_from-Keeps config device s

  pub begin_phone_to_pc-Keeps :
      (config : Config) (s : Dialog) → Keeps s (begin_phone_to_pc env dev config s).1
  unfolding begin_phone_to_pc
  begin_phone_to_pc-Keeps config s = fetch_chosen-Keeps config config.chosen s

  pub begin_pc_to_phone-Keeps : (s : Dialog) → Keeps s (begin_pc_to_phone env dev s).1
  unfolding begin_pc_to_phone
  begin_pc_to_phone-Keeps s = refl

  replace_file-Keeps : (path : Text) (s : Dialog) → Keeps s (replace_file env dev path s).1
  unfolding replace_file
  replace_file-Keeps path s =
      let s1 = record s { calls = s.calls ++ (delete_object s.file_id ∷ []) } in
      elim (Bool-cases (dev.done s1.calls s.sync.calls (send_object s.dir_id path))) [
        | inl sent ↦ rw sent refl
        | inr failed ↦ rw failed refl
      ]

  replace_found-Keeps :
      (config : Config) (found : Option (Text × Text)) (s : Dialog)
      → Keeps s
          (elim found as (λ _. Dialog → Bool × Dialog) [
            | none ↦ pure false
            | some ids ↦ replace_file env dev (local_path config)
          ]
            s).1
  replace_found-Keeps config none s = refl
  replace_found-Keeps config (some ids) s = replace_file-Keeps (local_path config) s

  reback_on-Keeps :
      (config : Config) (device : Text) (s : Dialog) → Keeps s (reback_on env dev config device s).1
  unfolding reback_on forget_ids
  reback_on-Keeps config device s =
      let stored = dev.stores_device s.calls s.sync.calls device in
      elim (Bool-cases (text_eq device s.clear_device_id)) [
        | inr other ↦ rw other refl
        | inl same ↦
            elim (Bool-cases
              (not (dev.done s.calls s.sync.calls (open_device device)) && not stored)) [
                | inl failed ↦ rw (same, failed) refl
                | inr there ↦
                    rw (same, there) (replace_found-Keeps config _ _ ∙ open_file-Keeps config _)
              ]
      ]

  reback_chosen-Keeps :
      (config : Config) (choice : Option Text) (s : Dialog)
      → Keeps s
          (elim choice as (λ _. Dialog → Bool × Dialog) [
            | none ↦ show env (codes "请选择一项设备") >> pure false
            | some device ↦ reback_on env dev config device
          ]
            s).1
  reback_chosen-Keeps config none s = refl
  reback_chosen-Keeps config (some device) s = reback_on-Keeps config device s

  pub begin_reback_data-Keeps :
      (config : Config) (path : Text) (s : Dialog)
      → Keeps s (begin_reback_data env dev config path s).1
  unfolding begin_reback_data
  begin_reback_data-Keeps config path s =
      let s1 = (show env (codes "开始恢复数据库!") s).1 in
      let s2 = add_call (file_exists path) s1 in
      elim (Bool-cases (dev.done s1.calls s1.sync.calls (file_exists path))) [
        | inr missing ↦ rw missing refl
        | inl there ↦
            elim (Bool-cases
              (dev.done s2.calls s2.sync.calls (copy_file path (local_path config)))) [
                | inl copied ↦ rw (there, copied) (reback_chosen-Keeps config config.chosen _)
                | inr failed ↦ rw (there, failed) refl
              ]
      ]
