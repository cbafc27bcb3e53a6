-- ===== src/Transfer/File/Writes.antt =====
-- The calls by which the transfer functions of WPD_MTP_dataDlg.cpp change the files on the device.
use shujugongxiang.Prelude.{
  ℕ, zero, suc, ◌≡◌, refl, ap, ◌∙◌, ◌&&◌, not, Option, none, some, List, [], ◌∷◌, ◌++◌, inl, inr,
  append-nil, append_assoc, Bool-cases,
}
use shujugongxiang.Text.Defs.{Text}
use shujugongxiang.Sync.World.{Env}
use shujugongxiang.Transfer.World.{
  DeviceCall, open_device, open_content, delete_object, send_object, delete_file, DeviceEnv, Dialog,
  add_call,
}
use shujugongxiang.Transfer.File.{
  Config, local_path, find_objects, missing_file, open_file, keep_copy, fetch_file, fetch_found,
  fetch_from, fetch_chosen, begin_phone_to_pc, begin_pc_to_phone, forget_ids,
}

-- Deleting and sending, in order.
unfoldable pub device_writes : List DeviceCall → List DeviceCall
device_writes [] = []
device_writes (delete_object id ∷ calls) = delete_object id ∷ device_writes calls
device_writes (send_object dir path ∷ calls) = send_object dir path ∷ device_writes calls
device_writes (_ ∷ calls) = device_writes calls

pub device_writes-append :
    (xs ys : List DeviceCall) → device_writes (xs ++ ys) ≡ device_writes xs ++ device_writes ys
unfolding device_writes
device_writes-append [] ys = refl
device_writes-append (delete_object id ∷ xs) ys =
    ap (λ l. delete_object id ∷ l) (device_writes-append xs ys)
device_writes-append (send_object dir path ∷ xs) ys =
    ap (λ l. send_object dir path ∷ l) (device_writes-append xs ys)
device_writes-append (_ ∷ xs) ys = device_writes-append xs ys

abbrev pub Quiet : Dialog → Dialog → Type 0
Quiet s s' = device_writes s'.calls ≡ device_writes s.calls

module _ (env : Env) (dev : DeviceEnv) where
  find_objects-Quiet :
      (index : ℕ) (names : List Text) (dir file : Text) (s : Dialog)
      → Quiet s (find_objects env dev index names dir file s).1
  unfolding find_objects device_writes
  find_objects-Quiet index [] dir file s = refl
  find_objects-Quiet zero (name ∷ names) dir file s =
      find_objects-Quiet 1 names _ file _ ∙ simp (device_writes-append, append-nil)
  find_objects-Quiet (suc zero) (name ∷ names) dir file s =
      find_objects-Quiet 2 names dir _ _ ∙ simp (device_writes-append, append-nil)
  find_objects-Quiet (suc (suc index)) (name ∷ names) dir file s =
      find_objects-Quiet (suc (suc (suc index))) names file _ _
      ∙ simp (device_writes-append, append-nil)

  open_file-Quiet : (config : Config) (s : Dialog) → Quiet s (open_file env dev config s).1
  unfolding open_file device_writes
  open_file-Quiet config s =
      let s1 = add_call open_content s in
      let opened : Quiet s s1 = simp (device_writes-append, append-nil) in
      let found = find_objects env dev 0 config.path_names [] [] s1 in
      let searched = find_objects-Quiet 0 config.path_names [] [] s1 ∙ opened in
      elim (Bool-cases (dev.done s.calls s.sync.calls open_content)) [
        | inl content ↦ elim (Bool-cases (missing_file found.0)) [
          | inl missing ↦ rw (content, missing) (simp (device_writes-append, append-nil) searched)
          | inr there ↦ rw (content, there) searched
        ]
        | inr failed ↦ rw failed opened
      ]

  fetch_file-Quiet :
      (config : Config) (device file : Text) (s : Dialog)
      → Quiet s (fetch_file env dev config device file s).1
  unfolding fetch_file keep_copy device_writes
  fetch_file-Quiet config device file s = elim (Bool-cases s.clear_flag) [
    | inl clearing ↦ rw clearing (simp (device_writes-append, append-nil))
    | inr other ↦ rw other (simp (device_writes-append, append-nil))
  ]

  fetch_found-Quiet :
      (config : Config) (device : Text) (found : Option (Text × Text)) (s : Dialog)
      → Quiet s (fetch_found env dev config device found s).1
  unfolding fetch_found
  fetch_found-Quiet config device none s = refl
  fetch_found-Quiet config device (some ids) s = fetch_file-Quiet config device ids.1 s

  fetch_from-Quiet :
      (config : Config) (device : Text) (s : Dialog)
      → Quiet s (fetch_from env dev config device s).1
  unfolding fetch_from forget_ids device_writes
  fetch_from-Quiet config device s =
      let s1 = add_call (delete_file (local_path config)) s in
      let stored = dev.stores_device s1.calls s.sync.calls device in
      let s2 = record (add_call (open_device device) s1) {
        dir_id = [];
        file_id = [];
        file_path = local_path config;
        has_device = stored;
      } in
      let opened : Quiet s s2 = simp (device_writes-append, append-nil) in
      elim (Bool-cases (not (dev.done s1.calls s.sync.calls (open_device device)) && not stored)) [
        | inl failed ↦ rw failed opened
        | inr there ↦ rw there (
            fetch_found-Quiet config device (open_file env dev config s2).0
              (open_file env dev config s2).1
            ∙ open_file-Quiet config s2
            ∙ opened)
      ]

  fetch_chosen-Quiet :
      (config : Config) (choice : Option Text) (s : Dialog)
      → Quiet s (fetch_chosen env dev config choice s).1
  unfolding fetch_chosen
  fetch_chosen-Quiet config none s = refl
  fetch_chosen-Quiet config (some device) s = fetch_from-Quiet config device s

  -- Bringing the file to the PC deletes and sends nothing.
  pub begin_phone_to_pc-Quiet :
      (config : Config) (s : Dialog) → Quiet s (begin_phone_to_pc env dev config s).1
  unfolding begin_phone_to_pc
  begin_phone_to_pc-Quiet config s = fetch_chosen-Quiet config config.chosen s

pub begin_pc_to_phone_lem :
    (env : Env) (dev : DeviceEnv) (s : Dialog)
    → device_writes (begin_pc_to_phone env dev s).1.calls
      ≡ device_writes s.calls ++ (delete_object s.file_id ∷ send_object s.dir_id s.file_path ∷ [])
unfolding begin_pc_to_phone device_writes
begin_pc_to_phone_lem env dev s = simp (device_writes-append, append-nil, append_assoc)
