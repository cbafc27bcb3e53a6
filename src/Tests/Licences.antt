-- ===== src/Tests/Licences.antt =====
-- The licence check of MyVerify.cpp, and the deletion tree of WPD_MTP_dataDlg.cpp, on concrete data.
use shujugongxiang.Prelude.{
  ℕ, ◌-◌, ◌≡◌, refl, ap, ◌∙◌, ◌↔◌, true, false, ◌&&◌, Option, none, some, List, [], ◌∷◌, replicate,
  if◌then◌else◌, arith,
}
use shujugongxiang.Md5.Context.{Md5, initial_state}
use shujugongxiang.Text.Defs.{Text, codes, text_eq_refl}
use shujugongxiang.Verify.{
  file_name, mac_text, hex_byte, upper_hex, get_local_mac, verity_exe, write_and_verity_exe,
}
use shujugongxiang.Verify.Licence.{
  license, accepts, write_and_verity_exe_lem, verity_exe-write_and_verity_exe,
}
use shujugongxiang.Cascade.{
  kind_areas, kind_devices, Tree, node, null, real_flag, want_flag, is_kind,
  delete_area_and_device_find_id,
}
use shujugongxiang.Cascade.Members.{IsKey, DoomedId, keys_of}
use shujugongxiang.Cascade.Build.{Maps}
use shujugongxiang.Cascade.Doomed.{nothing_found, delete_area_and_device_find_id_lem}

abbrev memory : Md5
memory = record {
  state = initial_state;
  count0 = 0;
  count1 = 0;
  buffer = replicate 64 0;
  digest_bytes = [];
  finished = false;
}

-- Addresses and codes without blanks.
abbrev keep : Text → Text
keep t = t

abbrev one_adapter : Option (List (List ℕ))
one_adapter = some ((0x00 ∷ 0x1a ∷ 0xff ∷ []) ∷ [])

write_and_verity_exe_lem_example :
    write_and_verity_exe keep memory one_adapter true (codes "0123") [] ≡ (
      let found = get_local_mac keep one_adapter [] in
      let taken = found.0 && accepts found.1 (codes "0123") in
      (taken, found.1, (if taken && true then some (codes "0123") else none)))
unfolding get_local_mac mac_text hex_byte upper_hex file_name
write_and_verity_exe_lem_example =
    write_and_verity_exe_lem keep memory one_adapter true (codes "0123") [] refl (omega arith, tt)

abbrev own_license : Text
own_license = license (codes "00-1A-FF")

own_license_written :
    (write_and_verity_exe keep memory one_adapter true own_license []).2 ≡ some own_license
unfolding get_local_mac mac_text hex_byte upper_hex file_name accepts
own_license_written =
    ap (λ r. r.2)
      (write_and_verity_exe_lem keep memory one_adapter true own_license [] refl (omega arith, tt))
    ∙ rw (text_eq_refl own_license) refl

verity_exe-write_and_verity_exe_example :
    (verity_exe keep memory one_adapter (some own_license) []).0 ≡ true
unfolding get_local_mac mac_text hex_byte upper_hex file_name
verity_exe-write_and_verity_exe_example =
    verity_exe-write_and_verity_exe keep memory memory one_adapter own_license [] own_license refl
      refl (omega arith, tt) (λ t. refl) own_license_written

abbrev pub device_tree : Tree
device_tree =
    node
      (record {
        id = codes "1";
        parent_id = codes "0";
        name = [];
        kind = kind_areas;
        delete_flag = true;
        delete_text = codes "3";
      })
      (node
        (record {
          id = codes "7";
          parent_id = codes "1";
          name = [];
          kind = kind_devices;
          delete_flag = false;
          delete_text = [];
        })
        null null)
      null

delete_area_and_device_find_id_lem_example :
    let result = delete_area_and_device_find_id device_tree (nothing_found, nothing_found) in
    (IsKey (codes "7") (keys_of kind_devices result.0)
      ↔ DoomedId real_flag kind_devices (codes "7") device_tree)
    × (IsKey (codes "7") (keys_of kind_devices result.1)
        ↔ DoomedId want_flag kind_devices (codes "7") device_tree)
unfolding is_kind
delete_area_and_device_find_id_lem_example =
    delete_area_and_device_find_id_lem device_tree kind_devices (codes "7") refl

-- Device 7 with device 8 below it.
abbrev device_maps : Maps
device_maps = record {
  kind = kind_devices;
  parents = (codes "8", codes "7") ∷ [];
  status = λ key. codes "3";
  name = λ key. [];
}

abbrev device_depth : Text → ℕ
device_depth [] = 0
device_depth (c ∷ key) = 56 - c
