-- ===== src/Verify.antt =====
-- The licence check of `WPD_MTP_data/verity/MyVerify.cpp`. The adapters that GetAdaptersInfo lists,
-- CStringA::Trim, the file and the memory of each MD5 object are parameters. A text is the list of
-- its characters, none of them NUL where it goes to MD5.
pub mod Licence
pub mod Issue
use shujugongxiang.Prelude.{
  ℕ, suc, ◌+◌, ◌/◌, ◌%◌, Bool, true, false, ◌&&◌, Option, none, some, List, [], ◌∷◌, ◌++◌, map, not,
  ltb, ◌==◌, length, get_or, if◌then◌else◌,
}
use shujugongxiang.Md5.Context.{Md5, reset, update, to_string, construct}
use shujugongxiang.Text.Defs.{Text, codes, is_empty, text_eq}

-- `m_strFileName`.
unfoldable pub file_name : Text
file_name = codes "KLD_license"

unfoldable pub upper_hex : List ℕ
upper_hex = codes "0123456789ABCDEF"

-- "%02X" of a byte.
unfoldable pub hex_byte : ℕ → Text
unfolding upper_hex
hex_byte b = get_or upper_hex (b / 16) 0 ∷ get_or upper_hex (b % 16) 0 ∷ []

-- The bytes of an address with "-" between them.
unfoldable pub mac_text : List ℕ → Text
unfolding hex_byte
mac_text [] = []
mac_text (b ∷ []) = hex_byte b
mac_text (b ∷ c ∷ bytes) = hex_byte b ++ (codes "-" ++ mac_text (c ∷ bytes))

-- The object's `EncryptStrMD5`: an empty text stays empty.
pub encrypt_str_md5 : Md5 → Text → Text
encrypt_str_md5 memory input =
    if not (is_empty input) then (to_string (update (construct memory) input)).1 else input

-- `CStringA strMac(buf)`: the bytes before the first NUL.
pub until_nul : List ℕ → Text
until_nul [] = []
until_nul (c ∷ cs) = let rest = until_nul cs in if c == 0 then [] else c ∷ rest

-- The loop over the addresses: one MD5 object, reset after each.
pub find_license : Md5 → List Text → Text → Bool
find_license md [] code = false
find_license md (mac ∷ macs) code =
    let (md', hex) = to_string (update md (mac ++ file_name)) in
    let rest = find_license (reset md') macs code in if text_eq hex code then true else rest

module _ (trim : Text → Text) where
  -- `GetLocoalIPandMac`: the addresses are added to those of earlier calls; `none` is a failed
  -- GetAdaptersInfo.
  unfoldable pub get_local_mac : Option (List (List ℕ)) → List Text → Bool × List Text
  get_local_mac none macs = (false, macs)
  get_local_mac (some adapters) macs =
      (ltb 0 (length adapters), macs ++ map (λ address. trim (mac_text address)) adapters)

  pub first_mac : List Text → Text
  first_mac [] = []
  first_mac (mac ∷ macs) = mac

  -- `ReturnPcMac`.
  pub return_pc_mac : Option (List (List ℕ)) → List Text → Text × List Text
  return_pc_mac adapters macs =
      let (ready, macs') = get_local_mac adapters macs in
      (if ready then first_mac macs' else [], macs')

  -- `GetEncryptStr`: of this machine's first address, or of the one given.
  pub get_encrypt_str : Md5 → Option (List (List ℕ)) → Text → List Text → Text × List Text
  get_encrypt_str memory adapters input macs =
      let (ready, found) = get_local_mac adapters macs in
      let macs' = if is_empty input then found else macs in
      let text =
        if is_empty input
        then (if ready then first_mac found ++ file_name else [])
        else input ++ file_name in
      (if not (is_empty text) then (to_string (update (construct memory) text)).1 else [], macs')

  pub read_license : Md5 → List Text → Option (List ℕ) → Bool
  read_license memory macs none = false
  read_license memory macs (some bytes) =
      if ltb 0 (length bytes)
      then find_license (construct memory) macs (trim (until_nul bytes))
      else false

  -- `VerityExe`, with the content of the licence file if it can be opened.
  pub verity_exe : Md5 → Option (List (List ℕ)) → Option (List ℕ) → List Text → Bool × List Text
  verity_exe memory adapters file macs =
      let (ready, macs') = get_local_mac adapters macs in
      let checked = read_license memory macs' file in (if ready then checked else false, macs')

  -- `WriteAndVerityExe`, with whether the file can be created: the result, the addresses, and what
  -- is written.
  pub write_and_verity_exe :
      Md5 → Option (List (List ℕ)) → Bool → Text → List Text → Bool × List Text × Option Text
  write_and_verity_exe memory adapters can_create code macs =
      let (ready, macs') = get_local_mac adapters macs in
      let found = find_license (construct memory) macs' (trim code) in
      if ready && found
      then (true, macs', if can_create then some (trim code) else none)
      else (false, macs', none)
