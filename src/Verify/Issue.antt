-- ===== src/Verify/Issue.antt =====
-- The licence that `GetEncryptStr` of MyVerify.cpp gives out.
use shujugongxiang.Prelude.{
  ℕ, ◌≡◌, refl, ap, subst, ◌∙◌, Bool, true, false, some, List, [], ◌∷◌, ◌++◌, map, ltb, length, All,
  arith,
}
use shujugongxiang.Md5.Context.{Md5, update, construct, construct_string}
use shujugongxiang.Md5.Context.Message.{to_string-construct_string}
use shujugongxiang.Text.Defs.{Text, is_empty, text_eq_refl}
use shujugongxiang.Verify.{
  file_name, mac_text, get_local_mac, first_mac, get_encrypt_str, write_and_verity_exe,
}
use shujugongxiang.Verify.Licence.{license, accepts, IsShortMac, write_and_verity_exe_lem}

with_name : (mac : Text) → is_empty (mac ++ file_name) ≡ false
unfolding file_name
with_name [] = refl
with_name (c ∷ mac) = refl

construct-update :
    (memory : Md5) (text : List ℕ) → construct_string memory text ≡ update (construct memory) text
unfolding construct_string
construct-update memory text = refl

module _ (trim : Text → Text) where
  local_mac-some :
      (address : List ℕ) (others : List (List ℕ))
      → get_local_mac trim (some (address ∷ others)) []
        ≡ (true, trim (mac_text address) ∷ map (λ a. trim (mac_text a)) others)
  unfolding get_local_mac
  local_mac-some address others =
      let any : ltb 0 (length (address ∷ others)) ≡ true = ground arith in
      ap (λ b. (b, trim (mac_text address) ∷ map (λ a. trim (mac_text a)) others)) any

  issued :
      (memory : Md5) (address : List ℕ) (others : List (List ℕ))
      → length memory.buffer ≡ 64
      → IsShortMac (trim (mac_text address))
      → (get_encrypt_str trim memory (some (address ∷ others)) [] []).0
        ≡ license (trim (mac_text address))
  unfolding get_encrypt_str license first_mac
  issued memory address others full short =
      rw
        (
          local_mac-some address others,
          with_name (trim (mac_text address)),
          ← construct-update memory (trim (mac_text address) ++ file_name),
        )
        (to_string-construct_string memory (trim (mac_text address) ++ file_name) full short)

  -- On a machine with an adapter, `GetEncryptStr` of the empty text gives a code that
  -- `WriteAndVerityExe` takes on that machine. Trimming must not change that code, and the addresses
  -- must be short enough for the 32-bit length of MD5.
  pub write_and_verity_exe-get_encrypt_str :
      (memory memory' : Md5) (address : List ℕ) (others : List (List ℕ)) (can_create : Bool)
      → length memory.buffer ≡ 64
      → length memory'.buffer ≡ 64
      → All IsShortMac (get_local_mac trim (some (address ∷ others)) []).1
      → let adapters = some (address ∷ others) in
        let code = (get_encrypt_str trim memory adapters [] []).0 in
        trim code ≡ code → (write_and_verity_exe trim memory' adapters can_create code []).0 ≡ true
  unfolding accepts
  write_and_verity_exe-get_encrypt_str memory memory' address others can_create full full' short e =
      let adapters = some (address ∷ others) in
      let code = (get_encrypt_str trim memory adapters [] []).0 in
      let first : All IsShortMac (trim (mac_text address) ∷ map (λ a. trim (mac_text a)) others) =
        subst (λ r. All IsShortMac r.1) (local_mac-some address others) short in
      let is_license = issued memory address others full first.0 in
      ap (λ r. r.0) (write_and_verity_exe_lem trim memory' adapters can_create code [] full' short)
      ∙ rw
          (
            local_mac-some address others,
            e,
            is_license,
            text_eq_refl (license (trim (mac_text address))),
          )
          refl
