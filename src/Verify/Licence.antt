-- ===== src/Verify/Licence.antt =====
-- Which codes MyVerify.cpp accepts as a licence of this machine.
use shujugongxiang.Prelude.{
  ℕ, zero, suc, subst, not, each_below, each_below-get, ◌/◌, ◌%◌, ◌<◌, ◌≡◌, refl, ap, ap₂, sym, ◌∙◌,
  inl, inr, Bool, true, false, ◌&&◌, Option, none, some, List, [], ◌∷◌, ◌++◌, ltb, ◌==◌, length,
  get_or, All, All-append, Bool-cases, if◌then◌else◌, arith,
}
use shujugongxiang.Md5.Codec.{bytes_to_hex, hex_digits}
use mathlib.Core.Bool.{false≢true}
use shujugongxiang.Md5.Codec.Roundtrip.{IsByte}
use shujugongxiang.Md5.Transform.{State}
use shujugongxiang.Md5.Spec.{md5, le_bytes, state_bytes}
use shujugongxiang.Md5.Context.{Md5, reset, update, digest, to_string, construct}
use shujugongxiang.Md5.Context.Update.{Holds, reset-Holds, update-Holds}
use shujugongxiang.Md5.Context.Digest.{digest-md5, digest-buffer}
use shujugongxiang.Md5.Context.Message.{IsShort, finished-update}
use shujugongxiang.Text.Defs.{Text, text_eq, text_eq_sound}
use shujugongxiang.Verify.{
  file_name, until_nul, find_license, get_local_mac, verity_exe, read_license, write_and_verity_exe,
}

-- The specification: the licence of an address, and the codes that a list of addresses accepts.
unfoldable pub license : Text → Text
license mac = bytes_to_hex (md5 (mac ++ file_name))

unfoldable pub accepts : List Text → Text → Bool
accepts [] code = false
accepts (mac ∷ macs) code = if text_eq (license mac) code then true else accepts macs code

abbrev pub IsShortMac : Text → Type 0
IsShortMac mac = IsShort (mac ++ file_name)

find_license-cons :
    (md : Md5) (mac : Text) (macs : List Text) (code : Text)
    → find_license md (mac ∷ macs) code ≡ (
        if text_eq (to_string (update md (mac ++ file_name))).1 code
        then true
        else find_license (reset (to_string (update md (mac ++ file_name))).0) macs code)
unfolding find_license
find_license-cons md mac macs code = refl

-- What the loop needs of its MD5 object, and keeps.
abbrev IsFresh : Md5 → Type 0
IsFresh md = Holds md []

license-to_string :
    (md : Md5) (mac : Text)
    → IsShortMac mac
    → IsFresh md
    → ((to_string (update md (mac ++ file_name))).1 ≡ license mac)
      × IsFresh (reset (to_string (update md (mac ++ file_name))).0)
unfolding to_string license
license-to_string md mac short fresh =
    let text = mac ++ file_name in
    let holds = update-Holds md [] text short fresh in
    let flag = finished-update md text in
    let full = digest-buffer (update md text) text flag holds in
    (
      ap bytes_to_hex (digest-md5 (update md text) text flag holds),
      reset-Holds (digest (update md text)).0 full,
    )

find_license-nil : (md : Md5) (code : Text) → find_license md [] code ≡ false
unfolding find_license
find_license-nil md code = refl

find_license-accepts :
    (macs : List Text) (md : Md5) (code : Text)
    → All IsShortMac macs
    → IsFresh md
    → find_license md macs code ≡ accepts macs code
unfolding accepts
find_license-accepts [] md code short fresh = find_license-nil md code
find_license-accepts (mac ∷ macs) md code short fresh =
    let step = license-to_string md mac short.0 fresh in
    find_license-cons md mac macs code
    ∙ ap₂ (λ hex rest. if text_eq hex code then true else rest) step.0
        (find_license-accepts macs (reset (to_string (update md (mac ++ file_name))).0) code short.1
          step.1)

license_loop :
    (memory : Md5) (macs : List Text) (code : Text)
    → length memory.buffer ≡ 64
    → All IsShortMac macs
    → find_license (construct memory) macs code ≡ accepts macs code
unfolding construct
license_loop memory macs code full short =
    find_license-accepts macs (reset memory) code short (reset-Holds memory full)

-- A text that survives the way through the file: no NUL in it, and not empty.
abbrev HasShape : Text → Type 0
HasShape t = (until_nul t ≡ t) × (ltb 0 (length t) ≡ true)

until_nul-cons : (c : ℕ) (t : Text) → (c == 0) ≡ false → until_nul t ≡ t → until_nul (c ∷ t) ≡ c ∷ t
unfolding until_nul
until_nul-cons c t h e = rw (h, e) refl

until_nul-nil : until_nul [] ≡ []
unfolding until_nul
until_nul-nil = refl

hex_digits_nonzero : each_below (λ d. not (get_or hex_digits d 0 == 0)) 16 ≡ true
unfolding each_below hex_digits
hex_digits_nonzero = refl

hex_digit_nonzero : (d : ℕ) → d < 16 → (get_or hex_digits d 0 == 0) ≡ false
hex_digit_nonzero d h =
    let table =
      each_below-get (λ d. not (get_or hex_digits d 0 == 0)) 16 hex_digits_nonzero {k = d} h in
    elim (Bool-cases (get_or hex_digits d 0 == 0)) [
      | inl zero_digit ↦ absurd (ground (arith, table, zero_digit))
      | inr other ↦ other
    ]

until_nul-bytes_to_hex :
    (bytes : List ℕ) → All IsByte bytes → until_nul (bytes_to_hex bytes) ≡ bytes_to_hex bytes
unfolding bytes_to_hex
until_nul-bytes_to_hex [] h = until_nul-nil
until_nul-bytes_to_hex (b ∷ bytes) h =
    let rest = until_nul-bytes_to_hex bytes h.1 in
    until_nul-cons (get_or hex_digits (b / 16) 0) _ (hex_digit_nonzero (b / 16) (omega arith)) (
      until_nul-cons (get_or hex_digits (b % 16) 0) _ (hex_digit_nonzero (b % 16) (omega arith))
        rest)

le_bytes-IsByte : (k n : ℕ) → All IsByte (le_bytes k n)
unfolding le_bytes
le_bytes-IsByte zero n = tt
le_bytes-IsByte (suc k) n = (omega arith, le_bytes-IsByte k (n / 256))

state_bytes-IsByte : (w : State) → All IsByte (state_bytes w)
unfolding state_bytes
state_bytes-IsByte w = All-append IsByte (le_bytes 4 w.a) _ (le_bytes-IsByte 4 w.a) (
    All-append IsByte (le_bytes 4 w.b) _ (le_bytes-IsByte 4 w.b) (
      All-append IsByte (le_bytes 4 w.c) (le_bytes 4 w.d) (le_bytes-IsByte 4 w.c)
        (le_bytes-IsByte 4 w.d)))

state_hex-HasShape : (w : State) → HasShape (bytes_to_hex (state_bytes w))
unfolding bytes_to_hex state_bytes le_bytes
state_hex-HasShape w = (until_nul-bytes_to_hex (state_bytes w) (state_bytes-IsByte w), ground arith)

license-HasShape : (mac : Text) → HasShape (license mac)
unfolding license md5
license-HasShape mac = state_hex-HasShape _

accepts-HasShape : (macs : List Text) (code : Text) → accepts macs code ≡ true → HasShape code
unfolding accepts
accepts-HasShape [] code h = absurd (false≢true h)
accepts-HasShape (mac ∷ macs) code h = elim (Bool-cases (text_eq (license mac) code)) [
  | inl same ↦ subst HasShape (text_eq_sound (license mac) code same) (license-HasShape mac)
  | inr other ↦ accepts-HasShape macs code (rw other at h)
]

written_parts :
    (ready ok : Bool) (code file : Text)
    → (if ready && ok && true then some code else none) ≡ some file
    → (ready ≡ true) × (ok ≡ true) × (code ≡ file)
written_parts true true code file e = (refl, refl, (cc))
written_parts true false code file e = absurd (ground (arith, e))
written_parts false ok code file e = absurd (ground (arith, e))

module _ (trim : Text → Text) where
  -- The code that was typed in is taken, and written to the file without blanks around it if the file
  -- can be created, exactly if the adapters could be read and the code, without blanks around it, is
  -- the licence of one of their addresses: the MD5 in hexadecimal of the address and the file's name.
  pub write_and_verity_exe_lem :
      (memory : Md5) (adapters : Option (List (List ℕ))) (can_create : Bool) (code : Text)
      (macs : List Text)
      → length memory.buffer ≡ 64
      → let found = get_local_mac trim adapters macs in
        All IsShortMac found.1
        → write_and_verity_exe trim memory adapters can_create code macs ≡ (
            let taken = found.0 && accepts found.1 (trim code) in
            (taken, found.1, (if taken && can_create then some (trim code) else none)))
  unfolding write_and_verity_exe
  write_and_verity_exe_lem memory adapters can_create code macs full short =
      rw (license_loop memory (get_local_mac trim adapters macs).1 (trim code) full short)
        (ground arith)

  verity-read :
      (memory : Md5) (adapters : Option (List (List ℕ))) (macs : List Text) (file : Text)
      → let found = get_local_mac trim adapters macs in
        (verity_exe trim memory adapters (some file) macs).0 ≡ (
          if found.0
          then (if ltb 0 (length file)
              then find_license (construct memory) found.1 (trim (until_nul file))
              else false)
          else false)
  unfolding verity_exe read_license
  verity-read memory adapters macs file = refl

  -- A code that was taken and written starts the program from then on: with the same adapters, the
  -- file that was written is accepted. Trimming twice must be trimming once.
  pub verity_exe-write_and_verity_exe :
      (memory memory' : Md5) (adapters : Option (List (List ℕ))) (code : Text) (macs : List Text)
      (file : Text)
      → length memory.buffer ≡ 64
      → length memory'.buffer ≡ 64
      → All IsShortMac (get_local_mac trim adapters macs).1
      → ((t : Text) → trim (trim t) ≡ trim t)
      → (write_and_verity_exe trim memory adapters true code macs).2 ≡ some file
      → (verity_exe trim memory' adapters (some file) macs).0 ≡ true
  verity_exe-write_and_verity_exe memory memory' adapters code macs file full full' short idem e =
      let found = get_local_mac trim adapters macs in
      let parts = written_parts found.0 (accepts found.1 (trim code)) (trim code) file (
        sym (ap (λ r. r.2) (write_and_verity_exe_lem memory adapters true code macs full short))
        ∙ e) in
      let licensed : accepts found.1 file ≡ true =
        ap (λ t. accepts found.1 t) (sym parts.2) ∙ parts.1 in
      let shape = accepts-HasShape found.1 file licensed in
      let trimmed : trim file ≡ file = ap trim (sym parts.2) ∙ idem code ∙ parts.2 in
      rw (verity-read memory' adapters macs file, parts.0, shape.1, shape.0, trimmed)
        (license_loop memory' found.1 file full' short ∙ licensed)
