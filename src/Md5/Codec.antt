-- ===== src/Md5/Codec.antt =====
-- `MD5::encode`, `MD5::decode` and `MD5::bytesToHexString` of `WPD_MTP_data/verity/MyMd5.cpp`.
pub mod Roundtrip
use shujugongxiang.Prelude.{
  ℕ, suc, ◌+◌, ◌*◌, ◌/◌, ◌%◌, ◌^◌, ◌<◌, ◌≡◌, refl, ap₂, bit_and, bit_or, List, [], ◌∷◌, ◌++◌,
  length, get_or, shl, shr, u8, u32, or-shl, and-mask, arith,
}

-- The length of the output array is that of the list of words.
unfoldable pub encode : List ℕ → List ℕ
encode [] = []
encode (w ∷ ws) =
    u8 (bit_and w 0xff)
    ∷ u8 (bit_and (shr w 8) 0xff)
    ∷ u8 (bit_and (shr w 16) 0xff)
    ∷ u8 (bit_and (shr w 24) 0xff)
    ∷ encode ws

unfoldable pub join_word : ℕ → ℕ → ℕ → ℕ → ℕ
join_word b0 b1 b2 b3 =
    bit_or (bit_or (bit_or b0 (u32 (shl b1 8))) (u32 (shl b2 16))) (u32 (shl b3 24))

-- "Assumes length is a multiple of 4": a rest of fewer bytes is left out.
unfoldable pub decode : List ℕ → List ℕ
decode (b0 ∷ b1 ∷ b2 ∷ b3 ∷ bytes) = join_word b0 b1 b2 b3 ∷ decode bytes
decode _ = []

unfoldable pub hex_digits : List ℕ
hex_digits =
    b'0' ∷ b'1' ∷ b'2' ∷ b'3' ∷ b'4' ∷ b'5' ∷ b'6' ∷ b'7' ∷ b'8' ∷ b'9' ∷ b'a' ∷ b'b' ∷ b'c' ∷ b'd'
    ∷ b'e' ∷ b'f' ∷ []

unfoldable pub bytes_to_hex : List ℕ → List ℕ
unfolding hex_digits
bytes_to_hex [] = []
bytes_to_hex (t ∷ ts) =
    get_or hex_digits (t / 16) 0 ∷ get_or hex_digits (t % 16) 0 ∷ bytes_to_hex ts
