-- ===== src/Md5/Codec/Roundtrip.antt =====
-- `encode` and `decode` of MyMd5.cpp are inverse to each other, and `bytesToHexString` loses nothing.
use shujugongxiang.Prelude.{
  ℕ, suc, ◌+◌, ◌*◌, ◌/◌, ◌%◌, ◌^◌, ◌<◌, ◌≡◌, refl, ap₂, sym, ◌∙◌, bit_and, List, [], ◌∷◌, zero, ◌-◌,
  true, ltb, ◌==◌, ==_iff, if◌then◌else◌, each_below, each_below-get, length, get_or, shl, shr, u8,
  u32, or-shl, and-mask, All, arith,
}
use shujugongxiang.Md5.Codec.{encode, decode, join_word, hex_digits, bytes_to_hex}

abbrev pub IsByte : ℕ → Type 0
IsByte b = b < 2 ^ 8

abbrev pub IsWord : ℕ → Type 0
IsWord w = w < 2 ^ 32

-- The four bytes of a word are its digits to the base 256.
pub join_word_sum :
    (b0 b1 b2 b3 : ℕ)
    → IsByte b0
    → IsByte b1
    → IsByte b2
    → IsByte b3
    → join_word b0 b1 b2 b3 ≡ b0 + b1 * 2 ^ 8 + b2 * 2 ^ 16 + b3 * 2 ^ 24
unfolding join_word
join_word_sum b0 b1 b2 b3 h0 h1 h2 h3 =
    let e1 : u32 (shl b1 8) ≡ shl b1 8 = omega arith in
    let e2 : u32 (shl b2 16) ≡ shl b2 16 = omega arith in
    let e3 : u32 (shl b3 24) ≡ shl b3 24 = omega arith in
    rw
      (
        e1,
        e2,
        e3,
        or-shl 8 b0 b1 h0,
        or-shl 16 (b0 + b1 * 2 ^ 8) b2 (omega arith),
        or-shl 24 (b0 + b1 * 2 ^ 8 + b2 * 2 ^ 16) b3 (omega arith),
      )
      refl

join_word_bytes :
    (w : ℕ)
    → IsWord w
    → join_word
        (u8 (bit_and w 0xff))
        (u8 (bit_and (shr w 8) 0xff))
        (u8 (bit_and (shr w 16) 0xff))
        (u8 (bit_and (shr w 24) 0xff))
      ≡ w
join_word_bytes w h = omega (
  arith,
  join_word_sum (u8 (bit_and w 0xff)) (u8 (bit_and (shr w 8) 0xff)) (u8 (bit_and (shr w 16) 0xff))
      (u8 (bit_and (shr w 24) 0xff)) (omega arith) (omega arith) (omega arith) (omega arith),
  and-mask 8 w,
  and-mask 8 (shr w 8),
  and-mask 8 (shr w 16),
  and-mask 8 (shr w 24),
)

-- Decoding what `encode` wrote gives back the words, if each is a `uint32`.
pub decode-encode : (ws : List ℕ) → All IsWord ws → decode (encode ws) ≡ ws
unfolding encode decode
decode-encode [] h = refl
decode-encode (w ∷ ws) h = ap₂ ◌∷◌ (join_word_bytes w h.0) (decode-encode ws h.1)

byte_of_word : (w k x : ℕ) → IsByte x → shr w k % 256 ≡ x → u8 (bit_and (shr w k) 0xff) ≡ x
byte_of_word w k x h e = omega (arith, and-mask 8 (shr w k))

-- Encoding the decoded words gives back the bytes, if there is a whole number of words.
pub encode-decode :
    (n : ℕ) (bytes : List ℕ)
    → length bytes ≡ n * 4
    → All IsByte bytes
    → encode (decode bytes) ≡ bytes
unfolding encode decode
encode-decode zero [] e h = refl
encode-decode zero (b0 ∷ bytes) e h = absurd (omega arith)
encode-decode (suc n) (b0 ∷ b1 ∷ b2 ∷ b3 ∷ bytes) e h =
    let sum = join_word_sum b0 b1 b2 b3 h.0 h.1.0 h.1.1.0 h.1.1.1.0 in
    let rest = encode-decode n bytes (omega arith) h.1.1.1.1 in
    ap₂ ◌∷◌ (omega (arith, sum, and-mask 8 (join_word b0 b1 b2 b3))) (
      ap₂ ◌∷◌ (byte_of_word (join_word b0 b1 b2 b3) 8 b1 h.1.0 (omega (arith, sum))) (
        ap₂ ◌∷◌ (byte_of_word (join_word b0 b1 b2 b3) 16 b2 h.1.1.0 (omega (arith, sum))) (
          ap₂ ◌∷◌ (byte_of_word (join_word b0 b1 b2 b3) 24 b3 h.1.1.1.0 (omega (arith, sum)))
            rest)))
encode-decode (suc n) (b0 ∷ b1 ∷ b2 ∷ []) e h = absurd (omega arith)
encode-decode (suc n) (b0 ∷ b1 ∷ []) e h = absurd (omega arith)
encode-decode (suc n) (b0 ∷ []) e h = absurd (omega arith)
encode-decode (suc n) [] e h = absurd (omega arith)

pub length-encode : (ws : List ℕ) → length (encode ws) ≡ 4 * length ws
unfolding encode
length-encode [] = refl
length-encode (w ∷ ws) = omega (arith, length-encode ws)

-- The value of a digit that `bytes_to_hex` writes.
unhex : ℕ → ℕ
unhex c = if ltb c b'a' then c - b'0' else c - b'a' + 10

hex_digit_table : each_below (λ d. unhex (get_or hex_digits d 0) == d) 16 ≡ true
unfolding each_below unhex hex_digits
hex_digit_table = refl

unhex-hex : (d : ℕ) → d < 16 → unhex (get_or hex_digits d 0) ≡ d
unhex-hex d h =
    (==_iff _ d).0
      (each_below-get (λ x. unhex (get_or hex_digits x 0) == x) 16 hex_digit_table {k = d} h)

-- Two byte strings with the same hexadecimal text are equal.
pub bytes_to_hex-injective :
    (xs ys : List ℕ) → All IsByte xs → All IsByte ys → bytes_to_hex xs ≡ bytes_to_hex ys → xs ≡ ys
unfolding bytes_to_hex
bytes_to_hex-injective [] [] h k e = refl
bytes_to_hex-injective [] (y ∷ ys) h k e = cc
bytes_to_hex-injective (x ∷ xs) [] h k e = cc
bytes_to_hex-injective (x ∷ xs) (y ∷ ys) h k e =
    ap₂ ◌∷◌ (omega (arith, same_high, same_low)) (bytes_to_hex-injective xs ys h.1 k.1 (cc))
  where
    same_high : x / 16 ≡ y / 16
    same_high = sym (unhex-hex (x / 16) (omega arith)) ∙ (cc) ∙ unhex-hex (y / 16) (omega arith)

    same_low : x % 16 ≡ y % 16
    same_low = sym (unhex-hex (x % 16) (omega arith)) ∙ (cc) ∙ unhex-hex (y % 16) (omega arith)
