-- ===== src/Md5/Spec.antt =====
-- MD5 as RFC 1321 describes it, on a whole message: pad to a multiple of 64 bytes, then compress
-- block by block. Only the compression function is shared with the model of MyMd5.cpp.
use shujugongxiang.Prelude.{
  ℕ, zero, suc, ◌-◌, ◌*◌, ◌/◌, ◌%◌, ◌^◌, List, [], ◌∷◌, ◌++◌, length, take, drop, replicate,
}
use shujugongxiang.Md5.Transform.{State, transform}

-- The state after `n` blocks of 64 bytes.
unfoldable pub compress : ℕ → State → List ℕ → State
compress zero w bytes = w
compress (suc n) w bytes = compress n (transform w (take 64 bytes)) (drop 64 bytes)

-- The lowest `k` digits of `n` to the base 256, lowest first.
unfoldable pub le_bytes : ℕ → ℕ → List ℕ
le_bytes zero n = []
le_bytes (suc k) n = n % 256 ∷ le_bytes k (n / 256)

-- A one bit, zeros up to 56 modulo 64 bytes, and the number of bits in 64 bits.
unfoldable pub pad : List ℕ → List ℕ
pad message =
    message
    ++ ((0x80 ∷ replicate ((119 - length message % 64) % 64) 0)
        ++ le_bytes 8 (8 * length message % 2 ^ 64))

-- The four registers as sixteen bytes.
unfoldable pub state_bytes : State → List ℕ
state_bytes w = le_bytes 4 w.a ++ (le_bytes 4 w.b ++ (le_bytes 4 w.c ++ le_bytes 4 w.d))

unfoldable pub md5 : List ℕ → List ℕ
md5 message = state_bytes (
    compress (length (pad message) / 64)
      (record { a = 0x67452301; b = 0xefcdab89; c = 0x98badcfe; d = 0x10325476 }) (pad message))
