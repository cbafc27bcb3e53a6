-- ===== src/Md5/Transform.antt =====
-- The compression function of `WPD_MTP_data/verity/MyMd5.cpp`: the macros F, G, H, I, ROTATE_LEFT,
-- FF, GG, HH, II and `MD5::transform`. A `uint32` is a number that every addition reduces.
use shujugongxiang.Prelude.{
  ℕ, ◌+◌, ◌-◌, ◌^◌, ◌<◌, bit_and, bit_or, bit_xor, List, get_or, u32, shl, shr, bit_not, arith,
}
use shujugongxiang.Md5.Codec.{decode}

-- `uint32 _state[4]`, the registers A, B, C, D.
pub record State : Type 0 where
  pub a : ℕ
  pub b : ℕ
  pub c : ℕ
  pub d : ℕ

unfoldable pub fun_f : ℕ → ℕ → ℕ → ℕ
fun_f x y z = bit_or (bit_and x y) (bit_and (bit_not x) z)

unfoldable pub fun_g : ℕ → ℕ → ℕ → ℕ
fun_g x y z = bit_or (bit_and x z) (bit_and y (bit_not z))

unfoldable pub fun_h : ℕ → ℕ → ℕ → ℕ
fun_h x y z = bit_xor (bit_xor x y) z

unfoldable pub fun_i : ℕ → ℕ → ℕ → ℕ
fun_i x y z = bit_xor y (bit_or x (bit_not z))

unfoldable pub rotate_left : ℕ → ℕ → ℕ
rotate_left x n = bit_or (u32 (shl x n)) (shr x (32 - n))

-- What FF, GG, HH and II share: `a += m + x + ac; a = ROTATE_LEFT(a, s); a += b`.
unfoldable pub mix : ℕ → ℕ → ℕ → ℕ → ℕ → ℕ → ℕ
mix a b m x s ac = u32 (rotate_left (u32 (a + u32 (u32 (m + x) + ac))) s + b)

unfoldable pub ff : ℕ → ℕ → ℕ → ℕ → ℕ → ℕ → ℕ → ℕ
ff a b c d x s ac = mix a b (fun_f b c d) x s ac

unfoldable pub gg : ℕ → ℕ → ℕ → ℕ → ℕ → ℕ → ℕ → ℕ
gg a b c d x s ac = mix a b (fun_g b c d) x s ac

unfoldable pub hh : ℕ → ℕ → ℕ → ℕ → ℕ → ℕ → ℕ → ℕ
hh a b c d x s ac = mix a b (fun_h b c d) x s ac

unfoldable pub ii : ℕ → ℕ → ℕ → ℕ → ℕ → ℕ → ℕ → ℕ
ii a b c d x s ac = mix a b (fun_i b c d) x s ac

-- Round 1 of `transform`, on the decoded block.
unfoldable pub round1 : State → List ℕ → State
round1 w x =
    let a1 = ff w.a w.b w.c w.d (get_or x 0 0) 7 0xd76aa478 in
    let d1 = ff w.d a1 w.b w.c (get_or x 1 0) 12 0xe8c7b756 in
    let c1 = ff w.c d1 a1 w.b (get_or x 2 0) 17 0x242070db in
    let b1 = ff w.b c1 d1 a1 (get_or x 3 0) 22 0xc1bdceee in
    let a2 = ff a1 b1 c1 d1 (get_or x 4 0) 7 0xf57c0faf in
    let d2 = ff d1 a2 b1 c1 (get_or x 5 0) 12 0x4787c62a in
    let c2 = ff c1 d2 a2 b1 (get_or x 6 0) 17 0xa8304613 in
    let b2 = ff b1 c2 d2 a2 (get_or x 7 0) 22 0xfd469501 in
    let a3 = ff a2 b2 c2 d2 (get_or x 8 0) 7 0x698098d8 in
    let d3 = ff d2 a3 b2 c2 (get_or x 9 0) 12 0x8b44f7af in
    let c3 = ff c2 d3 a3 b2 (get_or x 10 0) 17 0xffff5bb1 in
    let b3 = ff b2 c3 d3 a3 (get_or x 11 0) 22 0x895cd7be in
    let a4 = ff a3 b3 c3 d3 (get_or x 12 0) 7 0x6b901122 in
    let d4 = ff d3 a4 b3 c3 (get_or x 13 0) 12 0xfd987193 in
    let c4 = ff c3 d4 a4 b3 (get_or x 14 0) 17 0xa679438e in
    let b4 = ff b3 c4 d4 a4 (get_or x 15 0) 22 0x49b40821 in
    record { a = a4; b = b4; c = c4; d = d4 }

-- Round 2 of `transform`, on the decoded block.
unfoldable pub round2 : State → List ℕ → State
round2 w x =
    let a1 = gg w.a w.b w.c w.d (get_or x 1 0) 5 0xf61e2562 in
    let d1 = gg w.d a1 w.b w.c (get_or x 6 0) 9 0xc040b340 in
    let c1 = gg w.c d1 a1 w.b (get_or x 11 0) 14 0x265e5a51 in
    let b1 = gg w.b c1 d1 a1 (get_or x 0 0) 20 0xe9b6c7aa in
    let a2 = gg a1 b1 c1 d1 (get_or x 5 0) 5 0xd62f105d in
    let d2 = gg d1 a2 b1 c1 (get_or x 10 0) 9 0x2441453 in
    let c2 = gg c1 d2 a2 b1 (get_or x 15 0) 14 0xd8a1e681 in
    let b2 = gg b1 c2 d2 a2 (get_or x 4 0) 20 0xe7d3fbc8 in
    let a3 = gg a2 b2 c2 d2 (get_or x 9 0) 5 0x21e1cde6 in
    let d3 = gg d2 a3 b2 c2 (get_or x 14 0) 9 0xc33707d6 in
    let c3 = gg c2 d3 a3 b2 (get_or x 3 0) 14 0xf4d50d87 in
    let b3 = gg b2 c3 d3 a3 (get_or x 8 0) 20 0x455a14ed in
    let a4 = gg a3 b3 c3 d3 (get_or x 13 0) 5 0xa9e3e905 in
    let d4 = gg d3 a4 b3 c3 (get_or x 2 0) 9 0xfcefa3f8 in
    let c4 = gg c3 d4 a4 b3 (get_or x 7 0) 14 0x676f02d9 in
    let b4 = gg b3 c4 d4 a4 (get_or x 12 0) 20 0x8d2a4c8a in
    record { a = a4; b = b4; c = c4; d = d4 }

-- Round 3 of `transform`, on the decoded block.
unfoldable pub round3 : State → List ℕ → State
round3 w x =
    let a1 = hh w.a w.b w.c w.d (get_or x 5 0) 4 0xfffa3942 in
    let d1 = hh w.d a1 w.b w.c (get_or x 8 0) 11 0x8771f681 in
    let c1 = hh w.c d1 a1 w.b (get_or x 11 0) 16 0x6d9d6122 in
    let b1 = hh w.b c1 d1 a1 (get_or x 14 0) 23 0xfde5380c in
    let a2 = hh a1 b1 c1 d1 (get_or x 1 0) 4 0xa4beea44 in
    let d2 = hh d1 a2 b1 c1 (get_or x 4 0) 11 0x4bdecfa9 in
    let c2 = hh c1 d2 a2 b1 (get_or x 7 0) 16 0xf6bb4b60 in
    let b2 = hh b1 c2 d2 a2 (get_or x 10 0) 23 0xbebfbc70 in
    let a3 = hh a2 b2 c2 d2 (get_or x 13 0) 4 0x289b7ec6 in
    let d3 = hh d2 a3 b2 c2 (get_or x 0 0) 11 0xeaa127fa in
    let c3 = hh c2 d3 a3 b2 (get_or x 3 0) 16 0xd4ef3085 in
    let b3 = hh b2 c3 d3 a3 (get_or x 6 0) 23 0x4881d05 in
    let a4 = hh a3 b3 c3 d3 (get_or x 9 0) 4 0xd9d4d039 in
    let d4 = hh d3 a4 b3 c3 (get_or x 12 0) 11 0xe6db99e5 in
    let c4 = hh c3 d4 a4 b3 (get_or x 15 0) 16 0x1fa27cf8 in
    let b4 = hh b3 c4 d4 a4 (get_or x 2 0) 23 0xc4ac5665 in
    record { a = a4; b = b4; c = c4; d = d4 }

-- Round 4 of `transform`, on the decoded block.
unfoldable pub round4 : State → List ℕ → State
round4 w x =
    let a1 = ii w.a w.b w.c w.d (get_or x 0 0) 6 0xf4292244 in
    let d1 = ii w.d a1 w.b w.c (get_or x 7 0) 10 0x432aff97 in
    let c1 = ii w.c d1 a1 w.b (get_or x 14 0) 15 0xab9423a7 in
    let b1 = ii w.b c1 d1 a1 (get_or x 5 0) 21 0xfc93a039 in
    let a2 = ii a1 b1 c1 d1 (get_or x 12 0) 6 0x655b59c3 in
    let d2 = ii d1 a2 b1 c1 (get_or x 3 0) 10 0x8f0ccc92 in
    let c2 = ii c1 d2 a2 b1 (get_or x 10 0) 15 0xffeff47d in
    let b2 = ii b1 c2 d2 a2 (get_or x 1 0) 21 0x85845dd1 in
    let a3 = ii a2 b2 c2 d2 (get_or x 8 0) 6 0x6fa87e4f in
    let d3 = ii d2 a3 b2 c2 (get_or x 15 0) 10 0xfe2ce6e0 in
    let c3 = ii c2 d3 a3 b2 (get_or x 6 0) 15 0xa3014314 in
    let b3 = ii b2 c3 d3 a3 (get_or x 13 0) 21 0x4e0811a1 in
    let a4 = ii a3 b3 c3 d3 (get_or x 4 0) 6 0xf7537e82 in
    let d4 = ii d3 a4 b3 c3 (get_or x 11 0) 10 0xbd3af235 in
    let c4 = ii c3 d4 a4 b3 (get_or x 2 0) 15 0x2ad7d2bb in
    let b4 = ii b3 c4 d4 a4 (get_or x 9 0) 21 0xeb86d391 in
    record { a = a4; b = b4; c = c4; d = d4 }

-- `_state[k] += …` after the four rounds.
unfoldable pub transform : State → List ℕ → State
unfolding fun_f fun_g fun_h fun_i rotate_left mix ff gg hh ii round1 round2 round3 round4
transform w block =
    let x = decode block in
    let r = round4 (round3 (round2 (round1 w x) x) x) x in
    record { a = u32 (w.a + r.a); b = u32 (w.b + r.b); c = u32 (w.c + r.c); d = u32 (w.d + r.d) }

-- A state of four `uint32`.
abbrev pub IsState : State → Type 0
IsState w = (w.a < 2 ^ 32) × (w.b < 2 ^ 32) × (w.c < 2 ^ 32) × (w.d < 2 ^ 32)

pub transform-IsState : (w : State) (block : List ℕ) → IsState (transform w block)
unfolding transform
transform-IsState w block = omega arith
