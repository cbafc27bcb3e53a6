-- ===== src/Md5/Context/Blocks.antt =====
-- The block loop of `MD5::update` in MyMd5.cpp compresses the blocks of the whole message.
use shujugongxiang.Prelude.{
  ℕ, zero, suc, ◌+◌, ◌*◌, ◌^◌, ◌≤◌, ◌<◌, ◌≡◌, refl, ap, ◌∙◌, inl, inr, List, ◌++◌, length, take,
  drop, ltb, Bool-cases, u32, take-append_le, drop-append_le, drop-append_ge, drop-drop,
  length-drop, arith,
}
use shujugongxiang.Md5.Transform.{State, transform}
use shujugongxiang.Md5.Spec.{compress}
use shujugongxiang.Md5.Context.{transform_blocks}

-- One more block.
pub compress-suc :
    (n : ℕ) (w : State) (bytes : List ℕ)
    → compress (suc n) w bytes ≡ transform (compress n w bytes) (take 64 (drop (n * 64) bytes))
unfolding compress
compress-suc zero w bytes = refl
compress-suc (suc n) w bytes =
    let shift : 64 + n * 64 ≡ suc n * 64 = omega arith in
    compress-suc n (transform w (take 64 bytes)) (drop 64 bytes)
    ∙ ap (λ t. transform (compress (suc n) w bytes) (take 64 t))
        (drop-drop (n * 64) 64 bytes ∙ ap (λ (k : ℕ). drop k bytes) shift)

-- What follows the blocks does not matter.
pub compress-append :
    (n : ℕ) (w : State) (xs ys : List ℕ)
    → n * 64 ≤ length xs
    → compress n w (xs ++ ys) ≡ compress n w xs
unfolding compress
compress-append zero w xs ys h = refl
compress-append (suc n) w xs ys h =
    rw (take-append_le 64 xs ys (omega arith), drop-append_le 64 xs ys (omega arith))
      (compress-append n (transform w (take 64 xs)) (drop 64 xs) ys
        (omega (arith, length-drop 64 xs)))

-- The loop stops at `i`, after `n` blocks of the message, with less than a block left.
pub record Stops (start : State) (message input : List ℕ) (result : State × ℕ) : Type 0 where
  pub blocks : ℕ
  pub compressed : result.0 ≡ compress blocks start (message ++ input)
  pub position : blocks * 64 ≡ length message + result.1
  pub within : result.1 ≤ length input
  pub rest_short : length input < result.1 + 64

module _ (start : State) (message input : List ℕ) (fits : length input + 64 < 2 ^ 32) where
  pub transform_blocks-Stops :
      (fuel n i : ℕ) (w : State)
      → length input ≤ i + fuel
      → i ≤ length input
      → n * 64 ≡ length message + i
      → w ≡ compress n start (message ++ input)
      → Stops start message input (transform_blocks fuel w input i)
  unfolding transform_blocks
  transform_blocks-Stops zero n i w enough le pos e = record {
    blocks = n;
    compressed = e;
    position = pos;
    within = le;
    rest_short = omega arith;
  }
  transform_blocks-Stops (suc fuel) n i w enough le pos e =
      elim (Bool-cases (ltb (u32 (i + 63)) (length input))) [
        | inl more ↦
            let low : u32 (i + 64) ≡ i + 64 = omega arith in
            let room : i + 63 < length input = ground arith in
            rw more (
              transform_blocks-Stops fuel (suc n) (u32 (i + 64))
                (transform w (take 64 (drop i input))) (omega arith) (omega arith) (omega arith)
                (next_block low))
        | inr done ↦ rw done (record {
          blocks = n;
          compressed = e;
          position = pos;
          within = le;
          rest_short = ground arith;
        })
      ]
    where
      next_block :
          u32 (i + 64) ≡ i + 64
          → transform w (take 64 (drop i input)) ≡ compress (suc n) start (message ++ input)
      next_block low =
          let shift : n * 64 ≡ length message + i = pos in
          rw
            (
              compress-suc n start (message ++ input),
              shift,
              drop-append_ge (length message) i message input refl,
              e,
            )
            refl
