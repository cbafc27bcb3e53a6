-- ===== src/Md5/Context/Update.antt =====
-- `MD5::update` of MyMd5.cpp: the object stands for the bytes that it was given so far.
use shujugongxiang.Prelude.{
  ℕ, suc, ◌+◌, ◌-◌, ◌*◌, ◌/◌, ◌%◌, ◌^◌, ◌≤◌, ◌<◌, ◌≡◌, refl, ap, sym, ◌∙◌, inl, inr, true, false,
  List, [], ◌++◌, length, take, drop, ltb, leb, Bool-cases, shr, and-mask, take-append_le,
  take-append_ge, drop-append_le, drop-append_ge, take_all, length-drop, length-take, length-append,
  arith,
}
use shujugongxiang.Md5.Transform.{State, transform}
use shujugongxiang.Md5.Spec.{compress}
use shujugongxiang.Md5.Context.{
  Md5, initial_state, reset, copy_at, buffer_index, add_bits, absorb, update,
}
use shujugongxiang.Md5.Context.Blocks.{Stops, transform_blocks-Stops, compress-suc, compress-append}

-- The object after the bytes of `message`: whole blocks are compressed, the bits are counted
-- modulo 2^64, and the rest of the message waits at the front of the buffer of 64 bytes.
pub record Holds (m : Md5) (message : List ℕ) : Type 0 where
  pub compressed : m.state ≡ compress (length message / 64) initial_state message
  pub low_bits : m.count0 ≡ 8 * length message % 2 ^ 32
  pub high_bits : m.count1 ≡ 8 * length message / 2 ^ 32 % 2 ^ 32
  pub buffer_length : length m.buffer ≡ 64
  pub pending : take (length message % 64) m.buffer ≡ drop (length message / 64 * 64) message

pub reset-Holds : (m : Md5) → length m.buffer ≡ 64 → Holds (reset m) []
unfolding reset compress
reset-Holds m h = record {
  compressed = refl;
  low_bits = refl;
  high_bits = refl;
  buffer_length = h;
  pending = refl;
}

module _ {m : Md5} {message : List ℕ} (holds : Holds m message) where
  pub buffer_index_lem : buffer_index m ≡ length message % 64
  unfolding buffer_index
  buffer_index_lem = omega (arith, and-mask 6 (shr m.count0 3), holds.low_bits)

  length-pending : length (take (length message % 64) m.buffer) ≡ length message % 64
  length-pending = omega (arith, length-take (length message % 64) m.buffer, holds.buffer_length)

  pub add_bits-low : (n : ℕ) → (add_bits m n).count0 ≡ 8 * (length message + n) % 2 ^ 32
  unfolding add_bits
  add_bits-low n = omega (arith, holds.low_bits)

  pub add_bits-high :
      (n : ℕ) → n < 2 ^ 32 → (add_bits m n).count1 ≡ 8 * (length message + n) / 2 ^ 32 % 2 ^ 32
  unfolding add_bits
  add_bits-high n h = ground (arith, holds.low_bits, holds.high_bits)

-- Bytes written where the pending bytes end.
pub copy_at-pending :
    (buffer bytes : List ℕ) (n : ℕ)
    → length buffer ≡ 64
    → n + length bytes ≤ 64
    → (take (n + length bytes) (copy_at buffer n bytes) ≡ take n buffer ++ bytes)
      × (length (copy_at buffer n bytes) ≡ 64)
unfolding copy_at
copy_at-pending buffer bytes n full room = (
  take-append_ge n (length bytes) (take n buffer) (bytes ++ drop (n + length bytes) buffer)
        (omega (arith, length-take n buffer))
      ∙ ap (λ t. take n buffer ++ t)
          (take-append_le (length bytes) bytes (drop (n + length bytes) buffer) (omega arith)
            ∙ take_all (length bytes) bytes (omega arith)),
  omega (
    arith,
    length-append (take n buffer) (bytes ++ drop (n + length bytes) buffer),
    length-append bytes (drop (n + length bytes) buffer),
    length-take n buffer,
    length-drop (n + length bytes) buffer,
  ),
)

module _ {m : Md5} {message : List ℕ} (holds : Holds m message) (input : List ℕ) where
  abbrev pub whole : List ℕ
  whole = message ++ input

  abbrev pub used : ℕ
  used = length message % 64

  abbrev pub full_blocks : ℕ
  full_blocks = length message / 64

  waiting-append :
      (bytes : List ℕ) → take used m.buffer ++ bytes ≡ drop (full_blocks * 64) (message ++ bytes)
  waiting-append bytes =
      rw holds.pending (sym (drop-append_le (full_blocks * 64) message bytes (omega arith)))

  -- The branch that only buffers.
  buffered-Holds :
      (counted : Md5)
      → counted.state ≡ m.state
      → counted.count0 ≡ 8 * (length message + length input) % 2 ^ 32
      → counted.count1 ≡ 8 * (length message + length input) / 2 ^ 32 % 2 ^ 32
      → counted.buffer ≡ m.buffer
      → used + length input < 64
      → Holds (record counted { buffer = copy_at counted.buffer used input }) whole
  buffered-Holds counted same_state low high same_buffer short =
      let len = length-append message input in
      let blocks : length whole / 64 ≡ full_blocks = omega (arith, len) in
      let tail : length whole % 64 ≡ used + length input = omega (arith, len) in
      let copied = copy_at-pending m.buffer input used holds.buffer_length (omega arith) in
      record {
        compressed =
            rw
              (
                same_state,
                blocks,
                compress-append full_blocks initial_state message input (omega arith),
              )
              holds.compressed;
        low_bits = rw len low;
        high_bits = rw len high;
        buffer_length = rw same_buffer (copied.1);
        pending = rw (same_buffer, blocks, tail) (copied.0 ∙ waiting-append input);
      }

  -- The block that is completed in the buffer is the next one of the message.
  filled_block :
      64 ≤ used + length input
      → (copy_at m.buffer used (take (64 - used) input) ≡ take 64 (drop (full_blocks * 64) whole))
        × (length (copy_at m.buffer used (take (64 - used) input)) ≡ 64)
  filled_block enough =
      let taken : length (take (64 - used) input) ≡ 64 - used =
        omega (arith, length-take (64 - used) input) in
      let copied =
        copy_at-pending m.buffer (take (64 - used) input) used holds.buffer_length
          (omega (arith, taken)) in
      let size : used + length (take (64 - used) input) ≡ 64 = omega (arith, taken) in
      let split : used + (64 - used) ≡ 64 = omega arith in
      let tail : length (drop (full_blocks * 64) message) ≡ used =
        omega (arith, length-drop (full_blocks * 64) message) in
      (
        sym (take_all 64 (copy_at m.buffer used (take (64 - used) input)) (omega (arith, copied.1)))
            ∙ ap (λ (k : ℕ). take k (copy_at m.buffer used (take (64 - used) input))) (sym size)
            ∙ copied.0
            ∙ ap (λ t. t ++ take (64 - used) input) holds.pending
            ∙ sym (take-append_ge used (64 - used) (drop (full_blocks * 64) message) input tail)
            ∙ ap (λ (k : ℕ). take k (drop (full_blocks * 64) message ++ input)) split
            ∙ ap (take 64) (sym (drop-append_le (full_blocks * 64) message input (omega arith))),
        copied.1,
      )

  first_block :
      64 ≤ used + length input
      → transform m.state (copy_at m.buffer used (take (64 - used) input))
        ≡ compress (suc full_blocks) initial_state whole
  first_block enough =
      rw
        (
          (filled_block enough).0,
          holds.compressed,
          ← compress-append full_blocks initial_state message input (omega arith),
        )
        (sym (compress-suc full_blocks initial_state whole))

  -- The branch that transforms: what is left over is copied to the front of the buffer.
  absorbed-Holds :
      (counted : Md5) (result : State × ℕ)
      → Stops initial_state message input result
      → counted.count0 ≡ 8 * (length message + length input) % 2 ^ 32
      → counted.count1 ≡ 8 * (length message + length input) / 2 ^ 32 % 2 ^ 32
      → 64 ≤ used + length input
      → Holds
          (record counted {
            state = result.0;
            buffer =
                copy_at (copy_at m.buffer used (take (64 - used) input)) 0 (drop result.1 input);
          })
          whole
  absorbed-Holds counted result stops low high enough =
      let len = length-append message input in
      let left = length-drop result.1 input in
      let blocks : length whole / 64 ≡ stops.blocks =
        omega (arith, len, stops.position, stops.within, stops.rest_short) in
      let tail : length whole % 64 ≡ 0 + length (drop result.1 input) =
        omega (arith, len, left, stops.position, stops.within, stops.rest_short) in
      let copied =
        copy_at-pending (copy_at m.buffer used (take (64 - used) input)) (drop result.1 input) 0
          ((filled_block enough).1) (omega (arith, left, stops.rest_short)) in
      record {
        compressed = rw blocks stops.compressed;
        low_bits = rw len low;
        high_bits = rw len high;
        buffer_length = copied.1;
        pending =
            rw (blocks, tail, stops.position)
              (copied.0 ∙ sym (drop-append_ge (length message) result.1 message input refl));
      }

  abbrev pub counted : Md5
  counted = add_bits (record m { finished = false }) (length input)

  touched-Holds : Holds (record m { finished = false }) message
  touched-Holds = record {
    compressed = holds.compressed;
    low_bits = holds.low_bits;
    high_bits = holds.high_bits;
    buffer_length = holds.buffer_length;
    pending = holds.pending;
  }

  pub update_buffers :
      used + length input < 64
      → update m input ≡ record counted { buffer = copy_at counted.buffer used input }
  unfolding update
  update_buffers short =
      let test : leb (64 - used) (length input) ≡ false = ground arith in
      let e : buffer_index m ≡ used = buffer_index_lem holds in rw (e, test) refl

  pub update_transforms :
      64 ≤ used + length input → update m input ≡ absorb counted used (64 - used) input
  unfolding update
  update_transforms enough =
      let test : leb (64 - used) (length input) ≡ true = ground arith in
      let e : buffer_index m ≡ used = buffer_index_lem holds in rw (e, test) refl

-- Streaming: an object that stands for some bytes stands, after `update`, for these and the input.
-- The input is shorter than 2^32 - 64 bytes, so that the loop's index does not wrap around.
pub update-Holds :
    (m : Md5) (message input : List ℕ)
    → length input + 64 < 2 ^ 32
    → Holds m message
    → Holds (update m input) (message ++ input)
unfolding add_bits absorb
update-Holds m message input fits holds =
    let used = length message % 64 in
    let touched = touched-Holds holds input in
    let low = add_bits-low touched (length input) in
    let high = add_bits-high touched (length input) (omega arith) in
    let counted = add_bits (record m { finished = false }) (length input) in
    elim (Bool-cases (ltb (used + length input) 64)) [
      | inl short ↦
          let room : used + length input < 64 = ground arith in
          rw (update_buffers holds input room)
            (buffered-Holds holds input counted refl low high refl room)
      | inr long ↦
          let enough : 64 ≤ used + length input = ground arith in
          rw (update_transforms holds input enough) (
            absorbed-Holds holds input counted _
              (transform_blocks-Stops initial_state message input fits (length input)
                (suc (length message / 64)) (64 - used) _ (omega arith) (omega arith) (omega arith)
                (first_block holds input enough))
              low high enough)
    ]
