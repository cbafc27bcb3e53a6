-- ===== src/Md5/Context/Reuse.antt =====
-- What `digest` of MyMd5.cpp leaves in the object. "Restore current state and count": the registers
-- and the counter are restored, the buffer is not.
use shujugongxiang.Prelude.{
  ℕ, zero, suc, ◌+◌, ◌-◌, ◌*◌, ◌/◌, ◌%◌, ◌^◌, ◌≤◌, ◌<◌, ◌≡◌, refl, ap, sym, ◌∙◌, true, false, List,
  [], ◌∷◌, ◌++◌, append-nil, append_assoc, length, take, drop, replicate, ltb, u32, take-append_le,
  take_all, drop_all, drop-append_ge, length-append, length-take, length-replicate, arith,
}
use shujugongxiang.Md5.Codec.{encode}
use shujugongxiang.Md5.Codec.Roundtrip.{length-encode}
use shujugongxiang.Md5.Transform.{State}
use shujugongxiang.Md5.Spec.{le_bytes}
use shujugongxiang.Md5.Context.{
  Md5, padding, copy_at, transform_blocks, add_bits, absorb, update, final, digest, buffer_index,
}
use shujugongxiang.Md5.Context.Update.{
  Holds, update-Holds, copy_at-pending, update_buffers, update_transforms, buffer_index_lem,
}
use shujugongxiang.Md5.Context.Digest.{
  pad_bytes, counter_bytes, closed-Holds, pad_count, flag-Holds,
}

drop-replicate : (a b : ℕ) → drop a (replicate (a + b) 0) ≡ replicate {A = ℕ} b 0
drop-replicate zero b = ap (λ (n : ℕ). replicate n 0) (omega arith)
drop-replicate (suc a) b =
    let shift : suc a + b ≡ suc (a + b) = omega arith in rw shift (drop-replicate a b)

no_block :
    (fuel i : ℕ) (w : State) (input : List ℕ)
    → i + 63 < 2 ^ 32
    → length input ≤ i + 63
    → transform_blocks fuel w input i ≡ (w, i)
unfolding transform_blocks
no_block zero i w input fits short = refl
no_block (suc fuel) i w input fits short =
    let test : ltb (u32 (i + 63)) (length input) ≡ false = ground arith in rw test refl

-- Eight bytes after 56 fill the buffer, and nothing is left over.
buffer_of_bits :
    (m : Md5) (message bits : List ℕ)
    → Holds m message
    → length message % 64 ≡ 56
    → length bits ≡ 8
    → (update m bits).buffer ≡ take 56 m.buffer ++ bits
unfolding absorb add_bits copy_at
buffer_of_bits m message bits holds index size =
    let enough : 64 ≤ length message % 64 + length bits = omega arith in
    let end : 56 + length bits ≡ 64 = omega arith in
    rw (update_transforms holds bits enough, index)
      (rw (no_block (length bits) 8 _ bits (omega arith) (omega arith)) (
        rw
          (
            drop_all 8 bits (omega arith),
            take_all 8 bits (omega arith),
            end,
            drop_all 64 m.buffer (omega (arith, holds.buffer_length)),
          )
          (rw append-nil refl)))

module _ {m : Md5} {message : List ℕ} (holds : Holds m message) where
  abbrev padded_message : List ℕ
  padded_message = message ++ take (pad_count holds) padding

  padded_index : length padded_message % 64 ≡ 56
  padded_index = omega (
    arith,
    length-append message (take (pad_count holds) padding),
    ap length (pad_bytes (length message % 64) (omega arith)),
    length-replicate {A = ℕ} ((119 - length message % 64) % 64) 0,
  )

  padded-Holds : Holds (update m (take (pad_count holds) padding)) padded_message
  padded-Holds =
      update-Holds m message (take (pad_count holds) padding)
        (omega (
          arith,
          ap length (pad_bytes (length message % 64) (omega arith)),
          length-replicate {A = ℕ} ((119 - length message % 64) % 64) 0,
        ))
        holds

  -- The buffer that `final` leaves: 56 bytes from the padded object, and the counter.
  closed_buffer :
      (final m).buffer
      ≡ take 56 (update m (take (pad_count holds) padding)).buffer
        ++ le_bytes 8 (8 * length message % 2 ^ 64)
  unfolding final
  closed_buffer =
      let e : buffer_index m ≡ length message % 64 = buffer_index_lem holds in
      rw e (
        buffer_of_bits (update m (take (pad_count holds) padding)) padded_message
          (encode (m.count0 ∷ m.count1 ∷ [])) padded-Holds padded_index
          (length-encode (m.count0 ∷ m.count1 ∷ []))
        ∙ ap (λ t. take 56 (update m (take (pad_count holds) padding)).buffer ++ t)
            (counter_bytes holds))

  final-buffer_length : length (final m).buffer ≡ 64
  unfolding final
  final-buffer_length =
      let e : buffer_index m ≡ length message % 64 = buffer_index_lem holds in
      rw e (closed-Holds holds).buffer_length

  -- With less than 56 bytes waiting, the padding is written behind them.
  padded_buffer_low :
      length message % 64 < 56
      → take 56 (update m (take (pad_count holds) padding)).buffer
        ≡ take (length message % 64) m.buffer ++ take (pad_count holds) padding
  unfolding add_bits
  padded_buffer_low low =
      let k = length message % 64 in
      let test : ltb k 56 ≡ true = ground arith in
      let size : length (take (pad_count holds) padding) ≡ 56 - k =
        rw test (omega (arith, length-take (56 - k) padding)) in
      let whole : k + length (take (pad_count holds) padding) ≡ 56 = omega (arith, size) in
      rw (update_buffers holds (take (pad_count holds) padding) (omega (arith, size))) (
        ap (λ (j : ℕ). take j (copy_at m.buffer k (take (pad_count holds) padding))) (sym whole)
        ∙ (copy_at-pending m.buffer (take (pad_count holds) padding) k holds.buffer_length
            (omega (arith, size))).0)

  -- With 56 bytes or more waiting, the padding runs into the next block.
  padded_buffer_high :
      56 ≤ length message % 64
      → take 56 (update m (take (pad_count holds) padding)).buffer ≡ replicate 56 0
  padded_buffer_high high =
      let k = length message % 64 in
      let bytes = pad_bytes k (omega arith) in
      let start : length padded_message / 64 * 64 ≡ length message + suc (63 - k) = omega (
        arith,
        length-append message (take (pad_count holds) padding),
        ap length bytes,
        length-replicate {A = ℕ} ((119 - k) % 64) 0,
      ) in
      let zeros : (119 - k) % 64 ≡ 63 - k + 56 = omega arith in
      ap (λ (j : ℕ). take j (update m (take (pad_count holds) padding)).buffer) (sym padded_index)
      ∙ padded-Holds.pending
      ∙ ap (λ (j : ℕ). drop j padded_message) start
      ∙ drop-append_ge (length message) (suc (63 - k)) message _ refl
      ∙ ap (drop (suc (63 - k))) bytes
      ∙ ap (λ (j : ℕ). drop (63 - k) (replicate j 0)) zeros
      ∙ drop-replicate (63 - k) 56

  final_forgets :
      56 ≤ length message % 64
      → (final m).buffer ≡ replicate 56 0 ++ le_bytes 8 (8 * length message % 2 ^ 64)
  final_forgets high =
      closed_buffer
      ∙ ap (λ t. t ++ le_bytes 8 (8 * length message % 2 ^ 64)) (padded_buffer_high high)

  final-Holds : length message % 64 < 56 → Holds (final m) message
  final-Holds low = record {
    compressed = unfold final in holds.compressed;
    low_bits = unfold final in holds.low_bits;
    high_bits = unfold final in holds.high_bits;
    buffer_length = final-buffer_length;
    pending = kept;
  }
    where
      k : ℕ
      k = length message % 64

      kept : take k (final m).buffer ≡ drop (length message / 64 * 64) message
      kept =
          let long : k ≤ length (take k m.buffer) =
            omega (arith, length-take k m.buffer, holds.buffer_length) in
          let short : length (take k m.buffer) ≤ k = omega (arith, length-take k m.buffer) in
          rw (closed_buffer, padded_buffer_low low, append_assoc)
            (take-append_le k (take k m.buffer) _ long
              ∙ take_all k (take k m.buffer) short
              ∙ holds.pending)

-- With less than 56 bytes waiting in the buffer, `digest` leaves an object that still stands for
-- the same bytes, and whose flag does not keep the digest: more bytes may follow.
digest-Holds :
    (m : Md5) (message : List ℕ)
    → m.finished ≡ false
    → length message % 64 < 56
    → Holds m message
    → Holds (digest m).0 message
unfolding digest
digest-Holds m message fresh low holds = rw fresh (final-Holds (flag-Holds holds) low)

-- With 56 bytes or more waiting, they are gone after `digest`: whatever they were, the buffer then
-- holds zeros and the counter, while the counter still says that they wait.
pub digest_forgets_pending :
    (m : Md5) (message : List ℕ)
    → m.finished ≡ false
    → 56 ≤ length message % 64
    → Holds m message
    → ((digest m).0.buffer ≡ replicate 56 0 ++ le_bytes 8 (8 * length message % 2 ^ 64))
      × ((digest m).0.count0 ≡ m.count0)
unfolding digest
digest_forgets_pending m message fresh high holds =
    rw fresh (final_forgets (flag-Holds holds) high, unfold final in refl)
