-- ===== src/Md5/Context/Digest.antt =====
-- `MD5::final`, `digest` and `toString` of MyMd5.cpp return the MD5 of the bytes that were given.
use shujugongxiang.Prelude.{
  ℕ, zero, suc, ◌+◌, ◌-◌, ◌*◌, ◌/◌, ◌%◌, ◌^◌, ◌≤◌, ◌<◌, ◌≡◌, refl, ap, ap₂, subst, ◌∙◌, inl, inr,
  true, false, List, [], ◌∷◌, ◌++◌, append-nil, append_assoc, length, take, replicate, ltb,
  Bool-cases, u8, shr, and-mask, bit_and, if◌then◌else◌, arith, length-replicate,
}
use shujugongxiang.Md5.Codec.{encode}
use shujugongxiang.Md5.Codec.Roundtrip.{length-encode}
use shujugongxiang.Md5.Spec.{le_bytes, pad, state_bytes, md5}
use shujugongxiang.Md5.Transform.{State}
use shujugongxiang.Md5.Context.{Md5, padding, update, final, digest, buffer_index}
use shujugongxiang.Md5.Context.Update.{Holds, update-Holds, buffer_index_lem}

u8_of_mask : (x : ℕ) → u8 (bit_and x 0xff) ≡ x % 256
u8_of_mask x = omega (arith, and-mask 8 x)

pub encode-le_bytes : (w : ℕ) (ws : List ℕ) → encode (w ∷ ws) ≡ le_bytes 4 w ++ encode ws
unfolding encode le_bytes
encode-le_bytes w ws = ap₂ ◌∷◌ (u8_of_mask w) (
    ap₂ ◌∷◌ (omega (arith, u8_of_mask (shr w 8))) (
      ap₂ ◌∷◌ (omega (arith, u8_of_mask (shr w 16)))
        (ap₂ ◌∷◌ (omega (arith, u8_of_mask (shr w 24))) refl)))

-- The counter's two words are the 64-bit length.
le_bytes_halves : (n : ℕ) → le_bytes 4 (n % 2 ^ 32) ++ le_bytes 4 (n / 2 ^ 32) ≡ le_bytes 8 n
unfolding le_bytes
le_bytes_halves n = ground arith

take-replicate : (k n : ℕ) → k ≤ n → take k (replicate n 0) ≡ replicate {A = ℕ} k 0
take-replicate zero n h = refl
take-replicate (suc k) zero h = absurd (omega arith)
take-replicate (suc k) (suc n) h = ap (λ t. 0 ∷ t) (take-replicate k n (omega arith))

-- The padding bytes that `final` takes.
pub pad_bytes :
    (k : ℕ)
    → k < 64
    → take (if ltb k 56 then 56 - k else 120 - k) padding ≡ 0x80 ∷ replicate ((119 - k) % 64) 0
pad_bytes k h = elim (Bool-cases (ltb k 56)) [
  | inl low ↦
      let size : 56 - k ≡ suc ((119 - k) % 64) = ground arith in
      rw (low, size) (ap (λ t. 0x80 ∷ t) (take-replicate ((119 - k) % 64) 63 (omega arith)))
  | inr high ↦
      let size : 120 - k ≡ suc ((119 - k) % 64) = ground arith in
      rw (high, size) (ap (λ t. 0x80 ∷ t) (take-replicate ((119 - k) % 64) 63 (omega arith)))
]

module _ {m : Md5} {message : List ℕ} (holds : Holds m message) where
  abbrev pub pad_count : ℕ
  pad_count = let k = length message % 64 in if ltb k 56 then 56 - k else 120 - k

  pub counter_bytes : encode (m.count0 ∷ m.count1 ∷ []) ≡ le_bytes 8 (8 * length message % 2 ^ 64)
  unfolding encode
  counter_bytes =
      let bits = 8 * length message % 2 ^ 64 in
      let low : m.count0 ≡ bits % 2 ^ 32 = omega (arith, holds.low_bits) in
      let high : m.count1 ≡ bits / 2 ^ 32 = omega (arith, holds.high_bits) in
      encode-le_bytes m.count0 (m.count1 ∷ [])
      ∙ ap (λ t. le_bytes 4 m.count0 ++ t) (encode-le_bytes m.count1 [] ∙ append-nil _)
      ∙ ap₂ (λ (x y : ℕ). le_bytes 4 x ++ le_bytes 4 y) low high
      ∙ le_bytes_halves bits

  -- The object before `final` stores the digest.
  pub closed-Holds :
      Holds
        (update (update m (take pad_count padding)) (encode (m.count0 ∷ m.count1 ∷ [])))
        (pad message)
  unfolding pad
  closed-Holds =
      let taken = pad_bytes (length message % 64) (omega arith) in
      let zeros = length-replicate {A = ℕ} ((119 - length message % 64) % 64) 0 in
      let short : length (take pad_count padding) + 64 < 2 ^ 32 =
        omega (arith, ap length taken, zeros) in
      let padded = update-Holds m message (take pad_count padding) short holds in
      let closed =
        update-Holds (update m (take pad_count padding)) (message ++ take pad_count padding)
          (encode (m.count0 ∷ m.count1 ∷ []))
          (omega (arith, length-encode (m.count0 ∷ m.count1 ∷ []))) padded in
      subst
        (λ t.
          Holds (update (update m (take pad_count padding)) (encode (m.count0 ∷ m.count1 ∷ []))) t)
        (append_assoc message (take pad_count padding) (encode (m.count0 ∷ m.count1 ∷ []))
          ∙ ap₂ (λ x y. message ++ (x ++ y)) taken counter_bytes)
        closed

encode-nil : encode [] ≡ []
unfolding encode
encode-nil = refl

encode_state : (w : State) → encode (w.a ∷ w.b ∷ w.c ∷ w.d ∷ []) ≡ state_bytes w
unfolding state_bytes
encode_state w = simp (encode-le_bytes, encode-nil, append-nil)

-- The flag that `digest` sets before `final` does not change what the object stands for.
pub flag-Holds :
    {m : Md5} {message : List ℕ} → Holds m message → Holds (record m { finished = true }) message
flag-Holds h = record {
  compressed = h.compressed;
  low_bits = h.low_bits;
  high_bits = h.high_bits;
  buffer_length = h.buffer_length;
  pending = h.pending;
}

final-md5 : (m : Md5) (message : List ℕ) → Holds m message → (final m).digest_bytes ≡ md5 message
unfolding final md5
final-md5 m message holds =
    let e : buffer_index m ≡ length message % 64 = buffer_index_lem holds in
    rw (e, encode_state) (ap state_bytes (closed-Holds holds).compressed)

-- The call returns the MD5 of the bytes given since the last `reset`.
pub digest-md5 :
    (m : Md5) (message : List ℕ) → m.finished ≡ false → Holds m message → (digest m).1 ≡ md5 message
unfolding digest
digest-md5 m message fresh holds =
    rw fresh (final-md5 (record m { finished = true }) message (flag-Holds holds))

final-buffer : (m : Md5) (message : List ℕ) → Holds m message → length (final m).buffer ≡ 64
unfolding final
final-buffer m message holds =
    let e : buffer_index m ≡ length message % 64 = buffer_index_lem holds in
    rw e (closed-Holds holds).buffer_length

-- The object after the call has its whole buffer.
pub digest-buffer :
    (m : Md5) (message : List ℕ)
    → m.finished ≡ false
    → Holds m message
    → length (digest m).0.buffer ≡ 64
unfolding digest
digest-buffer m message fresh holds =
    rw fresh (final-buffer (record m { finished = true }) message (flag-Holds holds))
