-- ===== src/Md5/Context.antt =====
-- The MD5 object of `WPD_MTP_data/verity/MyMd5.cpp`: `reset`, `update`, `final`, `digest` and
-- `toString`. Each method takes the object's fields and returns the new ones. `size_t` and `uint32`
-- have 32 bits, as in the Win32 build; a message is the list of its bytes.
pub mod Blocks
pub mod Update
pub mod Digest
pub mod Message
pub mod Reuse
use shujugongxiang.Prelude.{
  ℕ, zero, suc, ◌+◌, ◌-◌, ◌*◌, ◌/◌, ◌%◌, ◌^◌, bit_and, Bool, true, false, Option, none, some, List,
  [], ◌∷◌, ◌++◌, length, take, drop, replicate, ltb, leb, if◌then◌else◌, u32, shl, shr,
}
use shujugongxiang.Md5.Codec.{encode, bytes_to_hex}
use shujugongxiang.Md5.Transform.{State, transform}

-- `_state`, `_count[0]`, `_count[1]`, `_buffer`, `_digest`, `_finished`.
pub record Md5 : Type 0 where
  pub state : State
  pub count0 : ℕ
  pub count1 : ℕ
  pub buffer : List ℕ
  pub digest_bytes : List ℕ
  pub finished : Bool

abbrev pub initial_state : State
initial_state = record { a = 0x67452301; b = 0xefcdab89; c = 0x98badcfe; d = 0x10325476 }

-- `PADDING[64] = { 0x80 }`.
abbrev pub padding : List ℕ
padding = 0x80 ∷ replicate 63 0

-- `reset` leaves the buffer and the old digest as they are.
unfoldable pub reset : Md5 → Md5
reset m = record m { finished = false; count0 = 0; count1 = 0; state = initial_state }

-- `memcpy(&buf[at], bytes, length of bytes)`: a write past the end would lengthen the array.
pub copy_at : List ℕ → ℕ → List ℕ → List ℕ
copy_at buf at bytes = take at buf ++ (bytes ++ drop (at + length bytes) buf)

-- `for (i = …; i + 63 < length; i += 64) transform(&input[i])`, with the final `i`.
pub transform_blocks : ℕ → State → List ℕ → ℕ → State × ℕ
transform_blocks zero w input i = (w, i)
transform_blocks (suc fuel) w input i =
    let rest = transform_blocks fuel (transform w (take 64 (drop i input))) input (u32 (i + 64)) in
    if ltb (u32 (i + 63)) (length input) then rest else (w, i)

-- `(uint32)((_count[0] >> 3) & 0x3f)`.
pub buffer_index : Md5 → ℕ
buffer_index m = bit_and (shr m.count0 3) 0x3f

-- "update number of bits": the low word first, its carry, then the bits above 2^32.
pub add_bits : Md5 → ℕ → Md5
add_bits m length =
    let low = u32 (shl length 3) in
    let count0 = u32 (m.count0 + low) in
    let carried = if ltb count0 low then u32 (m.count1 + 1) else m.count1 in
    record m { count0 = count0; count1 = u32 (carried + shr length 29) }

-- The branch `length >= partLen`: fill the buffer, transform it and the whole blocks that follow.
pub absorb : Md5 → ℕ → ℕ → List ℕ → Md5
absorb m index part_len input =
    let filled = copy_at m.buffer index (take part_len input) in
    let (w, i) = transform_blocks (length input) (transform m.state filled) input part_len in
    record m { state = w; buffer = copy_at filled 0 (drop i input) }

pub update : Md5 → List ℕ → Md5
unfolding copy_at transform_blocks buffer_index add_bits absorb
update m input =
    let index = buffer_index m in
    let part_len = 64 - index in
    let counted = add_bits (record m { finished = false }) (length input) in
    if leb part_len (length input)
    then absorb counted index part_len input
    else record counted { buffer = copy_at counted.buffer index input }

pub final : Md5 → Md5
final m =
    let bits = encode (m.count0 ∷ m.count1 ∷ []) in
    let index = buffer_index m in
    let pad_len = if ltb index 56 then 56 - index else 120 - index in
    let padded = update m (take pad_len padding) in
    let closed = update padded bits in
    let w = closed.state in
    record closed {
      digest_bytes = encode (w.a ∷ w.b ∷ w.c ∷ w.d ∷ []);
      state = m.state;
      count0 = m.count0;
      count1 = m.count1;
    }

-- The object after the call, and the sixteen bytes that it returns.
pub digest : Md5 → Md5 × List ℕ
digest m =
    let m' = if m.finished then m else final (record m { finished = true }) in (m', m'.digest_bytes)

unfoldable pub to_string : Md5 → Md5 × List ℕ
to_string m = let (m', bytes) = digest m in (m', bytes_to_hex bytes)

-- The constructors run `reset` on memory that is not initialised: `_buffer`, `_digest` and the
-- other fields hold whatever was there.
unfoldable pub construct : Md5 → Md5
construct memory = reset memory

unfoldable pub construct_string : Md5 → List ℕ → Md5
construct_string memory str = update (construct memory) str

-- `update(ifstream&)`: the list holds what each `in.read` delivers until `eof`, at most BUFFER_SIZE
-- bytes at a time; `none` is a stream in a failed state, which is left alone.
pub update_reads : Md5 → List (List ℕ) → Md5
update_reads m [] = m
update_reads m (buffer ∷ reads) =
    update_reads (if ltb 0 (length buffer) then update m buffer else m) reads

pub update_stream : Md5 → Option (List (List ℕ)) → Md5
update_stream m none = m
update_stream m (some reads) = update_reads m reads

abbrev pub buffer_size : ℕ
buffer_size = 1024
