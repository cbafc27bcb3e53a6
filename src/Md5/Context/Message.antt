-- ===== src/Md5/Context/Message.antt =====
-- What a client of MyMd5.cpp gets for a whole message, given at once, in parts, or by a stream.
use shujugongxiang.Prelude.{
  ℕ, ◌+◌, ◌^◌, ◌<◌, ◌≡◌, refl, ap, sym, ◌∙◌, inl, inr, false, some, List, [], ◌∷◌, ◌++◌, append-nil,
  append_assoc, length, length-append, ltb, if◌then◌else◌, Bool-cases, All, arith,
}
use mathlib.Core.List.{flatten}
use shujugongxiang.Md5.Codec.{bytes_to_hex}
use shujugongxiang.Md5.Spec.{md5}
use shujugongxiang.Md5.Context.{
  Md5, reset, update, update_reads, update_stream, digest, to_string, construct, construct_string,
}
use shujugongxiang.Md5.Context.Update.{Holds, reset-Holds, update-Holds}
use shujugongxiang.Md5.Context.Digest.{digest-md5}

pub finished-update : (m : Md5) (input : List ℕ) → (update m input).finished ≡ false
unfolding update
finished-update m input = ground arith

-- A read that may be used as an input of `update`.
abbrev pub IsShort : List ℕ → Type 0
IsShort bytes = length bytes + 64 < 2 ^ 32

nil_of_length : (bytes : List ℕ) → ltb 0 (length bytes) ≡ false → bytes ≡ []
nil_of_length [] h = refl
nil_of_length (b ∷ bytes) h = absurd (ground arith)

update_reads-cons :
    (m : Md5) (bytes : List ℕ) (reads : List (List ℕ))
    → update_reads m (bytes ∷ reads)
      ≡ update_reads (if ltb 0 (length bytes) then update m bytes else m) reads
unfolding update_reads
update_reads-cons m bytes reads = refl

update_reads-nil : (m : Md5) → update_reads m [] ≡ m
unfolding update_reads
update_reads-nil m = refl

update_reads-Holds :
    (m : Md5) (message : List ℕ) (reads : List (List ℕ))
    → All IsShort reads
    → m.finished ≡ false
    → Holds m message
    → Holds (update_reads m reads) (message ++ flatten reads)
      × ((update_reads m reads).finished ≡ false)
unfolding flatten
update_reads-Holds m message [] short fresh holds =
    rw (update_reads-nil m) (rw append-nil holds, fresh)
update_reads-Holds m message (bytes ∷ reads) short fresh holds =
    elim (Bool-cases (ltb 0 (length bytes))) [
      | inl some_bytes ↦
          rw
            (
              update_reads-cons m bytes reads,
              some_bytes,
              ← append_assoc message bytes (flatten reads),
            )
            (update_reads-Holds (update m bytes) (message ++ bytes) reads short.1
              (finished-update m bytes) (update-Holds m message bytes short.0 holds))
      | inr no_bytes ↦
          rw (update_reads-cons m bytes reads, no_bytes, nil_of_length bytes no_bytes)
            (update_reads-Holds m message reads short.1 fresh holds)
    ]

-- Whatever is left in the object from earlier use, after `reset` and a stream the text is that of
-- the MD5 of all bytes that the stream delivered, in their order.
to_string-update_stream :
    (m : Md5) (reads : List (List ℕ))
    → length m.buffer ≡ 64
    → All IsShort reads
    → (to_string (update_stream (reset m) (some reads))).1 ≡ bytes_to_hex (md5 (flatten reads))
unfolding to_string update_stream reset
to_string-update_stream m reads full short =
    let parts = update_reads-Holds (reset m) [] reads short refl (reset-Holds m full) in
    ap bytes_to_hex (digest-md5 (update_reads (reset m) reads) (flatten reads) parts.1 parts.0)

-- The constructor for a string, on memory that is not initialised, gives the text of its MD5.
pub to_string-construct_string :
    (memory : Md5) (str : List ℕ)
    → length memory.buffer ≡ 64
    → IsShort str
    → (to_string (construct_string memory str)).1 ≡ bytes_to_hex (md5 str)
unfolding to_string construct_string construct
to_string-construct_string memory str full short = ap bytes_to_hex (
    digest-md5 (update (reset memory) str) str (finished-update (reset memory) str)
      (update-Holds (reset memory) [] str short (reset-Holds memory full)))

-- Two calls of `update` are one call on the joined bytes, as far as the digest shows.
pub digest-update-update :
    (m : Md5) (message xs ys : List ℕ)
    → Holds m message
    → length xs + length ys + 64 < 2 ^ 32
    → (digest (update (update m xs) ys)).1 ≡ (digest (update m (xs ++ ys))).1
digest-update-update m message xs ys holds short =
    digest-md5 (update (update m xs) ys) (message ++ xs ++ ys) (finished-update (update m xs) ys) (
      update-Holds (update m xs) (message ++ xs) ys (omega arith)
        (update-Holds m message xs (omega arith) holds))
    ∙ ap md5 (append_assoc message xs ys)
    ∙ sym (
        digest-md5 (update m (xs ++ ys)) (message ++ (xs ++ ys)) (finished-update m (xs ++ ys))
          (update-Holds m message (xs ++ ys) (omega (arith, length-append xs ys)) holds))
