-- ===== src/Tests/Digests.antt =====
-- The MD5 object of MyMd5.cpp on concrete messages.
use shujugongxiang.Prelude.{
  ℕ, ◌*◌, ◌%◌, ◌^◌, ◌≡◌, refl, true, List, [], ◌++◌, length, replicate, arith,
}
use shujugongxiang.Md5.Codec.{decode, join_word, hex_digits, bytes_to_hex}
use shujugongxiang.Md5.Spec.{md5, le_bytes, compress, pad, state_bytes}
use shujugongxiang.Md5.Transform.{
  transform, round1, round2, round3, round4, ff, gg, hh, ii, mix, rotate_left, fun_f, fun_g, fun_h,
  fun_i,
}
use shujugongxiang.Md5.Context.{Md5, initial_state, reset, update, digest}
use shujugongxiang.Md5.Context.Update.{Holds, reset-Holds, update-Holds}
use shujugongxiang.Md5.Context.Digest.{digest-md5}
use shujugongxiang.Md5.Context.Message.{finished-update}
use shujugongxiang.Md5.Context.Reuse.{digest_forgets_pending}
use shujugongxiang.Text.Defs.{codes}

abbrev memory : Md5
memory = record {
  state = initial_state;
  count0 = 7;
  count1 = 9;
  buffer = replicate 64 1;
  digest_bytes = [];
  finished = true;
}

abbrev fresh : Md5
fresh = reset memory

fresh-Holds : Holds fresh []
fresh-Holds = reset-Holds memory refl

abbrev sixty : List ℕ
sixty = replicate 60 b'a'

sixty-Holds : Holds (update fresh sixty) sixty
sixty-Holds = update-Holds fresh [] sixty (omega arith) fresh-Holds

-- RFC 1321: MD5 ("abc").
spec_abc : bytes_to_hex (md5 (codes "abc")) ≡ codes "900150983cd24fb0d6963f7d28e17f72"
unfolding bytes_to_hex md5 compress transform round1 round2 round3 round4 ff gg hh ii mix
    rotate_left fun_f fun_g fun_h fun_i decode join_word pad state_bytes le_bytes hex_digits
spec_abc = refl

digest-md5_example : (digest fresh).1 ≡ md5 []
unfolding reset
digest-md5_example = digest-md5 fresh [] refl fresh-Holds

digest_forgets_pending_example :
    ((digest (update fresh sixty)).0.buffer
      ≡ replicate 56 0 ++ le_bytes 8 (8 * length sixty % 2 ^ 64))
    × ((digest (update fresh sixty)).0.count0 ≡ (update fresh sixty).count0)
digest_forgets_pending_example =
    digest_forgets_pending (update fresh sixty) sixty (finished-update fresh sixty) (omega arith)
      sixty-Holds
