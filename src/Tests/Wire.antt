-- ===== src/Tests/Wire.antt =====
-- Tests of the messages of src/lib/serialize.c.
use spine_kernel.Prelude.{ℕ, ◌≡◌, refl, some, [], ◌∷◌, pos, Bytes, replicate}
use spine_kernel.Wire.{CreateMsg, write_ready_msg, char_to_u32}
use spine_kernel.Tests.Fixtures.{running}

abbrev buffer : Bytes
buffer = replicate 100 0xee

abbrev cubic_flow : CreateMsg
cubic_flow = record {
  init_cwnd = 14480;
  mss = 1448;
  src_ip = 1;
  src_port = 2;
  dst_ip = 3;
  dst_port = 4;
  cong_alg = replicate 64 b'c';
}

ready_bytes :
    write_ready_msg (replicate 12 0) (pos 12) 0x0102
    ≡ some (pos 12, 5 ∷ 0 ∷ 12 ∷ 0 ∷ 0 ∷ 0 ∷ 0 ∷ 0 ∷ 2 ∷ 1 ∷ 0 ∷ 0 ∷ [])
unfolding running
ready_bytes = refl

signed_char : (◌≡◌ {A = ℕ} (char_to_u32 127) 127) × (char_to_u32 200 ≡ 4294967240)
unfolding char_to_u32
signed_char = (refl, refl)
