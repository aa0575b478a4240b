-- ===== src/Wire/Flows.antt =====
-- The messages about flows of src/lib/serialize.c: the ready and release messages, the create
-- message, and the refusals of all writers.
use spine_kernel.Prelude.{
  ℕ, ◌+◌, ◌*◌, ◌^◌, ◌<◌, ◌≤◌, ◌≡◌, refl, true, ◌%◌, Option, some, List, ◌++◌, append_assoc, ℤ, pos,
  negsuc, ◌>>=◌, Bytes, le_bytes, read_le, length, drop, length-le_bytes, read_le-le_bytes, arith,
}
use spine_kernel.Wire.{
  SpineMsgHeader, CreateMsg, header_bytes, parse_header, write_body, header_size, write_create_msg,
  create_bytes, write_measure_msg, create, too_small, write_ready_msg, write_release_msg, ready,
  release,
}
use spine_kernel.Wire.RoundTrip.{parse_header-header_bytes, write_body_lem, copy_fields_lem}

-- The values of a create message fit their types.
pub record IsCreate (cr : CreateMsg) : Type 0 where
  pub init_cwnd_fits : cr.init_cwnd < 2 ^ 32
  pub mss_fits : cr.mss < 2 ^ 32
  pub src_ip_fits : cr.src_ip < 2 ^ 32
  pub src_port_fits : cr.src_port < 2 ^ 32
  pub dst_ip_fits : cr.dst_ip < 2 ^ 32
  pub dst_port_fits : cr.dst_port < 2 ^ 32
  pub name_size : length cr.cong_alg ≡ 64

-- What the agent reads from a create message: the header, six numbers, and the rest, which begins
-- with the name.
unfoldable pub parse_create : Bytes → Option (SpineMsgHeader × CreateMsg)
parse_create buf = do
  (hdr, buf) ← parse_header buf
  (cwnd, buf) ← read_le 4 buf
  (mss, buf) ← read_le 4 buf
  (sip, buf) ← read_le 4 buf
  (sport, buf) ← read_le 4 buf
  (dip, buf) ← read_le 4 buf
  (dport, buf) ← read_le 4 buf
  some (
    hdr,
    record {
      init_cwnd = cwnd;
      mss = mss;
      src_ip = sip;
      src_port = sport;
      dst_ip = dip;
      dst_port = dport;
      cong_alg = buf;
    },
  )

abbrev pub create_header : ℕ → SpineMsgHeader
create_header sid = record { msg_type = create; len = 96; socket_id = sid }

length-create_bytes : (cr : CreateMsg) → length (create_bytes cr) ≡ 24 + length cr.cong_alg
unfolding create_bytes le_bytes
length-create_bytes cr = omega arith

parse_create_lem :
    (sid : ℕ) (cr : CreateMsg) (rest : Bytes)
    → IsCreate cr
    → sid < 2 ^ 32
    → parse_create (header_bytes (create_header sid) ++ (create_bytes cr ++ rest))
      ≡ some (create_header sid, record cr { cong_alg = cr.cong_alg ++ rest })
unfolding parse_create create_bytes
parse_create_lem sid cr rest v hs = rw (
  parse_header-header_bytes (create_header sid) _ (omega arith),
  append_assoc,
  read_le-le_bytes 4 cr.init_cwnd _ v.init_cwnd_fits,
  append_assoc,
  read_le-le_bytes 4 cr.mss _ v.mss_fits,
  append_assoc,
  read_le-le_bytes 4 cr.src_ip _ v.src_ip_fits,
  append_assoc,
  read_le-le_bytes 4 cr.src_port _ v.src_port_fits,
  append_assoc,
  read_le-le_bytes 4 cr.dst_ip _ v.dst_ip_fits,
  append_assoc,
  read_le-le_bytes 4 cr.dst_port _ v.dst_port_fits,
)

pub write_create_msg_lem :
    (buf : Bytes) (b sid : ℕ) (cr : CreateMsg)
    → length cr.cong_alg ≡ 64
    → 96 ≤ b
    → b ≤ length buf
    → write_create_msg buf (pos b) sid cr
      ≡ some (pos 96, header_bytes (create_header sid) ++ (create_bytes cr ++ drop 96 buf))
unfolding write_create_msg
write_create_msg_lem buf b sid cr name fits room =
    write_body_lem buf (create_bytes cr) b (create_header sid) refl
      (omega (arith, length-create_bytes cr)) fits room

-- Given a buffer with room for 96 bytes, `write_create_msg` returns 96; read back, the message
-- holds the flow's index and description, and behind the name stand the old bytes of the buffer.
pub write_create_msg-parse_create :
    (buf : Bytes) (b sid : ℕ) (cr : CreateMsg)
    → IsCreate cr
    → sid < 2 ^ 32
    → 96 ≤ b
    → b ≤ length buf
    → (r : Bytes) × (write_create_msg buf (pos b) sid cr ≡ some (pos 96, r))
      × (parse_create r
          ≡ some (create_header sid, record cr { cong_alg = cr.cong_alg ++ drop 96 buf }))
write_create_msg-parse_create buf b sid cr v hs fits room = (
  header_bytes (create_header sid) ++ (create_bytes cr ++ drop 96 buf),
  write_create_msg_lem buf b sid cr v.name_size fits room,
  parse_create_lem sid cr (drop 96 buf) v hs,
)

abbrev pub control_header : ℕ → SpineMsgHeader
control_header t = record { msg_type = t; len = 12; socket_id = 0 }

abbrev pub control_msg : ℕ → ℕ → Bytes
control_msg t id = header_bytes (control_header t) ++ le_bytes 4 id

pub write_ready_msg_lem :
    (buf : Bytes) (b id : ℕ)
    → 12 ≤ b
    → b ≤ length buf
    → write_ready_msg buf (pos b) id ≡ some (pos 12, control_msg ready id ++ drop 12 buf)
unfolding write_ready_msg
write_ready_msg_lem buf b id fits room = rw (append_assoc) (
    write_body_lem buf (le_bytes 4 id) b (control_header ready) refl
      (omega (arith, length-le_bytes 4 id)) fits room)

pub write_release_msg_lem :
    (buf : Bytes) (b id : ℕ)
    → 12 ≤ b
    → b ≤ length buf
    → write_release_msg buf (pos b) id ≡ some (pos 12, control_msg release id ++ drop 12 buf)
unfolding write_release_msg
write_release_msg_lem buf b id fits room = rw (append_assoc) (
    write_body_lem buf (le_bytes 4 id) b (control_header release) refl
      (omega (arith, length-le_bytes 4 id)) fits room)

-- A message that does not fit the size given: -1, and the buffer as it was.
write_body_small :
    (buf body : Bytes) (b : ℤ) (h : SpineMsgHeader)
    → too_small b h.len ≡ true
    → write_body buf b h body ≡ some (negsuc 0, buf)
unfolding write_body
write_body_small buf body (pos b) h e = rw e
write_body_small buf body (negsuc b) h e = refl

-- Whatever the buffer, a size that is negative or less than the message makes each writer return -1
-- and leave the buffer unchanged: 12 bytes for ready and release, 96 for create, and 16 + 8 n for a
-- measurement of n fields, n at most 110.
pub writers_refuse :
    (buf : Bytes) (b : ℤ) (id sid uid : ℕ) (cr : CreateMsg) (fs : List ℕ)
    → length fs ≤ 110
    → (too_small b 12 ≡ true → write_ready_msg buf b id ≡ some (negsuc 0, buf))
      × (too_small b 12 ≡ true → write_release_msg buf b id ≡ some (negsuc 0, buf))
      × (too_small b 96 ≡ true → write_create_msg buf b sid cr ≡ some (negsuc 0, buf))
      × (too_small b (16 + 8 * length fs) ≡ true
          → write_measure_msg buf b sid uid (some fs) (length fs) ≡ some (negsuc 0, buf))
unfolding write_ready_msg write_release_msg write_create_msg write_measure_msg
writers_refuse buf b id sid uid cr fs few = (
  λ e. write_body_small buf _ b _ e,
  λ e. write_body_small buf _ b _ e,
  λ e. write_body_small buf _ b _ e,
  λ e. rw (copy_fields_lem fs few, len_eq) (write_body_small buf _ b _ e),
)
  where
    len_eq : (header_size + 8 + length fs * 8) % 2 ^ 16 ≡ 16 + 8 * length fs
    len_eq = omega arith
