-- ===== src/Wire.antt =====
-- src/lib/serialize.h and src/lib/serialize.c: the messages between the datapath and the user-space
-- agent. A buffer is the list of its bytes. A function returns C's `int` and the buffer after it;
-- `none` is an access outside a buffer or array.
pub mod RoundTrip
pub mod Flows
use spine_kernel.Prelude.{
  ℕ, zero, suc, ◌+◌, ◌*◌, ◌-◌, ◌%◌, ◌^◌, Bool, true, ◌||◌, Option, none, some, List, [], ◌∷◌, ◌++◌,
  ℤ, pos, negsuc, is_neg, ltb, ◌==◌, if◌then◌else◌, ◌>>=◌, Bytes, le_bytes, read_le, store,
  replicate,
}

-- Message types.
module _ where
  abbrev pub create : ℕ
  create = 0

  abbrev pub measure : ℕ
  measure = 1

  abbrev pub update_fields : ℕ
  update_fields = 3

  abbrev pub ready : ℕ
  ready = 5

  abbrev pub state : ℕ
  state = 6

  abbrev pub param : ℕ
  param = 7

  abbrev pub release : ℕ
  release = 9

-- Sizes.
module _ where
  abbrev pub biggest_msg_size : ℕ
  biggest_msg_size = 32678

  abbrev pub create_msg_size : ℕ
  create_msg_size = 96

  abbrev pub report_msg_size : ℕ
  report_msg_size = 900

  abbrev pub ready_msg_size : ℕ
  ready_msg_size = 12

  abbrev pub release_msg_size : ℕ
  release_msg_size = 12

  abbrev pub max_report_reg : ℕ
  max_report_reg = 110

  abbrev pub max_control_reg : ℕ
  max_control_reg = 20

  abbrev pub max_mutable_reg : ℕ
  max_mutable_reg = 222

  abbrev pub max_measurement_fields : ℕ
  max_measurement_fields = 16

  abbrev pub max_cong_alg_size : ℕ
  max_cong_alg_size = 64

-- `struct SpineMsgHeader`: two u16 and a u32.
pub record SpineMsgHeader : Type 0 where
  pub msg_type : ℕ
  pub len : ℕ
  pub socket_id : ℕ

-- `sizeof(struct SpineMsgHeader)`
abbrev pub header_size : ℕ
header_size = 8

-- The packed image of a header in memory.
unfoldable pub header_bytes : SpineMsgHeader → Bytes
header_bytes h = le_bytes 2 h.msg_type ++ (le_bytes 2 h.len ++ le_bytes 4 h.socket_id)

-- The `memcpy` of `read_header`; also what the agent does first with a message.
unfoldable pub parse_header : Bytes → Option (SpineMsgHeader × Bytes)
parse_header buf = do
  (t, buf) ← read_le 2 buf
  (n, buf) ← read_le 2 buf
  (sid, buf) ← read_le 4 buf
  some (record { msg_type = t; len = n; socket_id = sid }, buf)

abbrev pub is_readable : ℕ → Bool
is_readable t = t == state || (t == param || (t == update_fields || t == measure))

-- The header, the returned `int`, and what follows the header in the buffer.
unfoldable pub read_header : Bytes → Option (SpineMsgHeader × ℤ × Bytes)
read_header buf = do
  (hdr, rest) ← parse_header buf
  some (hdr, (if is_readable hdr.msg_type then pos header_size else negsuc 0), rest)

abbrev pub is_writable : ℕ → Bool
is_writable t = t == create || (t == state || (t == measure || (t == ready || t == release)))

-- `bufsize < n`, for an `int` and a small size.
abbrev pub too_small : ℤ → ℕ → Bool
too_small (pos b) n = ltb b n
too_small (negsuc b) n = true

unfoldable pub serialize_header : Bytes → ℤ → SpineMsgHeader → Option (ℤ × Bytes)
serialize_header buf bufsize hdr =
    if is_writable hdr.msg_type
    then (if too_small bufsize header_size
        then some (negsuc 0, buf)
        else do buf ← store 0 (header_bytes hdr) buf; some (pos header_size, buf))
    else some (negsuc 0, buf)

-- The part that the four writers share: the checks of `bufsize`, the header, then `memcpy` of the
-- body behind it. The result is `hdr.Len`.
unfoldable pub write_body : Bytes → ℤ → SpineMsgHeader → Bytes → Option (ℤ × Bytes)
write_body buf bufsize hdr body =
    if is_neg bufsize
    then some (negsuc 0, buf)
    else if too_small bufsize hdr.len
    then some (negsuc 0, buf)
    else do
      (ret, buf) ← serialize_header buf bufsize hdr
      if is_neg ret
          then some (ret, buf)
          else do buf ← store header_size body buf; some (pos hdr.len, buf)

unfoldable pub write_ready_msg : Bytes → ℤ → ℕ → Option (ℤ × Bytes)
write_ready_msg buf bufsize id =
    write_body buf bufsize (record { msg_type = ready; len = header_size + 4; socket_id = 0 })
      (le_bytes 4 id)

unfoldable pub write_release_msg : Bytes → ℤ → ℕ → Option (ℤ × Bytes)
write_release_msg buf bufsize id =
    write_body buf bufsize (record { msg_type = release; len = header_size + 4; socket_id = 0 })
      (le_bytes 4 id)

-- `struct CreateMsg`: six u32 and a name of 64 bytes.
pub record CreateMsg : Type 0 where
  pub init_cwnd : ℕ
  pub mss : ℕ
  pub src_ip : ℕ
  pub src_port : ℕ
  pub dst_ip : ℕ
  pub dst_port : ℕ
  pub cong_alg : Bytes

-- `sizeof(struct CreateMsg)`
abbrev pub create_size : ℕ
create_size = 88

unfoldable pub create_bytes : CreateMsg → Bytes
create_bytes cr =
    le_bytes 4 cr.init_cwnd
    ++ (le_bytes 4 cr.mss
        ++ (le_bytes 4 cr.src_ip
            ++ (le_bytes 4 cr.src_port
                ++ (le_bytes 4 cr.dst_ip ++ (le_bytes 4 cr.dst_port ++ cr.cong_alg)))))

unfoldable pub write_create_msg : Bytes → ℤ → ℕ → CreateMsg → Option (ℤ × Bytes)
write_create_msg buf bufsize sid cr =
    write_body buf bufsize
      (record { msg_type = create; len = header_size + create_size; socket_id = sid })
      (create_bytes cr)

-- The first `n` values of an array, if it has them.
unfoldable pub take_exact : ℕ → List ℕ → Option (List ℕ)
take_exact zero xs = some []
take_exact (suc n) [] = none
take_exact (suc n) (x ∷ xs) = elim (take_exact n xs) [ none ↦ none | some r ↦ some (x ∷ r) ]

unfoldable pub fields_bytes : List ℕ → Bytes
fields_bytes [] = []
fields_bytes (x ∷ xs) = le_bytes 8 x ++ fields_bytes xs

-- The `memcpy` into `ms.fields`, an array of 110 zeros: `none` if it leaves either array.
unfoldable pub copy_fields : Option (List ℕ) → ℕ → Option (List ℕ)
copy_fields none n = some (replicate n 0)
copy_fields (some fields) n = if ltb max_report_reg n then none else take_exact n fields

unfoldable pub write_measure_msg : Bytes → ℤ → ℕ → ℕ → Option (List ℕ) → ℕ → Option (ℤ × Bytes)
write_measure_msg buf bufsize sid program_uid msg_fields num_fields = do
  fields ← copy_fields msg_fields num_fields
  write_body buf bufsize
      (record {
        msg_type = measure;
        len = (header_size + 8 + num_fields * 8) % 2 ^ 16;
        socket_id = sid;
      })
      (le_bytes 4 program_uid ++ (le_bytes 4 num_fields ++ fields_bytes fields))

-- `struct UpdateField`, packed: a u8, a u32 and a u64.
pub record UpdateField : Type 0 where
  pub reg_type : ℕ
  pub reg_index : ℕ
  pub new_value : ℕ

-- A read through `struct UpdateField *`, and the pointer after `msg_ptr++`.
unfoldable pub read_update_field : Bytes → Option (UpdateField × Bytes)
read_update_field buf = do
  (t, buf) ← read_le 1 buf
  (i, buf) ← read_le 4 buf
  (v, buf) ← read_le 8 buf
  some (record { reg_type = t; reg_index = i; new_value = v }, buf)

-- `(u32)*buf`: one signed `char`, converted to 32 bits.
unfoldable pub char_to_u32 : ℕ → ℕ
char_to_u32 c = if ltb c 128 then c else 2 ^ 32 + c - 256

-- The returned `int`, and the number of updates.
unfoldable pub check_update_fields_msg : SpineMsgHeader → Bytes → Option (ℤ × ℕ)
check_update_fields_msg hdr buf =
    if hdr.msg_type == update_fields
    then (do
      (c, _) ← read_le 1 buf
      if ltb max_mutable_reg (char_to_u32 c)
          then some (negsuc 0, char_to_u32 c)
          else some (pos 4, char_to_u32 c))
    else some (negsuc 0, 0)

-- The returned `int`, and the index of the request. `*measure_idx < 0` is false of a u32.
unfoldable pub check_measure_fields_msg : SpineMsgHeader → Bytes → Option (ℤ × ℕ)
check_measure_fields_msg hdr buf =
    if hdr.msg_type == measure
    then (do (c, _) ← read_le 1 buf; some (pos 4, char_to_u32 c))
    else some (negsuc 0, 0)

-- `msg_ptr += n`, within the buffer.
unfoldable pub drop_bytes : ℕ → Bytes → Option Bytes
drop_bytes zero buf = some buf
drop_bytes (suc n) [] = none
drop_bytes (suc n) (b ∷ buf) = drop_bytes n buf
