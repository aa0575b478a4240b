-- ===== src/Wire/RoundTrip.antt =====
-- What the writers of src/lib/serialize.c leave in a buffer, read back field by field.
use spine_kernel.Prelude.{
  ℕ, zero, suc, ◌+◌, ◌*◌, ◌%◌, ◌^◌, ◌<◌, ◌≤◌, ◌≡◌, refl, true, Option, some, List, [], ◌∷◌, ◌++◌,
  append_assoc, pos, ◌>>=◌, Bytes, le_bytes, read_le, overwrite, store, length, drop, All,
  length-append, length-le_bytes, read_le-le_bytes, overwrite_lem, le→ltb, store-append,
  length-drop, drop-drop, arith,
}
use spine_kernel.Wire.{
  SpineMsgHeader, header_bytes, parse_header, serialize_header, write_body, header_size,
  write_measure_msg, fields_bytes, copy_fields, take_exact, measure, is_writable,
}

-- The fields of a header fit their types.
pub record IsHeader (h : SpineMsgHeader) : Type 0 where
  pub type_fits : h.msg_type < 2 ^ 16
  pub len_fits : h.len < 2 ^ 16
  pub sid_fits : h.socket_id < 2 ^ 32

pub length-header_bytes : (h : SpineMsgHeader) → length (header_bytes h) ≡ header_size
unfolding header_bytes le_bytes
length-header_bytes h = refl

pub parse_header-header_bytes :
    (h : SpineMsgHeader) (rest : Bytes)
    → IsHeader h
    → parse_header (header_bytes h ++ rest) ≡ some (h, rest)
unfolding parse_header header_bytes
parse_header-header_bytes h rest v = rw (
  append_assoc,
  append_assoc,
  read_le-le_bytes 2 h.msg_type _ v.type_fits,
  read_le-le_bytes 2 h.len _ v.len_fits,
  read_le-le_bytes 4 h.socket_id rest v.sid_fits,
)

serialize_header_lem :
    (buf : Bytes) (b : ℕ) (h : SpineMsgHeader)
    → is_writable h.msg_type ≡ true
    → header_size ≤ b
    → b ≤ length buf
    → serialize_header buf (pos b) h
      ≡ some (pos header_size, header_bytes h ++ drop header_size buf)
unfolding serialize_header store
serialize_header_lem buf b h w fits room = rw (w, le→ltb b header_size fits, copied) refl
  where
    copied : overwrite (header_bytes h) buf ≡ some (header_bytes h ++ drop header_size buf)
    copied =
        rw (length-header_bytes h) at
          (overwrite_lem (header_bytes h) buf (omega (arith, length-header_bytes h)))

store_body :
    (buf body : Bytes) (h : SpineMsgHeader)
    → header_size + length body ≤ length buf
    → store header_size body (header_bytes h ++ drop header_size buf)
      ≡ some (header_bytes h ++ (body ++ drop (header_size + length body) buf))
store_body buf body h room =
    rw (drop-drop header_size (length body) buf, length-header_bytes h) at
      (store-append (header_bytes h) body (drop header_size buf)
        (omega (arith, length-drop {0} header_size buf)))

-- With a buffer that holds the message, the writers leave the header, the body, and the old bytes
-- behind them.
pub write_body_lem :
    (buf body : Bytes) (b : ℕ) (h : SpineMsgHeader)
    → is_writable h.msg_type ≡ true
    → h.len ≡ header_size + length body
    → h.len ≤ b
    → b ≤ length buf
    → write_body buf (pos b) h body ≡ some (pos h.len, header_bytes h ++ (body ++ drop h.len buf))
unfolding write_body
write_body_lem buf body b h w e fits room =
    rw
      (
        le→ltb b h.len fits,
        serialize_header_lem buf b h w (omega arith) room,
        store_body buf body h (omega arith),
        e,
      )
      refl

length-fields_bytes : (fs : List ℕ) → length (fields_bytes fs) ≡ 8 * length fs
unfolding fields_bytes
length-fields_bytes [] = refl
length-fields_bytes (x ∷ fs) = omega (
  arith,
  length-append (le_bytes 8 x) (fields_bytes fs),
  length-le_bytes 8 x,
  length-fields_bytes fs,
)

take_exact_lem : (fs : List ℕ) → take_exact (length fs) fs ≡ some fs
unfolding take_exact
take_exact_lem [] = refl
take_exact_lem (x ∷ fs) = rw (take_exact_lem fs)

-- What the agent reads from a measurement: `n` values of eight bytes.
unfoldable pub parse_fields : ℕ → Bytes → Option (List ℕ × Bytes)
parse_fields zero buf = some ([], buf)
parse_fields (suc n) buf = do
  (x, buf) ← read_le 8 buf
  (xs, buf) ← parse_fields n buf
  some (x ∷ xs, buf)

abbrev pub IsU64 : ℕ → Type 0
IsU64 x = x < 2 ^ 64

parse_fields-fields_bytes :
    (fs : List ℕ) (rest : Bytes)
    → All IsU64 fs
    → parse_fields (length fs) (fields_bytes fs ++ rest) ≡ some (fs, rest)
unfolding parse_fields fields_bytes
parse_fields-fields_bytes [] rest h = refl
parse_fields-fields_bytes (x ∷ fs) rest h = rw (
  append_assoc,
  read_le-le_bytes 8 x (fields_bytes fs ++ rest) h.0,
  parse_fields-fields_bytes fs rest h.1,
)

-- The agent's view of a measurement message.
pub record Measurement : Type 0 where
  pub header : SpineMsgHeader
  pub program_uid : ℕ
  pub fields : List ℕ

unfoldable pub parse_measurement : Bytes → Option (Measurement × Bytes)
parse_measurement buf = do
  (hdr, buf) ← parse_header buf
  (uid, buf) ← read_le 4 buf
  (n, buf) ← read_le 4 buf
  (fs, buf) ← parse_fields n buf
  some (record { header = hdr; program_uid = uid; fields = fs }, buf)

abbrev pub measure_header : ℕ → ℕ → SpineMsgHeader
measure_header sid n = record { msg_type = measure; len = 16 + 8 * n; socket_id = sid }

abbrev pub measure_body : ℕ → List ℕ → Bytes
measure_body uid fs = le_bytes 4 uid ++ (le_bytes 4 (length fs) ++ fields_bytes fs)

pub length-measure_body : (uid : ℕ) (fs : List ℕ) → length (measure_body uid fs) ≡ 8 + 8 * length fs
unfolding le_bytes
length-measure_body uid fs = omega (arith, length-fields_bytes fs)

pub copy_fields_lem : (fs : List ℕ) → length fs ≤ 110 → copy_fields (some fs) (length fs) ≡ some fs
unfolding copy_fields
copy_fields_lem fs h = rw (le→ltb 110 (length fs) h) (take_exact_lem fs)

pub parse_measurement_lem :
    (sid uid : ℕ) (fs : List ℕ) (rest : Bytes)
    → length fs ≤ 110
    → All IsU64 fs
    → sid < 2 ^ 32
    → uid < 2 ^ 32
    → parse_measurement
        (header_bytes (measure_header sid (length fs)) ++ (measure_body uid fs ++ rest))
      ≡ some
          (record { header = measure_header sid (length fs); program_uid = uid; fields = fs }, rest)
unfolding parse_measurement
parse_measurement_lem sid uid fs rest few hf hs hu = rw (
  parse_header-header_bytes (measure_header sid (length fs)) _ (omega arith),
  append_assoc,
  read_le-le_bytes 4 uid _ hu,
  append_assoc,
  read_le-le_bytes 4 (length fs) _ (omega arith),
  parse_fields-fields_bytes fs rest hf,
)

pub write_measure_msg_lem :
    (buf : Bytes) (b sid uid : ℕ) (fs : List ℕ)
    → length fs ≤ 110
    → 16 + 8 * length fs ≤ b
    → b ≤ length buf
    → write_measure_msg buf (pos b) sid uid (some fs) (length fs)
      ≡ some (
        pos (16 + 8 * length fs),
        header_bytes (measure_header sid (length fs))
            ++ (measure_body uid fs ++ drop (16 + 8 * length fs) buf),
      )
unfolding write_measure_msg
write_measure_msg_lem buf b sid uid fs few fits room =
    let len_eq : (header_size + 8 + length fs * 8) % 2 ^ 16 ≡ 16 + 8 * length fs = omega arith in
    rw (copy_fields_lem fs few, len_eq)
      (write_body_lem buf (measure_body uid fs) b (measure_header sid (length fs)) refl
        (omega (arith, length-measure_body uid fs)) fits room)

-- Given a buffer with room for it, `write_measure_msg` writes a measurement of at most 110 fields,
-- returns its length, and touches no byte behind it; read back, the message holds the header, the
-- request and the fields that were passed.
pub write_measure_msg-parse_measurement :
    (buf : Bytes) (b sid uid : ℕ) (fs : List ℕ)
    → length fs ≤ 110
    → All IsU64 fs
    → sid < 2 ^ 32
    → uid < 2 ^ 32
    → 16 + 8 * length fs ≤ b
    → b ≤ length buf
    → (r : Bytes) × (write_measure_msg buf (pos b) sid uid (some fs) (length fs)
        ≡ some (pos (16 + 8 * length fs), r))
      × (parse_measurement r
          ≡ some (
            record { header = measure_header sid (length fs); program_uid = uid; fields = fs },
            drop (16 + 8 * length fs) buf,
          ))
write_measure_msg-parse_measurement buf b sid uid fs few hf hs hu fits room = (
  header_bytes (measure_header sid (length fs))
      ++ (measure_body uid fs ++ drop (16 + 8 * length fs) buf),
  write_measure_msg_lem buf b sid uid fs few fits room,
  parse_measurement_lem sid uid fs _ few hf hs hu,
)
