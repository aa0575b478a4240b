-- ===== src/Datapath/Staging/Reception.antt =====
-- How `spine_read_msg` of src/lib/spine.c reaches the connection that a message names, and what it
-- stages there.
use spine_kernel.Prelude.{
  ℕ, suc, ◌+◌, ◌*◌, ◌%◌, ◌/◌, ◌^◌, ◌<◌, ◌≤◌, ◌≡◌, refl, ap, true, some, List, pos, le→ltb, length,
  arith, Bytes, All, get_elem?_bound, ◌++◌, append_assoc, le_bytes, read_le,
}
use spine_kernel.Wire.{
  SpineMsgHeader, UpdateField, header_bytes, update_fields, char_to_u32, check_update_fields_msg,
  drop_bytes, read_header, is_readable,
}
use spine_kernel.Wire.RoundTrip.{IsHeader, parse_header-header_bytes}
use spine_kernel.Datapath.State.{
  SpineDatapath, SpineConnection, SpinePrivState, StagedUpdate, live, spine_ok,
}
use spine_kernel.Datapath.Timer.{turn_off_fto_timer}
use spine_kernel.Datapath.Registry.{conn_at, put_conn}
use spine_kernel.Datapath.Registry.Slots.{IsValid}
use spine_kernel.Datapath.Registry.Open.{lookup_found}
use spine_kernel.Datapath.Staging.{read_updates, pending_of, stage_msg, size_error, spine_read_msg}
use spine_kernel.Datapath.Staging.Updates.{
  update_header, update_msg, updates_bytes, IsControl, staged_all, stage_multiple_updates_lem,
}

pub read_header-header_bytes :
    (h : SpineMsgHeader) (rest : Bytes)
    → IsHeader h
    → is_readable h.msg_type ≡ true
    → read_header (header_bytes h ++ rest) ≡ some (h, pos 8, rest)
unfolding read_header
read_header-header_bytes h rest v r = rw (parse_header-header_bytes h rest v, r)

-- A message that passes the checks and names an open connection is staged there, and stops the
-- fallback timer.
pub spine_read_msg-stage_msg :
    (dp : SpineDatapath) (p b : ℕ) (h : SpineMsgHeader) (rest : Bytes) {c : SpineConnection}
    → IsHeader h
    → is_readable h.msg_type ≡ true
    → h.len ≤ b
    → h.len ≤ 32678
    → h.socket_id ≡ suc p
    → suc p ≤ dp.max_connections
    → dp.max_connections < 2 ^ 16
    → conn_at dp p ≡ some c
    → c.index ≡ suc p
    → spine_read_msg dp (header_bytes h ++ rest) (pos b)
      ≡ stage_msg h (turn_off_fto_timer dp) p rest
unfolding spine_read_msg size_error turn_off_fto_timer
spine_read_msg-stage_msg dp p b h rest v r fits small sid inside narrow e i =
    let low : h.socket_id % 2 ^ 16 ≡ suc p = omega arith in
    rw
      (
        read_header-header_bytes h rest v r,
        le→ltb b h.len fits,
        le→ltb 32678 h.len small,
        low,
        lookup_found (turn_off_fto_timer dp) p e i inside,
      )
      refl

-- The count of a message is read from its lowest byte alone.
pub read_count :
    (n : ℕ) (rest : Bytes) → (r : Bytes) × (read_le 1 (le_bytes 4 n ++ rest) ≡ some (n % 256, r))
unfolding read_le le_bytes
read_count n rest =
    let z : n % 256 + 256 * 0 ≡ n % 256 = omega arith in
    (le_bytes 3 (n / 256) ++ rest, ap (λ k. some (k, le_bytes 3 (n / 256) ++ rest)) z)

pub skip_count : (n : ℕ) (rest : Bytes) → drop_bytes 4 (le_bytes 4 n ++ rest) ≡ some rest
unfolding drop_bytes le_bytes
skip_count n rest = refl

pub read_updates_lem :
    (h : SpineMsgHeader) (u : StagedUpdate) (n : ℕ) (fs : List UpdateField) (rest : Bytes)
    → h.msg_type ≡ update_fields
    → n % 256 ≡ length fs
    → length fs < 128
    → All IsControl fs
    → read_updates h u (le_bytes 4 n ++ (updates_bytes fs ++ rest))
      ≡ some (spine_ok, staged_all u fs)
unfolding read_updates check_update_fields_msg char_to_u32
read_updates_lem h u n fs rest t count few v =
    let (r, e) = read_count n (updates_bytes fs ++ rest) in
    ground
      (arith, e, skip_count n (updates_bytes fs ++ rest), stage_multiple_updates_lem u fs rest v)

-- The slot of an open connection of a valid table.
pub open_bound :
    (dp : SpineDatapath) (p : ℕ) {c : SpineConnection}
    → IsValid dp
    → conn_at dp p ≡ some c
    → suc p ≤ dp.max_connections
open_bound dp p v e = omega (arith, get_elem?_bound dp.spine_active_connections p e, v.room)

-- An update message of fewer than 128 accepted updates, for an open connection of a valid table and
-- in a buffer of the announced size at least, is staged whole and in order; nothing but that
-- connection's staged values and the fallback timer changes, whatever follows the message.
pub spine_read_msg-update_msg :
    (dp : SpineDatapath) (p b : ℕ) (fs : List UpdateField) (rest : Bytes) (c : SpineConnection)
    (st : SpinePrivState)
    → IsValid dp
    → conn_at dp p ≡ some c
    → c.index ≡ suc p
    → c.state ≡ live st
    → length fs < 128
    → All IsControl fs
    → 12 + 13 * length fs ≤ b
    → spine_read_msg dp (update_msg (suc p) (length fs) fs ++ rest) (pos b)
      ≡ some (
        spine_ok,
        put_conn p
            (record c {
              state = live (record st { pending_update = staged_all st.pending_update fs });
            })
            (turn_off_fto_timer dp),
      )
unfolding update_msg stage_msg pending_of turn_off_fto_timer
spine_read_msg-update_msg dp p b fs rest c st v e i s few good fits =
    let inside : suc p ≤ dp.max_connections = open_bound dp p v e in
    let h : SpineMsgHeader = update_header (suc p) (length fs) in
    let count : length fs % 256 ≡ length fs = omega arith in
    rw
      (
        append_assoc,
        spine_read_msg-stage_msg dp p b h ((le_bytes 4 (length fs) ++ updates_bytes fs) ++ rest)
            {c = c} (omega (arith, v.small)) refl fits (omega arith) refl inside v.small e i,
        append_assoc,
        e,
        s,
        read_updates_lem h st.pending_update (length fs) fs rest refl count few good,
      )
      refl
