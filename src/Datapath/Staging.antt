-- ===== src/Datapath/Staging.antt =====
-- What the agent's messages stage for a connection: `stage_update`, `stage_multiple_updates`,
-- `stage_measure_request` and `spine_read_msg` of src/lib/spine.c.
pub mod Updates
pub mod Reception
pub mod Errors
pub mod Safety
pub mod Slots
pub mod Pointers
pub mod Requests
use spine_kernel.Prelude.{
  ℕ, zero, suc, ◌%◌, ◌^◌, true, false, ◌||◌, Option, none, some, ℤ, pos, negsuc, is_neg, ltb, ◌==◌,
  if◌then◌else◌, ◌>>=◌, set, Bytes,
}
use spine_kernel.Wire.{
  SpineMsgHeader, read_header, UpdateField, read_update_field, check_update_fields_msg,
  check_measure_fields_msg, biggest_msg_size, max_control_reg, update_fields, measure, drop_bytes,
}
use spine_kernel.Datapath.State.{
  SpineDatapath, StagedUpdate, SpinePrivState, StatePtr, null, live, dangling, spine_ok,
  spine_bufsize_negative, spine_bufsize_too_small, spine_msg_too_long,
  spine_update_invalid_reg_type, spine_unknown_connection,
}
use spine_kernel.Datapath.Timer.{turn_off_fto_timer}
use spine_kernel.Datapath.Registry.{spine_connection_lookup, conn_at, put_conn}

module _ where
  abbrev pub nonvolatile_control_reg : ℕ
  nonvolatile_control_reg = 0

  abbrev pub volatile_control_reg : ℕ
  volatile_control_reg = 8

-- `stage_update`. The index comes from the message and is not checked: `none` is the write outside
-- the two arrays of 20 registers.
unfoldable pub stage_update : StagedUpdate → UpdateField → Option (ℤ × StagedUpdate)
stage_update pending f =
    if f.reg_type == nonvolatile_control_reg || f.reg_type == volatile_control_reg
    then (if ltb f.reg_index max_control_reg
        then some (
          spine_ok,
          record pending {
            control_registers = set pending.control_registers f.reg_index f.new_value;
            control_is_pending = set pending.control_is_pending f.reg_index true;
          },
        )
        else none)
    else some (spine_update_invalid_reg_type, pending)

-- `stage_multiple_updates`, with the number of updates left and the bytes at `msg_ptr`.
unfoldable pub stage_multiple_updates : StagedUpdate → ℕ → Bytes → Option (ℤ × StagedUpdate)
stage_multiple_updates pending zero msg = some (spine_ok, pending)
stage_multiple_updates pending (suc n) msg = do
  (f, msg) ← read_update_field msg
  (ret, pending) ← stage_update pending f
  elim (is_neg ret) [ true ↦ some (ret, pending) | false ↦ stage_multiple_updates pending n msg ]

-- `stage_measure_request`, which returns SPINE_OK.
unfoldable pub stage_measure_request : StagedUpdate → ℕ → StagedUpdate
stage_measure_request pending measure_idx = record pending {
  measure_is_pending = true;
  measure_registers = measure_idx;
}

-- `&state->pending_update` behind a pointer; there is nothing to stage into behind a null one.
unfoldable pub pending_of : StatePtr → Option SpinePrivState
pending_of null = none
pending_of (live s) = some s
pending_of dangling = none

-- The update branch of `spine_read_msg`: `buf` is what follows the header.
unfoldable pub read_updates : SpineMsgHeader → StagedUpdate → Bytes → Option (ℤ × StagedUpdate)
read_updates hdr pending buf = do
  (ret, num_updates) ← check_update_fields_msg hdr buf
  if is_neg ret
      then some (ret, pending)
      else do rest ← drop_bytes 4 buf; stage_multiple_updates pending num_updates rest

-- The measure branch of `spine_read_msg`.
unfoldable pub read_measure : SpineMsgHeader → StagedUpdate → Bytes → Option (ℤ × StagedUpdate)
read_measure hdr pending buf = do
  (ret, measure_idx) ← check_measure_fields_msg hdr buf
  if is_neg ret
      then some (ret, pending)
      else some (spine_ok, stage_measure_request pending measure_idx)

-- The part of `spine_read_msg` that is for one connection, behind the pointer `p`.
unfoldable pub stage_msg : SpineMsgHeader → SpineDatapath → ℕ → Bytes → Option (ℤ × SpineDatapath)
stage_msg hdr dp p buf =
    if hdr.msg_type == update_fields || hdr.msg_type == measure
    then (do
      conn ← conn_at dp p
      state ← pending_of conn.state
      (ret, pending) ←
          (if hdr.msg_type == update_fields
            then read_updates hdr state.pending_update buf
            else read_measure hdr state.pending_update buf)
      some (
        ret,
        put_conn p (record conn { state = live (record state { pending_update = pending }) }) dp,
      ))
    else some (spine_ok, dp)

-- The checks of `bufsize` in `spine_read_msg`, in its order; `none` if all pass.
unfoldable pub size_error : SpineMsgHeader → ℤ → Option ℤ
size_error hdr (negsuc b) = some spine_bufsize_negative
size_error hdr (pos b) =
    if ltb b hdr.len
    then some spine_bufsize_too_small
    else if ltb biggest_msg_size hdr.len
    then some spine_msg_too_long
    else none

-- `spine_read_msg`: the returned `int` and the datapath.
unfoldable pub spine_read_msg : SpineDatapath → Bytes → ℤ → Option (ℤ × SpineDatapath)
spine_read_msg dp buf bufsize = do
  (hdr, ret, rest) ← read_header buf
  if is_neg ret then some (ret, dp) else elim (size_error hdr bufsize) [
    | some e ↦ some (e, dp)
    | none ↦ do
      let dp = turn_off_fto_timer dp
      found ← spine_connection_lookup dp (hdr.socket_id % 2 ^ 16)
      elim found [ none ↦ some (spine_unknown_connection, dp) | some p ↦ stage_msg hdr dp p rest ]
  ]
