-- ===== src/Datapath/State.antt =====
-- The structures of src/lib/spine.h and src/lib/spine_priv.h, the return codes of
-- src/lib/spine_err.h, and what the datapath asks of the kernel.
use spine_kernel.Prelude.{
  ℕ, Bool, false, List, [], ◌∷◌, ◌++◌, ℤ, pos, negsuc, Bytes, take, replicate, length,
  length-replicate, ◌≡◌,
}
use spine_kernel.Wire.{max_control_reg}

pub data SpineInternalAlg : Type 0 where
  spine_cubic spine_vegas spine_vanilla spine_neo : SpineInternalAlg

module _ where
  abbrev pub spine_ok : ℤ
  spine_ok = pos 1

  abbrev pub spine_missing_arg : ℤ
  spine_missing_arg = negsuc 10

  abbrev pub spine_null_arg : ℤ
  spine_null_arg = negsuc 11

  abbrev pub spine_bufsize_negative : ℤ
  spine_bufsize_negative = negsuc 20

  abbrev pub spine_bufsize_too_small : ℤ
  spine_bufsize_too_small = negsuc 21

  abbrev pub spine_msg_too_long : ℤ
  spine_msg_too_long = negsuc 22

  abbrev pub spine_update_invalid_reg_type : ℤ
  spine_update_invalid_reg_type = negsuc 52

  abbrev pub spine_unknown_connection : ℤ
  spine_unknown_connection = negsuc 70

  abbrev pub spine_create_pending : ℤ
  spine_create_pending = negsuc 71

  abbrev pub spine_connection_not_initialized : ℤ
  spine_connection_not_initialized = negsuc 72

-- `struct spine_datapath_info`
pub record SpineDatapathInfo : Type 0 where
  pub init_cwnd : ℕ
  pub mss : ℕ
  pub src_ip : ℕ
  pub src_port : ℕ
  pub dst_ip : ℕ
  pub dst_port : ℕ
  pub alg : SpineInternalAlg
  pub cong_alg : Bytes

-- `struct staged_update`
pub record StagedUpdate : Type 0 where
  pub control_is_pending : List Bool
  pub control_registers : List ℕ
  pub measure_is_pending : Bool
  pub measure_registers : ℕ

-- `memset(&state->pending_update, 0, …)`
abbrev pub cleared : StagedUpdate
cleared = record {
  control_is_pending = replicate max_control_reg false;
  control_registers = replicate max_control_reg 0;
  measure_is_pending = false;
  measure_registers = 0;
}

-- `struct spine_priv_state`
pub record SpinePrivState : Type 0 where
  pub sent_create : Bool
  pub pending_update : StagedUpdate

-- The pointer `conn->state` and what it points to; `kfree` leaves it dangling.
pub data StatePtr : Type 0 where
  null : StatePtr
  live : SpinePrivState → StatePtr
  dangling : StatePtr

-- `struct spine_connection`. A connection pointer is its position in the array. `datapath` says
-- whether the pointer back to the one datapath is set; `impl` is the address of the socket.
pub record SpineConnection : Type 0 where
  pub index : ℕ
  pub last_create_msg_sent : ℕ
  pub flow_info : SpineDatapathInfo
  pub state : StatePtr
  pub impl : ℕ
  pub datapath : Bool

-- Which pointers of the structure are not null.
pub record Pointers : Type 0 where
  pub set_params : Bool
  pub fetch_measurements : Bool
  pub send_msg : Bool
  pub now : Bool
  pub since_usecs : Bool
  pub after_usecs : Bool
  pub spine_active_connections : Bool

-- One call of `send_msg`: the bytes at `msg` up to `msg_size`, and `msg_size`.
pub record Sent : Type 0 where
  pub bytes : Bytes
  pub msg_size : ℤ

-- `struct spine_datapath`. `sent` is the history of its `send_msg` calls, oldest first.
pub record SpineDatapath : Type 0 where
  pub pointers : Pointers
  pub time_zero : ℕ
  pub max_connections : ℕ
  pub spine_active_connections : List SpineConnection
  pub fto_us : ℕ
  pub last_msg_sent : ℕ
  pub in_fallback : Bool
  pub sent : List Sent

-- What the kernel answers during one call of the library: the i-th reading of the clock, the time
-- since an earlier reading, the result of `send_msg`, and whether an allocation succeeds.
pub record Kernel : Type 0 where
  pub now : ℕ → ℕ
  pub since_usecs : ℕ → ℕ
  pub send_msg : ℤ
  pub alloc : Bool

-- An array of `n` bytes on the stack. What it holds before a write does not matter: only the bytes
-- that a writer stored are sent.
unfoldable pub stack_array : ℕ → Bytes
stack_array n = replicate n 0

pub length-stack_array : (n : ℕ) → length (stack_array n) ≡ n
unfolding stack_array
length-stack_array n = length-replicate n 0

-- A call of `datapath->send_msg(datapath, msg, msg_size)`.
unfoldable pub post : Bytes → ℤ → SpineDatapath → SpineDatapath
post msg (pos n) dp = record dp {
  sent = dp.sent ++ (record { bytes = take n msg; msg_size = pos n } ∷ []);
}
post msg (negsuc n) dp = record dp {
  sent = dp.sent ++ (record { bytes = []; msg_size = negsuc n } ∷ []);
}
