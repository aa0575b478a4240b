-- ===== src/Datapath/Invoke.antt =====
-- `spine_invoke` and `send_measurement` of src/lib/spine.c: what is staged reaches the congestion
-- control module, and its measurements reach the agent.
pub mod Params
pub mod Safety
pub mod Measurements
pub mod Effect
pub mod Delivery
use spine_kernel.Prelude.{
  ℕ, ◌%◌, ◌^◌, Bool, true, false, ◌&&◌, Option, none, some, List, [], ◌∷◌, ℤ, pos, is_neg,
  is_nonzero, ltb, if◌then◌else◌, ◌>>=◌, length,
}
use spine_kernel.Wire.{write_measure_msg, report_msg_size, max_measurement_fields}
use spine_kernel.Datapath.State.{
  SpineDatapath, SpineConnection, StagedUpdate, SpinePrivState, StatePtr, null, live, dangling,
  Kernel, post, stack_array, cleared, spine_ok, spine_null_arg, spine_connection_not_initialized,
}
use spine_kernel.Datapath.Timer.{update_fto_timer}
use spine_kernel.Datapath.Registry.{send_conn_create, spine_conn_create_success, conn_at, put_conn}

-- The callbacks of the congestion control module, over the state `S` that they can reach: they find the
-- state of a socket through `conn->impl`, see the modules. `set_params conn params num_fields s` is the
-- state after; `fetch_measurements conn index s` are the fields that it stores, as many as it reports.
-- `none` is a fault, as it is for the call of a pointer that was never set.
pub record CongestionControl (S : Type 0) : Type 0 where
  pub set_params : SpineConnection → List ℕ → ℕ → S → Option S
  pub fetch_measurements : SpineConnection → ℕ → S → Option (List ℕ)

unfoldable pub send_measurement :
    Kernel → SpineDatapath → SpineConnection → ℕ → List ℕ → ℕ → Option (ℤ × SpineDatapath)
send_measurement kernel dp conn request_id fields num_fields =
    if ltb conn.index 1 then some (spine_connection_not_initialized, dp) else do
      (msg_size, msg) ←
          write_measure_msg (stack_array report_msg_size) (pos report_msg_size) conn.index
            request_id (some fields) num_fields
      some (
        kernel.send_msg,
        (if is_nonzero kernel.send_msg
            then update_fto_timer (kernel.now 0) (post msg msg_size dp)
            else post msg msg_size dp),
      )

-- The fields that the module has stored reach the agent; more than 16 leave `tmp_measurements`.
unfoldable pub report :
    Kernel → SpineDatapath → SpineConnection → ℕ → List ℕ → Option (ℤ × SpineDatapath)
report kernel dp conn request fields =
    if ltb max_measurement_fields (length fields)
    then none
    else if ltb 0 (length fields)
    then send_measurement kernel dp conn request fields (length fields)
    else some (pos 0, dp)

-- The loop over the control registers: the values up to the first that is not pending.
unfoldable pub staged_params : List Bool → List ℕ → List ℕ
staged_params [] regs = []
staged_params (pending ∷ ps) [] = []
staged_params (true ∷ ps) (v ∷ regs) = v ∷ staged_params ps regs
staged_params (false ∷ ps) (v ∷ regs) = []

module _ {S : Type 0} (cc : CongestionControl S) where
  -- The parameters reach the module, if there are any.
  unfoldable pub enforce : SpineDatapath → SpineConnection → List ℕ → S → Option S
  enforce dp conn params s =
      if ltb 0 (length params) && dp.pointers.set_params
      then cc.set_params conn params (length params) s
      else some s

  -- The measurement request.
  unfoldable pub answer :
      Kernel → SpineDatapath → SpineConnection → StagedUpdate → S → Option (ℤ × SpineDatapath)
  answer kernel dp conn pending s =
      if pending.measure_is_pending && dp.pointers.fetch_measurements
      then (do
        fields ← cc.fetch_measurements conn (pending.measure_registers % 2 ^ 32) s
        report kernel dp conn (pending.measure_registers % 2 ^ 32) fields)
      else some (pos 0, dp)

  -- `spine_invoke` on a connection whose create message has gone out: what is staged takes effect,
  -- and is cleared.
  unfoldable pub invoke_staged :
      Kernel
      → SpineDatapath
      → ℕ
      → SpineConnection
      → SpinePrivState
      → S
      → Option (ℤ × SpineDatapath × S)
  invoke_staged kernel dp p conn state s = do
    let pending = state.pending_update
    s ← enforce dp conn (staged_params pending.control_is_pending pending.control_registers) s
    (ret, dp) ← answer kernel dp conn pending s
    some (
      ret,
      put_conn p (record conn { state = live (record state { pending_update = cleared }) }) dp,
      s,
    )

  -- `spine_invoke` on a connection whose create message has not gone out: it is sent again.
  unfoldable pub invoke_create :
      Kernel → SpineDatapath → ℕ → SpineConnection → S → Option (ℤ × SpineDatapath × S)
  invoke_create kernel dp p conn s = do
    (ret, dp, conn) ← send_conn_create kernel dp conn
    if is_neg ret then some (spine_ok, put_conn p conn dp, s) else do
      state ← spine_conn_create_success conn.state
      some (spine_ok, put_conn p (record conn { state = state }) dp, s)

  -- By what `conn->state` points to. Without private state the error is logged through
  -- `conn->datapath`, which must be set.
  unfoldable pub invoke_on :
      Kernel → SpineDatapath → ℕ → SpineConnection → StatePtr → S → Option (ℤ × SpineDatapath × S)
  invoke_on kernel dp p conn null s = if conn.datapath then some (spine_null_arg, dp, s) else none
  invoke_on kernel dp p conn (live state) s = elim state.sent_create [
    | true ↦ invoke_staged kernel dp p conn state s
    | false ↦ invoke_create kernel dp p conn s
  ]
  invoke_on kernel dp p conn dangling s = none

  -- `spine_invoke` through a pointer, `none` for NULL.
  unfoldable pub spine_invoke :
      Kernel → SpineDatapath → Option ℕ → S → Option (ℤ × SpineDatapath × S)
  spine_invoke kernel dp none s = some (spine_null_arg, dp, s)
  spine_invoke kernel dp (some p) s = do
    conn ← conn_at dp p
    invoke_on kernel dp p conn conn.state s
