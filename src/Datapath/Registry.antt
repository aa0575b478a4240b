-- ===== src/Datapath/Registry.antt =====
-- The table of connections: `spine_connection_start`, `spine_connection_lookup` and
-- `spine_connection_free` of src/lib/spine.c, `send_conn_create`, and src/lib/spine_priv.c.
pub mod Slots
pub mod Start
pub mod Open
pub mod Free
use spine_kernel.Prelude.{
  ℕ, zero, suc, ◌+◌, ◌-◌, ◌%◌, ◌^◌, Bool, true, false, not, ◌&&◌, ◌||◌, Option, none, some, List,
  [], ◌∷◌, ℤ, pos, negsuc, is_neg, is_nonzero, ltb, leb, ◌==◌, if◌then◌else◌, ◌>>=◌, get_elem?, set,
}
use spine_kernel.Wire.{
  CreateMsg, write_create_msg, write_release_msg, create_msg_size, report_msg_size,
  release_msg_size,
}
use spine_kernel.Datapath.State.{
  SpineDatapath, SpineConnection, SpineDatapathInfo, StatePtr, null, live, dangling, Kernel, post,
  stack_array, cleared, spine_create_pending, spine_connection_not_initialized,
}
use spine_kernel.Datapath.Timer.{update_fto_timer}

abbrev pub create_timeout_us : ℕ
create_timeout_us = 100000

-- The `struct CreateMsg cr` of `send_conn_create`.
abbrev pub create_of : SpineDatapathInfo → CreateMsg
create_of i = record {
  init_cwnd = i.init_cwnd;
  mss = i.mss;
  src_ip = i.src_ip;
  src_port = i.src_port;
  dst_ip = i.dst_ip;
  dst_port = i.dst_port;
  cong_alg = i.cong_alg;
}

-- A create message went out less than 100 ms ago.
abbrev pub is_create_pending : Kernel → SpineConnection → Bool
is_create_pending kernel conn =
    not (conn.last_create_msg_sent == 0)
    && ltb (kernel.since_usecs conn.last_create_msg_sent) create_timeout_us

-- The returned `int`, the datapath, and the connection that `conn` points to.
unfoldable pub send_conn_create :
    Kernel → SpineDatapath → SpineConnection → Option (ℤ × SpineDatapath × SpineConnection)
send_conn_create kernel dp conn =
    if is_create_pending kernel conn
    then some (spine_create_pending, dp, conn)
    else if ltb conn.index 1
    then some (spine_connection_not_initialized, dp, conn)
    else do
      (msg_size, msg) ←
          write_create_msg (stack_array create_msg_size) (pos create_msg_size) conn.index
            (create_of conn.flow_info)
      if is_neg msg_size
          then some (msg_size, dp, record conn { last_create_msg_sent = kernel.now 0 })
          else some (
            kernel.send_msg,
            (if is_nonzero kernel.send_msg
                then update_fto_timer (kernel.now 1) (post msg msg_size dp)
                else post msg msg_size dp),
            record conn { last_create_msg_sent = kernel.now 0 },
          )

-- `init_spine_priv_state`: the connection gets zeroed private state, or keeps a null pointer.
unfoldable pub init_spine_priv_state : Kernel → SpineConnection → ℤ × SpineConnection
init_spine_priv_state kernel conn =
    if kernel.alloc
    then (
      pos 1,
      record conn {
        state = live (record { sent_create = false; pending_update = cleared });
        datapath = true;
      },
    )
    else (negsuc 0, record conn { state = null })

-- `spine_conn_create_success(state)`, through the pointer.
unfoldable pub spine_conn_create_success : StatePtr → Option StatePtr
spine_conn_create_success null = none
spine_conn_create_success (live s) = some (live (record s { sent_create = true }))
spine_conn_create_success dangling = none

-- The loop of `spine_connection_start`: `n` rounds are left, `sid` counts the slots passed. The
-- result is the value of `sid` behind the loop, and the slots with the first free one taken.
unfoldable pub claim_slot : ℕ → ℕ → List SpineConnection → Option (ℕ × List SpineConnection)
claim_slot zero sid conns = some (sid, conns)
claim_slot (suc n) sid [] = none
claim_slot (suc n) sid (c ∷ conns) = elim (c.index == 0) [
  | true ↦ some (sid + 1, record c { index = (sid + 1) % 2 ^ 16 } ∷ conns)
  | false ↦ elim (claim_slot n (sid + 1) conns) [
    | none ↦ none
    | some (k, rest) ↦ some (k, c ∷ rest)
  ]
]

-- The connection behind a pointer, and a write through it.
abbrev pub conn_at : SpineDatapath → ℕ → Option SpineConnection
conn_at dp p = get_elem? dp.spine_active_connections p

abbrev pub put_conn : ℕ → SpineConnection → SpineDatapath → SpineDatapath
put_conn p c dp = record dp { spine_active_connections = set dp.spine_active_connections p c }

-- `spine_connection_start` behind the loop, on the slot `p` that it took.
unfoldable pub open_slot :
    Kernel → SpineDatapath → ℕ → ℕ → SpineDatapathInfo → Option (Option ℕ × SpineDatapath)
open_slot kernel dp p impl flow_info = do
  conn ← conn_at dp p
  let (ret, conn) =
      init_spine_priv_state kernel (record conn { impl = impl; flow_info = flow_info })
  if is_neg ret then some (none, put_conn p conn dp) else do
    (ret, dp, conn) ← send_conn_create kernel dp conn
    if is_neg ret then some (some p, put_conn p conn dp) else do
      state ← spine_conn_create_success conn.state
      some (some p, put_conn p (record conn { state = state }) dp)

-- `spine_connection_start`: the pointer returned (`none` for NULL), and the datapath.
unfoldable pub spine_connection_start :
    Kernel → SpineDatapath → ℕ → SpineDatapathInfo → Option (Option ℕ × SpineDatapath)
spine_connection_start kernel dp impl flow_info = do
  (sid, conns) ← claim_slot dp.max_connections 0 dp.spine_active_connections
  let dp' = record dp { spine_active_connections = conns }
  if leb dp.max_connections sid
      then some (none, dp')
      else open_slot kernel dp' (sid - 1) impl flow_info

-- `spine_connection_lookup`: the pointer returned, `none` for NULL.
unfoldable pub spine_connection_lookup : SpineDatapath → ℕ → Option (Option ℕ)
spine_connection_lookup dp sid = if sid == 0 || ltb dp.max_connections sid then some none else do
  conn ← conn_at dp (sid - 1)
  if conn.index == sid then some (some (sid - 1)) else some none

-- `kfree(conn->state)`; freeing it twice is a fault.
unfoldable pub free_spine_priv_state : StatePtr → Option StatePtr
free_spine_priv_state null = some null
free_spine_priv_state (live s) = some dangling
free_spine_priv_state dangling = none

unfoldable pub spine_connection_free : Kernel → SpineDatapath → ℕ → Option SpineDatapath
spine_connection_free kernel dp sid = if sid == 0 || ltb dp.max_connections sid then some dp else do
  conn ← conn_at dp (sid - 1)
  if not (conn.index == sid) then some dp else do
    state ← free_spine_priv_state conn.state
    (msg_size, msg) ← write_release_msg (stack_array report_msg_size) (pos release_msg_size) sid
    if is_neg msg_size
        then some (put_conn (sid - 1) (record conn { state = state }) dp)
        else some
            (put_conn (sid - 1) (record conn { state = state; index = 0 }) (post msg msg_size dp))
