-- ===== src/Datapath/Run.antt =====
-- Runs of the library: any sequence of calls of src/lib/spine.c, with every answer of the kernel and
-- every message of the agent.
use spine_kernel.Prelude.{
  ℕ, zero, suc, ◌^◌, ◌<◌, ◌≡◌, ◌≢◌, refl, inl, false, Option, none, some, ℤ, length,
  length-replicate, replicate, arith, Bytes,
}
use spine_kernel.Datapath.State.{
  SpineDatapath, SpineConnection, SpineDatapathInfo, StatePtr, null, live, dangling, Kernel,
  spine_cubic,
}
use spine_kernel.Datapath.Timer.{check_fto}
use spine_kernel.Datapath.Timer.Fallback.{check_fto_lem}
use spine_kernel.Datapath.Registry.{conn_at, spine_connection_start, spine_connection_free}
use spine_kernel.Datapath.Registry.Slots.{IsOpen, Slots, IsValid}
use spine_kernel.Datapath.Registry.Open.{spine_connection_start-IsValid}
use spine_kernel.Datapath.Registry.Free.{lookup-spine_connection_free}
use spine_kernel.Datapath.Staging.{spine_read_msg}
use spine_kernel.Datapath.Staging.Safety.{spine_read_msg-IsValid}
use spine_kernel.Datapath.Invoke.{CongestionControl, spine_invoke, invoke_on}
use spine_kernel.Datapath.Invoke.Safety.{spine_invoke-IsInvoked}

-- A connection of a table that `kzalloc` returned.
abbrev pub zero_conn : SpineConnection
zero_conn = record {
  index = 0;
  last_create_msg_sent = 0;
  flow_info = record {
    init_cwnd = 0;
    mss = 0;
    src_ip = 0;
    src_port = 0;
    dst_ip = 0;
    dst_port = 0;
    alg = spine_cubic;
    cong_alg = replicate 64 0;
  };
  state = null;
  impl = 0;
  datapath = false;
}

-- A datapath whose table is as `kzalloc` returned it.
pub record IsFresh (dp : SpineDatapath) : Type 0 where
  pub zeroed : dp.spine_active_connections ≡ replicate dp.max_connections zero_conn
  pub small : dp.max_connections < 2 ^ 16

module _ {S : Type 0} (cc : CongestionControl S) where
  -- One call that returns. `spine_invoke` is called on open connections.
  pub data Step (dp : SpineDatapath) : SpineDatapath → Type 0 where
    starts :
        (kernel : Kernel) (impl : ℕ) (info : SpineDatapathInfo) (r : Option ℕ) {dp' : SpineDatapath}
        → length info.cong_alg ≡ 64
        → spine_connection_start kernel dp impl info ≡ some (r, dp')
        → Step dp dp'
    frees :
        (kernel : Kernel) (sid : ℕ) {dp' : SpineDatapath}
        → spine_connection_free kernel dp sid ≡ some dp'
        → Step dp dp'
    reads :
        (buf : Bytes) (bufsize ret : ℤ) {dp' : SpineDatapath}
        → spine_read_msg dp buf bufsize ≡ some (ret, dp')
        → Step dp dp'
    invokes :
        (kernel : Kernel) (p : ℕ) (conn : SpineConnection) (s s' : S) (ret : ℤ)
        {dp' : SpineDatapath}
        → conn_at dp p ≡ some conn
        → conn.index ≡ suc p
        → spine_invoke cc kernel dp (some p) s ≡ some (ret, dp', s')
        → Step dp dp'
    checks :
        (since_last : ℕ) {dp' : SpineDatapath} → (check_fto since_last dp).1 ≡ dp' → Step dp dp'

  pub data Reach (dp : SpineDatapath) : SpineDatapath → Type 0 where
    here : Reach dp dp
    next : {dp' dp'' : SpineDatapath} → Reach dp dp' → Step dp' dp'' → Reach dp dp''

Slots-replicate : (n p m : ℕ) → Slots n p (replicate m zero_conn)
Slots-replicate n p zero = tt
Slots-replicate n p (suc m) = (
  record { own = inl refl; kept = inl refl; last = λ _. refl; name = refl; staged = tt },
  Slots-replicate n (suc p) m,
)

-- A zeroed table is valid.
pub IsFresh-IsValid : (dp : SpineDatapath) → IsFresh dp → IsValid dp
IsFresh-IsValid dp f = record {
  room = rw f.zeroed (length-replicate dp.max_connections zero_conn);
  small = f.small;
  slots = rw f.zeroed (Slots-replicate dp.max_connections 0 dp.max_connections);
}

-- `check_fto` keeps the table valid.
pub check_fto-IsValid :
    (since_last : ℕ) (dp : SpineDatapath) → IsValid dp → IsValid (check_fto since_last dp).1
check_fto-IsValid since_last dp v =
    rw (check_fto_lem since_last dp) (record { room = v.room; small = v.small; slots = v.slots })

module _ {S : Type 0} (cc : CongestionControl S) where
  invoked :
      (kernel : Kernel) (dp : SpineDatapath) (p : ℕ) (conn : SpineConnection) (s s' : S) (ret : ℤ)
      (dp' : SpineDatapath) (ptr : StatePtr)
      → IsValid dp
      → conn_at dp p ≡ some conn
      → conn.index ≡ suc p
      → conn.state ≡ ptr
      → spine_invoke cc kernel dp (some p) s ≡ some (ret, dp', s')
      → IsValid dp'
  unfolding spine_invoke invoke_on
  invoked kernel dp p conn s s' ret dp' null v e i l r =
      let same : dp ≡ dp' = ground (arith, r) in rw (← same) v
  invoked kernel dp p conn s s' ret dp' (live st) v e i l r =
      let o : IsOpen dp p = record {
        conn = conn;
        priv = st;
        at_p = e;
        own_index = i;
        has_state = l;
      } in
      (spine_invoke-IsInvoked cc kernel dp p s v o r).valid
  invoked kernel dp p conn s s' ret dp' dangling v e i l r = absurd (ground arith)

  -- Each call that returns keeps the table of connections valid.
  pub Step-IsValid : {dp dp' : SpineDatapath} → Step cc dp dp' → IsValid dp → IsValid dp'
  Step-IsValid {dp} {dp'} (starts kernel impl info r name e) v =
      let (res, ran, ok) = spine_connection_start-IsValid kernel dp impl info v name in
      let same : res ≡ (r, dp') = ground (arith, e, ran) in rw same at ok
  Step-IsValid {dp} {dp'} (frees kernel sid e) v =
      let (after, ran, ok, _, _) = lookup-spine_connection_free kernel dp sid v in
      let same : after ≡ dp' = ground (arith, e, ran) in rw same at ok
  Step-IsValid {dp} {dp'} (reads buf z ret e) v = spine_read_msg-IsValid dp buf z ret dp' v e
  Step-IsValid {dp} {dp'} (invokes kernel p conn s s' ret at_p i e) v =
      invoked kernel dp p conn s s' ret dp' conn.state v at_p i refl e
  Step-IsValid {dp} {dp'} (checks since_last e) v = rw (← e) (check_fto-IsValid since_last dp v)

  -- From a zeroed table of fewer than 65536 slots, every run of calls that return reaches a valid
  -- table only; so neither starting a flow nor freeing an index can fault there.
  pub Reach-IsValid :
      {dp dp' : SpineDatapath}
      → IsFresh dp
      → Reach cc dp dp'
      → IsValid dp'
        × ((kernel : Kernel) (impl : ℕ) (info : SpineDatapathInfo)
            → length info.cong_alg ≡ 64
            → spine_connection_start kernel dp' impl info ≢ none)
        × ((kernel : Kernel) (sid : ℕ) → spine_connection_free kernel dp' sid ≢ none)
  Reach-IsValid f r =
      let v = valid f r in
      (
        v,
        λ kernel impl info name h.
            let (res, ran, _) = spine_connection_start-IsValid kernel _ impl info v name in
            ground (arith, ran, h),
        λ kernel sid h.
            let (after, ran, _, _, _) = lookup-spine_connection_free kernel _ sid v in
            ground (arith, ran, h),
      )
    where
      valid : {dp dp' : SpineDatapath} → IsFresh dp → Reach cc dp dp' → IsValid dp'
      valid {dp} f here = IsFresh-IsValid dp f
      valid f (next r s) = Step-IsValid s (valid f r)
