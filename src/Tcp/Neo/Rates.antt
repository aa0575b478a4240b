-- ===== src/Tcp/Neo/Rates.antt =====
-- The rates of src/tcp_neo.c: the agent's actions, the rate of an interval, and the packets counted.
use spine_kernel.Prelude.{
  ℕ, suc, ◌+◌, ◌-◌, ◌*◌, ◌/◌, ◌%◌, ◌==◌, if◌then◌else◌, ◌^◌, ◌≤◌, ◌<◌, ◌≡◌, ◌∙◌, ap, refl, true,
  false, none, some, [], ◌∷◌, ◌++◌, pos, max_of, min_of, arith, Bytes, sub_u32,
}
use spine_kernel.Datapath.State.{
  SpineDatapath, SpineConnection, SpinePrivState, live, Kernel, cleared, spine_ok, spine_neo,
}
use spine_kernel.Datapath.Registry.{conn_at}
use spine_kernel.Datapath.Registry.Slots.{IsValid}
use spine_kernel.Datapath.Staging.{spine_read_msg}
use spine_kernel.Datapath.Staging.Updates.{update_msg}
use spine_kernel.Datapath.Invoke.{spine_invoke}
use spine_kernel.Datapath.Invoke.Params.{params_fields, spine_read_msg-spine_invoke}
use spine_kernel.Tcp.{TcpSock, TcpKernel, ca_loss}
use spine_kernel.Tcp.Consult.{through_impl_lem}
use spine_kernel.Tcp.Neo.{
  NeoInterval, NeoData, new_rate, neo_calculate_and_set_rate, start_interval, process_receive,
  interval_at, put_interval,
}
use spine_kernel.Tcp.Neo.Ring.{
  IsRing, interval_at_exists, process_receive-IsRing, neo_set_cwnd_lem, interval_at-put_interval,
}
use spine_kernel.Tcp.Neo.Callbacks.{
  neo_module, action_rate, neo_set_params, neo_set_state, neo_init, neo_reset, neo_ssthresh,
  leave_slow_start,
}

-- An interval starts at the rate that was ready, raised to 4096 and then lowered to the socket's
-- maximum: the socket paces at it, the interval and the module record it, and it stays ready. The
-- interval's count of packets and its clock start now, and the window is at most the cap.
pub start_interval_lem :
    (tp : TcpSock) (neo : NeoData)
    → 0 < tp.mss_cache
    → IsRing neo
    → let rate = min_of (max_of neo.ready_rate 4096) tp.sk_max_pacing_rate in
      (tp' : TcpSock) × (neo' : NeoData) × (x : NeoInterval) × (start_interval tp neo
        ≡ some (tp', neo'))
      × (interval_at neo' neo.send_index ≡ some x)
      × (x.rate ≡ rate)
      × (tp'.sk_pacing_rate ≡ rate)
      × (neo'.rate ≡ rate)
      × (neo'.ready_rate ≡ rate)
      × (x.send_start ≡ tp.tcp_mstamp)
      × (x.packets_sent_base ≡ max_of tp.data_segs_out 1)
      × (x.packets_ended ≡ 0)
      × (tp'.snd_cwnd ≤ tp.snd_cwnd_clamp)
unfolding start_interval neo_calculate_and_set_rate new_rate
start_interval_lem tp neo h (held, s, r) =
    let (x, found) = interval_at_exists neo neo.send_index held s in
    let rate = min_of (max_of neo.ready_rate 4096) tp.sk_max_pacing_rate in
    let (w, paced, capped) = neo_set_cwnd_lem (record tp { sk_pacing_rate = rate }) h in
    let x' = record x {
      packets_ended = 0;
      lost = 0;
      delivered = 0;
      packets_sent_base = max_of tp.data_segs_out 1;
      send_start = tp.tcp_mstamp;
      rate = rate;
    } in
    let neo' = record neo { rate = rate; ready_rate = rate } in
    (
      record tp { sk_pacing_rate = rate; snd_cwnd = w },
      put_interval neo.send_index x' neo',
      x',
      rw (found, paced) refl,
      interval_at-put_interval neo' neo.send_index x' held s,
      refl,
      refl,
      refl,
      refl,
      refl,
      refl,
      refl,
      capped,
    )

-- Where the allocation of the intervals fails, `neo_init` returns as if all was well, and the first
-- loss of the flow faults: `neo_ssthresh` writes through the null pointer.
pub neo_init-neo_ssthresh :
    (k : TcpKernel) (kernel : Kernel) (dp : SpineDatapath) (sk : ℕ) (tp : TcpSock) (ca : NeoData)
    → (ca' : NeoData) × (neo_init k kernel false dp sk tp ca ≡ some (dp, tp, ca'))
      × (neo_ssthresh k tp ca' ≡ none)
unfolding neo_init neo_reset neo_ssthresh leave_slow_start
neo_init-neo_ssthresh k kernel dp sk tp ca =
    (record (neo_reset ca) { intervals = none }, refl, refl)

set_state_counts :
    (k : TcpKernel) (tp : TcpSock) (neo : NeoData)
    → tp.data_segs_out < 2 ^ 32
    → neo.double_counted < 2 ^ 32
    → sub_u32 (tp.delivered + tp.lost) (neo_set_state k ca_loss tp neo).double_counted
      ≡ sub_u32 tp.data_segs_out (k.tcp_packets_in_flight tp)
unfolding neo_set_state
set_state_counts k tp neo h i = omega arith

set_state-IsRing :
    (k : TcpKernel) (tp : TcpSock) (neo : NeoData)
    → IsRing neo
    → IsRing (neo_set_state k ca_loss tp neo)
unfolding neo_set_state
set_state-IsRing k tp neo ring = ring

-- A loss sets the count of packets right: after `neo_set_state` has seen it, the receiving half of
-- `neo_process`, run on the same socket, counts as received or lost just the packets that were sent
-- and are not in flight, in u32.
pub process_receive-neo_set_state :
    (k : TcpKernel) (tp : TcpSock) (neo : NeoData)
    → IsRing neo
    → tp.data_segs_out < 2 ^ 32
    → neo.double_counted < 2 ^ 32
    → (neo' : NeoData) × (process_receive tp (neo_set_state k ca_loss tp neo) ≡ some neo')
      × (neo'.packets_counted ≡ sub_u32 tp.data_segs_out (k.tcp_packets_in_flight tp))
process_receive-neo_set_state k tp neo ring h i =
    let (neo', run, _, _, _, counted) =
      process_receive-IsRing tp (neo_set_state k ca_loss tp neo) (set_state-IsRing k tp neo ring) in
    (neo', run, counted ∙ set_state_counts k tp neo h i)

-- From the agent to the rate: an open neo connection with its create message out and nothing staged
-- gets the update message of one action. Then the next `spine_invoke` on it, with the state of its socket, readies a rate, in u64: for
-- action 1 it is 1025 / 1000 of the module's rate, and 1 more; for action 2 it is 976 / 1000 of it, and 1
-- less; for any other action it is that rate. Nothing else of the module's state changes.
pub spine_read_msg-neo_set_params :
    (kernel : Kernel) (dp : SpineDatapath) (p size : ℕ) (conn : SpineConnection)
    (st : SpinePrivState) (action : ℕ) (rest : Bytes) (ca : NeoData)
    → IsValid dp
    → conn_at dp p ≡ some conn
    → conn.index ≡ suc p
    → conn.flow_info.alg ≡ spine_neo
    → conn.state ≡ live st
    → st.sent_create ≡ true
    → st.pending_update ≡ cleared
    → dp.pointers.set_params ≡ true
    → action < 2 ^ 64
    → 25 ≤ size
    → (dp₁ : SpineDatapath) × (dp₂ : SpineDatapath) × (spine_read_msg dp
          (update_msg (suc p) 1 (params_fields 0 (action ∷ [])) ++ rest)
          (pos size)
        ≡ some (spine_ok, dp₁))
      × (spine_invoke (neo_module conn.impl) kernel dp₁ (some p) ca
          ≡ some (
            pos 0,
            dp₂,
            record ca {
              ready_rate =
                  if action == 1
                  then (ca.rate * 1025 % 2 ^ 64 / 1000 + 1) % 2 ^ 64
                  else if action == 2
                  then (ca.rate * 976 % 2 ^ 64 / 1000 + (2 ^ 64 - 1)) % 2 ^ 64
                  else ca.rate;
            },
          ))
unfolding neo_set_params action_rate
spine_read_msg-neo_set_params kernel dp p size conn st action rest ca v e i ours l created clean
      bound small fits =
    let (conn', dp₁, received, info, impl, invoked) =
      spine_read_msg-spine_invoke (neo_module conn.impl) kernel dp p size conn st (action ∷ []) rest
        ca v e i l created clean bound (omega arith) (omega arith) (small, tt) (omega arith) in
    let alg : conn'.flow_info.alg ≡ spine_neo = rw info ours in
    let set : neo_set_params conn' (action ∷ []) 1 ca
        ≡ record ca { ready_rate = action_rate action ca.rate } =
      rw alg refl in
    (dp₁, _, received, invoked _ (through_impl_lem conn.impl conn' _ impl ∙ ap some set))
