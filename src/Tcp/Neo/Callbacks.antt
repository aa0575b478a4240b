-- ===== src/Tcp/Neo/Callbacks.antt =====
-- The callbacks of src/tcp_neo.c, for TCP and for `spine_invoke`.
use spine_kernel.Prelude.{
  ℕ, Bytes, ◌+◌, ◌*◌, ◌/◌, ◌%◌, ◌^◌, Bool, true, false, not, ◌&&◌, ◌||◌, Option, none, some, List,
  [], ◌∷◌, pos, is_neg, ltb, ◌==◌, if◌then◌else◌, ◌>>=◌, get_or, max_of, replicate, sub_u32,
  sub_u64,
}
use spine_kernel.Datapath.State.{
  SpineDatapath, SpineConnection, SpineInternalAlg, spine_cubic, spine_vegas, spine_vanilla,
  spine_neo, Kernel,
}
use spine_kernel.Datapath.Registry.{spine_connection_start}
use spine_kernel.Datapath.Invoke.{CongestionControl}
use spine_kernel.Tcp.{
  CaState, ca_open, ca_disorder, ca_cwr, ca_recovery, ca_loss, is_recovering, TcpSock, RateSample,
  TcpKernel, flow_of, set_up, consult, through_impl, release_conn,
}
use spine_kernel.Tcp.Neo.{
  NeoInterval, NeoData, neo_intervals, neo_rate_min, get_previous_index, neo_update_pacing_rate,
  interval_at, put_interval, start_interval, neo_process,
}

abbrev pub neo_param_num : ℕ
neo_param_num = 1

abbrev pub is_neo : SpineInternalAlg → Bool
is_neo spine_cubic = false
is_neo spine_vegas = false
is_neo spine_vanilla = false
is_neo spine_neo = true

-- `ready_rate` for the agent's action: 1 is up, 2 is down, all else stays.
unfoldable pub action_rate : ℕ → ℕ → ℕ
action_rate action rate =
    if action == 1
    then (rate * 1025 % 2 ^ 64 / 1000 + 1) % 2 ^ 64
    else if action == 2
    then sub_u64 (rate * 976 % 2 ^ 64 / 1000) 1
    else rate

unfoldable pub neo_set_params : SpineConnection → List ℕ → ℕ → NeoData → NeoData
neo_set_params conn params num_fields ca =
    if not (is_neo conn.flow_info.alg) || not (num_fields == neo_param_num)
    then ca
    else record ca { ready_rate = action_rate (get_or params 0 0) ca.rate }

-- The array of measurements, of the interval received last and of the one before it.
abbrev pub measured : NeoInterval → NeoInterval → List ℕ
measured last before =
    last.delivered
    ∷ before.delivered
    ∷ last.lost
    ∷ before.lost
    ∷ sub_u32 last.packets_ended last.packets_sent_base
    ∷ sub_u32 before.packets_ended before.packets_sent_base
    ∷ last.end_rtt
    ∷ last.start_rtt
    ∷ sub_u64 last.recv_end last.recv_start
    ∷ sub_u64 before.recv_end before.recv_start
    ∷ []

-- The stored measurements, as many as `*num_fields`; a null `intervals` is a fault.
unfoldable pub neo_fetch_measurements : NeoData → Option (List ℕ)
neo_fetch_measurements neo =
    if neo.first_circle && ltb neo.receive_index 2 then some (replicate 10 0) else do
      let last_received_id = get_previous_index neo.receive_index
      let last_last_received_id = get_previous_index last_received_id
      last ← interval_at neo last_received_id
      before ← interval_at neo last_last_received_id
      some (measured last before)

-- The callbacks for `spine_invoke`, with the state of the socket at the address `sk` at hand.
abbrev pub neo_module : ℕ → CongestionControl NeoData
neo_module sk = record {
  set_params = λ conn params n ca. through_impl sk conn (some (neo_set_params conn params n ca));
  fetch_measurements = λ conn request ca. through_impl sk conn (neo_fetch_measurements ca);
}

unfoldable pub neo_reset : NeoData → NeoData
neo_reset ca = record ca {
  cnt = pos 0;
  prev_ca_state = ca_open;
  prior_cwnd = 0;
  slow_start_passed = false;
}

-- The intervals that `kzalloc` returns.
abbrev pub zero_interval : NeoInterval
zero_interval = record {
  rate = 0;
  recv_start = 0;
  recv_end = 0;
  send_start = 0;
  send_end = 0;
  start_rtt = 0;
  end_rtt = 0;
  packets_sent_base = 0;
  packets_ended = 0;
  lost = 0;
  delivered = 0;
}

-- The fields that `neo_init` sets once its intervals are there.
unfoldable pub neo_start : NeoData → NeoData
neo_start ca = record (neo_reset ca) {
  intervals = some (replicate neo_intervals zero_interval);
  rate = neo_rate_min * 512;
  ready_rate = neo_rate_min * 512;
  send_index = 0;
  receive_index = 0;
  first_circle = true;
  double_counted = 0;
}

abbrev pub neo_name : Bytes
neo_name = b'n' ∷ b'e' ∷ b'o' ∷ replicate 61 0

-- `neo_init` on the socket at address `sk`; `alloc` says whether `kzalloc` returns memory.
unfoldable pub neo_init :
    TcpKernel
    → Kernel
    → Bool
    → SpineDatapath
    → ℕ
    → TcpSock
    → NeoData
    → Option (SpineDatapath × TcpSock × NeoData)
neo_init k kernel alloc dp sk tp ca =
    if not alloc then some (dp, tp, record (neo_reset ca) { intervals = none }) else do
      (tp, ca) ← start_interval tp (neo_start ca)
      (conn, dp) ← spine_connection_start kernel dp sk (flow_of spine_neo neo_name tp)
      some (dp, set_up k tp, record ca { conn = conn })

-- `neo_release`. The ring, which nothing reads afterwards, is freed; the counter `id` is only logged.
unfoldable pub neo_release : Kernel → SpineDatapath → NeoData → Option SpineDatapath
neo_release kernel dp ca = release_conn kernel dp ca.conn

-- The body of `neo_ssthresh` for the first loss: the rate becomes that of the smaller window.
unfoldable pub leave_slow_start : TcpKernel → TcpSock → NeoData → Option (TcpSock × NeoData)
leave_slow_start k tp ca = do
  let tp = neo_update_pacing_rate k (record tp { snd_cwnd = tp.snd_cwnd * 717 % 2 ^ 32 / 1000 })
  let rate = tp.sk_pacing_rate
  first ← interval_at ca 0
  some (
    tp,
    put_interval 0 (record first { rate = rate })
        (record ca { slow_start_passed = true; ready_rate = rate; rate = rate }),
  )

-- The returned threshold, the socket and the module's state.
unfoldable pub neo_ssthresh : TcpKernel → TcpSock → NeoData → Option (ℕ × TcpSock × NeoData)
neo_ssthresh k tp ca = do
  (tp, ca) ← if ca.slow_start_passed then some (tp, ca) else leave_slow_start k tp ca
  some (max_of tp.snd_cwnd 10, tp, record ca { prior_cwnd = tp.snd_cwnd })

-- The packets counted twice, when a loss is noticed.
unfoldable pub neo_set_state : TcpKernel → CaState → TcpSock → NeoData → NeoData
neo_set_state k ca_open tp neo = neo
neo_set_state k ca_disorder tp neo = neo
neo_set_state k ca_cwr tp neo = neo
neo_set_state k ca_recovery tp neo = neo
neo_set_state k ca_loss tp neo =
    let seen = (tp.delivered + tp.lost + k.tcp_packets_in_flight tp) % 2 ^ 32 in
    let double_counted = sub_u32 (sub_u32 seen tp.data_segs_out) neo.double_counted in
    record neo {
      prev_ca_state = ca_loss;
      double_counted = (neo.double_counted + double_counted) % 2 ^ 32;
    }

-- The window with which `neo_cong_control` goes on.
unfoldable pub restore_cwnd : TcpSock → NeoData → TcpSock
restore_cwnd tp ca =
    if is_recovering ca.prev_ca_state && not (is_recovering tp.icsk_ca_state)
    then record tp { snd_cwnd = max_of tp.snd_cwnd ca.prior_cwnd }
    else tp

-- The label `end` of `neo_cong_control`.
abbrev pub rebased : TcpSock → NeoData → NeoData
rebased tp ca = record ca { lost_base = tp.lost; delivered_base = tp.delivered }

unfoldable pub neo_cong_control :
    Kernel
    → SpineDatapath
    → ℕ
    → RateSample
    → TcpSock
    → NeoData
    → Option (SpineDatapath × TcpSock × NeoData)
neo_cong_control kernel dp sk rs tp ca =
    let tp = restore_cwnd tp ca in
    if is_neg rs.delivered || is_neg rs.interval_us then some (dp, tp, rebased tp ca) else do
      (tp, ca) ← neo_process tp ca
      (ok, dp, ca) ← consult (neo_module sk) kernel dp ca.conn ca
      some (dp, tp, rebased tp ca)

unfoldable pub neo_undo_cwnd : TcpSock → ℕ
neo_undo_cwnd tp = tp.snd_cwnd
