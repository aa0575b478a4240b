-- ===== src/Tcp/Scubic/Callbacks.antt =====
-- The callbacks of src/tcp_scubic.c, for TCP and for `spine_invoke`.
use spine_kernel.Prelude.{
  ℕ, ◌+◌, ◌*◌, ◌/◌, ◌%◌, ◌^◌, Bool, true, false, not, ◌&&◌, ◌||◌, Option, none, some, ◌∷◌, Bytes,
  replicate, ℤ, pos, negsuc, ltb, leb, ◌==◌, if◌then◌else◌, ◌>>=◌, max_of, min_of, sub_u32,
  is_s32_neg, to_int, to_u32, tquot,
}
use spine_kernel.Datapath.State.{SpineDatapath, Kernel, spine_cubic}
use spine_kernel.Datapath.Registry.{spine_connection_start}
use spine_kernel.Datapath.Invoke.{CongestionControl}
use spine_kernel.Tcp.{
  CaState, ca_open, ca_disorder, ca_cwr, ca_recovery, ca_loss, TcpSock, TcpKernel, flow_of, set_up,
  consult, through_impl, release_conn,
}
use spine_kernel.Tcp.Scubic.{Bictcp, CubicKernel, scubic_set_params, bictcp_update_params}
use spine_kernel.Tcp.Scubic.Update.{bictcp_update}

-- The kernel's `after(a, b)` on serial numbers.
abbrev pub after : ℕ → ℕ → Bool
after a b = is_s32_neg (sub_u32 b a)

unfoldable pub bictcp_reset : Bictcp → Bictcp
bictcp_reset ca = record ca {
  cnt = 0;
  last_max_cwnd = 0;
  last_cwnd = 0;
  last_time = 0;
  bic_origin_point = 0;
  bic_k = 0;
  delay_min = 0;
  epoch_start = 0;
  ack_cnt = 0;
  tcp_cwnd = 0;
  found_train = false;
  found_delay = false;
}

unfoldable pub bictcp_hystart_reset : CubicKernel → TcpSock → Bictcp → Bictcp
bictcp_hystart_reset k tp ca = record ca {
  round_start = k.bictcp_clock;
  last_ack = k.bictcp_clock;
  end_seq = tp.snd_nxt;
  curr_rtt = 0;
  sample_cnt = 0;
}

-- The state and the socket as `bictcp_init` prepares them.
unfoldable pub prepare : CubicKernel → TcpSock → Bictcp → TcpSock × Bictcp
prepare k tp ca = (
  (if not k.hystart && not (k.initial_ssthresh == 0)
      then record tp { snd_ssthresh = k.initial_ssthresh }
      else tp),
  record (if k.hystart then bictcp_hystart_reset k tp (bictcp_reset ca) else bictcp_reset ca) {
    bic_scale = 41;
    beta = 717;
  },
)

abbrev pub scubic_name : Bytes
scubic_name = b's' ∷ b'c' ∷ b'u' ∷ b'b' ∷ b'i' ∷ b'c' ∷ replicate 58 0

-- `bictcp_init` on the socket at address `sk`.
unfoldable pub bictcp_init :
    TcpKernel
    → CubicKernel
    → Kernel
    → SpineDatapath
    → ℕ
    → TcpSock
    → Bictcp
    → Option (SpineDatapath × TcpSock × Bictcp)
bictcp_init t k kernel dp sk tp ca = do
  let (tp, ca) = prepare k tp ca
  ca ← bictcp_update_params ca
  (conn, dp) ← spine_connection_start kernel dp sk (flow_of spine_cubic scubic_name tp)
  some (dp, set_up t tp, record ca { conn = conn })

unfoldable pub bictcp_release : Kernel → SpineDatapath → Bictcp → Option SpineDatapath
bictcp_release kernel dp ca = release_conn kernel dp ca.conn

-- `bictcp_cwnd_event` for CA_EVENT_TX_START, the only event that it handles.
unfoldable pub bictcp_cwnd_event : CubicKernel → TcpSock → Bictcp → Bictcp
bictcp_cwnd_event k tp ca =
    let now = k.jiffies 0 in
    let delta = sub_u32 now tp.lsndtime in
    if not (ca.epoch_start == 0) && (not (is_s32_neg delta) && ltb 0 delta)
    then (let epoch_start = (ca.epoch_start + delta) % 2 ^ 32 in
        record ca { epoch_start = if after epoch_start now then now else epoch_start })
    else ca

-- The module's callbacks, with the state of the socket at the address `sk` at hand. `cubictcp_register`
-- sets no `fetch_measurements`: the pointer keeps what was in the memory, and a call through it is a fault.
abbrev pub scubic_module : ℕ → CongestionControl Bictcp
scubic_module sk = record {
  set_params = λ conn params n ca. through_impl sk conn (scubic_set_params conn params n ca);
  fetch_measurements = λ conn request ca. none;
}

-- The growth of the window, on the acknowledgements that slow start left.
unfoldable pub grow : CubicKernel → ℕ → ℕ → TcpSock → Bictcp → Option (TcpSock × Bictcp)
grow k fuel acked tp ca = do
  ca ← bictcp_update k fuel tp.snd_cwnd acked ca
  tp ← k.tcp_cong_avoid_ai tp ca.cnt acked
  some (tp, ca)

-- `if (hystart && after(ack, ca->end_seq)) …`: a round of acknowledgements is over.
unfoldable pub next_round : CubicKernel → ℕ → TcpSock → Bictcp → Bictcp
next_round k ack tp ca =
    if k.hystart && after ack ca.end_seq then bictcp_hystart_reset k tp ca else ca

-- `bictcp_cong_avoid` once it has called `spine_invoke`.
unfoldable pub avoid :
    TcpKernel → CubicKernel → ℕ → ℕ → ℕ → TcpSock → Bictcp → Option (TcpSock × Bictcp)
avoid t k fuel ack acked tp ca =
    if not (k.tcp_is_cwnd_limited tp)
    then some (tp, ca)
    else if t.tcp_in_slow_start tp
    then (let ca = next_round k ack tp ca in
        let (acked, tp) = k.tcp_slow_start tp acked in
        if acked == 0 then some (tp, ca) else grow k fuel acked tp ca)
    else grow k fuel acked tp ca

unfoldable pub bictcp_cong_avoid :
    TcpKernel
    → CubicKernel
    → Kernel
    → ℕ
    → SpineDatapath
    → ℕ
    → ℕ
    → ℕ
    → TcpSock
    → Bictcp
    → Option (SpineDatapath × TcpSock × Bictcp)
bictcp_cong_avoid t k kernel fuel dp sk ack acked tp ca = do
  (ok, dp, ca) ← consult (scubic_module sk) kernel dp ca.conn ca
  (tp, ca) ← avoid t k fuel ack acked tp ca
  some (dp, tp, ca)

unfoldable pub bictcp_state : CubicKernel → CaState → TcpSock → Bictcp → Bictcp
bictcp_state k ca_open tp ca = ca
bictcp_state k ca_disorder tp ca = ca
bictcp_state k ca_cwr tp ca = ca
bictcp_state k ca_recovery tp ca = ca
bictcp_state k ca_loss tp ca = bictcp_hystart_reset k tp (bictcp_reset ca)

-- `HYSTART_DELAY_THRESH`
abbrev pub delay_thresh : ℕ → ℕ
delay_thresh x = min_of (max_of x 32) 128

-- The detection by trains of acknowledgements.
unfoldable pub detect_ack_train : CubicKernel → TcpSock → Bictcp → TcpSock × Bictcp
detect_ack_train k tp ca =
    let now = k.bictcp_clock in
    let spacing = sub_u32 now ca.last_ack in
    if is_s32_neg spacing || leb spacing k.hystart_ack_delta
    then (let ca = record ca { last_ack = now } in
        if ltb (ca.delay_min / 16) (sub_u32 now ca.round_start)
        then (record tp { snd_ssthresh = tp.snd_cwnd }, record ca { found_train = true })
        else (tp, ca))
    else (tp, ca)

-- The detection by a growing delay.
unfoldable pub detect_long_delay : ℕ → TcpSock → Bictcp → TcpSock × Bictcp
detect_long_delay delay tp ca =
    let ca = record ca { curr_rtt = min_of ca.curr_rtt delay } in
    if ltb ca.sample_cnt 8
    then (
      tp,
      record ca {
        curr_rtt = if (ca.curr_rtt == 0) || ltb delay ca.curr_rtt then delay else ca.curr_rtt;
        sample_cnt = ca.sample_cnt + 1;
      },
    )
    else if ltb ((ca.delay_min + delay_thresh (ca.delay_min / 8)) % 2 ^ 32) ca.curr_rtt
    then (record tp { snd_ssthresh = tp.snd_cwnd }, record ca { found_delay = true })
    else (tp, ca)

unfoldable pub hystart_update : CubicKernel → ℕ → TcpSock → Bictcp → TcpSock × Bictcp
hystart_update k delay tp ca =
    if (ca.found_train && k.detect_train) || (ca.found_delay && k.detect_delay)
    then (tp, ca)
    else (let (tp, ca) = if k.detect_train then detect_ack_train k tp ca else (tp, ca) in
        if k.detect_delay then detect_long_delay delay tp ca else (tp, ca))

-- `delay` of a round-trip time in microseconds: an s32, in eighths of a millisecond.
unfoldable pub sampled_delay : ℕ → ℕ
sampled_delay rtt_us =
    let delay = to_u32 (tquot (to_int (rtt_us * 8)) 1000) in if delay == 0 then 1 else delay

unfoldable pub bictcp_acked : TcpKernel → CubicKernel → ℤ → TcpSock → Bictcp → TcpSock × Bictcp
bictcp_acked t k (negsuc n) tp ca = (tp, ca)
bictcp_acked t k (pos rtt_us) tp ca =
    let age = sub_u32 (k.jiffies 0) ca.epoch_start in
    if not (ca.epoch_start == 0) && (is_s32_neg age || ltb age k.hz)
    then (tp, ca)
    else (let delay = sampled_delay rtt_us in
        let ca =
          (if (ca.delay_min == 0) || ltb delay ca.delay_min
            then record ca { delay_min = delay }
            else ca) in
        if k.hystart && (t.tcp_in_slow_start tp && leb k.hystart_low_window tp.snd_cwnd)
        then hystart_update k delay tp ca
        else (tp, ca))
