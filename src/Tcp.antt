-- ===== src/Tcp.antt =====
-- What the congestion control modules (src/tcp_vanilla.c, src/tcp_neo.c, src/tcp_scubic.c) see of the kernel's TCP:
-- the fields of the socket that they read and write, the states of loss recovery, and the samples
-- of an acknowledgement. The kernel's own functions are the parameter `TcpKernel`.
pub mod Consult
pub mod Release
pub mod Vanilla
pub mod Neo
pub mod Scubic
pub mod Ops
use spine_kernel.Prelude.{
  ℕ, ◌+◌, ◌*◌, ◌/◌, ◌%◌, ◌^◌, Bool, true, false, ℤ, max_of, min_of, ltb, ◌==◌, if◌then◌else◌,
  Option, none, some, pos, ◌>>=◌, Bytes,
}
use spine_kernel.Datapath.State.{
  SpineDatapath, SpineConnection, SpineDatapathInfo, SpineInternalAlg, Kernel,
}
use spine_kernel.Datapath.Registry.{conn_at, spine_connection_free}
use spine_kernel.Datapath.Invoke.{CongestionControl, spine_invoke}

-- `enum tcp_ca_state`, in its order.
pub data CaState : Type 0 where
  ca_open ca_disorder ca_cwr ca_recovery ca_loss : CaState

-- `state >= TCP_CA_Recovery`
abbrev pub is_recovering : CaState → Bool
is_recovering ca_open = false
is_recovering ca_disorder = false
is_recovering ca_cwr = false
is_recovering ca_recovery = true
is_recovering ca_loss = true

-- `enum sk_pacing`, the values of `sk_pacing_status`.
pub data PacingStatus : Type 0 where
  pacing_none pacing_needed pacing_fq : PacingStatus

-- `struct sock`, `struct tcp_sock` and `struct inet_connection_sock`. `ecn_ok` is the bit TCP_ECN_OK
-- of `ecn_flags`.
pub record TcpSock : Type 0 where
  pub snd_cwnd : ℕ
  pub snd_cwnd_clamp : ℕ
  pub snd_ssthresh : ℕ
  pub srtt_us : ℕ
  pub packets_out : ℕ
  pub mss_cache : ℕ
  pub data_segs_out : ℕ
  pub tcp_mstamp : ℕ
  pub lost : ℕ
  pub delivered : ℕ
  pub icsk_ca_state : CaState
  pub sk_pacing_rate : ℕ
  pub sk_max_pacing_rate : ℕ
  pub snd_nxt : ℕ
  pub lsndtime : ℕ
  pub inet_saddr : ℕ
  pub inet_sport : ℕ
  pub inet_daddr : ℕ
  pub inet_dport : ℕ
  pub ecn_ok : Bool
  pub sk_pacing_status : PacingStatus

-- `struct rate_sample`
pub record RateSample : Type 0 where
  pub acked_sacked : ℤ
  pub delivered : ℤ
  pub interval_us : ℤ

-- The functions of the kernel that the modules call.
pub record TcpKernel : Type 0 where
  pub tcp_in_slow_start : TcpSock → Bool
  pub tcp_mss_to_mtu : TcpSock → ℕ → ℕ
  pub tcp_packets_in_flight : TcpSock → ℕ
  pub tcp_reno_undo_cwnd : TcpSock → ℕ
  pub inet_ecn_dontxmit : TcpSock → TcpSock

-- `struct spine_datapath_info dp_info` of the init callbacks, on the name of the module.
abbrev pub flow_of : SpineInternalAlg → Bytes → TcpSock → SpineDatapathInfo
flow_of alg name tp = record {
  init_cwnd = tp.snd_cwnd * tp.mss_cache % 2 ^ 32;
  mss = tp.mss_cache;
  src_ip = tp.inet_saddr;
  src_port = tp.inet_sport;
  dst_ip = tp.inet_daddr;
  dst_port = tp.inet_dport;
  alg = alg;
  cong_alg = name;
}

-- `cmpxchg(&sk->sk_pacing_status, SK_PACING_NONE, SK_PACING_NEEDED)`
abbrev pub pacing_on : PacingStatus → PacingStatus
pacing_on pacing_none = pacing_needed
pacing_on pacing_needed = pacing_needed
pacing_on pacing_fq = pacing_fq

-- How the init callbacks end.
abbrev pub set_up : TcpKernel → TcpSock → TcpSock
set_up k tp =
    let tp = if tp.ecn_ok then tp else k.inet_ecn_dontxmit tp in
    record tp { sk_pacing_status = pacing_on tp.sk_pacing_status }

-- The rate that carries a window of `max(snd_cwnd, packets_out)` packets in a round trip, in u64.
abbrev pub window_rate : TcpKernel → TcpSock → ℕ
window_rate k tp =
    k.tcp_mss_to_mtu tp tp.mss_cache * 1000000 * max_of tp.snd_cwnd tp.packets_out % 2 ^ 64

-- `if (likely(tp->srtt_us >> 3)) do_div(rate, tp->srtt_us >> 3)`
abbrev pub per_srtt : TcpSock → ℕ → ℕ
per_srtt tp rate = if ltb 0 (tp.srtt_us / 8) then rate / (tp.srtt_us / 8) else rate

-- `WRITE_ONCE(sk->sk_pacing_rate, min_t(u64, rate, sk->sk_max_pacing_rate))`
abbrev pub set_pacing_rate : ℕ → TcpSock → TcpSock
set_pacing_rate rate tp = record tp { sk_pacing_rate = min_of rate tp.sk_max_pacing_rate }

-- What a callback for `spine_invoke` does, which reaches the module's state through `conn->impl`: the state
-- at hand is that of the socket at the address `sk`, and the state of another socket is out of reach, for
-- which `none` stands.
unfoldable pub through_impl : {A : Type 0} → ℕ → SpineConnection → Option A → Option A
through_impl sk conn run = if conn.impl == sk then run else none

-- `if (conn != NULL) ok = spine_invoke(conn);`, where `ok` starts as 0.
unfoldable pub consult :
    {S : Type 0}
    → CongestionControl S
    → Kernel
    → SpineDatapath
    → Option ℕ
    → S
    → Option (ℤ × SpineDatapath × S)
consult m kernel dp none s = some (pos 0, dp, s)
consult m kernel dp (some p) s = spine_invoke m kernel dp (some p) s

-- What the release callbacks do with the module's connection, if it has one.
unfoldable pub release_conn : Kernel → SpineDatapath → Option ℕ → Option SpineDatapath
release_conn kernel dp none = some dp
release_conn kernel dp (some p) = do conn ← conn_at dp p; spine_connection_free kernel dp conn.index
