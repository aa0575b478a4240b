-- ===== src/Tcp/Neo.antt =====
-- The "neo" congestion control of src/tcp_neo.c: a rate that the agent steps up and down, applied to
-- monitor intervals in a ring of 20, whose statistics are the measurements.
pub mod Callbacks
pub mod Ring
pub mod Safety
pub mod Rates
pub mod SlowStart
pub mod Agent
use spine_kernel.Prelude.{
  ℕ, zero, suc, ◌+◌, ◌-◌, ◌*◌, ◌/◌, ◌%◌, ◌^◌, Bool, true, false, not, ◌&&◌, ◌||◌, Option, none,
  some, List, [], ◌∷◌, ℤ, pos, negsuc, is_neg, ltb, leb, ◌==◌, if◌then◌else◌, ◌>>=◌, get_elem?, set,
  get_or, max_of, min_of, to_u32, replicate, sub_u32, sub_u64,
}
use spine_kernel.Datapath.State.{
  SpineDatapath, SpineConnection, SpineInternalAlg, spine_cubic, spine_vegas, spine_vanilla,
  spine_neo, SpineDatapathInfo, Kernel,
}
use spine_kernel.Datapath.Registry.{spine_connection_start}
use spine_kernel.Datapath.Invoke.{CongestionControl}
use spine_kernel.Tcp.{
  CaState, ca_open, ca_disorder, ca_cwr, ca_recovery, ca_loss, is_recovering, TcpSock, RateSample,
  TcpKernel, window_rate, per_srtt, set_pacing_rate, consult,
}

abbrev pub neo_intervals : ℕ
neo_intervals = 20

abbrev pub monitor_interval : ℕ
monitor_interval = 30000

abbrev pub neo_rate_min : ℕ
neo_rate_min = 4096

abbrev pub neo_ignore_packets : ℕ
neo_ignore_packets = 1

-- `struct neo_interval`
pub record NeoInterval : Type 0 where
  pub rate : ℕ
  pub recv_start : ℕ
  pub recv_end : ℕ
  pub send_start : ℕ
  pub send_end : ℕ
  pub start_rtt : ℕ
  pub end_rtt : ℕ
  pub packets_sent_base : ℕ
  pub packets_ended : ℕ
  pub lost : ℕ
  pub delivered : ℕ

-- `struct neo_data`. `intervals` is `none` for a null pointer, `conn` likewise. Left out:
-- `in_recovery`, `r_cwnd` and `id`, which only the reset and logs touch.
pub record NeoData : Type 0 where
  pub cnt : ℤ
  pub slow_start_passed : Bool
  pub intervals : Option (List NeoInterval)
  pub send_index : ℕ
  pub receive_index : ℕ
  pub rate : ℕ
  pub ready_rate : ℕ
  pub lost_base : ℕ
  pub delivered_base : ℕ
  pub packets_counted : ℕ
  pub prev_ca_state : CaState
  pub prior_cwnd : ℕ
  pub first_circle : Bool
  pub conn : Option ℕ
  pub double_counted : ℕ

unfoldable pub get_next_index : ℕ → ℕ
get_next_index index = if ltb index (neo_intervals - 1) then index + 1 else 0

unfoldable pub get_previous_index : ℕ → ℕ
get_previous_index index = if ltb 0 index then index - 1 else neo_intervals - 1

unfoldable pub neo_get_rtt : TcpSock → ℕ
neo_get_rtt tp = if ltb 0 tp.srtt_us then max_of (tp.srtt_us / 8) 1 else 1000

-- `new_rate` of `neo_calculate_and_set_rate`.
unfoldable pub new_rate : TcpSock → NeoData → ℕ
new_rate tp neo = min_of (max_of neo.ready_rate neo_rate_min) tp.sk_max_pacing_rate

-- The interval, the module's state and the socket after it.
unfoldable pub neo_calculate_and_set_rate :
    TcpSock → NeoData → NeoInterval → NeoInterval × NeoData × TcpSock
neo_calculate_and_set_rate tp neo interval =
    let rate = new_rate tp neo in
    (
      record interval { rate = rate },
      record neo { rate = rate; ready_rate = rate },
      record tp { sk_pacing_rate = rate },
    )

unfoldable pub neo_update_pacing_rate : TcpKernel → TcpSock → TcpSock
neo_update_pacing_rate k tp = set_pacing_rate (per_srtt tp (window_rate k tp / 2)) tp

-- The window for the pacing rate, in u64, before it is bounded.
unfoldable pub paced_cwnd : TcpSock → ℕ
paced_cwnd tp =
    tp.sk_pacing_rate * neo_get_rtt tp % 2 ^ 64 / tp.mss_cache / 1000000 * 1200 % 2 ^ 64 / 1000

-- A null `mss_cache` is a division by zero.
unfoldable pub neo_set_cwnd : TcpSock → Option TcpSock
neo_set_cwnd tp =
    if tp.mss_cache == 0
    then none
    else some
        (record tp { snd_cwnd = min_of (max_of 4 (paced_cwnd tp) % 2 ^ 32) tp.snd_cwnd_clamp })

-- `&neo->intervals[index]`, and a write through it.
abbrev pub interval_at : NeoData → ℕ → Option NeoInterval
interval_at neo index = neo.intervals >>= λ intervals. get_elem? intervals index

abbrev pub put_interval : ℕ → NeoInterval → NeoData → NeoData
put_interval index interval neo = record neo {
  intervals = elim neo.intervals [
    | none ↦ none
    | some intervals ↦ some (set intervals index interval)
  ];
}

unfoldable pub start_interval : TcpSock → NeoData → Option (TcpSock × NeoData)
start_interval tp neo = do
  interval ← interval_at neo neo.send_index
  let (interval, neo, tp) = neo_calculate_and_set_rate tp neo (record interval {
    packets_ended = 0;
    lost = 0;
    delivered = 0;
    packets_sent_base = max_of tp.data_segs_out 1;
    send_start = tp.tcp_mstamp;
  })
  tp ← neo_set_cwnd tp
  some (tp, put_interval neo.send_index interval neo)

-- The test of `send_interval_ended`; it stores `packets_ended` when it holds.
unfoldable pub send_interval_ended : NeoInterval → TcpSock → Bool × NeoInterval
send_interval_ended interval tp =
    if leb monitor_interval (sub_u64 tp.tcp_mstamp interval.send_start)
    then (true, record interval { packets_ended = tp.data_segs_out })
    else (false, interval)

unfoldable pub receive_interval_ended : NeoInterval → NeoData → Bool
receive_interval_ended interval neo =
    ltb 0 interval.packets_ended
    && ltb (sub_u32 interval.packets_ended neo_ignore_packets) neo.packets_counted

unfoldable pub start_next_send_interval : TcpSock → NeoData → Option (TcpSock × NeoData)
start_next_send_interval tp neo =
    let neo = record neo { send_index = get_next_index neo.send_index } in
    if neo.send_index == neo.receive_index then some (tp, neo) else start_interval tp neo

unfoldable pub neo_update_interval : NeoInterval → NeoData → TcpSock → NeoInterval
neo_update_interval interval neo tp = record interval {
  recv_end = tp.tcp_mstamp;
  end_rtt = tp.srtt_us / 8;
  lost = (interval.lost + sub_u32 tp.lost neo.lost_base) % 2 ^ 32;
  delivered = (interval.delivered + sub_u32 tp.delivered neo.delivered_base) % 2 ^ 32;
}

-- `if (send_interval_ended(…)) { … }`, on what the test returns and leaves.
unfoldable pub finish_send : TcpSock → NeoData → Bool × NeoInterval → Option (TcpSock × NeoData)
finish_send tp neo (true, interval) =
    start_next_send_interval tp
      (put_interval neo.send_index (record interval { send_end = tp.tcp_mstamp }) neo)
finish_send tp neo (false, interval) = some (tp, neo)

-- The first half of `neo_process`: the interval being sent.
unfoldable pub process_send : TcpSock → NeoData → Option (TcpSock × NeoData)
process_send tp neo = do
  interval ← interval_at neo neo.send_index
  finish_send tp neo (send_interval_ended interval tp)

-- The end of `neo_process`: on to the next interval to receive.
unfoldable pub next_receive : TcpSock → NeoData → Option NeoData
next_receive tp neo = do
  let index = get_next_index neo.receive_index
  interval ← interval_at neo index
  some (
      put_interval index
        (record interval { recv_start = tp.tcp_mstamp; start_rtt = tp.srtt_us / 8 })
        (record neo {
          receive_index = index;
          first_circle = if index == 0 then false else neo.first_circle;
        }))

-- The second half of `neo_process`: the interval whose acknowledgements arrive.
unfoldable pub process_receive : TcpSock → NeoData → Option NeoData
process_receive tp neo = do
  interval ← interval_at neo neo.receive_index
  let before = neo.packets_counted
  let neo = record neo { packets_counted = sub_u32 (tp.delivered + tp.lost) neo.double_counted }
  let interval =
      if ltb ((neo_ignore_packets + interval.packets_sent_base) % 2 ^ 32) before
      then neo_update_interval interval neo tp
      else interval
  let neo = put_interval neo.receive_index interval neo
  if receive_interval_ended interval neo then next_receive tp neo else some neo

unfoldable pub neo_valid : NeoData → Bool
neo_valid neo = elim neo.intervals [ none ↦ false | some intervals ↦ true ]

unfoldable pub neo_process : TcpSock → NeoData → Option (TcpSock × NeoData)
neo_process tp neo =
    if not (neo_valid neo)
    then some (tp, neo)
    else do (tp, neo) ← process_send tp neo; neo ← process_receive tp neo; some (tp, neo)
