-- ===== src/Tcp/Ops/Neo.antt =====
-- `static struct tcp_congestion_ops neo` of src/tcp_neo.c.
use spine_kernel.Prelude.{
  ℕ, ◌%◌, ◌^◌, ◌*◌, ◌/◌, ◌<◌, ◌≡◌, refl, Bool, true, Option, some, ◌>>=◌, inl, inr, Bool-cases,
  max_of, arith,
}
use spine_kernel.Datapath.State.{SpineDatapath, Kernel, spine_neo}
use spine_kernel.Datapath.Registry.Slots.{IsValid}
use spine_kernel.Tcp.{
  CaState, ca_open, ca_disorder, ca_cwr, ca_recovery, ca_loss, TcpSock, RateSample, TcpKernel,
}
use spine_kernel.Tcp.Consult.{IsAttached, IsSocketOf, same-IsKept}
use spine_kernel.Tcp.Release.{release_conn-IsReleased}
use spine_kernel.Tcp.Neo.{NeoData, neo_update_pacing_rate, put_interval}
use spine_kernel.Tcp.Neo.Callbacks.{
  neo_init, neo_release, leave_slow_start, neo_ssthresh, neo_set_state, neo_cong_control,
  neo_undo_cwnd,
}
use spine_kernel.Tcp.Neo.Ring.{IsRing, interval_at_exists, put_interval-HasIntervals}
use spine_kernel.Tcp.Neo.Safety.{neo_cong_control-IsRing, neo_init-IsRing}
use spine_kernel.Tcp.Ops.{TcpCongestionOps, Serves, IsLawful}

-- The callbacks that the table sets, with their arguments besides the socket. `neo_pkt_acked` does
-- nothing with its sample.
pub data NeoCall : Type 0 where
  cong_control : RateSample → NeoCall
  ssthresh : NeoCall
  set_state : CaState → NeoCall
  pkts_acked : NeoCall
  undo_cwnd : NeoCall

module _ (k : TcpKernel) where
  unfoldable pub neo_callback :
      NeoCall
      → Kernel
      → SpineDatapath
      → ℕ
      → TcpSock
      → NeoData
      → Option (SpineDatapath × TcpSock × NeoData)
  neo_callback (cong_control rs) kernel dp sk tp ca = neo_cong_control kernel dp sk rs tp ca
  neo_callback ssthresh kernel dp sk tp ca = do
    (window, tp, ca) ← neo_ssthresh k tp ca
    some (dp, tp, ca)
  neo_callback (set_state state) kernel dp sk tp ca = some (dp, tp, neo_set_state k state tp ca)
  neo_callback pkts_acked kernel dp sk tp ca = some (dp, tp, ca)
  neo_callback undo_cwnd kernel dp sk tp ca = let window = neo_undo_cwnd tp in some (dp, tp, ca)

  -- `Opening` is whether the intervals could be allocated.
  abbrev pub neo : TcpCongestionOps NeoData Bool NeoCall
  neo = record {
    init = neo_init k;
    callback = neo_callback;
    release = neo_release;
    conn = λ ca. ca.conn;
    alg = spine_neo;
  }

-- What TCP and the kernel provide: memory for the intervals, and a segment size.
abbrev pub CanOpen : Bool → TcpSock → Type 0
CanOpen alloc tp = (alloc ≡ true) × (0 < tp.mss_cache)

abbrev pub CanCall : NeoCall → TcpSock → Type 0
CanCall (cong_control rs) tp = 0 < tp.mss_cache
CanCall ssthresh tp = Unit {0}
CanCall (set_state state) tp = Unit {0}
CanCall pkts_acked tp = Unit {0}
CanCall undo_cwnd tp = Unit {0}

set_state-IsRing :
    (k : TcpKernel) (state : CaState) (tp : TcpSock) (ca : NeoData)
    → IsRing ca
    → IsRing (neo_set_state k state tp ca) × ((neo_set_state k state tp ca).conn ≡ ca.conn)
unfolding neo_set_state
set_state-IsRing k ca_open tp ca ring = (ring, refl)
set_state-IsRing k ca_disorder tp ca ring = (ring, refl)
set_state-IsRing k ca_cwr tp ca ring = (ring, refl)
set_state-IsRing k ca_recovery tp ca ring = (ring, refl)
set_state-IsRing k ca_loss tp ca ring = (ring, refl)

ssthresh-IsRing :
    (k : TcpKernel) (tp : TcpSock) (ca : NeoData)
    → IsRing ca
    → (window : ℕ) × (tp' : TcpSock) × (ca' : NeoData) × (neo_ssthresh k tp ca
        ≡ some (window, tp', ca'))
      × IsRing ca'
      × (ca'.conn ≡ ca.conn)
unfolding neo_ssthresh leave_slow_start
ssthresh-IsRing k tp ca (held, s, r) = elim (Bool-cases ca.slow_start_passed) [
  | inl passed ↦ (
    max_of tp.snd_cwnd 10,
    tp,
    record ca { prior_cwnd = tp.snd_cwnd },
    rw passed refl,
    (held, s, r),
    refl,
  )
  | inr slow ↦
      let (first, found) = interval_at_exists ca 0 held (omega arith) in
      let tp' =
        neo_update_pacing_rate k (record tp { snd_cwnd = tp.snd_cwnd * 717 % 2 ^ 32 / 1000 }) in
      let rate = tp'.sk_pacing_rate in
      let ca' = record ca { slow_start_passed = true; ready_rate = rate; rate = rate } in
      let first' = record first { rate = rate } in
      (
        max_of tp'.snd_cwnd 10,
        tp',
        record (put_interval 0 first' ca') { prior_cwnd = tp'.snd_cwnd },
        rw (slow, found) refl,
        (put_interval-HasIntervals ca' 0 first' held, s, r),
        refl,
      )
]

-- The neo module keeps its contract, if the kernel has memory for the intervals at `init` and the socket
-- has a segment size at `init` and at each `cong_control`: no call faults, also where the agent has asked
-- for measurements; the ring of intervals stays allocated, with
-- its indices inside.
pub neo-IsLawful : (k : TcpKernel) → IsLawful (neo k) IsRing (λ ptrs. Unit {0}) CanOpen CanCall
unfolding neo_callback neo_release
neo-IsLawful k = record {
  opens = λ kernel alloc dp sk tp ca v (memory, mss).
      rw memory (neo_init-IsRing k kernel dp sk tp ca v mss);
  calls = callback_lem;
  closes = λ kernel dp ca v at_conn. release_conn-IsReleased kernel dp ca.conn v at_conn;
}
  where
    callback_lem :
        (e : NeoCall) (kernel : Kernel) (dp : SpineDatapath) (sk : ℕ) (tp : TcpSock) (ca : NeoData)
        → Unit {0}
        → IsValid dp
        → IsAttached dp ca.conn
        → IsSocketOf dp sk spine_neo ca.conn
        → IsRing ca
        → CanCall e tp
        → Serves (λ ca. ca.conn) IsRing dp ca (neo_callback k e kernel dp sk tp ca)
    callback_lem (cong_control rs) kernel dp sk tp ca uses v at_conn own ring mss =
        neo_cong_control-IsRing kernel dp sk rs tp ca v at_conn own mss ring
    callback_lem ssthresh kernel dp sk tp ca uses v at_conn own ring _ =
        let (window, tp', ca', run, ring', same) = ssthresh-IsRing k tp ca ring in
        (dp, tp', ca', rw run refl, same-IsKept dp ca.conn v at_conn, same, ring')
    callback_lem (set_state state) kernel dp sk tp ca uses v at_conn own ring _ =
        let (ring', same) = set_state-IsRing k state tp ca ring in
        (dp, tp, _, refl, same-IsKept dp ca.conn v at_conn, same, ring')
    callback_lem pkts_acked kernel dp sk tp ca uses v at_conn own ring _ =
        (dp, tp, ca, refl, same-IsKept dp ca.conn v at_conn, refl, ring)
    callback_lem undo_cwnd kernel dp sk tp ca uses v at_conn own ring _ =
        (dp, tp, ca, refl, same-IsKept dp ca.conn v at_conn, refl, ring)
