-- ===== src/Tcp/Ops/Vanilla.antt =====
-- `static struct tcp_congestion_ops vanilla` of src/tcp_vanilla.c.
use spine_kernel.Prelude.{ℕ, ℤ, pos, negsuc, arith, Option, some, ◌≡◌, refl}
use spine_kernel.Datapath.State.{SpineDatapath, Kernel, spine_vanilla}
use spine_kernel.Datapath.Registry.Slots.{IsValid}
use spine_kernel.Tcp.{
  CaState, ca_open, ca_disorder, ca_cwr, ca_recovery, ca_loss, TcpSock, RateSample, TcpKernel,
}
use spine_kernel.Tcp.Consult.{IsAttached, IsSocketOf, same-IsKept}
use spine_kernel.Tcp.Release.{release_conn-IsReleased}
use spine_kernel.Tcp.Vanilla.{
  Vanilla, vanilla_init, vanilla_release, vanilla_ssthresh, vanilla_set_state, vanilla_pkt_acked,
  vanilla_cong_control, vanilla_undo_cwnd,
}
use spine_kernel.Tcp.Vanilla.Safety.{
  IsHealthy, vanilla_pkt_acked-IsHealthy, vanilla_cong_control-IsHealthy, vanilla_init-IsHealthy,
}
use spine_kernel.Tcp.Ops.{TcpCongestionOps, Serves, IsLawful, WithoutFetch}

-- The callbacks that the table sets, with their arguments besides the socket.
pub data VanillaCall : Type 0 where
  cong_control : RateSample → VanillaCall
  ssthresh : VanillaCall
  set_state : CaState → VanillaCall
  pkts_acked : ℤ → VanillaCall
  undo_cwnd : VanillaCall

module _ (k : TcpKernel) where
  unfoldable pub vanilla_callback :
      VanillaCall
      → Kernel
      → SpineDatapath
      → ℕ
      → TcpSock
      → Vanilla
      → Option (SpineDatapath × TcpSock × Vanilla)
  vanilla_callback (cong_control rs) kernel dp sk tp ca =
      vanilla_cong_control k kernel dp sk rs tp ca
  vanilla_callback ssthresh kernel dp sk tp ca =
      let (window, tp, ca) = vanilla_ssthresh tp ca in some (dp, tp, ca)
  vanilla_callback (set_state state) kernel dp sk tp ca = some (dp, tp, vanilla_set_state state ca)
  vanilla_callback (pkts_acked rtt_us) kernel dp sk tp ca =
      some (dp, tp, vanilla_pkt_acked rtt_us ca)
  vanilla_callback undo_cwnd kernel dp sk tp ca =
      let window = vanilla_undo_cwnd k tp in some (dp, tp, ca)

  abbrev pub vanilla : TcpCongestionOps Vanilla (Unit {0}) VanillaCall
  vanilla = record {
    init = λ kernel o dp sk tp ca. vanilla_init k kernel dp sk tp ca;
    callback = vanilla_callback;
    release = vanilla_release;
    conn = λ ca. ca.conn;
    alg = spine_vanilla;
  }

pkt_acked-conn : (rtt_us : ℤ) (ca : Vanilla) → (vanilla_pkt_acked rtt_us ca).conn ≡ ca.conn
unfolding vanilla_pkt_acked
pkt_acked-conn (negsuc n) ca = refl
pkt_acked-conn (pos n) ca = ground arith

set_state-IsHealthy :
    (state : CaState) (ca : Vanilla)
    → IsHealthy ca
    → IsHealthy (vanilla_set_state state ca) × ((vanilla_set_state state ca).conn ≡ ca.conn)
unfolding vanilla_set_state
set_state-IsHealthy ca_open ca ok = (ok, refl)
set_state-IsHealthy ca_disorder ca ok = (ok, refl)
set_state-IsHealthy ca_cwr ca ok = (ok, refl)
set_state-IsHealthy ca_recovery ca ok = (ok, refl)
set_state-IsHealthy ca_loss ca ok = (ok, refl)

-- The vanilla module keeps its contract, on a datapath whose `fetch_measurements` is null and with nothing
-- that TCP must provide: no call faults, and the state stays healthy, with
-- the parameters in range and a smallest round-trip time to divide by.
pub vanilla-IsLawful :
    (k : TcpKernel)
    → IsLawful (vanilla k) IsHealthy WithoutFetch (λ o tp. Unit {0}) (λ e tp. Unit {0})
unfolding vanilla_callback vanilla_release vanilla_ssthresh
vanilla-IsLawful k = record {
  opens = λ kernel o dp sk tp ca v _. vanilla_init-IsHealthy k kernel dp sk tp ca v;
  calls = callback_lem;
  closes = λ kernel dp ca v at_conn. release_conn-IsReleased kernel dp ca.conn v at_conn;
}
  where
    callback_lem :
        (e : VanillaCall) (kernel : Kernel) (dp : SpineDatapath) (sk : ℕ) (tp : TcpSock)
        (ca : Vanilla)
        → WithoutFetch dp.pointers
        → IsValid dp
        → IsAttached dp ca.conn
        → IsSocketOf dp sk spine_vanilla ca.conn
        → IsHealthy ca
        → Unit {0}
        → Serves (λ ca. ca.conn) IsHealthy dp ca (vanilla_callback k e kernel dp sk tp ca)
    callback_lem (cong_control rs) kernel dp sk tp ca uses v at_conn own ok _ =
        vanilla_cong_control-IsHealthy k kernel dp sk rs tp ca uses v at_conn own ok
    callback_lem ssthresh kernel dp sk tp ca uses v at_conn own ok _ =
        let (window, tp', ca') = vanilla_ssthresh tp ca in
        (dp, tp', ca', refl, same-IsKept dp ca.conn v at_conn, refl, ok)
    callback_lem (set_state state) kernel dp sk tp ca uses v at_conn own ok _ =
        let (good, same) = set_state-IsHealthy state ca ok in
        (dp, tp, _, refl, same-IsKept dp ca.conn v at_conn, same, good)
    callback_lem (pkts_acked rtt_us) kernel dp sk tp ca uses v at_conn own ok _ = (
      dp,
      tp,
      _,
      refl,
      same-IsKept dp ca.conn v at_conn,
      pkt_acked-conn rtt_us ca,
      (vanilla_pkt_acked-IsHealthy rtt_us ca ok).0,
    )
    callback_lem undo_cwnd kernel dp sk tp ca uses v at_conn own ok _ =
        (dp, tp, ca, refl, same-IsKept dp ca.conn v at_conn, refl, ok)
