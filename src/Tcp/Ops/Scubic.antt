-- ===== src/Tcp/Ops/Scubic.antt =====
-- `static struct tcp_congestion_ops cubictcp` of src/tcp_scubic.c.
use spine_kernel.Prelude.{ℕ, ◌+◌, ◌^◌, ◌≤◌, ◌<◌, Option, some, ℤ}
use spine_kernel.Datapath.State.{SpineDatapath, Kernel, spine_cubic}
use spine_kernel.Tcp.{CaState, TcpSock, TcpKernel}
use spine_kernel.Tcp.Scubic.{Bictcp, CubicKernel, bictcp_recalc_ssthresh}
use spine_kernel.Tcp.Scubic.Callbacks.{
  bictcp_init, bictcp_release, bictcp_cwnd_event, bictcp_cong_avoid, bictcp_state, bictcp_acked,
}
use spine_kernel.Tcp.Scubic.Safety.{IsTcp}
use spine_kernel.Tcp.Ops.{TcpCongestionOps}

-- The callbacks that the table sets, with their arguments besides the socket. `undo_cwnd` is the kernel's
-- own `tcp_reno_undo_cwnd`; `tx_start` is the one event of `cwnd_event` that is handled.
pub data CubicCall : Type 0 where
  cong_avoid : (ack acked : ℕ) → CubicCall
  ssthresh : CubicCall
  set_state : CaState → CubicCall
  tx_start : CubicCall
  pkts_acked : ℤ → CubicCall
  undo_cwnd : CubicCall

-- `CubicKernel` has the clocks, so each call has its own.
module _ (t : TcpKernel) (fuel : ℕ) where
  unfoldable pub cubic_callback :
      CubicKernel × CubicCall
      → Kernel
      → SpineDatapath
      → ℕ
      → TcpSock
      → Bictcp
      → Option (SpineDatapath × TcpSock × Bictcp)
  cubic_callback (k, cong_avoid ack acked) kernel dp sk tp ca =
      bictcp_cong_avoid t k kernel fuel dp sk ack acked tp ca
  cubic_callback (k, ssthresh) kernel dp sk tp ca =
      let (window, ca) = bictcp_recalc_ssthresh k.fast_convergence tp.snd_cwnd ca in
      some (dp, tp, ca)
  cubic_callback (k, set_state state) kernel dp sk tp ca = some (dp, tp, bictcp_state k state tp ca)
  cubic_callback (k, tx_start) kernel dp sk tp ca = some (dp, tp, bictcp_cwnd_event k tp ca)
  cubic_callback (k, pkts_acked rtt_us) kernel dp sk tp ca =
      let (tp, ca) = bictcp_acked t k rtt_us tp ca in some (dp, tp, ca)
  cubic_callback (k, undo_cwnd) kernel dp sk tp ca =
      let window = t.tcp_reno_undo_cwnd tp in some (dp, tp, ca)

  abbrev pub cubictcp : TcpCongestionOps Bictcp CubicKernel (CubicKernel × CubicCall)
  cubictcp = record {
    init = λ kernel k dp sk tp ca. bictcp_init t k kernel dp sk tp ca;
    callback = cubic_callback;
    release = bictcp_release;
    conn = λ ca. ca.conn;
    alg = spine_cubic;
  }

-- What TCP provides: its own functions, and a window of 4 packets to 2 ^ 19, within its cap, that the
-- acknowledgements do not lift past 2 ^ 19.
module _ (t : TcpKernel) where
  abbrev pub CanCall : CubicKernel × CubicCall → TcpSock → Type 0
  CanCall (k, cong_avoid ack acked) tp =
      IsTcp t k
      × (4 ≤ tp.snd_cwnd)
      × (tp.snd_cwnd ≤ tp.snd_cwnd_clamp)
      × (tp.snd_cwnd + acked < 2 ^ 19)
  CanCall (k, ssthresh) tp = Unit {0}
  CanCall (k, set_state state) tp = Unit {0}
  CanCall (k, tx_start) tp = Unit {0}
  CanCall (k, pkts_acked rtt_us) tp = Unit {0}
  CanCall (k, undo_cwnd) tp = Unit {0}

-- What the readiness of a state and its connection depend on.
abbrev core : Bictcp → ℕ × ℕ × ℕ × ℕ × ℕ × ℕ × Option ℕ
core ca = (ca.beta, ca.bic_scale, ca.beta_scale, ca.cube_factor, ca.cnt, ca.last_cwnd, ca.conn)
