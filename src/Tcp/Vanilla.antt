-- ===== src/Tcp/Vanilla.antt =====
-- The "vanilla" congestion control of src/tcp_vanilla.c: additive increase by alpha / 1024, additive
-- decrease by beta / 1024 when the round-trip time is inflated past gamma, and a decrease to
-- delta / 1024 of the window on loss. The agent sets the four parameters.
pub mod Window
pub mod Params
pub mod Safety
pub mod Loss
use spine_kernel.Prelude.{
  ℕ, zero, suc, ◌+◌, ◌-◌, ◌*◌, ◌/◌, ◌%◌, ◌^◌, Bool, true, false, not, ◌&&◌, ◌||◌, Option, none,
  some, List, [], ◌∷◌, ℤ, pos, negsuc, is_neg, is_nonzero, ltb, leb, ◌==◌, if◌then◌else◌, ◌>>=◌,
  get_or, Bytes, replicate, max_of, min_of, ◌+ℤ◌, ◌-ℤ◌, neg, tquot, scale, to_u32, to_int,
}
use spine_kernel.Datapath.State.{
  SpineDatapath, SpineConnection, SpineInternalAlg, spine_cubic, spine_vegas, spine_vanilla,
  spine_neo, SpineDatapathInfo, Kernel,
}
use spine_kernel.Datapath.Registry.{spine_connection_start, spine_connection_free, conn_at}
use spine_kernel.Datapath.Invoke.{CongestionControl}
use spine_kernel.Tcp.{
  CaState, ca_open, ca_disorder, ca_cwr, ca_recovery, ca_loss, is_recovering, TcpSock, RateSample,
  TcpKernel, window_rate, per_srtt, set_pacing_rate, flow_of, set_up, consult, through_impl,
  release_conn,
}

abbrev pub vanilla_scale : ℕ
vanilla_scale = 1024

abbrev pub vanilla_param_num : ℕ
vanilla_param_num = 4

-- `struct vanilla`. `conn` is the connection's position in the table, `none` for NULL.
pub record Vanilla : Type 0 where
  pub min_rtt_us : ℕ
  pub cnt : ℤ
  pub prev_ca_state : CaState
  pub in_recovery : Bool
  pub prior_cwnd : ℕ
  pub r_cwnd : ℕ
  pub alpha : ℕ
  pub beta : ℕ
  pub gamma : ℕ
  pub delta : ℕ
  pub slow_start_passed : Bool
  pub conn : Option ℕ

abbrev pub is_vanilla : SpineInternalAlg → Bool
is_vanilla spine_cubic = false
is_vanilla spine_vegas = false
is_vanilla spine_vanilla = true
is_vanilla spine_neo = false

-- The argument is a `u16`.
abbrev pub check_param : ℕ → Bool
check_param val = not (val == 0 || ltb 1024 val)

-- The loop of `vanilla_set_params`, over the first `n` parameters.
abbrev pub check_params : ℕ → List ℕ → Bool
check_params zero params = true
check_params (suc n) [] = false
check_params (suc n) (v ∷ params) = check_param (v % 2 ^ 16) && check_params n params

unfoldable pub vanilla_set_params : SpineConnection → List ℕ → ℕ → Vanilla → Vanilla
vanilla_set_params conn params num_fields ca =
    if not (is_vanilla conn.flow_info.alg) || not (num_fields == vanilla_param_num)
    then ca
    else if not (check_params num_fields params)
    then ca
    else record ca {
      alpha = get_or params 0 0 % 2 ^ 16;
      beta = get_or params 1 0 % 2 ^ 16;
      gamma = get_or params 2 0 * 2 % 2 ^ 16;
      delta = get_or params 3 0 % 2 ^ 16;
    }

unfoldable pub vanilla_update_pacing_rate : TcpKernel → TcpSock → TcpSock
vanilla_update_pacing_rate k tp = set_pacing_rate (per_srtt tp (window_rate k tp)) tp

unfoldable pub vanilla_reset : Vanilla → Vanilla
vanilla_reset ca = record ca {
  alpha = 50;
  beta = 200;
  gamma = 200;
  delta = 717;
  cnt = pos 0;
  min_rtt_us = 0x7fffffff;
  prev_ca_state = ca_open;
  in_recovery = false;
  prior_cwnd = 0;
  r_cwnd = 0;
  slow_start_passed = false;
}

abbrev pub vanilla_name : Bytes
vanilla_name = b'v' ∷ b'a' ∷ b'n' ∷ b'i' ∷ b'l' ∷ b'l' ∷ b'a' ∷ replicate 57 0

-- `vanilla_init` on the socket at address `sk`.
unfoldable pub vanilla_init :
    TcpKernel
    → Kernel
    → SpineDatapath
    → ℕ
    → TcpSock
    → Vanilla
    → Option (SpineDatapath × TcpSock × Vanilla)
vanilla_init k kernel dp sk tp ca = do
  (conn, dp) ← spine_connection_start kernel dp sk (flow_of spine_vanilla vanilla_name tp)
  some (dp, set_up k tp, record (vanilla_reset ca) { conn = conn })

unfoldable pub vanilla_release : Kernel → SpineDatapath → Vanilla → Option SpineDatapath
vanilla_release kernel dp ca = release_conn kernel dp ca.conn

-- The returned threshold, the socket and the module's state.
unfoldable pub vanilla_ssthresh : TcpSock → Vanilla → ℕ × TcpSock × Vanilla
vanilla_ssthresh tp ca =
    let target = ca.delta * tp.snd_cwnd % 2 ^ 32 / vanilla_scale in
    let snd_cwnd = min_of (max_of target 2) tp.snd_cwnd_clamp in
    (
      snd_cwnd,
      record tp { snd_cwnd = snd_cwnd },
      record ca { slow_start_passed = true; prior_cwnd = tp.snd_cwnd },
    )

unfoldable pub vanilla_undo_cwnd : TcpKernel → TcpSock → ℕ
vanilla_undo_cwnd k tp = k.tcp_reno_undo_cwnd tp

unfoldable pub vanilla_set_state : CaState → Vanilla → Vanilla
vanilla_set_state ca_open ca = ca
vanilla_set_state ca_disorder ca = ca
vanilla_set_state ca_cwr ca = ca
vanilla_set_state ca_recovery ca = ca
vanilla_set_state ca_loss ca = record ca { prev_ca_state = ca_loss }

-- `rtt_us` is an s32.
unfoldable pub vanilla_pkt_acked : ℤ → Vanilla → Vanilla
vanilla_pkt_acked (negsuc n) ca = ca
vanilla_pkt_acked (pos rtt_us) ca =
    if ltb (rtt_us + 1) ca.min_rtt_us then record ca { min_rtt_us = rtt_us + 1 } else ca

-- The window that `vanilla_set_cwnd` starts from.
unfoldable pub restored_cwnd : TcpSock → Vanilla → ℕ
restored_cwnd tp ca =
    if is_recovering ca.prev_ca_state && not (is_recovering tp.icsk_ca_state)
    then max_of tp.snd_cwnd ca.prior_cwnd
    else tp.snd_cwnd

-- The whole packets of `cnt` go into the window; the rest of it stays.
unfoldable pub apply_cnt : ℤ → ℕ → ℤ × ℕ
apply_cnt cnt cwnd =
    let delta = tquot cnt vanilla_scale in
    if is_nonzero delta
    then (cnt -ℤ scale delta vanilla_scale, (cwnd + to_u32 delta) % 2 ^ 32)
    else (cnt, cwnd)

unfoldable pub vanilla_set_cwnd : TcpKernel → TcpSock → Vanilla → TcpSock × Vanilla
vanilla_set_cwnd k tp ca =
    let (cnt, cwnd) = apply_cnt ca.cnt (restored_cwnd tp ca) in
    (
      vanilla_update_pacing_rate k
          (record tp { snd_cwnd = min_of (max_of cwnd 10) tp.snd_cwnd_clamp }),
      record ca { cnt = cnt },
    )

unfoldable pub spine_slow_start : TcpKernel → ℕ → TcpSock → Vanilla → TcpSock × Vanilla
spine_slow_start k acked tp ca =
    vanilla_set_cwnd k tp (record ca { cnt = to_int (to_u32 ca.cnt + acked * 500) })

-- `lat_inflation`: the u32 product is widened after it has wrapped, and a division by 0 is a fault.
unfoldable pub lat_inflation : TcpSock → Vanilla → Option ℕ
lat_inflation tp ca =
    if ca.min_rtt_us == 0
    then none
    else some (tp.srtt_us / 8 * vanilla_scale % 2 ^ 32 / ca.min_rtt_us)

-- `change`, bounded to [-512, 1024].
unfoldable pub window_change : ℕ → Vanilla → ℤ
window_change inflation ca =
    if ltb (vanilla_scale + ca.gamma) inflation
    then neg (min_of ca.beta 512)
    else pos (min_of ca.alpha 1024)

-- The module's callbacks, with the state of the socket at the address `sk` at hand. `vanilla_register` sets
-- no `fetch_measurements`: the pointer keeps what was in the memory, and a call through it is a fault.
abbrev pub vanilla_module : ℕ → CongestionControl Vanilla
vanilla_module sk = record {
  set_params =
      λ conn params n ca. through_impl sk conn (some (vanilla_set_params conn params n ca));
  fetch_measurements = λ conn request ca. none;
}

unfoldable pub vanilla_cong_control :
    TcpKernel
    → Kernel
    → SpineDatapath
    → ℕ
    → RateSample
    → TcpSock
    → Vanilla
    → Option (SpineDatapath × TcpSock × Vanilla)
vanilla_cong_control k kernel dp sk rs tp ca =
    if k.tcp_in_slow_start tp && not ca.slow_start_passed
    then (let (tp, ca) = spine_slow_start k (to_u32 rs.acked_sacked) tp ca in some (dp, tp, ca))
    else if is_neg rs.delivered || is_neg rs.interval_us
    then some (dp, tp, ca)
    else do
      (ok, dp, ca) ← consult (vanilla_module sk) kernel dp ca.conn ca
      inflation ← lat_inflation tp ca
      let (tp, ca) =
          vanilla_set_cwnd k tp (record ca { cnt = ca.cnt +ℤ window_change inflation ca })
      some (dp, tp, ca)
