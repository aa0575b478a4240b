-- ===== src/Tcp/Scubic.antt =====
-- The "scubic" congestion control of src/tcp_scubic.c: its state, the two parameters of the agent and
-- what is computed from them, the reduction of the window, and the loop of the TCP friendliness.
pub mod Params
pub mod Friendliness
pub mod Root
pub mod Update
pub mod Callbacks
pub mod Safety
pub mod Delay
pub mod Agent
use spine_kernel.Prelude.{
  ℕ, zero, suc, ◌+◌, ◌-◌, ◌*◌, ◌/◌, ◌%◌, ◌^◌, Bool, true, false, not, ◌||◌, ◌&&◌, Option, none,
  some, List, [], ltb, leb, ◌==◌, if◌then◌else◌, ◌>>=◌, get_or, max_of,
}
use spine_kernel.Datapath.State.{
  SpineConnection, SpineInternalAlg, spine_cubic, spine_vegas, spine_vanilla, spine_neo,
}
use spine_kernel.Tcp.{TcpSock}

abbrev pub bictcp_beta_scale : ℕ
bictcp_beta_scale = 1024

abbrev pub scubic_param_num : ℕ
scubic_param_num = 2

-- `struct bictcp`. `found` is its two bits, HYSTART_ACK_TRAIN and HYSTART_DELAY; `conn` is the
-- connection's position in the table.
pub record Bictcp : Type 0 where
  pub cnt : ℕ
  pub last_max_cwnd : ℕ
  pub last_cwnd : ℕ
  pub last_time : ℕ
  pub bic_origin_point : ℕ
  pub bic_k : ℕ
  pub delay_min : ℕ
  pub epoch_start : ℕ
  pub ack_cnt : ℕ
  pub tcp_cwnd : ℕ
  pub sample_cnt : ℕ
  pub found_train : Bool
  pub found_delay : Bool
  pub round_start : ℕ
  pub end_seq : ℕ
  pub last_ack : ℕ
  pub curr_rtt : ℕ
  pub beta : ℕ
  pub bic_scale : ℕ
  pub cube_rtt_scale : ℕ
  pub beta_scale : ℕ
  pub cube_factor : ℕ
  pub conn : Option ℕ

-- The module parameters (`module_param`), not negative, and the clocks and functions of the kernel
-- that src/tcp_scubic.c uses. `jiffies i` is what `tcp_jiffies32` reads at the i-th place of the text
-- of one callback.
pub record CubicKernel : Type 0 where
  pub fast_convergence : Bool
  pub initial_ssthresh : ℕ
  pub tcp_friendliness : Bool
  pub hystart : Bool
  pub detect_train : Bool
  pub detect_delay : Bool
  pub hystart_low_window : ℕ
  pub hystart_ack_delta : ℕ
  pub hz : ℕ
  pub jiffies : ℕ → ℕ
  pub bictcp_clock : ℕ
  pub msecs_to_jiffies : ℕ → ℕ
  pub fls64 : ℕ → ℕ
  pub tcp_is_cwnd_limited : TcpSock → Bool
  pub tcp_slow_start : TcpSock → ℕ → ℕ × TcpSock
  pub tcp_cong_avoid_ai : TcpSock → ℕ → ℕ → Option TcpSock

-- A division by 0 is a fault; `beta` is at most 1024 where this is called.
unfoldable pub bictcp_update_params : Bictcp → Option Bictcp
bictcp_update_params ca =
    if leb bictcp_beta_scale ca.beta || ca.bic_scale == 0
    then none
    else some (record ca {
      beta_scale = 8 * (bictcp_beta_scale + ca.beta) / 3 / (bictcp_beta_scale - ca.beta);
      cube_factor = 2 ^ 40 / (ca.bic_scale * 10);
    })

abbrev pub is_cubic : SpineInternalAlg → Bool
is_cubic spine_cubic = true
is_cubic spine_vegas = false
is_cubic spine_vanilla = false
is_cubic spine_neo = false

-- The test on a parameter.
abbrev pub is_invalid : ℕ → Bool
is_invalid param = param == 0 || leb 1024 param

unfoldable pub scubic_set_params : SpineConnection → List ℕ → ℕ → Bictcp → Option Bictcp
scubic_set_params conn params num_fields ca =
    if not (is_cubic conn.flow_info.alg) || not (num_fields == scubic_param_num)
    then some ca
    else if is_invalid (get_or params 0 0) || is_invalid (get_or params 1 0)
    then some ca
    else bictcp_update_params
        (record ca { bic_scale = get_or params 0 0; beta = get_or params 1 0 })

-- The returned threshold and the module's state, for a window of `snd_cwnd` packets.
unfoldable pub bictcp_recalc_ssthresh : Bool → ℕ → Bictcp → ℕ × Bictcp
bictcp_recalc_ssthresh fast_convergence snd_cwnd ca = (
  max_of (snd_cwnd * ca.beta % 2 ^ 32 / bictcp_beta_scale) 2,
  record ca {
    epoch_start = 0;
    last_max_cwnd =
        if ltb snd_cwnd ca.last_max_cwnd && fast_convergence
        then snd_cwnd * (bictcp_beta_scale + ca.beta) % 2 ^ 32 / (2 * bictcp_beta_scale)
        else snd_cwnd;
  },
)

-- `while (ca->ack_cnt > delta)`, on fuel: `ack_cnt` and `tcp_cwnd` behind it.
unfoldable pub friendly_loop : ℕ → ℕ → ℕ → ℕ → Option (ℕ × ℕ)
friendly_loop zero delta ack_cnt tcp_cwnd = none
friendly_loop (suc fuel) delta ack_cnt tcp_cwnd =
    let rest = friendly_loop fuel delta (ack_cnt - delta) ((tcp_cwnd + 1) % 2 ^ 32) in
    if ltb delta ack_cnt then rest else some (ack_cnt, tcp_cwnd)

-- `delta` of the TCP friendliness.
unfoldable pub friendly_delta : ℕ → Bictcp → ℕ
friendly_delta cwnd ca = cwnd * ca.beta_scale % 2 ^ 32 / 8

-- The branch `if (tcp_friendliness)` of `bictcp_update`.
unfoldable pub update_friendly : ℕ → ℕ → Bictcp → Option Bictcp
update_friendly fuel cwnd ca = do
  (ack_cnt, tcp_cwnd) ← friendly_loop fuel (friendly_delta cwnd ca) ca.ack_cnt ca.tcp_cwnd
  let max_cnt = cwnd / (tcp_cwnd - cwnd)
  some (record ca {
    ack_cnt = ack_cnt;
    tcp_cwnd = tcp_cwnd;
    cnt = if ltb cwnd tcp_cwnd && ltb max_cnt ca.cnt then max_cnt else ca.cnt;
  })
