-- ===== src/Tcp/Scubic/Update.antt =====
-- `bictcp_update` of src/tcp_scubic.c: how many acknowledgements a packet more in the window takes.
pub mod Growth
use spine_kernel.Prelude.{
  ℕ, ◌+◌, ◌-◌, ◌*◌, ◌/◌, ◌%◌, ◌^◌, Bool, true, false, not, ◌&&◌, Option, none, some, ltb, leb, ◌==◌,
  if◌then◌else◌, ◌>>=◌, max_of, sub_u32, is_s32_neg, sign_extend,
}
use spine_kernel.Tcp.Scubic.{Bictcp, CubicKernel, update_friendly}
use spine_kernel.Tcp.Scubic.Root.{cubic_root}

-- `if (ca->epoch_start == 0) { … }`, at the reading `now` of the clock.
unfoldable pub start_epoch : CubicKernel → ℕ → ℕ → ℕ → Bictcp → Option Bictcp
start_epoch k now cwnd acked ca = if not (ca.epoch_start == 0) then some ca else do
  let ca = record ca {
    epoch_start = now;
    ack_cnt = acked;
    tcp_cwnd = cwnd;
    cube_rtt_scale = ca.bic_scale * 10 % 2 ^ 32;
  }
  if leb ca.last_max_cwnd cwnd then some (record ca { bic_k = 0; bic_origin_point = cwnd }) else (do
    k ← cubic_root k.fls64 (ca.cube_factor * (ca.last_max_cwnd - cwnd) % 2 ^ 64)
    some (record ca { bic_k = k; bic_origin_point = ca.last_max_cwnd }))

-- `t`: the time since the epoch began, and the smallest delay, in units of 2 ^ -10 seconds.
unfoldable pub epoch_time : CubicKernel → ℕ → Bictcp → ℕ
epoch_time k now ca =
    (sign_extend (sub_u32 now ca.epoch_start) + k.msecs_to_jiffies (ca.delay_min / 8))
    % 2 ^ 64
    * 1024
    % 2 ^ 64
    / k.hz

-- `delta`, `offs` packets' time away from the origin of the cubic.
unfoldable pub cubic_delta : ℕ → Bictcp → ℕ
cubic_delta offs ca = ca.cube_rtt_scale * offs * offs * offs % 2 ^ 64 / 2 ^ 40

unfoldable pub bic_target : ℕ → Bictcp → ℕ
bic_target t ca =
    if ltb t ca.bic_k
    then sub_u32 ca.bic_origin_point (cubic_delta (ca.bic_k - t) ca)
    else (ca.bic_origin_point + cubic_delta (t - ca.bic_k) ca) % 2 ^ 32

-- `ca->cnt` for the target, before it is bounded.
unfoldable pub target_cnt : ℕ → ℕ → ℕ
target_cnt target cwnd = if ltb cwnd target then cwnd / (target - cwnd) else 100 * cwnd % 2 ^ 32

-- The cubic function: the lines from `ca->last_cwnd = cwnd` to the label `tcp_friendliness`.
unfoldable pub cubic_function : CubicKernel → ℕ → ℕ → Bictcp → Option Bictcp
cubic_function k cwnd acked ca = do
  ca ←
      start_epoch k (k.jiffies 3) cwnd acked
        (record ca { last_cwnd = cwnd; last_time = k.jiffies 2 })
  let cnt = target_cnt (bic_target (epoch_time k (k.jiffies 4) ca) ca) cwnd
  some (record ca { cnt = if ca.last_max_cwnd == 0 && ltb 20 cnt then 20 else cnt })

-- What follows the label `tcp_friendliness`.
unfoldable pub finish_update : CubicKernel → ℕ → ℕ → Bictcp → Option Bictcp
finish_update k fuel cwnd ca = do
  ca ← if k.tcp_friendliness then update_friendly fuel cwnd ca else some ca
  some (record ca { cnt = max_of ca.cnt 2 })

-- The window is as it was at the last update, which is at most HZ / 32 ago.
abbrev pub is_recent : CubicKernel → ℕ → Bictcp → Bool
is_recent k cwnd ca =
    let ago = sub_u32 (k.jiffies 0) ca.last_time in
    (ca.last_cwnd == cwnd) && (if is_s32_neg ago then true else leb ago (k.hz / 32))

unfoldable pub bictcp_update : CubicKernel → ℕ → ℕ → ℕ → Bictcp → Option Bictcp
bictcp_update k fuel cwnd acked ca =
    let ca = record ca { ack_cnt = (ca.ack_cnt + acked) % 2 ^ 32 } in
    if is_recent k cwnd ca
    then some ca
    else if not (ca.epoch_start == 0) && (k.jiffies 1 == ca.last_time)
    then finish_update k fuel cwnd ca
    else do ca ← cubic_function k cwnd acked ca; finish_update k fuel cwnd ca
