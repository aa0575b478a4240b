-- ===== src/Tcp/Vanilla/Window.antt =====
-- `vanilla_set_cwnd` of src/tcp_vanilla.c.
use spine_kernel.Prelude.{
  ℕ, ◌+◌, ◌*◌, ◌/◌, ◌^◌, ◌≤◌, ◌<◌, ◌≡◌, ℤ, pos, negsuc, pos_part, neg_part, ◌-ℤ◌, min_of, arith,
}
use spine_kernel.Tcp.{TcpSock, TcpKernel}
use spine_kernel.Tcp.Vanilla.{
  Vanilla, apply_cnt, restored_cwnd, vanilla_set_cwnd, vanilla_update_pacing_rate,
}

-- The remainder: |n| < 1024.
abbrev pub IsRemainder : ℤ → Type 0
IsRemainder n = (pos_part n ≤ 1023) × (neg_part n ≤ 1023)

apply_cnt-IsRemainder : (n : ℤ) (w : ℕ) → IsRemainder (apply_cnt n w).0
unfolding apply_cnt ◌-ℤ◌
apply_cnt-IsRemainder (pos n) w = (ground arith, ground arith)
apply_cnt-IsRemainder (negsuc n) w = (ground arith, ground arith)

-- Where the window does not wrap, 1024 times its change and what is left add up to `n`.
apply_cnt_exact :
    (n : ℤ) (w : ℕ)
    → neg_part n / 1024 ≤ w
    → w + pos_part n / 1024 < 2 ^ 32
    → let (n', w') = apply_cnt n w in
      (w' * 1024 + pos_part n' + neg_part n ≡ w * 1024 + pos_part n + neg_part n')
      × (w' ≤ w + pos_part n / 1024)
      × (w ≤ w' + neg_part n / 1024)
unfolding apply_cnt ◌-ℤ◌
apply_cnt_exact (pos n) w h i = (ground arith, ground arith, ground arith)
apply_cnt_exact (negsuc n) w h i = (ground arith, ground arith, ground arith)

-- Whatever `cnt` is, `vanilla_set_cwnd` leaves less than one packet of it, a window of at least 10
-- packets, or the cap where that is less, and at most the cap, and a pacing rate of at most the
-- socket's maximum.
pub vanilla_set_cwnd_bounds :
    (k : TcpKernel) (tp : TcpSock) (ca : Vanilla)
    → let (tp', ca') = vanilla_set_cwnd k tp ca in
      IsRemainder ca'.cnt
      × (min_of 10 tp.snd_cwnd_clamp ≤ tp'.snd_cwnd)
      × (tp'.snd_cwnd ≤ tp.snd_cwnd_clamp)
      × (tp'.sk_pacing_rate ≤ tp.sk_max_pacing_rate)
unfolding vanilla_set_cwnd vanilla_update_pacing_rate
vanilla_set_cwnd_bounds k tp ca =
    (apply_cnt-IsRemainder ca.cnt (restored_cwnd tp ca), ground arith, ground arith, ground arith)

-- Nothing of `cnt` is lost: where the bounds on the window do not bite, 1024 times the change of the
-- window, from the one it starts from, and what is left of `cnt` add up to the old `cnt`.
pub vanilla_set_cwnd_exact :
    (k : TcpKernel) (tp : TcpSock) (ca : Vanilla)
    → 10 + neg_part ca.cnt / 1024 ≤ restored_cwnd tp ca
    → restored_cwnd tp ca + pos_part ca.cnt / 1024 ≤ tp.snd_cwnd_clamp
    → tp.snd_cwnd_clamp < 2 ^ 32
    → let (tp', ca') = vanilla_set_cwnd k tp ca in
      tp'.snd_cwnd * 1024 + pos_part ca'.cnt + neg_part ca.cnt
      ≡ restored_cwnd tp ca * 1024 + pos_part ca.cnt + neg_part ca'.cnt
unfolding vanilla_set_cwnd vanilla_update_pacing_rate
vanilla_set_cwnd_exact k tp ca above below small =
    let (sum, high, low) =
      apply_cnt_exact ca.cnt (restored_cwnd tp ca) (omega arith) (omega arith) in
    ground (arith, sum, high, low)
