-- ===== src/Tcp/Vanilla/Loss.antt =====
-- Loss in src/tcp_vanilla.c: `vanilla_ssthresh`, `vanilla_set_state`, and the window restored after it.
use spine_kernel.Prelude.{
  ℕ, ◌*◌, ◌/◌, ◌%◌, ◌^◌, ◌≤◌, ◌<◌, ◌≡◌, refl, inl, inr, true, ◌==◌, not, ◌&&◌, ◌||◌, Option, none,
  some, ℤ, is_neg, min_of, max_of, Bool-cases, arith, >>=-eq-some, length,
}
use native.Mathlib.Nat.{mul-le-mul_right}
use spine_kernel.Datapath.State.{SpineDatapath, Kernel}
use spine_kernel.Datapath.Invoke.Effect.{Effect, spine_invoke-Effect}
use spine_kernel.Tcp.{TcpSock, RateSample, TcpKernel, consult, through_impl}
use spine_kernel.Tcp.Vanilla.{
  Vanilla, vanilla_module, vanilla_ssthresh, lat_inflation, vanilla_set_params, spine_slow_start,
  vanilla_set_cwnd, vanilla_cong_control,
}
use spine_kernel.Tcp.Vanilla.Params.{IsParam, vanilla_set_params_outcome}

-- On loss, with delta in its range and a window below 2 ^ 22 packets, the threshold is the new window:
-- delta / 1024 of the old one, at least 2 and at most the cap, and never more than the old window
-- where that is 2 packets or more. The old window is remembered, and slow start is over.
pub vanilla_ssthresh_lem :
    (tp : TcpSock) (ca : Vanilla)
    → IsParam ca.delta
    → tp.snd_cwnd < 2 ^ 22
    → let (ssthresh, tp', ca') = vanilla_ssthresh tp ca in
      (ssthresh ≡ tp'.snd_cwnd)
      × (tp'.snd_cwnd ≡ min_of (max_of (ca.delta * tp.snd_cwnd / 1024) 2) tp.snd_cwnd_clamp)
      × (2 ≤ tp.snd_cwnd → tp'.snd_cwnd ≤ tp.snd_cwnd)
      × (ca'.prior_cwnd ≡ tp.snd_cwnd)
      × (ca'.slow_start_passed ≡ true)
unfolding vanilla_ssthresh
vanilla_ssthresh_lem tp ca (low, high) small =
    let below : ca.delta * tp.snd_cwnd ≤ 1024 * tp.snd_cwnd = mul-le-mul_right tp.snd_cwnd high in
    let exact : ca.delta * tp.snd_cwnd % 2 ^ 32 ≡ ca.delta * tp.snd_cwnd = omega arith in
    (refl, rw exact refl, λ two. rw exact (ground arith), refl, refl)

-- `set_params` leaves the memory of a loss alone.
Effect-remembers :
    (sk : ℕ) (s s' : Vanilla)
    → Effect (vanilla_module sk) s s'
    → (s'.prev_ca_state ≡ s.prev_ca_state) × (s'.prior_cwnd ≡ s.prior_cwnd)
unfolding through_impl
Effect-remembers sk s s' (inl same) = rw same (refl, refl)
Effect-remembers sk s s' (inr (conn, vs, set)) = elim (Bool-cases (conn.impl == sk)) [
  | inr other ↦ absurd (ground (arith, other, set))
  | inl own ↦
      let is : vanilla_set_params conn vs (length vs) s ≡ s' = ground (arith, own, set) in
      elim (vanilla_set_params_outcome conn vs (length vs) s) [
        | inl same ↦ rw (← is, same) (refl, refl)
        | inr (good, new) ↦ rw (← is, new) (refl, refl)
      ]
]

consult_remembers :
    (kernel : Kernel) (dp : SpineDatapath) (sk : ℕ) (q : Option ℕ) (ca : Vanilla) {ret : ℤ}
    {dp' : SpineDatapath} {s : Vanilla}
    → consult (vanilla_module sk) kernel dp q ca ≡ some (ret, dp', s)
    → (s.prev_ca_state ≡ ca.prev_ca_state) × (s.prior_cwnd ≡ ca.prior_cwnd)
unfolding consult
consult_remembers kernel dp sk none ca {ret} {dp'} {s} h =
    let same : s ≡ ca = cc in rw same (refl, refl)
consult_remembers kernel dp sk (some p) ca {ret} {dp'} {s} h =
    Effect-remembers sk ca s (spine_invoke-Effect (vanilla_module sk) kernel dp (some p) ca h)

-- A loss is never forgotten: when `vanilla_cong_control` returns, whatever state of recovery the
-- socket is in, `prev_ca_state` and `prior_cwnd` are what they were.
pub vanilla_cong_control_remembers :
    (k : TcpKernel) (kernel : Kernel) (dp : SpineDatapath) (sk : ℕ) (rs : RateSample) (tp : TcpSock)
    (ca : Vanilla) {dp' : SpineDatapath} {tp' : TcpSock} {ca' : Vanilla}
    → vanilla_cong_control k kernel dp sk rs tp ca ≡ some (dp', tp', ca')
    → (ca'.prev_ca_state ≡ ca.prev_ca_state) × (ca'.prior_cwnd ≡ ca.prior_cwnd)
unfolding vanilla_cong_control spine_slow_start lat_inflation vanilla_set_cwnd
vanilla_cong_control_remembers k kernel dp sk rs tp ca {dp'} {tp'} {ca'} h =
    elim (Bool-cases (k.tcp_in_slow_start tp && not ca.slow_start_passed)) [
      | inl slow ↦ kept ca (refl, refl) (rw slow at h)
      | inr fast ↦ elim (Bool-cases (is_neg rs.delivered || is_neg rs.interval_us)) [
        | inl bad ↦ kept ca (refl, refl) (rw (fast, bad) at h)
        | inr fine ↦
            let ((ret, dp₁, s), run, h₁) =
              >>=-eq-some (consult (vanilla_module sk) kernel dp ca.conn ca) _
                (rw (fast, fine) at h) in
            let (inflation, _, h₂) = >>=-eq-some (lat_inflation tp s) _ h₁ in
            kept s (consult_remembers kernel dp sk ca.conn ca run) h₂
      ]
    ]
  where
    kept :
        (s : Vanilla) {d : SpineDatapath} {t : TcpSock} {n : ℤ}
        → (s.prev_ca_state ≡ ca.prev_ca_state) × (s.prior_cwnd ≡ ca.prior_cwnd)
        → ◌≡◌ {A = Option (SpineDatapath × TcpSock × Vanilla)}
            (some (d, t, record s { cnt = n }))
            (some (dp', tp', ca'))
        → (ca'.prev_ca_state ≡ ca.prev_ca_state) × (ca'.prior_cwnd ≡ ca.prior_cwnd)
    kept s {d} {t} {n} before e = let same : record s { cnt = n } ≡ ca' = cc in rw (← same) before
