-- ===== src/Tcp/Scubic/Params.antt =====
-- The parameters of src/tcp_scubic.c, what is computed from them, and the reduction of the window.
use spine_kernel.Prelude.{
  ℕ, ◌+◌, ◌-◌, ◌*◌, ◌/◌, ◌%◌, ◌^◌, ◌≤◌, ◌<◌, ◌≡◌, refl, inl, inr, Bool, false, not, ◌||◌, ◌&&◌,
  some, List, leb, ltb, max_of, if◌then◌else◌, ◌==◌, get_or, Bool-cases, arith,
}
use native.Mathlib.Nat.{mul-le-mul_left}
use spine_kernel.Datapath.State.{SpineConnection}
use spine_kernel.Tcp.Scubic.{
  Bictcp, is_cubic, is_invalid, bictcp_update_params, scubic_set_params, bictcp_recalc_ssthresh,
}

-- Both parameters are in 1 … 1023, and the derived fields are those of the parameters.
abbrev pub IsScaled : Bictcp → Type 0
IsScaled ca =
    ((1 ≤ ca.beta) × (ca.beta ≤ 1023))
    × ((1 ≤ ca.bic_scale) × (ca.bic_scale ≤ 1023))
    × (ca.beta_scale ≡ 8 * (1024 + ca.beta) / 3 / (1024 - ca.beta))
    × (ca.cube_factor ≡ 2 ^ 40 / (ca.bic_scale * 10))

-- The state with other parameters.
abbrev pub retuned : Bictcp → ℕ → ℕ → ℕ → ℕ → Bictcp
retuned ca scale beta beta_scale cube_factor = record ca {
  bic_scale = scale;
  beta = beta;
  beta_scale = beta_scale;
  cube_factor = cube_factor;
}

-- Whatever the agent sends, `scubic_set_params` divides by no zero, leaves both parameters in 1 … 1023
-- with the derived fields computed from them, and changes nothing else.
pub scubic_set_params-IsScaled :
    (conn : SpineConnection) (params : List ℕ) (n : ℕ) (ca : Bictcp)
    → IsScaled ca
    → (s : ℕ) × (b : ℕ) × (d : ℕ) × (f : ℕ) × (scubic_set_params conn params n ca
        ≡ some (retuned ca s b d f))
      × IsScaled (retuned ca s b d f)
unfolding scubic_set_params bictcp_update_params
scubic_set_params-IsScaled conn params n ca ok =
    elim (Bool-cases (not (is_cubic conn.flow_info.alg) || not (n == 2))) [
      | inl other ↦ (ca.bic_scale, ca.beta, ca.beta_scale, ca.cube_factor, rw other refl, ok)
      | inr ours ↦
          let scale = get_or params 0 0 in
          let beta = get_or params 1 0 in
          elim (Bool-cases (is_invalid scale || is_invalid beta)) [
            | inl bad ↦
                (ca.bic_scale, ca.beta, ca.beta_scale, ca.cube_factor, rw (ours, bad) refl, ok)
            | inr good ↦
                let safe : (leb 1024 beta || scale == 0) ≡ false = ground (arith, good) in
                (
                  scale,
                  beta,
                  8 * (1024 + beta) / 3 / (1024 - beta),
                  2 ^ 40 / (scale * 10),
                  rw (ours, good, safe) refl,
                  (
                    (ground (arith, good), ground (arith, good)),
                    (ground (arith, good), ground (arith, good)),
                    refl,
                    refl,
                  ),
                )
          ]
    ]

-- On loss, for parameters in range and a window below 2 ^ 21 packets, the threshold is beta / 1024 of
-- the window, without a wrap, or 2 where that is less; it is below the window where that is more than 2.
-- The remembered maximum is the window, or, with fast convergence and below the last maximum,
-- (1024 + beta) / 2048 of it, and so at most the window; the epoch ends.
pub bictcp_recalc_ssthresh_lem :
    (fast : Bool) (cwnd : ℕ) (ca : Bictcp)
    → IsScaled ca
    → cwnd < 2 ^ 21
    → let (ssthresh, ca') = bictcp_recalc_ssthresh fast cwnd ca in
      (ssthresh ≡ max_of (cwnd * ca.beta / 1024) 2)
      × (2 < cwnd → ssthresh < cwnd)
      × (ca'.last_max_cwnd
          ≡ (if ltb cwnd ca.last_max_cwnd && fast then cwnd * (1024 + ca.beta) / 2048 else cwnd))
      × (ca'.last_max_cwnd ≤ cwnd)
      × (ca'.epoch_start ≡ 0)
unfolding bictcp_recalc_ssthresh
bictcp_recalc_ssthresh_lem fast cwnd ca ok small =
    let below : cwnd * ca.beta ≤ cwnd * 1023 = mul-le-mul_left cwnd ok.0.1 in
    let exact : cwnd * ca.beta % 2 ^ 32 ≡ cwnd * ca.beta = omega (arith, below) in
    let sum : cwnd * (1024 + ca.beta) ≡ cwnd * 1024 + cwnd * ca.beta = omega arith in
    let whole : cwnd * (1024 + ca.beta) % 2 ^ 32 ≡ cwnd * (1024 + ca.beta) =
      omega (arith, below, sum) in
    (
      rw exact refl,
      λ more. ground (arith, below),
      rw whole refl,
      ground (arith, below, sum, whole),
      refl,
    )
