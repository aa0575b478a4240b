-- ===== src/Tcp/Scubic/Friendliness.antt =====
-- The loop of the TCP friendliness in `bictcp_update` of src/tcp_scubic.c: when it ends, and when not.
use spine_kernel.Prelude.{
  ℕ, zero, suc, ◌+◌, ◌-◌, ◌*◌, ◌/◌, ◌%◌, ◌^◌, ◌≤◌, ◌<◌, ◌≡◌, refl, inl, inr, true, false, none,
  some, [], ◌∷◌, ltb, ◌==◌, Bool-cases, arith,
}
use native.Mathlib.Nat.{div-eq-sub-div, div-eq_of_lt}
use spine_kernel.Datapath.State.{SpineConnection, spine_cubic}
use spine_kernel.Tcp.Scubic.{
  Bictcp, is_invalid, bictcp_update_params, scubic_set_params, friendly_loop, friendly_delta,
  update_friendly,
}

pub loop_ends :
    (fuel delta ack_cnt tcp_cwnd : ℕ)
    → 0 < delta
    → ack_cnt < fuel
    → (k : ℕ) × (a : ℕ) × (c : ℕ) × (friendly_loop fuel delta ack_cnt tcp_cwnd ≡ some (a, c))
      × (a + k * delta ≡ ack_cnt)
      × (a ≤ delta)
unfolding friendly_loop
loop_ends zero delta a c positive h = absurd (omega arith)
loop_ends (suc fuel) delta a c positive h = elim (Bool-cases (ltb delta a)) [
  | inl more ↦
      let more_acks : delta < a = ground (arith, more) in
      let (k, a', c', run, sum, small) =
        loop_ends fuel delta (a - delta) ((c + 1) % 2 ^ 32) positive (omega arith) in
      (suc k, a', c', rw more run, omega (arith, sum), small)
  | inr done ↦ (0, a, c, rw done refl, omega arith, ground (arith, done))
]

-- The loop divides: with enough fuel, it takes `delta` off the acknowledgements (`ack_cnt` - 1) / `delta`
-- times, and adds as many packets, in u32, to `tcp_cwnd`.
pub friendly_loop-div :
    (fuel delta ack_cnt tcp_cwnd : ℕ)
    → 0 < delta
    → ack_cnt < fuel
    → tcp_cwnd < 2 ^ 32
    → friendly_loop fuel delta ack_cnt tcp_cwnd
      ≡ some (ack_cnt - (ack_cnt - 1) / delta * delta, (tcp_cwnd + (ack_cnt - 1) / delta) % 2 ^ 32)
unfolding friendly_loop
friendly_loop-div zero d a c positive enough small = absurd (omega arith)
friendly_loop-div (suc fuel) d a c positive enough small = elim (Bool-cases (ltb d a)) [
  | inl more ↦
      let enough_acks : d < a = ground (arith, more) in
      let rest =
        friendly_loop-div fuel d (a - d) ((c + 1) % 2 ^ 32) positive (omega arith) (omega arith) in
      let round : (a - 1) / d ≡ (a - 1 - d) / d + 1 = div-eq-sub-div positive (omega arith) in
      let order : a - 1 - d ≡ a - d - 1 = omega arith in
      let one_more : ((a - d - 1) / d + 1) * d ≡ (a - d - 1) / d * d + d = grind arith in
      let acks : a - ((a - d - 1) / d + 1) * d ≡ a - d - (a - d - 1) / d * d =
        omega (arith, one_more) in
      let packets : (c + ((a - d - 1) / d + 1)) % 2 ^ 32
          ≡ ((c + 1) % 2 ^ 32 + (a - d - 1) / d) % 2 ^ 32 =
        omega arith in
      rw (more, round, order, acks, packets) rest
  | inr few ↦
      let few_acks : a ≤ d = ground (arith, few) in
      let quotient : (a - 1) / d ≡ 0 = div-eq_of_lt (omega arith) in
      let acks : a - 0 * d ≡ a = omega arith in
      let packets : (c + 0) % 2 ^ 32 ≡ c = omega arith in rw (few, quotient, acks, packets) refl
]

loop_runs_on : (fuel a c : ℕ) → 0 < a → friendly_loop fuel 0 a c ≡ none
unfolding friendly_loop
loop_runs_on zero a c h = refl
loop_runs_on (suc fuel) a c h =
    let more : ltb 0 a ≡ true = ground arith in
    let same : a - 0 ≡ a = omega arith in rw (more, same) (loop_runs_on fuel a ((c + 1) % 2 ^ 32) h)

-- The agent can make the kernel spin: it may set beta to 1, and then, with a window of at most 3
-- packets and an acknowledgement counted, the loop of `bictcp_update` ends with no fuel at all.
pub scubic_set_params-update_friendly :
    (conn : SpineConnection) (bic_scale cwnd : ℕ) (ca : Bictcp)
    → conn.flow_info.alg ≡ spine_cubic
    → 1 ≤ bic_scale
    → bic_scale ≤ 1023
    → cwnd ≤ 3
    → 0 < ca.ack_cnt
    → (ca' : Bictcp) × (scubic_set_params conn (bic_scale ∷ 1 ∷ []) 2 ca ≡ some ca')
      × ((fuel : ℕ) → update_friendly fuel cwnd ca' ≡ none)
unfolding scubic_set_params bictcp_update_params update_friendly friendly_delta
scubic_set_params-update_friendly conn scale cwnd ca ours low high small acks =
    let good : is_invalid scale ≡ false = ground arith in
    let positive : (scale == 0) ≡ false = ground arith in
    let none_left : cwnd * 2 % 2 ^ 32 / 8 ≡ 0 = omega arith in
    (
      record ca {
        bic_scale = scale;
        beta = 1;
        beta_scale = 2;
        cube_factor = 2 ^ 40 / (scale * 10);
      },
      rw (ours, good, positive) refl,
      λ fuel. rw (none_left, loop_runs_on fuel ca.ack_cnt ca.tcp_cwnd acks) refl,
    )
