-- ===== src/Tcp/Vanilla/Safety.antt =====
-- What the callbacks of src/tcp_vanilla.c keep true of the module's state, and that none of them
-- divides by zero or otherwise faults.
use spine_kernel.Prelude.{
  ℕ, ◌+◌, ◌≤◌, ◌<◌, ◌≡◌, refl, inl, inr, true, false, Option, not, ◌&&◌, ◌||◌, some, List, ltb, ℤ,
  pos, negsuc, is_neg, pos_part, to_int, to_u32, ◌*◌, ◌/◌, ◌%◌, ◌^◌, ◌+ℤ◌, ◌==◌, length, Bool-cases,
  arith,
}
use spine_kernel.Datapath.State.{SpineDatapath, SpineConnection, Kernel, Pointers, spine_vanilla}
use spine_kernel.Datapath.Registry.Slots.{IsValid}
use spine_kernel.Datapath.Invoke.Safety.{Obeys}
use spine_kernel.Tcp.{TcpSock, RateSample, TcpKernel, flow_of, set_up}
use spine_kernel.Tcp.Vanilla.{
  Vanilla, vanilla_module, vanilla_set_params, vanilla_reset, vanilla_init, vanilla_name,
  vanilla_pkt_acked, lat_inflation, window_change, spine_slow_start, vanilla_set_cwnd,
  vanilla_cong_control,
}
use spine_kernel.Tcp.Consult.{
  IsAttached, IsSocketOf, through_impl_lem, consult_lem, same-IsKept, IsKept, IsStarted,
  start-IsStarted,
}
use spine_kernel.Tcp.Vanilla.Window.{IsRemainder, vanilla_set_cwnd_bounds}
use spine_kernel.Tcp.Vanilla.Params.{
  InRange, vanilla_set_params_outcome, vanilla_set_params-InRange,
}

-- The state between two callbacks: parameters in range, less than a packet left of `cnt`, and a
-- smallest round-trip time that can be divided by.
abbrev pub IsHealthy : Vanilla → Type 0
IsHealthy ca =
    InRange ca × IsRemainder ca.cnt × ((0 < ca.min_rtt_us) × (ca.min_rtt_us ≤ 0x7fffffff))

vanilla_reset-IsHealthy : (ca : Vanilla) → IsHealthy (vanilla_reset ca)
unfolding vanilla_reset
vanilla_reset-IsHealthy ca = (
  (
    (omega arith, omega arith),
    (omega arith, omega arith),
    (omega arith, omega arith),
    (omega arith, omega arith),
  ),
  (omega arith, omega arith),
  (omega arith, omega arith),
)

-- An acknowledgement's sample never raises the smallest round-trip time, and keeps the state
-- healthy; a sample without a round-trip time changes nothing, any other bounds it by `rtt_us` + 1.
pub vanilla_pkt_acked-IsHealthy :
    (rtt_us : ℤ) (ca : Vanilla)
    → IsHealthy ca
    → IsHealthy (vanilla_pkt_acked rtt_us ca)
      × ((vanilla_pkt_acked rtt_us ca).min_rtt_us ≤ ca.min_rtt_us)
      × (is_neg rtt_us ≡ true → vanilla_pkt_acked rtt_us ca ≡ ca)
      × (is_neg rtt_us ≡ false → (vanilla_pkt_acked rtt_us ca).min_rtt_us ≤ pos_part rtt_us + 1)
unfolding vanilla_pkt_acked
vanilla_pkt_acked-IsHealthy (negsuc n) ca ok = (ok, omega arith, λ _. refl, λ h. absurd (cc))
vanilla_pkt_acked-IsHealthy (pos n) ca ok = elim (Bool-cases (ltb (n + 1) ca.min_rtt_us)) [
  | inl less ↦
      rw less (
        (ok.0, ok.1, (omega arith, ground arith)),
        ground arith,
        λ h. absurd (cc),
        λ h. omega arith,
      )
  | inr more ↦ rw more (ok, omega arith, λ h. refl, λ h. ground arith)
]

vanilla_set_params-IsHealthy :
    (conn : SpineConnection) (vs : List ℕ) (n : ℕ) (ca : Vanilla)
    → IsHealthy ca
    → IsHealthy (vanilla_set_params conn vs n ca)
vanilla_set_params-IsHealthy conn vs n ca ok = elim (vanilla_set_params_outcome conn vs n ca) [
  | inl same ↦ rw same ok
  | inr (good, new) ↦
      rw new ((rw new at (vanilla_set_params-InRange conn vs n ca ok.0)), ok.1, ok.2)
]

-- `set_params` leaves the state healthy and on its connection; `fetch_measurements` must not be called.
vanilla_module-Obeys :
    (sk : ℕ) (conn : Option ℕ) (ptrs : Pointers)
    → ptrs.fetch_measurements ≡ false
    → Obeys (vanilla_module sk) (λ ca. IsHealthy ca × (ca.conn ≡ conn)) ptrs sk
vanilla_module-Obeys sk conn ptrs unset c of_sk ca (ok, same) = (
  λ vs. (
    vanilla_set_params c vs (length vs) ca,
    through_impl_lem sk c _ of_sk,
    (
      vanilla_set_params-IsHealthy c vs (length vs) ca ok,
      elim (vanilla_set_params_outcome c vs (length vs) ca) [
        | inl kept ↦ rw kept same
        | inr (good, new) ↦ rw new same
      ],
    ),
  ),
  λ r set. absurd (cc),
)

moved-IsHealthy :
    (k : TcpKernel) (tp : TcpSock) (ca : Vanilla) (n : ℤ)
    → IsHealthy ca
    → let ca' = (vanilla_set_cwnd k tp (record ca { cnt = n })).1 in
      IsHealthy ca' × (ca'.conn ≡ ca.conn)
unfolding vanilla_set_cwnd
moved-IsHealthy k tp ca n ok =
    ((ok.0, (vanilla_set_cwnd_bounds k tp (record ca { cnt = n })).0, ok.2), refl)

-- With `fetch_measurements` not set, on a valid table, with its connection open and of the socket where it
-- has one, and on healthy state, `vanilla_cong_control` runs without a fault, whatever the kernel answers and whatever the agent has
-- staged: it divides by no zero, and leaves a valid table, the same open connection, every other slot as
-- it was, and healthy state.
pub vanilla_cong_control-IsHealthy :
    (k : TcpKernel) (kernel : Kernel) (dp : SpineDatapath) (sk : ℕ) (rs : RateSample) (tp : TcpSock)
    (ca : Vanilla)
    → dp.pointers.fetch_measurements ≡ false
    → IsValid dp
    → IsAttached dp ca.conn
    → IsSocketOf dp sk spine_vanilla ca.conn
    → IsHealthy ca
    → (dp' : SpineDatapath) × (tp' : TcpSock) × (ca' : Vanilla) × (vanilla_cong_control k kernel dp
          sk rs tp ca
        ≡ some (dp', tp', ca'))
      × IsKept dp ca.conn dp'
      × (ca'.conn ≡ ca.conn)
      × IsHealthy ca'
unfolding vanilla_cong_control spine_slow_start lat_inflation
vanilla_cong_control-IsHealthy k kernel dp sk rs tp ca unset v at_conn own ok =
    elim (Bool-cases (k.tcp_in_slow_start tp && not ca.slow_start_passed)) [
      | inl slow ↦
          let n = to_int (to_u32 ca.cnt + to_u32 rs.acked_sacked * 500) in
          let moved = vanilla_set_cwnd k tp (record ca { cnt = n }) in
          let (good, same) = moved-IsHealthy k tp ca n ok in
          (dp, moved.0, moved.1, rw slow refl, same-IsKept dp ca.conn v at_conn, same, good)
      | inr fast ↦ elim (Bool-cases (is_neg rs.delivered || is_neg rs.interval_us)) [
        | inl bad ↦ (dp, tp, ca, rw (fast, bad) refl, same-IsKept dp ca.conn v at_conn, refl, ok)
        | inr fine ↦
            let (ret, dp', s, run, kept, (good, same)) =
              consult_lem (vanilla_module sk) (λ s. IsHealthy s × (s.conn ≡ ca.conn)) kernel dp sk
                spine_vanilla ca.conn ca (vanilla_module-Obeys sk ca.conn dp.pointers unset)
                (ok, refl) v at_conn own in
            let inflation = tp.srtt_us / 8 * 1024 % 2 ^ 32 / s.min_rtt_us in
            let n = s.cnt +ℤ window_change inflation s in
            let moved = vanilla_set_cwnd k tp (record s { cnt = n }) in
            let (good', same') = moved-IsHealthy k tp s n good in
            let positive : (s.min_rtt_us == 0) ≡ false = ground (arith, good.2) in
            (
              dp',
              moved.0,
              moved.1,
              rw (fast, fine, run, positive) refl,
              kept,
              rw (same', same) refl,
              good',
            )
      ]
    ]

-- `vanilla_init`, on a valid table, runs without a fault, whatever
-- the kernel answers: it leaves a valid table, healthy state, and an open connection or none, which is
-- in no slot that was taken; those are as they were.
pub vanilla_init-IsHealthy :
    (k : TcpKernel) (kernel : Kernel) (dp : SpineDatapath) (sk : ℕ) (tp : TcpSock) (ca : Vanilla)
    → IsValid dp
    → (dp' : SpineDatapath) × (tp' : TcpSock) × (ca' : Vanilla) × (vanilla_init k kernel dp sk tp ca
        ≡ some (dp', tp', ca'))
      × IsStarted dp sk spine_vanilla ca'.conn dp'
      × IsHealthy ca'
unfolding vanilla_init
vanilla_init-IsHealthy k kernel dp sk tp ca v =
    let (conn, dp', run, started) =
      start-IsStarted kernel dp sk (flow_of spine_vanilla vanilla_name tp) v refl in
    (
      dp',
      set_up k tp,
      record (vanilla_reset ca) { conn = conn },
      rw run refl,
      started,
      vanilla_reset-IsHealthy ca,
    )
