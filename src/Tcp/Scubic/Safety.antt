-- ===== src/Tcp/Scubic/Safety.antt =====
-- The callbacks of src/tcp_scubic.c that change the window: none of them faults.
use spine_kernel.Prelude.{
  ℕ, ◌+◌, ◌^◌, ◌≤◌, ◌<◌, ◌≡◌, refl, ◌∙◌, inl, inr, ◌&&◌, true, false, Option, some, ◌==◌, length,
  Bool-cases, arith,
}
use native.Mathlib.Nat.{le_trans}
use spine_kernel.Datapath.State.{SpineDatapath, Kernel, Pointers, spine_cubic}
use spine_kernel.Datapath.Registry.Slots.{IsValid}
use spine_kernel.Datapath.Invoke.Safety.{Obeys}
use spine_kernel.Tcp.{TcpSock, TcpKernel, flow_of, set_up}
use spine_kernel.Tcp.Consult.{
  IsAttached, IsSocketOf, through_impl_lem, consult_lem, IsKept, IsStarted, start-IsStarted,
}
use spine_kernel.Tcp.Scubic.{Bictcp, CubicKernel, bictcp_update_params}
use spine_kernel.Tcp.Scubic.Params.{IsScaled, retuned, scubic_set_params-IsScaled}
use spine_kernel.Tcp.Scubic.Root.Bounds.{IsFls}
use spine_kernel.Tcp.Scubic.Update.Growth.{IsPaced, bictcp_update_ends}
use spine_kernel.Tcp.Scubic.Callbacks.{
  after, bictcp_reset, bictcp_hystart_reset, prepare, bictcp_init, scubic_name, scubic_module,
  next_round, grow, avoid, bictcp_cong_avoid,
}

-- What the module relies on in the kernel's TCP: `fls64` counts bits, `tcp_cong_avoid_ai` returns when
-- its divisor is not 0, slow start is a window below the threshold, and there, with a window up to its
-- cap and no sum that wraps, `tcp_slow_start` neither shrinks the window, nor adds more than the
-- acknowledged packets to it, nor leaves more than them over.
pub record IsTcp (t : TcpKernel) (k : CubicKernel) : Type 0 where
  pub fls : IsFls k.fls64
  pub ai_returns :
      (tp : TcpSock) (w acked : ℕ)
      → 0 < w
      → (tp' : TcpSock) × (k.tcp_cong_avoid_ai tp w acked ≡ some tp')
  pub in_slow_start : (tp : TcpSock) → t.tcp_in_slow_start tp ≡ true → tp.snd_cwnd < tp.snd_ssthresh
  pub slow_start_grows :
      (tp : TcpSock) (acked : ℕ)
      → tp.snd_cwnd < tp.snd_ssthresh
      → tp.snd_cwnd ≤ tp.snd_cwnd_clamp
      → tp.snd_cwnd + acked < 2 ^ 32
      → (tp.snd_cwnd ≤ (k.tcp_slow_start tp acked).1.snd_cwnd)
        × ((k.tcp_slow_start tp acked).1.snd_cwnd ≤ tp.snd_cwnd + acked)
        × ((k.tcp_slow_start tp acked).0 ≤ acked)

-- The state between two callbacks.
abbrev pub IsReady : Bictcp → Type 0
IsReady ca = IsScaled ca × IsPaced ca

-- `set_params` leaves the state ready and on its connection; `fetch_measurements` must not be called.
scubic_module-Obeys :
    (sk : ℕ) (conn : Option ℕ) (ptrs : Pointers)
    → ptrs.fetch_measurements ≡ false
    → Obeys (scubic_module sk) (λ ca. IsReady ca × (ca.conn ≡ conn)) ptrs sk
scubic_module-Obeys sk conn ptrs unset c of_sk ca ((scaled, paced), same) = (
  λ vs.
      let (s, b, d, f, set, scaled') = scubic_set_params-IsScaled c vs (length vs) ca scaled in
      (retuned ca s b d f, through_impl_lem sk c _ of_sk ∙ set, ((scaled', paced), same)),
  λ r set. absurd (cc),
)

-- The growth of the window, from a state that is ready.
module _ (t : TcpKernel) (k : CubicKernel) (tcp : IsTcp t k) (fuel : ℕ)
    (enough : 2 ^ 32 ≤ fuel) where
  grow-IsReady :
      (acked : ℕ) (tp : TcpSock) (ca : Bictcp)
      → IsReady ca
      → 4 ≤ tp.snd_cwnd
      → tp.snd_cwnd < 2 ^ 19
      → acked < 2 ^ 32
      → (tp' : TcpSock) × (ca' : Bictcp) × (grow k fuel acked tp ca ≡ some (tp', ca'))
        × IsReady ca'
        × (ca'.conn ≡ ca.conn)
  unfolding grow
  grow-IsReady acked tp ca (scaled, paced) few many small =
      let (ca', run, (scaled', same, _), two) =
        bictcp_update_ends k fuel tp.snd_cwnd acked ca tcp.fls scaled paced few many small enough in
      let (tp', grown) = tcp.ai_returns tp ca'.cnt acked (omega (arith, two)) in
      (tp', ca', rw (run, grown) refl, (scaled', inl two), same)

  next_round-IsReady :
      (ack : ℕ) (tp : TcpSock) (ca : Bictcp)
      → IsReady ca
      → IsReady (next_round k ack tp ca) × ((next_round k ack tp ca).conn ≡ ca.conn)
  unfolding next_round bictcp_hystart_reset
  next_round-IsReady ack tp ca ready = elim (Bool-cases (k.hystart && after ack ca.end_seq)) [
    | inl over ↦ rw over (ready, refl)
    | inr on ↦ rw on (ready, refl)
  ]

  avoid-IsReady :
      (ack acked : ℕ) (tp : TcpSock) (ca : Bictcp)
      → IsReady ca
      → 4 ≤ tp.snd_cwnd
      → tp.snd_cwnd ≤ tp.snd_cwnd_clamp
      → tp.snd_cwnd + acked < 2 ^ 19
      → (tp' : TcpSock) × (ca' : Bictcp) × (avoid t k fuel ack acked tp ca ≡ some (tp', ca'))
        × IsReady ca'
        × (ca'.conn ≡ ca.conn)
  unfolding avoid
  avoid-IsReady ack acked tp ca ready few capped many =
      elim (Bool-cases (k.tcp_is_cwnd_limited tp)) [
        | inr free ↦ (tp, ca, rw free refl, ready, refl)
        | inl limited ↦ elim (Bool-cases (t.tcp_in_slow_start tp)) [
          | inr fast ↦
              let (tp', ca', run, ready', same) =
                grow-IsReady acked tp ca ready few (omega arith) (omega arith) in
              (tp', ca', rw (limited, fast) run, ready', same)
          | inl slow ↦
              let ca₁ = next_round k ack tp ca in
              let (ready₁, same₁) = next_round-IsReady ack tp ca ready in
              let (acked₁, tp₁) = k.tcp_slow_start tp acked in
              let (up, most, rest) =
                tcp.slow_start_grows tp acked (tcp.in_slow_start tp slow) capped (omega arith) in
              elim (Bool-cases (acked₁ == 0)) [
                | inl none_left ↦ (tp₁, ca₁, rw (limited, slow, none_left) refl, ready₁, same₁)
                | inr left ↦
                    let (tp', ca', run, ready', same) =
                      grow-IsReady acked₁ tp₁ ca₁ ready₁ (le_trans few up) (omega (arith, most))
                        (omega (arith, rest)) in
                    (tp', ca', rw (limited, slow, left) run, ready', same ∙ same₁)
              ]
        ]
      ]

-- With `fetch_measurements` not set, on a valid table, with its connection open and of the socket where it
-- has one, state that is ready and a window of 4 packets to 2 ^ 19, within its cap, that the acknowledgements do not lift past that, `bictcp_cong_avoid` ends without a
-- fault, whatever the agent has staged: `tcp_cong_avoid_ai` never gets the divisor 0. The table stays
-- valid, the connection open, every other slot as it was, and the state ready.
pub bictcp_cong_avoid-IsReady :
    (t : TcpKernel) (k : CubicKernel) (kernel : Kernel) (fuel : ℕ) (dp : SpineDatapath)
    (sk ack acked : ℕ) (tp : TcpSock) (ca : Bictcp)
    → IsTcp t k
    → 2 ^ 32 ≤ fuel
    → dp.pointers.fetch_measurements ≡ false
    → IsValid dp
    → IsAttached dp ca.conn
    → IsSocketOf dp sk spine_cubic ca.conn
    → IsReady ca
    → 4 ≤ tp.snd_cwnd
    → tp.snd_cwnd ≤ tp.snd_cwnd_clamp
    → tp.snd_cwnd + acked < 2 ^ 19
    → (dp' : SpineDatapath) × (tp' : TcpSock) × (ca' : Bictcp) × (bictcp_cong_avoid t k kernel fuel
          dp sk ack acked tp ca
        ≡ some (dp', tp', ca'))
      × IsKept dp ca.conn dp'
      × (ca'.conn ≡ ca.conn)
      × IsReady ca'
unfolding bictcp_cong_avoid
bictcp_cong_avoid-IsReady t k kernel fuel dp sk ack acked tp ca tcp enough unset v at_conn own ready
      few capped many =
    let (ret, dp', s, run, kept, (ready₁, same₁)) =
      consult_lem (scubic_module sk) (λ s. IsReady s × (s.conn ≡ ca.conn)) kernel dp sk spine_cubic
        ca.conn ca (scubic_module-Obeys sk ca.conn dp.pointers unset) (ready, refl) v at_conn own in
    let (tp', ca', went, ready', same) =
      avoid-IsReady t k tcp fuel enough ack acked tp s ready₁ few capped many in
    (dp', tp', ca', rw (run, went) refl, kept, same ∙ same₁, ready')

prepared-IsScaled :
    (k : CubicKernel) (tp : TcpSock) (ca : Bictcp)
    → let p = (prepare k tp ca).1 in
      (b : ℕ) × (d : ℕ) × (f : ℕ) × (bictcp_update_params p ≡ some (retuned p 41 b d f))
      × IsReady (retuned p 41 b d f)
unfolding prepare bictcp_update_params bictcp_reset bictcp_hystart_reset
prepared-IsScaled k tp ca = elim (Bool-cases k.hystart) [
  | inl on ↦ rw on (
    717,
    15,
    2681735677,
    refl,
    (((omega arith, omega arith), (omega arith, omega arith), refl, refl), inr refl),
  )
  | inr off ↦ rw off (
    717,
    15,
    2681735677,
    refl,
    (((omega arith, omega arith), (omega arith, omega arith), refl, refl), inr refl),
  )
]

-- `bictcp_init`, on a valid table, runs without a fault, whatever
-- the kernel answers: it leaves a valid table, state that is ready, and an open connection or none,
-- which is in no slot that was taken; those are as they were.
pub bictcp_init-IsReady :
    (t : TcpKernel) (k : CubicKernel) (kernel : Kernel) (dp : SpineDatapath) (sk : ℕ) (tp : TcpSock)
    (ca : Bictcp)
    → IsValid dp
    → (dp' : SpineDatapath) × (tp' : TcpSock) × (ca' : Bictcp) × (bictcp_init t k kernel dp sk tp ca
        ≡ some (dp', tp', ca'))
      × IsStarted dp sk spine_cubic ca'.conn dp'
      × IsReady ca'
unfolding bictcp_init
bictcp_init-IsReady t k kernel dp sk tp ca v =
    let (b, d, f, set, ready) = prepared-IsScaled k tp ca in
    let (conn, dp', run, started) =
      start-IsStarted kernel dp sk (flow_of spine_cubic scubic_name (prepare k tp ca).0) v refl in
    let p = prepare k tp ca in
    (
      dp',
      set_up t p.0,
      record (retuned p.1 41 b d f) { conn = conn },
      rw (set, run) refl,
      started,
      ready,
    )
