-- ===== src/Tcp/Neo/Safety.antt =====
-- The callbacks of src/tcp_neo.c run without a fault, and keep the ring and the connection.
use spine_kernel.Prelude.{
  ℕ, ◌<◌, ◌≡◌, refl, ◌∙◌, inl, inr, true, ◌&&◌, ◌||◌, not, Option, some, List, ◌==◌, is_neg, ltb,
  length, Bool-cases, get_or, arith, replicate,
}
use spine_kernel.Datapath.State.{SpineDatapath, SpineConnection, Kernel, Pointers, spine_neo}
use spine_kernel.Datapath.Registry.Slots.{IsValid}
use spine_kernel.Datapath.Invoke.Safety.{Obeys}
use spine_kernel.Tcp.{TcpSock, RateSample, TcpKernel, is_recovering, flow_of, set_up}
use spine_kernel.Tcp.Consult.{
  IsAttached, IsSocketOf, through_impl_lem, consult_lem, IsKept-of, same-IsKept, IsKept, IsStarted,
  start-IsStarted,
}
use spine_kernel.Tcp.Neo.{NeoData, get_previous_index}
use spine_kernel.Tcp.Neo.Callbacks.{
  is_neo, neo_set_params, measured, neo_fetch_measurements, neo_module, neo_init, neo_name,
  zero_interval, neo_start, restore_cwnd, rebased, neo_cong_control, action_rate,
}
use spine_kernel.Tcp.Neo.Ring.{
  IsRing, get_next_index_lem, interval_at_exists, neo_process-IsRing, start_interval-IsRing,
}

-- On an allocated ring, `neo_fetch_measurements` always has its ten values.
pub neo_fetch_measurements-IsRing :
    (neo : NeoData)
    → IsRing neo
    → (fields : List ℕ) × (neo_fetch_measurements neo ≡ some fields) × (length fields ≡ 10)
unfolding neo_fetch_measurements
neo_fetch_measurements-IsRing neo (held, s, r) =
    elim (Bool-cases (neo.first_circle && ltb neo.receive_index 2)) [
      | inl early ↦ (replicate 10 0, rw early refl, refl)
      | inr later ↦
          let last = get_previous_index neo.receive_index in
          let inside = (get_next_index_lem neo.receive_index r).1 in
          let (x, found) = interval_at_exists neo last held inside in
          let (y, found') =
            interval_at_exists neo (get_previous_index last) held
              (get_next_index_lem last inside).1 in
          (measured x y, rw (later, found, found') refl, refl)
    ]

-- `set_params` changes the rate to come, and nothing else.
neo_set_params_lem :
    (conn : SpineConnection) (vs : List ℕ) (n : ℕ) (ca : NeoData)
    → (r : ℕ) × (neo_set_params conn vs n ca ≡ record ca { ready_rate = r })
unfolding neo_set_params
neo_set_params_lem conn vs n ca =
    elim (Bool-cases (not (is_neo conn.flow_info.alg) || not (n == 1))) [
      | inl other ↦ (ca.ready_rate, rw other refl)
      | inr ours ↦ (action_rate (get_or vs 0 0) ca.rate, rw ours refl)
    ]

restored : (tp : TcpSock) (ca : NeoData) → (restore_cwnd tp ca).mss_cache ≡ tp.mss_cache
unfolding restore_cwnd
restored tp ca =
    elim (Bool-cases (is_recovering ca.prev_ca_state && not (is_recovering tp.icsk_ca_state))) [
      | inl over ↦ rw over refl
      | inr same ↦ rw same refl
    ]

-- `set_params` leaves the ring and the connection, and the ring has the ten values that are fetched.
neo_module-Obeys :
    (sk : ℕ) (conn : Option ℕ) (ptrs : Pointers)
    → Obeys (neo_module sk) (λ ca. IsRing ca × (ca.conn ≡ conn)) ptrs sk
neo_module-Obeys sk conn ptrs c of_sk ca (ring, same) = (
  λ vs.
      let (r, set) = neo_set_params_lem c vs (length vs) ca in
      (
        neo_set_params c vs (length vs) ca,
        through_impl_lem sk c _ of_sk,
        (rw set ring, rw set same),
      ),
  λ r _.
      let (fields, run, ten) = neo_fetch_measurements-IsRing ca ring in
      (fields, through_impl_lem sk c _ of_sk ∙ run, omega (arith, ten)),
)

-- On a valid table, with its connection open and of the socket where it has one, an allocated ring and a segment size,
-- `neo_cong_control` runs without a fault, whatever the kernel answers and whatever the agent has
-- staged, and leaves a valid table, the same open connection, every other slot as it was, and a ring.
pub neo_cong_control-IsRing :
    (kernel : Kernel) (dp : SpineDatapath) (sk : ℕ) (rs : RateSample) (tp : TcpSock) (ca : NeoData)
    → IsValid dp
    → IsAttached dp ca.conn
    → IsSocketOf dp sk spine_neo ca.conn
    → 0 < tp.mss_cache
    → IsRing ca
    → (dp' : SpineDatapath) × (tp' : TcpSock) × (ca' : NeoData) × (neo_cong_control kernel dp sk rs
          tp ca
        ≡ some (dp', tp', ca'))
      × IsKept dp ca.conn dp'
      × (ca'.conn ≡ ca.conn)
      × IsRing ca'
unfolding neo_cong_control
neo_cong_control-IsRing kernel dp sk rs tp ca v at_conn own mss ring =
    let tp₀ = restore_cwnd tp ca in
    elim (Bool-cases (is_neg rs.delivered || is_neg rs.interval_us)) [
      | inl bad ↦
          (dp, tp₀, rebased tp₀ ca, rw bad refl, same-IsKept dp ca.conn v at_conn, refl, ring)
      | inr fine ↦
          let ((tp₁, ca₁), went, (ring₁, mss₁, conn₁), _, _) =
            neo_process-IsRing tp₀ ca (rw (restored tp ca) mss) ring in
          let (ret, dp', s, run, kept, (ring', same)) =
            consult_lem (neo_module sk) (λ s. IsRing s × (s.conn ≡ ca.conn)) kernel dp sk spine_neo
              ca₁.conn ca₁ (neo_module-Obeys sk ca.conn dp.pointers) (ring₁, conn₁) v
              (rw conn₁ at_conn) (rw conn₁ own) in
          (dp', tp₁, rebased tp₁ s, rw (fine, went, run) refl, IsKept-of conn₁ kept, same, ring')
    ]

-- `neo_init`, with memory for the intervals, a segment size and a valid table, runs without a fault, whatever the kernel answers to the library: it leaves a valid table, a ring,
-- and an open connection or none, which is in no slot that was taken; those are as they were.
pub neo_init-IsRing :
    (k : TcpKernel) (kernel : Kernel) (dp : SpineDatapath) (sk : ℕ) (tp : TcpSock) (ca : NeoData)
    → IsValid dp
    → 0 < tp.mss_cache
    → (dp' : SpineDatapath) × (tp' : TcpSock) × (ca' : NeoData) × (neo_init k kernel true dp sk tp
          ca
        ≡ some (dp', tp', ca'))
      × IsStarted dp sk spine_neo ca'.conn dp'
      × IsRing ca'
unfolding neo_init neo_start
neo_init-IsRing k kernel dp sk tp ca v mss =
    let ((tp', ca'), began, (ring, _, _), _, _) =
      start_interval-IsRing tp (neo_start ca) mss
        ((replicate 20 zero_interval, refl, refl), omega arith, omega arith) in
    let (conn, dp', run, started) =
      start-IsStarted kernel dp sk (flow_of spine_neo neo_name tp') v refl in
    (dp', set_up k tp', record ca' { conn = conn }, rw (began, run) refl, started, ring)
