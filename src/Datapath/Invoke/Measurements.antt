-- ===== src/Datapath/Invoke/Measurements.antt =====
-- From the congestion control module to the agent: the measurements that `spine_invoke` sends, and
-- its safety.
use spine_kernel.Prelude.{
  ℕ, suc, ◌+◌, ◌*◌, ◌%◌, ◌^◌, ◌<◌, ◌≤◌, ◌≡◌, refl, inl, inr, true, ◌&&◌, Option, ◌∙◌, some, List,
  [], ◌∷◌, ℤ, pos, ltb, ◌==◌, if◌then◌else◌, length, Bool-cases, arith, Bytes, All, ◌++◌, drop,
  take, take-append, is_nonzero, append_assoc, append-nil, length-append, get_elem?_bound,
  >>=-eq-some,
}
use spine_kernel.Wire.{header_bytes}
use spine_kernel.Wire.RoundTrip.{
  IsU64, parse_measurement, measure_header, measure_body, length-measure_body,
  write_measure_msg_lem, parse_measurement_lem, length-header_bytes,
}
use spine_kernel.Datapath.State.{
  SpineDatapath, SpineConnection, SpinePrivState, StagedUpdate, live, Kernel, Sent, post,
  stack_array, length-stack_array, cleared,
}
use spine_kernel.Datapath.Timer.{update_fto_timer}
use spine_kernel.Datapath.Registry.{conn_at, put_conn}
use spine_kernel.Datapath.Registry.Slots.{IsValid}
use spine_kernel.Datapath.Invoke.{
  CongestionControl, staged_params, enforce, answer, invoke_staged, invoke_on, send_measurement,
  spine_invoke, report,
}

-- The measurement message of a connection, as it is sent.
abbrev pub measurement_bytes : ℕ → ℕ → List ℕ → Bytes
measurement_bytes sid r fs = header_bytes (measure_header sid (length fs)) ++ measure_body r fs

length-measurement_bytes :
    (sid r : ℕ) (fs : List ℕ) → length (measurement_bytes sid r fs) ≡ 16 + 8 * length fs
length-measurement_bytes sid r fs = omega (
  arith,
  length-append (header_bytes (measure_header sid (length fs))) (measure_body r fs),
  length-header_bytes (measure_header sid (length fs)),
  length-measure_body r fs,
)

parse_measurement_bytes :
    (sid r : ℕ) (fs : List ℕ)
    → length fs ≤ 110
    → All IsU64 fs
    → sid < 2 ^ 32
    → r < 2 ^ 32
    → parse_measurement (measurement_bytes sid r fs)
      ≡ some (record { header = measure_header sid (length fs); program_uid = r; fields = fs }, [])
parse_measurement_bytes sid r fs few good hs hr =
    rw append-nil at (parse_measurement_lem sid r fs [] few good hs hr)

sent_bytes :
    (sid r : ℕ) (fs : List ℕ) (rest : Bytes)
    → take
        (16 + 8 * length fs)
        (header_bytes (measure_header sid (length fs)) ++ (measure_body r fs ++ rest))
      ≡ measurement_bytes sid r fs
sent_bytes sid r fs rest =
    rw (length-measurement_bytes sid r fs, append_assoc) at
      (take-append (measurement_bytes sid r fs) rest)

-- Up to 110 fields fit the message; the answer is that of `send_msg`, and one message is sent.
send_measurement_lem :
    (kernel : Kernel) (dp : SpineDatapath) (conn : SpineConnection) (r : ℕ) (fs : List ℕ)
    → 0 < conn.index
    → length fs ≤ 110
    → (t : ℕ) × (send_measurement kernel dp conn r fs (length fs)
        ≡ some (
          kernel.send_msg,
          record dp {
            last_msg_sent = t;
            sent =
                dp.sent
                ++ (record {
                  bytes = measurement_bytes conn.index r fs;
                  msg_size = pos (16 + 8 * length fs);
                }
                    ∷ []);
          },
        ))
unfolding send_measurement update_fto_timer post
send_measurement_lem kernel dp conn r fs h few =
    let room : 16 + 8 * length fs ≤ 900 = omega arith in
    let written =
      write_measure_msg_lem (stack_array 900) 900 conn.index r fs few room
        (omega (arith, length-stack_array 900)) in
    let bytes = sent_bytes conn.index r fs (drop (16 + 8 * length fs) (stack_array 900)) in
    (
      (if is_nonzero kernel.send_msg
          then (if dp.last_msg_sent == 0 then kernel.now 0 else dp.last_msg_sent)
          else dp.last_msg_sent),
      ground (arith, written, bytes),
    )

report_returns :
    (kernel : Kernel) (dp : SpineDatapath) (conn : SpineConnection) (r : ℕ) (fs : List ℕ)
    → 0 < conn.index
    → length fs ≤ 16
    → (ret : ℤ) × (dp' : SpineDatapath) × (report kernel dp conn r fs ≡ some (ret, dp'))
unfolding report
report_returns kernel dp conn r fs open_ few =
    let (t, sent) = send_measurement_lem kernel dp conn r fs open_ (omega arith) in
    elim (Bool-cases (ltb 0 (length fs))) [
      | inr none_ ↦ (pos 0, dp, ground arith)
      | inl some_ ↦ (kernel.send_msg, _, ran some_ ∙ sent)
    ]
  where
    ran :
        ltb 0 (length fs) ≡ true
        → report kernel dp conn r fs ≡ send_measurement kernel dp conn r fs (length fs)
    ran some_ = ground (arith, some_)

report_frame :
    (kernel : Kernel) (dp : SpineDatapath) (conn : SpineConnection) (r : ℕ) (fs : List ℕ) {ret : ℤ}
    {dp' : SpineDatapath}
    → 0 < conn.index
    → report kernel dp conn r fs ≡ some (ret, dp')
    → (t : ℕ) × (h : List Sent) × (dp' ≡ record dp { last_msg_sent = t; sent = h })
unfolding report
report_frame kernel dp conn r fs {ret} {dp'} open_ run = elim (Bool-cases (ltb 16 (length fs))) [
  | inl many ↦ absurd (ground (arith, many, run))
  | inr few ↦
      let (t, sent) = send_measurement_lem kernel dp conn r fs open_ (ground (arith, few)) in
      elim (Bool-cases (ltb 0 (length fs))) [
        | inr none_ ↦ (dp.last_msg_sent, dp.sent, ground (arith, few, none_, run))
        | inl some_ ↦
            let after : SpineDatapath = record dp {
              last_msg_sent = t;
              sent =
                  dp.sent
                  ++ (record {
                    bytes = measurement_bytes conn.index r fs;
                    msg_size = pos (16 + 8 * length fs);
                  }
                      ∷ []);
            } in
            (t, after.sent, ground (arith, few, some_, run, sent))
      ]
]

-- The state of the module once the staged parameters are in force.
abbrev pub enforced :
    {S : Type 0}
    → CongestionControl S
    → SpineDatapath
    → SpineConnection
    → SpinePrivState
    → S
    → Option S
enforced cc dp conn st =
    enforce cc dp conn
      (staged_params st.pending_update.control_is_pending st.pending_update.control_registers)

module _ {S : Type 0} (cc : CongestionControl S) where
  -- A staged measurement request, on an open connection with its create message out: the module is
  -- asked after the staged parameters took effect, and its 1 to 16 values go out in one message that
  -- carries the connection's index and the request id; nothing stays staged.
  pub parse_measurement-spine_invoke :
      (kernel : Kernel) (dp : SpineDatapath) (p : ℕ) (conn : SpineConnection) (st : SpinePrivState)
      (s s' : S) (fs : List ℕ)
      → IsValid dp
      → conn_at dp p ≡ some conn
      → conn.index ≡ suc p
      → conn.state ≡ live st
      → st.sent_create ≡ true
      → st.pending_update.measure_is_pending ≡ true
      → dp.pointers.fetch_measurements ≡ true
      → enforced cc dp conn st s ≡ some s'
      → cc.fetch_measurements conn (st.pending_update.measure_registers % 2 ^ 32) s' ≡ some fs
      → 0 < length fs
      → length fs ≤ 16
      → All IsU64 fs
      → (t : ℕ) × (m : Sent) × (spine_invoke cc kernel dp (some p) s
          ≡ some (
            kernel.send_msg,
            put_conn p
                (record conn { state = live (record st { pending_update = cleared }) })
                (record dp { last_msg_sent = t; sent = dp.sent ++ (m ∷ []) }),
            s',
          ))
        × (m.msg_size ≡ pos (16 + 8 * length fs))
        × (parse_measurement m.bytes
            ≡ some (
              record {
                header = measure_header (suc p) (length fs);
                program_uid = st.pending_update.measure_registers % 2 ^ 32;
                fields = fs;
              },
              [],
            ))
  unfolding spine_invoke invoke_on invoke_staged answer report
  parse_measurement-spine_invoke kernel dp p conn st s s' fs v e i l created asked bound set got
        some_ few good =
      let r : ℕ = st.pending_update.measure_registers % 2 ^ 32 in
      let (t, sent) = send_measurement_lem kernel dp conn r fs (omega arith) (omega arith) in
      let inside : p < length dp.spine_active_connections =
        get_elem?_bound dp.spine_active_connections p e in
      let parsed =
        parse_measurement_bytes (suc p) r fs (omega arith) good (omega (arith, v.room, v.small))
          (omega arith) in
      (
        t,
        record { bytes = measurement_bytes conn.index r fs; msg_size = pos (16 + 8 * length fs) },
        ground (arith, sent),
        refl,
        rw i parsed,
      )

  -- Whenever `answer` returns, it has touched the timer and the messages sent alone.
  pub answer_frame :
      (kernel : Kernel) (dp : SpineDatapath) (conn : SpineConnection) (u : StagedUpdate) (s : S)
      {ret : ℤ} {dp' : SpineDatapath}
      → 0 < conn.index
      → answer cc kernel dp conn u s ≡ some (ret, dp')
      → (t : ℕ) × (h : List Sent) × (dp' ≡ record dp { last_msg_sent = t; sent = h })
  unfolding answer
  answer_frame kernel dp conn u s {ret} {dp'} open_ run =
      elim (Bool-cases (u.measure_is_pending && dp.pointers.fetch_measurements)) [
        | inr quiet ↦ (dp.last_msg_sent, dp.sent, ground (arith, quiet, run))
        | inl asked ↦
            let (fs, _, reported) =
              >>=-eq-some (cc.fetch_measurements conn (u.measure_registers % 2 ^ 32) s) _
                (rw asked at run) in
            report_frame kernel dp conn (u.measure_registers % 2 ^ 32) fs open_ reported
      ]

  -- `answer` returns, if the module stores at most 16 values where it can be asked.
  pub answer_returns :
      (kernel : Kernel) (dp : SpineDatapath) (conn : SpineConnection) (u : StagedUpdate) (s : S)
      → 0 < conn.index
      → (dp.pointers.fetch_measurements ≡ true
          → (fs : List ℕ) × (cc.fetch_measurements conn (u.measure_registers % 2 ^ 32) s ≡ some fs)
            × (length fs ≤ 16))
      → (ret : ℤ) × (dp' : SpineDatapath) × (answer cc kernel dp conn u s ≡ some (ret, dp'))
  unfolding answer
  answer_returns kernel dp conn u s open_ stores =
      elim (Bool-cases (u.measure_is_pending && dp.pointers.fetch_measurements)) [
        | inr quiet ↦ (pos 0, dp, rw quiet refl)
        | inl asked ↦
            let can : dp.pointers.fetch_measurements ≡ true = ground (arith, asked) in
            let (fs, got, few) = stores can in
            let (ret, dp', run) =
              report_returns kernel dp conn (u.measure_registers % 2 ^ 32) fs open_ few in
            (ret, dp', rw (asked, got) run)
      ]
