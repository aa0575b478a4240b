-- ===== src/Datapath/Registry/Start.antt =====
-- The ways in which `spine_connection_start` of src/lib/spine.c can end, from the table of connections.
use spine_kernel.Prelude.{
  ℕ, suc, ◌+◌, ◌-◌, ◌%◌, ◌^◌, ◌<◌, ◌≡◌, refl, ap, ◌⊎◌, inl, inr, Bool, true, false, Option, none,
  some, List, [], ◌∷◌, ℤ, pos, is_neg, ltb, leb, ◌==◌, if◌then◌else◌, length, Bool-cases, arith,
  All, Bytes, set-set, get_elem?_bound, ◌++◌, drop, take, is_nonzero, >>=-eq-some,
}
use spine_kernel.Wire.{header_bytes, create_bytes, write_create_msg}
use spine_kernel.Wire.Flows.{write_create_msg_lem, create_header}
use spine_kernel.Datapath.State.{
  SpineDatapath, SpineConnection, SpineDatapathInfo, null, live, Kernel, cleared, Sent, post,
  stack_array, length-stack_array, spine_create_pending, spine_connection_not_initialized,
}
use spine_kernel.Datapath.Timer.{update_fto_timer}
use native.Mathlib.Nat.{zero-add}
use spine_kernel.Datapath.Registry.{
  claim_slot, is_create_pending, send_conn_create, create_of, init_spine_priv_state,
  spine_conn_create_success, open_slot, conn_at, put_conn, spine_connection_start,
}
use spine_kernel.Datapath.Registry.Slots.{IsValid, IsTaken, conn_at-put_conn, claim_slot_lem}

-- `send_conn_create` never leaves a buffer, and changes no more than the timer, the messages sent
-- and the time of the last create message.
pub send_conn_create_frame :
    (kernel : Kernel) (dp : SpineDatapath) (conn : SpineConnection)
    → length conn.flow_info.cong_alg ≡ 64
    → (ret : ℤ) × (t : ℕ) × (h : List Sent) × (last : ℕ) × (send_conn_create kernel dp conn
        ≡ some (
          ret,
          record dp { last_msg_sent = t; sent = h },
          record conn { last_create_msg_sent = last },
        ))
unfolding send_conn_create update_fto_timer post
send_conn_create_frame kernel dp conn e = elim (Bool-cases (is_create_pending kernel conn)) [
  | inl pending ↦
      (spine_create_pending, dp.last_msg_sent, dp.sent, conn.last_create_msg_sent, ground arith)
  | inr ready ↦ elim (Bool-cases (ltb conn.index 1)) [
    | inl closed ↦ (
      spine_connection_not_initialized,
      dp.last_msg_sent,
      dp.sent,
      conn.last_create_msg_sent,
      ground arith,
    )
    | inr open_ ↦ (
      kernel.send_msg,
      (if is_nonzero kernel.send_msg
          then (if dp.last_msg_sent == 0 then kernel.now 1 else dp.last_msg_sent)
          else dp.last_msg_sent),
      dp.sent ++ (record { bytes = take 96 msg; msg_size = pos 96 } ∷ []),
      kernel.now 0,
      ground (arith, written),
    )
  ]
]
  where
    msg : Bytes
    msg =
        header_bytes (create_header conn.index)
        ++ (create_bytes (create_of conn.flow_info) ++ drop 96 (stack_array 96))

    written :
        write_create_msg (stack_array 96) (pos 96) conn.index (create_of conn.flow_info)
        ≡ some (pos 96, msg)
    written =
        write_create_msg_lem (stack_array 96) 96 conn.index (create_of conn.flow_info) e
          (omega arith) (omega (arith, length-stack_array 96))

-- Where no create message is pending, an open connection's goes out, and the result is that of
-- `send_msg`.
pub send_conn_create-send_msg :
    (kernel : Kernel) (dp : SpineDatapath) (conn : SpineConnection) {ret : ℤ} {dp' : SpineDatapath}
    {conn' : SpineConnection}
    → length conn.flow_info.cong_alg ≡ 64
    → is_create_pending kernel conn ≡ false
    → 0 < conn.index
    → send_conn_create kernel dp conn ≡ some (ret, dp', conn')
    → ret ≡ kernel.send_msg
unfolding send_conn_create
send_conn_create-send_msg kernel dp conn e ready positive run =
    let open_ : ltb conn.index 1 ≡ false = ground arith in
    let written =
      write_create_msg_lem (stack_array 96) 96 conn.index (create_of conn.flow_info) e (omega arith)
        (omega (arith, length-stack_array 96)) in
    ground (arith, ready, open_, written, run)

pub send_conn_create-last :
    (kernel : Kernel) (dp : SpineDatapath) (conn : SpineConnection) {ret : ℤ} {dp' : SpineDatapath}
    {conn' : SpineConnection}
    → send_conn_create kernel dp conn ≡ some (ret, dp', conn')
    → (conn'.last_create_msg_sent ≡ conn.last_create_msg_sent)
      ⊎ (conn'.last_create_msg_sent ≡ kernel.now 0)
unfolding send_conn_create
send_conn_create-last kernel dp conn {ret} {dp'} {conn'} run =
    elim (Bool-cases (is_create_pending kernel conn)) [
      | inl pending ↦ inl (ground (arith, pending, run))
      | inr ready ↦ elim (Bool-cases (ltb conn.index 1)) [
        | inl closed ↦ inl (ground (arith, ready, closed, run))
        | inr open_ ↦
            let ((n, msg), _, rest) =
              >>=-eq-some
                (write_create_msg (stack_array 96) (pos 96) conn.index (create_of conn.flow_info)) _
                (rw (ready, open_) at run) in
            inr (ground (arith, rest))
      ]
    ]

-- The connection in a slot once `spine_connection_start` has set it up.
abbrev pub opened : SpineConnection → ℕ → SpineDatapathInfo → ℕ → Bool → SpineConnection
opened c impl info last created = record c {
  last_create_msg_sent = last;
  impl = impl;
  flow_info = info;
  state = live (record { sent_create = created; pending_update = cleared });
  datapath = true;
}

-- The connection in a slot when its private state could not be allocated.
abbrev pub unopened : SpineConnection → ℕ → SpineDatapathInfo → SpineConnection
unopened c impl info = record c { impl = impl; flow_info = info; state = null }

open_slot_refused :
    (kernel : Kernel) (dp : SpineDatapath) (p impl : ℕ) (info : SpineDatapathInfo)
    (c : SpineConnection)
    → conn_at dp p ≡ some c
    → kernel.alloc ≡ false
    → open_slot kernel dp p impl info ≡ some (none, put_conn p (unopened c impl info) dp)
unfolding open_slot init_spine_priv_state
open_slot_refused kernel dp p impl info c e no_memory = rw (e, no_memory)

open_slot-opened :
    (kernel : Kernel) (dp : SpineDatapath) (p impl : ℕ) (info : SpineDatapathInfo)
    (c : SpineConnection)
    → conn_at dp p ≡ some c
    → length info.cong_alg ≡ 64
    → kernel.alloc ≡ true
    → (t : ℕ) × (h : List Sent) × (last : ℕ) × (created : Bool) × (open_slot kernel dp p impl info
        ≡ some (
          some p,
          put_conn p (opened c impl info last created) (record dp { last_msg_sent = t; sent = h }),
        ))
unfolding open_slot init_spine_priv_state spine_conn_create_success
open_slot-opened kernel dp p impl info c e name memory =
    let (ret, t, h, last, r) =
      send_conn_create_frame kernel dp (opened c impl info c.last_create_msg_sent false) name in
    elim (Bool-cases (is_neg ret)) [
      | inl failed ↦ (t, h, last, false, ground (arith, e, r))
      | inr done ↦ (t, h, last, true, ground (arith, e, r))
    ]

-- How a call of `spine_connection_start` ends: with no free slot; with the last slot taken and NULL
-- returned; with no memory for the private state; or with an open connection.
pub data Started (dp : SpineDatapath) (impl : ℕ) (info : SpineDatapathInfo)
    (r : Option ℕ × SpineDatapath) : Type 0 where
  full : All IsTaken dp.spine_active_connections → r ≡ (none, dp) → Started dp impl info r
  lost :
      (q : ℕ) (c : SpineConnection)
      → conn_at dp q ≡ some c
      → c.index ≡ 0
      → suc q ≡ dp.max_connections
      → r ≡ (none, put_conn q (record c { index = suc q }) dp)
      → Started dp impl info r
  no_memory :
      (q : ℕ) (c : SpineConnection)
      → conn_at dp q ≡ some c
      → c.index ≡ 0
      → suc q < dp.max_connections
      → r ≡ (none, put_conn q (unopened (record c { index = suc q }) impl info) dp)
      → Started dp impl info r
  success :
      (q : ℕ) (c : SpineConnection) (t : ℕ) (h : List Sent) (last : ℕ) (created : Bool)
      → conn_at dp q ≡ some c
      → c.index ≡ 0
      → suc q < dp.max_connections
      → r ≡ (
        some q,
        put_conn q
            (opened (record c { index = suc q }) impl info last created)
            (record dp { last_msg_sent = t; sent = h }),
      )
      → Started dp impl info r

put_conn-put_conn :
    (p : ℕ) (c d : SpineConnection) (dp : SpineDatapath)
    → put_conn p d (put_conn p c dp) ≡ put_conn p d dp
put_conn-put_conn p c d dp =
    ap (λ l. record dp { spine_active_connections = l }) (set-set dp.spine_active_connections p c d)

module _ (kernel : Kernel) (dp : SpineDatapath) (impl : ℕ) (info : SpineDatapathInfo)
    (v : IsValid dp) (name : length info.cong_alg ≡ 64) where
  start_on :
      (q : ℕ) (c : SpineConnection)
      → conn_at dp q ≡ some c
      → c.index ≡ 0
      → suc q < dp.max_connections
      → (r : Option ℕ × SpineDatapath) × (open_slot kernel
            (put_conn q (record c { index = suc q }) dp)
            q
            impl
            info
          ≡ some r)
        × Started dp impl info r
  start_on q c e free h =
      let taken : SpineConnection = record c { index = suc q } in
      let at_q : conn_at (put_conn q taken dp) q ≡ some taken =
        conn_at-put_conn q taken dp (get_elem?_bound dp.spine_active_connections q e) in
      elim (Bool-cases kernel.alloc) [
        | inl memory ↦
            let (t, sent, last, created, r) =
              open_slot-opened kernel (put_conn q taken dp) q impl info taken at_q name memory in
            (
              _,
              r,
              success q c t sent last created e free h (λ i. (
                some q,
                put_conn-put_conn q taken (opened taken impl info last created)
                    (record dp { last_msg_sent = t; sent = sent }) i,
              )),
            )
        | inr none_left ↦ (
          _,
          open_slot_refused kernel (put_conn q taken dp) q impl info taken at_q none_left,
          no_memory q c e free h
              (λ i. (none, put_conn-put_conn q taken (unopened taken impl info) dp i)),
        )
      ]

  claim_outcome :
      All IsTaken dp.spine_active_connections
        × (claim_slot dp.max_connections 0 dp.spine_active_connections
            ≡ some (dp.max_connections, dp.spine_active_connections))
      ⊎ ((q : ℕ) × (c : SpineConnection) × (conn_at dp q ≡ some c)
          × (c.index ≡ 0)
          × (q < dp.max_connections)
          × (claim_slot dp.max_connections 0 dp.spine_active_connections
              ≡ some
                  (suc q, (put_conn q (record c { index = suc q }) dp).spine_active_connections)))
  claim_outcome = elim (claim_slot_lem dp.max_connections 0 dp.spine_active_connections v.room) [
    | inl (all, r) ↦ inl (all, rw zero-add at r)
    | inr (q, c, e, free, h, r) ↦
        let place : 0 + q + 1 ≡ suc q = omega arith in
        let fits : suc q % 2 ^ 16 ≡ suc q = omega (arith, v.small) in
        inr (q, c, e, free, h, rw (place, fits) at r)
  ]

  pub start_outcome :
      (r : Option ℕ × SpineDatapath) × (spine_connection_start kernel dp impl info ≡ some r)
      × Started dp impl info r
  unfolding spine_connection_start
  start_outcome = elim claim_outcome [
    | inl (all, r) ↦ ((none, dp), ground (arith, r), full all refl)
    | inr (q, c, e, free, h, r) ↦ elim (Bool-cases (leb dp.max_connections (suc q))) [
      | inl end ↦ (
        (none, put_conn q (record c { index = suc q }) dp),
        ground (arith, r),
        lost q c e free (ground arith) refl,
      )
      | inr inside ↦
          let (res, opened_, started) = start_on q c e free (ground arith) in
          let back : suc q - 1 ≡ q = omega arith in (res, rw (r, inside, back) opened_, started)
    ]
  ]
