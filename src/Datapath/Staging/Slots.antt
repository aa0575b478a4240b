-- ===== src/Datapath/Staging/Slots.antt =====
-- What `spine_read_msg` of src/lib/spine.c leaves of an open connection, whatever bytes arrive.
use spine_kernel.Prelude.{
  ℕ, suc, ◌-◌, ◌%◌, ◌^◌, ◌==◌, ◌≡◌, ◌≢◌, refl, ltb, inl, inr, ◌∙◌, sym, ap, Option, none, some, ℤ,
  is_neg, Bytes, ◌||◌, if◌then◌else◌, Bool-cases, Option-cases, ==_iff, >>=-eq-some,
  get_elem?_bound, arith,
}
use spine_kernel.Wire.{SpineMsgHeader, read_header, update_fields, measure}
use spine_kernel.Datapath.State.{
  SpineDatapath, SpineConnection, SpinePrivState, live, spine_unknown_connection,
}
use spine_kernel.Datapath.Timer.{turn_off_fto_timer}
use spine_kernel.Datapath.Registry.{conn_at, put_conn, spine_connection_lookup}
use spine_kernel.Datapath.Registry.Slots.{IsOpen, conn_at-put_conn, conn_at-put_conn_ne}
use spine_kernel.Datapath.Staging.{
  stage_msg, read_updates, read_measure, pending_of, size_error, spine_read_msg,
}

-- The connection that was open is still open, and of the same socket and flow.
abbrev pub StillOpen : {dp : SpineDatapath} {j : ℕ} → SpineDatapath → IsOpen dp j → Type 0
StillOpen {dp} {j} dp' o =
    (o' : IsOpen dp' j) × (o'.conn.impl ≡ o.conn.impl) × (o'.conn.flow_info ≡ o.conn.flow_info)

-- An open connection is as open on any datapath with the same slot.
pub same_slot-IsOpen :
    (dp dp' : SpineDatapath) (j : ℕ) (o : IsOpen dp j)
    → conn_at dp' j ≡ conn_at dp j
    → StillOpen dp' o
same_slot-IsOpen dp dp' j o same = (
  record {
    conn = o.conn;
    priv = o.priv;
    at_p = same ∙ o.at_p;
    own_index = o.own_index;
    has_state = o.has_state;
  },
  refl,
  refl,
)

-- Writing new private state into a slot closes no connection.
staged-IsOpen :
    (dp : SpineDatapath) (p j : ℕ) (c : SpineConnection) (st : SpinePrivState)
    → conn_at dp p ≡ some c
    → (o : IsOpen dp j) → StillOpen (put_conn p (record c { state = live st }) dp) o
staged-IsOpen dp p j c st at_p o =
    let new : SpineConnection = record c { state = live st } in
    elim (Bool-cases (j == p)) [
      | inr other ↦
          same_slot-IsOpen dp (put_conn p new dp) j o
            (conn_at-put_conn_ne p j new dp (λ e. absurd (ground (arith, other, e))))
      | inl own ↦
          let here : j ≡ p = (==_iff j p).0 own in
          let one : o.conn ≡ c = ground (arith, here, at_p, o.at_p) in
          (
            record {
              conn = new;
              priv = st;
              at_p =
                  rw here (
                    conn_at-put_conn p new dp (get_elem?_bound dp.spine_active_connections p at_p));
              own_index = rw one at o.own_index;
              has_state = refl;
            },
            ap (λ d. d.impl) (sym one),
            ap (λ d. d.flow_info) (sym one),
          )
    ]

stage_msg-IsOpen :
    (hdr : SpineMsgHeader) (dp : SpineDatapath) (p j : ℕ) (buf : Bytes) {ret : ℤ}
    {dp' : SpineDatapath}
    → stage_msg hdr dp p buf ≡ some (ret, dp')
    → (o : IsOpen dp j) → StillOpen dp' o
unfolding stage_msg
stage_msg-IsOpen hdr dp p j buf {ret} {dp'} e o =
    elim (Bool-cases (hdr.msg_type == update_fields || hdr.msg_type == measure)) [
      | inr other ↦ let same : dp ≡ dp' = ground (arith, other) in rw (← same) (o, refl, refl)
      | inl ours ↦
          let (conn, at_p, e1) = >>=-eq-some (conn_at dp p) _ (rw ours at e) in
          let (st, _, e2) = >>=-eq-some (pending_of conn.state) _ e1 in
          let ((r, u), _, e3) =
            >>=-eq-some
              (if hdr.msg_type == update_fields
                then read_updates hdr st.pending_update buf
                else read_measure hdr st.pending_update buf)
              _ e2 in
          let new = record st { pending_update = u } in
          let end : put_conn p (record conn { state = live new }) dp ≡ dp' = ground (arith, e3) in
          rw (← end) (staged-IsOpen dp p j conn new at_p o)
    ]

-- Whenever `spine_read_msg` returns, each connection that was open still is, and is of the same socket and flow.
pub spine_read_msg-IsOpen :
    (dp : SpineDatapath) (buf : Bytes) (z : ℤ) (j : ℕ) {ret : ℤ} {dp' : SpineDatapath}
    → spine_read_msg dp buf z ≡ some (ret, dp')
    → (o : IsOpen dp j) → StillOpen dp' o
unfolding spine_read_msg turn_off_fto_timer
spine_read_msg-IsOpen dp buf z j {ret} {dp'} e o =
    let ((hdr, r, rest), _, e1) = >>=-eq-some (read_header buf) _ e in
    elim (Bool-cases (is_neg r)) [
      | inl refused ↦ let same : dp ≡ dp' = ground (arith, refused) in rw (← same) (o, refl, refl)
      | inr readable ↦ elim (Option-cases (size_error hdr z)) [
        | inr (err, sized) ↦
            let same : dp ≡ dp' = ground (arith, readable, sized) in rw (← same) (o, refl, refl)
        | inl fits ↦
            let (found, _, e2) =
              >>=-eq-some (spine_connection_lookup quiet (hdr.socket_id % 2 ^ 16)) _
                (rw (readable, fits) at e1) in
            delivered hdr rest found e2
      ]
    ]
  where
    quiet : SpineDatapath
    quiet = turn_off_fto_timer dp

    open_ : StillOpen quiet o
    open_ = same_slot-IsOpen dp quiet j o refl

    delivered :
        (hdr : SpineMsgHeader) (rest : Bytes) (found : Option ℕ)
        → (elim found as (λ _. Option (ℤ × SpineDatapath)) [
          | none ↦ some (spine_unknown_connection, quiet)
          | some p ↦ stage_msg hdr quiet p rest
        ])
          ≡ some (ret, dp')
        → StillOpen dp' o
    delivered hdr rest none h = let same : quiet ≡ dp' = ground (arith, h) in rw (← same) open_
    delivered hdr rest (some p) h =
        let (o', impl, info) = stage_msg-IsOpen hdr quiet p j rest h open_.0 in
        (o', impl ∙ open_.1, info ∙ open_.2)

lookup_place :
    (dp : SpineDatapath) (sid p : ℕ) → spine_connection_lookup dp sid ≡ some (some p) → suc p ≡ sid
unfolding spine_connection_lookup
lookup_place dp sid p e = elim (Bool-cases (sid == 0 || ltb dp.max_connections sid)) [
  | inl outside ↦ absurd (ground (arith, outside, e))
  | inr inside ↦
      let (c, _, found) = >>=-eq-some (conn_at dp (sid - 1)) _ (rw inside at e) in
      elim (Bool-cases (c.index == sid)) [
        | inl here ↦
            let place : sid - 1 ≡ p = ground (arith, here, found) in ground (arith, inside, place)
        | inr elsewhere ↦ absurd (ground (arith, elsewhere, found))
      ]
]

stage_msg_others :
    (hdr : SpineMsgHeader) (dp : SpineDatapath) (p j : ℕ) (buf : Bytes) {ret : ℤ}
    {dp' : SpineDatapath}
    → stage_msg hdr dp p buf ≡ some (ret, dp')
    → j ≢ p
    → conn_at dp' j ≡ conn_at dp j
unfolding stage_msg
stage_msg_others hdr dp p j buf {ret} {dp'} e other =
    elim (Bool-cases (hdr.msg_type == update_fields || hdr.msg_type == measure)) [
      | inr unread ↦ let same : dp ≡ dp' = ground (arith, unread) in rw (← same) refl
      | inl ours ↦
          let (conn, _, e1) = >>=-eq-some (conn_at dp p) _ (rw ours at e) in
          let (st, _, e2) = >>=-eq-some (pending_of conn.state) _ e1 in
          let ((r, u), _, e3) =
            >>=-eq-some
              (if hdr.msg_type == update_fields
                then read_updates hdr st.pending_update buf
                else read_measure hdr st.pending_update buf)
              _ e2 in
          let new = record conn { state = live (record st { pending_update = u }) } in
          let end : put_conn p new dp ≡ dp' = ground (arith, e3) in
          rw (← end) (conn_at-put_conn_ne p j new dp other)
    ]

-- Whatever bytes arrive, a message reaches only the connection that its header names: whenever
-- `spine_read_msg` returns, every slot but that of the lower half of the socket id is as it was.
pub spine_read_msg_others :
    (dp : SpineDatapath) (buf : Bytes) (z ret r : ℤ) (dp' : SpineDatapath) (hdr : SpineMsgHeader)
    (rest : Bytes) (j : ℕ)
    → read_header buf ≡ some (hdr, r, rest)
    → spine_read_msg dp buf z ≡ some (ret, dp')
    → suc j ≢ hdr.socket_id % 2 ^ 16
    → conn_at dp' j ≡ conn_at dp j
unfolding spine_read_msg turn_off_fto_timer
spine_read_msg_others dp buf z ret r dp' hdr rest j header e other =
    let e1 = rw header at e in
    elim (Bool-cases (is_neg r)) [
      | inl refused ↦ let same : dp ≡ dp' = ground (arith, refused, e1) in rw (← same) refl
      | inr readable ↦ elim (Option-cases (size_error hdr z)) [
        | inr (err, sized) ↦
            let same : dp ≡ dp' = ground (arith, readable, sized, e1) in rw (← same) refl
        | inl fits ↦
            let (found, at_sid, e2) =
              >>=-eq-some (spine_connection_lookup quiet (hdr.socket_id % 2 ^ 16)) _
                (rw (readable, fits) at e1) in
            delivered found at_sid e2
      ]
    ]
  where
    quiet : SpineDatapath
    quiet = turn_off_fto_timer dp

    delivered :
        (found : Option ℕ)
        → spine_connection_lookup quiet (hdr.socket_id % 2 ^ 16) ≡ some found
        → (elim found as (λ _. Option (ℤ × SpineDatapath)) [
          | none ↦ some (spine_unknown_connection, quiet)
          | some p ↦ stage_msg hdr quiet p rest
        ])
          ≡ some (ret, dp')
        → conn_at dp' j ≡ conn_at dp j
    delivered none _ h = let same : quiet ≡ dp' = ground (arith, h) in rw (← same) refl
    delivered (some p) at_sid h =
        stage_msg_others hdr quiet p j rest h
          (λ z. other (rw z (lookup_place quiet (hdr.socket_id % 2 ^ 16) p at_sid)))
