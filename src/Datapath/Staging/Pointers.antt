-- ===== src/Datapath/Staging/Pointers.antt =====
-- What `spine_read_msg` of src/lib/spine.c leaves of the datapath's pointers, whatever bytes arrive.
use spine_kernel.Prelude.{
  ℕ, ◌%◌, ◌^◌, ◌==◌, ◌≡◌, refl, inl, inr, Option, none, some, ℤ, is_neg, Bytes, ◌||◌, if◌then◌else◌,
  Bool-cases, Option-cases, >>=-eq-some, arith,
}
use spine_kernel.Wire.{SpineMsgHeader, read_header, update_fields, measure}
use spine_kernel.Datapath.State.{SpineDatapath, live, spine_unknown_connection}
use spine_kernel.Datapath.Timer.{turn_off_fto_timer}
use spine_kernel.Datapath.Registry.{conn_at, put_conn, spine_connection_lookup}
use spine_kernel.Datapath.Staging.{
  stage_msg, read_updates, read_measure, pending_of, size_error, spine_read_msg,
}

stage_msg-pointers :
    (hdr : SpineMsgHeader) (dp : SpineDatapath) (p : ℕ) (buf : Bytes) {ret : ℤ}
    {dp' : SpineDatapath}
    → stage_msg hdr dp p buf ≡ some (ret, dp')
    → dp'.pointers ≡ dp.pointers
unfolding stage_msg
stage_msg-pointers hdr dp p buf {ret} {dp'} e =
    elim (Bool-cases (hdr.msg_type == update_fields || hdr.msg_type == measure)) [
      | inr other ↦ let same : dp ≡ dp' = ground (arith, other) in rw (← same) refl
      | inl ours ↦
          let (conn, at_p, e1) = >>=-eq-some (conn_at dp p) _ (rw ours at e) in
          let (st, _, e2) = >>=-eq-some (pending_of conn.state) _ e1 in
          let ((r, u), _, e3) =
            >>=-eq-some
              (if hdr.msg_type == update_fields
                then read_updates hdr st.pending_update buf
                else read_measure hdr st.pending_update buf)
              _ e2 in
          let new = record conn { state = live (record st { pending_update = u }) } in
          let end : put_conn p new dp ≡ dp' = ground (arith, e3) in rw (← end) refl
    ]

-- Whenever `spine_read_msg` returns, the pointers are as they were.
pub spine_read_msg-pointers :
    (dp : SpineDatapath) (buf : Bytes) (z : ℤ) {ret : ℤ} {dp' : SpineDatapath}
    → spine_read_msg dp buf z ≡ some (ret, dp')
    → dp'.pointers ≡ dp.pointers
unfolding spine_read_msg turn_off_fto_timer
spine_read_msg-pointers dp buf z {ret} {dp'} e =
    let ((hdr, r, rest), _, e1) = >>=-eq-some (read_header buf) _ e in
    elim (Bool-cases (is_neg r)) [
      | inl refused ↦ let same : dp ≡ dp' = ground (arith, refused) in rw (← same) refl
      | inr readable ↦ elim (Option-cases (size_error hdr z)) [
        | inr (err, sized) ↦
            let same : dp ≡ dp' = ground (arith, readable, sized) in rw (← same) refl
        | inl fits ↦
            let (found, _, e2) =
              >>=-eq-some (spine_connection_lookup quiet (hdr.socket_id % 2 ^ 16)) _
                (rw (readable, fits) at e1) in
            delivered hdr rest found e2
      ]
    ]
  where
    quiet : SpineDatapath
    quiet = turn_off_fto_timer dp

    delivered :
        (hdr : SpineMsgHeader) (rest : Bytes) (found : Option ℕ)
        → (elim found as (λ _. Option (ℤ × SpineDatapath)) [
          | none ↦ some (spine_unknown_connection, quiet)
          | some p ↦ stage_msg hdr quiet p rest
        ])
          ≡ some (ret, dp')
        → dp'.pointers ≡ dp.pointers
    delivered hdr rest none h = let same : quiet ≡ dp' = ground (arith, h) in rw (← same) refl
    delivered hdr rest (some p) h = stage_msg-pointers hdr quiet p rest h
