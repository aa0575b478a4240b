-- ===== src/Datapath/Refinement/Frames.antt =====
-- What `spine_read_msg` and `spine_invoke` of src/lib/spine.c leave alone: the flows.
use spine_kernel.Prelude.{
  ℕ, zero, suc, ◌%◌, ◌^◌, ◌≡◌, refl, ap, ◌∙◌, Option, none, some, ◌==◌, if◌then◌else◌, ◌||◌,
  >>=-eq-some, arith, Bool-cases, Option-cases, inl, inr, Bytes, ℤ, is_neg,
}
use spine_kernel.Wire.{SpineMsgHeader, read_header, update_fields, measure}
use spine_kernel.Datapath.State.{
  SpineDatapath, SpineConnection, StatePtr, null, live, dangling, Kernel, spine_unknown_connection,
}
use spine_kernel.Datapath.Timer.{turn_off_fto_timer, check_fto}
use spine_kernel.Datapath.Timer.Fallback.{check_fto_lem}
use spine_kernel.Datapath.Registry.{conn_at, put_conn, spine_connection_lookup}
use spine_kernel.Datapath.Registry.Slots.{IsValid}
use spine_kernel.Datapath.Staging.{
  spine_read_msg, size_error, stage_msg, read_updates, read_measure, pending_of,
}
use spine_kernel.Datapath.Invoke.{CongestionControl, spine_invoke, invoke_on}
use spine_kernel.Datapath.Invoke.Safety.{spine_invoke_frame}
use spine_kernel.Datapath.Refinement.{flows, flows_same}

abbrev pub IsSame : SpineDatapath → SpineDatapath → Type 0
IsSame dp dp' = (i : ℕ) → flows dp' i ≡ flows dp i

-- No call without an effect on the table changes a flow.
IsSame-table :
    (dp dp' : SpineDatapath)
    → dp'.spine_active_connections ≡ dp.spine_active_connections
    → IsSame dp dp'
IsSame-table dp dp' same zero = refl
IsSame-table dp dp' same (suc p) = rw same refl

stage_msg-IsSame :
    (hdr : SpineMsgHeader) (dp : SpineDatapath) (p : ℕ) (buf : Bytes) {ret : ℤ}
    {dp' : SpineDatapath}
    → stage_msg hdr dp p buf ≡ some (ret, dp')
    → IsSame dp dp'
unfolding stage_msg
stage_msg-IsSame hdr dp p buf {ret} {dp'} e =
    elim (Bool-cases (hdr.msg_type == update_fields || hdr.msg_type == measure)) [
      | inr other ↦ let same : dp ≡ dp' = ground (arith, other) in rw (← same) (λ i. refl)
      | inl ours ↦
          let (conn, at_p, e1) = >>=-eq-some (conn_at dp p) _ (rw ours at e) in
          let (st, _, e2) = >>=-eq-some (pending_of conn.state) _ e1 in
          let ((r, u), _, e3) =
            >>=-eq-some
              (if hdr.msg_type == update_fields
                then read_updates hdr st.pending_update buf
                else read_measure hdr st.pending_update buf)
              _ e2 in
          let new = record conn { state = live (record st { pending_update = u }) } in
          let end : put_conn p new dp ≡ dp' = ground (arith, e3) in
          rw (← end) (flows_same dp p dp.last_msg_sent dp.sent new at_p refl refl)
    ]

pub spine_read_msg-IsSame :
    (dp : SpineDatapath) (buf : Bytes) (z : ℤ) {ret : ℤ} {dp' : SpineDatapath}
    → spine_read_msg dp buf z ≡ some (ret, dp')
    → IsSame dp dp'
unfolding spine_read_msg turn_off_fto_timer
spine_read_msg-IsSame dp buf z {ret} {dp'} e =
    let ((hdr, r, rest), _, e1) = >>=-eq-some (read_header buf) _ e in
    elim (Bool-cases (is_neg r)) [
      | inl refused ↦ let same : dp ≡ dp' = ground (arith, refused) in rw (← same) (λ i. refl)
      | inr readable ↦ elim (Option-cases (size_error hdr z)) [
        | inr (err, sized) ↦
            let same : dp ≡ dp' = ground (arith, readable, sized) in rw (← same) (λ i. refl)
        | inl fits ↦
            let (found, _, e2) =
              >>=-eq-some (spine_connection_lookup (turn_off_fto_timer dp) (hdr.socket_id % 2 ^ 16))
                _ (rw (readable, fits) at e1) in
            delivered hdr rest found e2
      ]
    ]
  where
    quiet : SpineDatapath
    quiet = turn_off_fto_timer dp

    quiet-IsSame : IsSame dp quiet
    quiet-IsSame = IsSame-table dp quiet refl

    delivered :
        (hdr : SpineMsgHeader) (rest : Bytes) (found : Option ℕ)
        → (elim found as (λ _. Option (ℤ × SpineDatapath)) [
          | none ↦ some (spine_unknown_connection, quiet)
          | some p ↦ stage_msg hdr quiet p rest
        ])
          ≡ some (ret, dp')
        → IsSame dp dp'
    delivered hdr rest none h =
        let same : quiet ≡ dp' = ground (arith, h) in rw (← same) quiet-IsSame
    delivered hdr rest (some p) h = λ i. stage_msg-IsSame hdr quiet p rest h i ∙ quiet-IsSame i

pub check_fto-IsSame : (since_last : ℕ) (dp : SpineDatapath) → IsSame dp (check_fto since_last dp).1
check_fto-IsSame since_last dp =
    IsSame-table dp (check_fto since_last dp).1
      (ap (λ r. r.1.spine_active_connections) (check_fto_lem since_last dp))

module _ {S : Type 0} (m : CongestionControl S) (kernel : Kernel) (dp : SpineDatapath) (p : ℕ)
    (conn : SpineConnection) (v : IsValid dp) (at_p : conn_at dp p ≡ some conn)
    (own : conn.index ≡ suc p) where
  invoke_on-IsSame :
      (ptr : StatePtr) (s : S) {ret : ℤ} {dp' : SpineDatapath} {s' : S}
      → conn.state ≡ ptr
      → invoke_on m kernel dp p conn ptr s ≡ some (ret, dp', s')
      → spine_invoke m kernel dp (some p) s ≡ some (ret, dp', s')
      → IsSame dp dp'
  unfolding invoke_on
  invoke_on-IsSame null s {ret} {dp'} is e run =
      let same : dp ≡ dp' = ground arith in rw (← same) (λ i. refl)
  invoke_on-IsSame dangling s is e run = absurd (cc)
  invoke_on-IsSame (live st) s {ret} {dp'} is e run =
      let (t, h, last, st', same, _, _, _, _) =
        spine_invoke_frame m kernel dp p conn st s v at_p own is run in
      let new : SpineConnection = record conn { last_create_msg_sent = last; state = live st' } in
      rw same (flows_same dp p t h new at_p refl refl)

  pub spine_invoke-IsSame :
      (s : S) {ret : ℤ} {dp' : SpineDatapath} {s' : S}
      → spine_invoke m kernel dp (some p) s ≡ some (ret, dp', s')
      → IsSame dp dp'
  unfolding spine_invoke
  spine_invoke-IsSame s e = invoke_on-IsSame conn.state s refl (rw at_p at e) e
