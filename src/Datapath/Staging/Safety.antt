-- ===== src/Datapath/Staging/Safety.antt =====
-- `spine_read_msg` of src/lib/spine.c keeps the table of connections valid, whatever bytes arrive.
use spine_kernel.Prelude.{
  ℕ, zero, suc, ◌%◌, ◌^◌, ◌≡◌, refl, inl, inr, true, ◌||◌, Option, none, some, ℤ, is_neg, ◌==◌,
  if◌then◌else◌, ◌>>=◌, >>=-eq-some, length-set, Bool-cases, Option-cases, arith, Bytes,
}
use spine_kernel.Wire.{
  SpineMsgHeader, UpdateField, read_update_field, update_fields, measure, check_update_fields_msg,
  check_measure_fields_msg, drop_bytes, read_header,
}
use spine_kernel.Datapath.State.{
  SpineDatapath, SpineConnection, SpinePrivState, StagedUpdate, StatePtr, null, live, dangling,
  spine_unknown_connection,
}
use spine_kernel.Datapath.Timer.{turn_off_fto_timer}
use spine_kernel.Datapath.Registry.{conn_at, put_conn, spine_connection_lookup}
use spine_kernel.Datapath.Registry.Slots.{
  IsSlot, IsValid, IsStaged, IsValid-IsSlot, put_conn-IsValid,
}
use spine_kernel.Datapath.Staging.{
  stage_update, stage_multiple_updates, stage_measure_request, read_updates, read_measure,
  pending_of, stage_msg, size_error, spine_read_msg,
}

stage_update-IsStaged :
    (u : StagedUpdate) (f : UpdateField) (ret : ℤ) (u' : StagedUpdate)
    → IsStaged u
    → stage_update u f ≡ some (ret, u')
    → IsStaged u'
unfolding stage_update
stage_update-IsStaged u f ret u' h e = ground (
  arith,
  length-set {0} u.control_is_pending f.reg_index true,
  length-set {0} u.control_registers f.reg_index f.new_value,
)

stage_multiple_updates-IsStaged :
    (u : StagedUpdate) (n : ℕ) (msg : Bytes) (ret : ℤ) (u' : StagedUpdate)
    → IsStaged u
    → stage_multiple_updates u n msg ≡ some (ret, u')
    → IsStaged u'
unfolding stage_multiple_updates
stage_multiple_updates-IsStaged u zero msg ret u' h e = ground arith
stage_multiple_updates-IsStaged u (suc n) msg ret u' h e =
    let ((f, rest), _, e1) = >>=-eq-some (read_update_field msg) _ e in
    let ((r, v), staged, e2) = >>=-eq-some (stage_update u f) _ e1 in
    let hv : IsStaged v = stage_update-IsStaged u f r v h staged in
    elim (Bool-cases (is_neg r)) [
      | inl stop ↦ ground (arith, stop)
      | inr go ↦ stage_multiple_updates-IsStaged v n rest ret u' hv (ground (arith, go))
    ]

read_updates-IsStaged :
    (h : SpineMsgHeader) (u : StagedUpdate) (buf : Bytes) (ret : ℤ) (u' : StagedUpdate)
    → IsStaged u
    → read_updates h u buf ≡ some (ret, u')
    → IsStaged u'
unfolding read_updates
read_updates-IsStaged h u buf ret u' g e =
    let ((r, n), _, e1) = >>=-eq-some (check_update_fields_msg h buf) _ e in
    elim (Bool-cases (is_neg r)) [
      | inl stop ↦ ground (arith, stop)
      | inr go ↦
          let e2 : (drop_bytes 4 buf >>= λ rest. stage_multiple_updates u n rest) ≡ some (ret, u') =
            ground (arith, go) in
          let (rest, _, e3) = >>=-eq-some (drop_bytes 4 buf) _ e2 in
          stage_multiple_updates-IsStaged u n rest ret u' g e3
    ]

read_measure-IsStaged :
    (h : SpineMsgHeader) (u : StagedUpdate) (buf : Bytes) (ret : ℤ) (u' : StagedUpdate)
    → IsStaged u
    → read_measure h u buf ≡ some (ret, u')
    → IsStaged u'
unfolding read_measure stage_measure_request
read_measure-IsStaged h u buf ret u' g e =
    let ((r, n), _, e1) = >>=-eq-some (check_measure_fields_msg h buf) _ e in ground (arith, e1)

pending_of_live : (s : StatePtr) {st : SpinePrivState} → pending_of s ≡ some st → s ≡ live st
unfolding pending_of
pending_of_live null e = absurd (cc)
pending_of_live (live st) e = cc
pending_of_live dangling e = absurd (cc)

-- Staging into an open connection keeps its slot good.
restaged-IsSlot :
    (n p : ℕ) (c : SpineConnection) (st : SpinePrivState) (u : StagedUpdate)
    → IsSlot n p c
    → c.state ≡ live st
    → IsStaged u
    → IsSlot n p (record c { state = live (record st { pending_update = u }) })
restaged-IsSlot n p c st u s e h = record {
  own = s.own;
  kept = inr refl;
  last = λ end. absurd (null_live (s.last end));
  name = s.name;
  staged = h;
}
  where
    null_live : c.state ≡ null → ⊥
    null_live z = cc

stage_msg-IsValid :
    (hdr : SpineMsgHeader) (dp : SpineDatapath) (p : ℕ) (buf : Bytes) (ret : ℤ)
    (dp' : SpineDatapath)
    → IsValid dp
    → stage_msg hdr dp p buf ≡ some (ret, dp')
    → IsValid dp'
unfolding stage_msg
stage_msg-IsValid hdr dp p buf ret dp' v e =
    elim (Bool-cases (hdr.msg_type == update_fields || hdr.msg_type == measure)) [
      | inr other ↦ let same : dp ≡ dp' = ground (arith, other) in rw (← same) v
      | inl ours ↦ staged_by (rw ours at e)
    ]
  where
    result : SpineConnection → SpinePrivState → ℤ × StagedUpdate → Option (ℤ × SpineDatapath)
    result conn st (r, u) =
        some (r, put_conn p (record conn { state = live (record st { pending_update = u }) }) dp)

    reads : SpinePrivState → Option (ℤ × StagedUpdate)
    reads st =
        if hdr.msg_type == update_fields
        then read_updates hdr st.pending_update buf
        else read_measure hdr st.pending_update buf

    reads-IsStaged :
        (st : SpinePrivState) (r : ℤ) (u : StagedUpdate)
        → IsStaged st.pending_update
        → reads st ≡ some (r, u)
        → IsStaged u
    reads-IsStaged st r u h e' = elim (Bool-cases (hdr.msg_type == update_fields)) [
      | inl up ↦ read_updates-IsStaged hdr st.pending_update buf r u h (rw up at e')
      | inr me ↦ read_measure-IsStaged hdr st.pending_update buf r u h (rw me at e')
    ]

    staged_by :
        (conn_at dp p >>= λ conn. pending_of conn.state >>= λ st. reads st >>= result conn st)
          ≡ some (ret, dp')
        → IsValid dp'
    staged_by e0 =
        let (conn, at_p, e1) = >>=-eq-some (conn_at dp p) _ e0 in
        let (st, found, e2) = >>=-eq-some (pending_of conn.state) _ e1 in
        let ((r, u), read, e3) = >>=-eq-some (reads st) _ e2 in
        let s : IsSlot dp.max_connections p conn = IsValid-IsSlot dp p v at_p in
        let is_live : conn.state ≡ live st = pending_of_live conn.state found in
        let before : IsStaged st.pending_update = rw is_live at s.staged in
        let after : IsStaged u = reads-IsStaged st r u before read in
        let end : put_conn p (record conn { state = live (record st { pending_update = u }) }) dp
            ≡ dp' =
          ground (arith, e3) in
        rw (← end) (
          put_conn-IsValid dp p (record conn { state = live (record st { pending_update = u }) }) v
            (restaged-IsSlot dp.max_connections p conn st u s is_live after))

-- Whatever bytes arrive, and whatever size is announced for them: if `spine_read_msg` returns, the
-- table of connections is valid as before.
pub spine_read_msg-IsValid :
    (dp : SpineDatapath) (buf : Bytes) (z ret : ℤ) (dp' : SpineDatapath)
    → IsValid dp
    → spine_read_msg dp buf z ≡ some (ret, dp')
    → IsValid dp'
unfolding spine_read_msg turn_off_fto_timer
spine_read_msg-IsValid dp buf z ret dp' v e =
    let ((hdr, r, rest), _, e1) = >>=-eq-some (read_header buf) _ e in
    elim (Bool-cases (is_neg r)) [
      | inl refused ↦ let same : dp ≡ dp' = ground (arith, refused) in rw (← same) v
      | inr readable ↦ elim (Option-cases (size_error hdr z)) [
        | inr (err, sized) ↦ let same : dp ≡ dp' = ground (arith, readable, sized) in rw (← same) v
        | inl fits ↦
            let (found, _, e2) =
              >>=-eq-some (spine_connection_lookup (turn_off_fto_timer dp) (hdr.socket_id % 2 ^ 16))
                _ (rw (readable, fits) at e1) in
            delivered hdr rest found e2
      ]
    ]
  where
    quiet : SpineDatapath
    quiet = turn_off_fto_timer dp

    quiet-IsValid : IsValid quiet
    quiet-IsValid = record { room = v.room; small = v.small; slots = v.slots }

    delivered :
        (hdr : SpineMsgHeader) (rest : Bytes) (found : Option ℕ)
        → (elim found as (λ _. Option (ℤ × SpineDatapath)) [
          | none ↦ some (spine_unknown_connection, quiet)
          | some p ↦ stage_msg hdr quiet p rest
        ])
          ≡ some (ret, dp')
        → IsValid dp'
    delivered hdr rest none h =
        let same : quiet ≡ dp' = ground (arith, h) in rw (← same) quiet-IsValid
    delivered hdr rest (some p) h = stage_msg-IsValid hdr quiet p rest ret dp' quiet-IsValid h
