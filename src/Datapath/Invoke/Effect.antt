-- ===== src/Datapath/Invoke/Effect.antt =====
-- What `spine_invoke` of src/lib/spine.c can do to the state of the congestion control module.
use spine_kernel.Prelude.{
  ℕ, ◌≡◌, ◌⊎◌, inl, inr, Option, none, some, List, ℤ, Bool-cases, arith, length, ◌>>=◌, >>=-eq-some,
  ltb, ◌&&◌, is_neg,
}
use spine_kernel.Datapath.State.{
  SpineDatapath, SpineConnection, SpinePrivState, StatePtr, null, live, dangling, Kernel, spine_ok,
}
use spine_kernel.Datapath.Registry.{conn_at, put_conn, spine_conn_create_success, send_conn_create}
use spine_kernel.Datapath.Invoke.{
  CongestionControl, enforce, answer, invoke_staged, invoke_create, invoke_on, spine_invoke,
  staged_params,
}

-- The state is as it was, or as one call of `set_params` leaves it.
abbrev pub Effect : {S : Type 0} → CongestionControl S → S → S → Type 0
Effect m s s' =
    (s' ≡ s)
    ⊎ ((conn : SpineConnection) × (vs : List ℕ) × (m.set_params conn vs (length vs) s ≡ some s'))

module _ {S : Type 0} (m : CongestionControl S) (kernel : Kernel) (dp : SpineDatapath) where
  enforce-Effect :
      (conn : SpineConnection) (vs : List ℕ) (s : S) {s' : S}
      → enforce m dp conn vs s ≡ some s'
      → Effect m s s'
  unfolding enforce
  enforce-Effect conn vs s {s'} e =
      elim (Bool-cases (ltb 0 (length vs) && dp.pointers.set_params)) [
        | inl h ↦ inr (conn, vs, rw h at e)
        | inr h ↦ let same : some s ≡ some s' = rw h at e in inl (cc)
      ]

  invoke_staged-Effect :
      (p : ℕ) (conn : SpineConnection) (st : SpinePrivState) (s : S) {ret : ℤ} {dp' : SpineDatapath}
      {s' : S}
      → invoke_staged m kernel dp p conn st s ≡ some (ret, dp', s')
      → Effect m s s'
  unfolding invoke_staged
  invoke_staged-Effect p conn st s {ret} {dp'} {s'} h =
      let pending = st.pending_update in
      let vs = staged_params pending.control_is_pending pending.control_registers in
      let (s₁, set, rest) = >>=-eq-some (enforce m dp conn vs s) _ h in
      let (r, answered, out) = >>=-eq-some (answer m kernel dp conn pending s₁) _ rest in
      let same : s₁ ≡ s' = cc in rw same at (enforce-Effect conn vs s set)

  invoke_create-Effect :
      (p : ℕ) (conn : SpineConnection) (s : S) {ret : ℤ} {dp' : SpineDatapath} {s' : S}
      → invoke_create m kernel dp p conn s ≡ some (ret, dp', s')
      → Effect m s s'
  unfolding invoke_create spine_conn_create_success
  invoke_create-Effect p conn s {ret} {dp'} {s'} h =
      let (r, sent, out) = >>=-eq-some (send_conn_create kernel dp conn) _ h in
      elim (Bool-cases (is_neg r.0)) [
        | inl failed ↦ let same : s' ≡ s = ground (arith, failed, out) in inl same
        | inr done ↦ inl (
            kept r.2.state (λ state. put_conn p (record r.2 { state = state }) r.1)
              (rw done at out))
      ]
    where
      kept :
          (st : StatePtr) (dp_of : StatePtr → SpineDatapath)
          → ◌>>=◌ {B = ℤ × SpineDatapath × S}
              (spine_conn_create_success st)
              (λ state. some (spine_ok, dp_of state, s))
            ≡ some (ret, dp', s')
          → s' ≡ s
      kept null dp_of h = absurd (cc)
      kept (live st) dp_of h = cc
      kept dangling dp_of h = absurd (cc)

  invoke_on-Effect :
      (p : ℕ) (conn : SpineConnection) (st : StatePtr) (s : S) {ret : ℤ} {dp' : SpineDatapath}
      {s' : S}
      → invoke_on m kernel dp p conn st s ≡ some (ret, dp', s')
      → Effect m s s'
  unfolding invoke_on
  invoke_on-Effect p conn null s {ret} {dp'} {s'} h = let same : s' ≡ s = ground arith in inl same
  invoke_on-Effect p conn (live st) s h = elim (Bool-cases st.sent_create) [
    | inl created ↦ invoke_staged-Effect p conn st s (rw created at h)
    | inr fresh ↦ invoke_create-Effect p conn s (rw fresh at h)
  ]
  invoke_on-Effect p conn dangling s h = absurd (cc)

  -- Whenever `spine_invoke` returns, it has called `set_params` at most once, and has changed the
  -- state of the module in no other way.
  pub spine_invoke-Effect :
      (q : Option ℕ) (s : S) {ret : ℤ} {dp' : SpineDatapath} {s' : S}
      → spine_invoke m kernel dp q s ≡ some (ret, dp', s')
      → Effect m s s'
  unfolding spine_invoke
  spine_invoke-Effect none s {ret} {dp'} {s'} h = let same : s' ≡ s = cc in inl same
  spine_invoke-Effect (some p) s h =
      let (conn, at_p, run) = >>=-eq-some (conn_at dp p) _ h in
      invoke_on-Effect p conn conn.state s run
