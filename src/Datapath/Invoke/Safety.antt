-- ===== src/Datapath/Invoke/Safety.antt =====
-- `spine_invoke` of src/lib/spine.c runs without a fault on every open connection, and keeps the
-- table valid.
use spine_kernel.Prelude.{
  ℕ, suc, ◌%◌, ◌^◌, ◌≤◌, get_elem?_bound, ◌≡◌, ◌≢◌, ◌⊎◌, refl, sym, ap, ◌∙◌, inl, inr, true, false,
  some, List, ℤ, is_neg, length, Bool-cases, arith, ltb, ◌&&◌, >>=-eq-some,
}
use spine_kernel.Datapath.State.{
  SpineDatapath, SpineConnection, SpinePrivState, Pointers, null, live, Kernel, Sent, cleared,
  spine_ok,
}
use spine_kernel.Datapath.Registry.{
  create_timeout_us, is_create_pending, conn_at, put_conn, spine_conn_create_success,
}
use spine_kernel.Datapath.Registry.Slots.{
  IsSlot, HasStaged, IsOpen, conn_at-put_conn, conn_at-put_conn_ne, IsValid, IsValid-IsSlot,
  put_conn-IsValid,
}
use spine_kernel.Datapath.Registry.Start.{
  send_conn_create_frame, send_conn_create-send_msg, send_conn_create-last,
}
use spine_kernel.Datapath.Invoke.{
  CongestionControl, invoke_staged, invoke_on, invoke_create, spine_invoke, enforce, answer,
  staged_params,
}
use spine_kernel.Datapath.Invoke.Measurements.{answer_frame, answer_returns, enforced}

-- What `spine_invoke` relies on in a module, on a datapath with the pointers `ptrs` and a connection of
-- the socket `sk`: on good state `set_params` returns good state, whatever its parameters; and if
-- `fetch_measurements` is set, so that it can be called, then it returns at most 16 values, which is the
-- room in `tmp_measurements`.
abbrev pub Obeys : {S : Type 0} → CongestionControl S → (S → Type 0) → Pointers → ℕ → Type 0
Obeys {S} m Good ptrs sk =
    (conn : SpineConnection)
    → conn.impl ≡ sk
    → (s : S) → Good s
    → ((vs : List ℕ) → (s' : S) × (m.set_params conn vs (length vs) s ≡ some s') × Good s')
      × ((r : ℕ)
          → ptrs.fetch_measurements ≡ true
          → (fs : List ℕ) × (m.fetch_measurements conn r s ≡ some fs) × (length fs ≤ 16))

-- Changes to the timer, the messages sent and one good slot keep the table valid.
pub touched-IsValid :
    (dp : SpineDatapath) (p t : ℕ) (h : List Sent) (c : SpineConnection)
    → IsValid dp
    → IsSlot dp.max_connections p c
    → IsValid (put_conn p c (record dp { last_msg_sent = t; sent = h }))
touched-IsValid dp p t h c v s =
    put_conn-IsValid (record dp { last_msg_sent = t; sent = h }) p c
      (record { room = v.room; small = v.small; slots = v.slots }) s

live-IsSlot :
    (n p : ℕ) (c : SpineConnection) (st st' : SpinePrivState) (last : ℕ)
    → IsSlot n p c
    → c.state ≡ live st
    → HasStaged (live st')
    → IsSlot n p (record c { last_create_msg_sent = last; state = live st' })
live-IsSlot n p c st st' last s e h = record {
  own = s.own;
  kept = inr refl;
  last = λ end. absurd (null_live (s.last end));
  name = s.name;
  staged = h;
}
  where
    null_live : c.state ≡ null → ⊥
    null_live z = cc

-- The kernel sends what it is asked to send, and at least 100 ms have passed since `last`.
abbrev pub IsDelivering : Kernel → ℕ → Type 0
IsDelivering kernel last =
    (is_neg kernel.send_msg ≡ false) × (create_timeout_us ≤ kernel.since_usecs last)

enforced_returns :
    {S : Type 0} (m : CongestionControl S) (Good : S → Type 0) (dp : SpineDatapath)
    (conn : SpineConnection) (vs : List ℕ) (s : S)
    → Obeys m Good dp.pointers conn.impl
    → Good s
    → (s' : S) × (enforce m dp conn vs s ≡ some s') × Good s'
unfolding enforce
enforced_returns m Good dp conn vs s obeys good =
    elim (Bool-cases (ltb 0 (length vs) && dp.pointers.set_params)) [
      | inr off ↦ (s, rw off refl, good)
      | inl on ↦ let (s', run, good') = (obeys conn refl s good).0 vs in (s', rw on run, good')
    ]

-- The two ways of `spine_invoke` on a connection with private state.
module _ {S : Type 0} (m : CongestionControl S) (kernel : Kernel) (dp : SpineDatapath) (p : ℕ)
    (conn : SpineConnection) (st : SpinePrivState) (s : S) (e : conn_at dp p ≡ some conn)
    (l : conn.state ≡ live st) where
  once_created :
      st.sent_create ≡ true
      → spine_invoke m kernel dp (some p) s ≡ invoke_staged m kernel dp p conn st s
  unfolding spine_invoke invoke_on
  once_created created =
      rw e refl ∙ ap (λ ptr. invoke_on m kernel dp p conn ptr s) l ∙ simp created refl

  until_created :
      st.sent_create ≡ false
      → spine_invoke m kernel dp (some p) s ≡ invoke_create m kernel dp p conn s
  unfolding spine_invoke invoke_on
  until_created fresh =
      rw e refl ∙ ap (λ ptr. invoke_on m kernel dp p conn ptr s) l ∙ simp fresh refl

-- Whenever `spine_invoke` on an open connection with private state returns, only the timer, the messages
-- sent and the connection's slot have changed, and the slot is still one of the same index, socket and
-- flow.
pub spine_invoke_frame :
    {S : Type 0} (m : CongestionControl S) (kernel : Kernel) (dp : SpineDatapath) (p : ℕ)
    (conn : SpineConnection) (st : SpinePrivState) (s : S) {ret : ℤ} {dp' : SpineDatapath} {s' : S}
    → IsValid dp
    → conn_at dp p ≡ some conn
    → conn.index ≡ suc p
    → conn.state ≡ live st
    → spine_invoke m kernel dp (some p) s ≡ some (ret, dp', s')
    → (t : ℕ) × (h : List Sent) × (last : ℕ) × (st' : SpinePrivState) × (dp'
        ≡ put_conn p
            (record conn { last_create_msg_sent = last; state = live st' })
            (record dp { last_msg_sent = t; sent = h }))
      × HasStaged (live st')
      × (st.sent_create ≡ true → st'.sent_create ≡ true)
      × (IsDelivering kernel conn.last_create_msg_sent → st'.sent_create ≡ true)
      × ((last ≡ conn.last_create_msg_sent) ⊎ (last ≡ kernel.now 0))
unfolding invoke_staged invoke_create spine_conn_create_success
spine_invoke_frame m kernel dp p conn st s {ret} {dp'} {s'} v e i l run =
    elim (Bool-cases st.sent_create) [
      | inl created ↦
          let staged = sym (once_created m kernel dp p conn st s e l created) ∙ run in
          let (s₁, set, run₁) = >>=-eq-some (enforced m dp conn st s) _ staged in
          let ((r, dp₁), answered, run₂) =
            >>=-eq-some (answer m kernel dp conn st.pending_update s₁) _ run₁ in
          let (t, h, same) =
            answer_frame m kernel dp conn st.pending_update s₁ (omega (arith, i)) answered in
          let st' : SpinePrivState = record st { pending_update = cleared } in
          let end : put_conn p (record conn { state = live st' }) dp₁ ≡ dp' = cc in
          (
            t,
            h,
            conn.last_create_msg_sent,
            st',
            rw same at (sym end),
            (refl, refl),
            λ out. out,
            λ good. created,
            inl refl,
          )
      | inr fresh ↦
          let created = sym (until_created m kernel dp p conn st s e l fresh) ∙ run in
          let (r, t, h, last, sent) = send_conn_create_frame kernel dp conn slot.name in
          elim (Bool-cases (is_neg r)) [
            | inl failed ↦ (
              t,
              h,
              last,
              st,
              ground (arith, created, sent, failed, l),
              before,
              λ out. out,
              λ good.
                  let same =
                    send_conn_create-send_msg kernel dp conn slot.name (elapsed good)
                      (omega (arith, i)) sent in
                  absurd (ground (arith, good.0, failed, same)),
              send_conn_create-last kernel dp conn sent,
            )
            | inr done ↦ (
              t,
              h,
              last,
              record st { sent_create = true },
              ground (arith, created, sent, done, l),
              before,
              λ out. refl,
              λ good. refl,
              send_conn_create-last kernel dp conn sent,
            )
          ]
    ]
  where
    elapsed : IsDelivering kernel conn.last_create_msg_sent → is_create_pending kernel conn ≡ false
    elapsed (sends, old) = ground (arith, old)

    slot : IsSlot dp.max_connections p conn
    slot = IsValid-IsSlot dp p v e

    before : HasStaged (live st)
    before = rw l at slot.staged

-- What a call of `spine_invoke` on the open connection `p` leaves of the datapath.
pub record IsInvoked (kernel : Kernel) (dp : SpineDatapath) (p : ℕ) (o : IsOpen dp p)
    (dp' : SpineDatapath) : Type 0 where
  pub valid : IsValid dp'
  pub still : IsOpen dp' p
  pub stays : o.priv.sent_create ≡ true → still.priv.sent_create ≡ true
  pub created : IsDelivering kernel o.conn.last_create_msg_sent → still.priv.sent_create ≡ true
  pub last :
      (still.conn.last_create_msg_sent ≡ o.conn.last_create_msg_sent)
      ⊎ (still.conn.last_create_msg_sent ≡ kernel.now 0)
  pub others : (j : ℕ) → j ≢ p → conn_at dp' j ≡ conn_at dp j
  pub impl : still.conn.impl ≡ o.conn.impl
  pub flow_info : still.conn.flow_info ≡ o.conn.flow_info
  pub pointers : dp'.pointers ≡ dp.pointers

-- Whenever `spine_invoke` on an open connection returns, it leaves the datapath so.
pub spine_invoke-IsInvoked :
    {S : Type 0} (m : CongestionControl S) (kernel : Kernel) (dp : SpineDatapath) (p : ℕ) (s : S)
    {ret : ℤ} {dp' : SpineDatapath} {s' : S}
    → IsValid dp
    → (o : IsOpen dp p) → spine_invoke m kernel dp (some p) s ≡ some (ret, dp', s')
    → IsInvoked kernel dp p o dp'
spine_invoke-IsInvoked m kernel dp p s v o run =
    let (t, h, last, st', same, staged, stays, created, moved) =
      spine_invoke_frame m kernel dp p o.conn o.priv s v o.at_p o.own_index o.has_state run in
    let quiet : SpineDatapath = record dp { last_msg_sent = t; sent = h } in
    let new : SpineConnection = record o.conn { last_create_msg_sent = last; state = live st' } in
    let bound = get_elem?_bound dp.spine_active_connections p o.at_p in
    rw same (record {
      valid = touched-IsValid dp p t h new v (
          live-IsSlot dp.max_connections p o.conn o.priv st' last (IsValid-IsSlot dp p v o.at_p)
            o.has_state staged);
      still = record {
        conn = new;
        priv = st';
        at_p = conn_at-put_conn p new quiet bound;
        own_index = o.own_index;
        has_state = refl;
      };
      stays = stays;
      created = created;
      last = moved;
      others = λ j n. conn_at-put_conn_ne p j new quiet n;
      impl = refl;
      flow_info = refl;
      pointers = refl;
    })

-- `spine_invoke` on an open connection with private state runs without a fault, whatever the kernel
-- answers and whatever is staged, if the module obeys; the state stays good.
pub spine_invoke_returns :
    {S : Type 0} (m : CongestionControl S) (Good : S → Type 0) (kernel : Kernel)
    (dp : SpineDatapath) (p : ℕ) (conn : SpineConnection) (st : SpinePrivState) (s : S)
    → Obeys m Good dp.pointers conn.impl
    → Good s
    → IsValid dp
    → conn_at dp p ≡ some conn
    → conn.index ≡ suc p
    → conn.state ≡ live st
    → (ret : ℤ) × (dp' : SpineDatapath) × (s' : S) × (spine_invoke m kernel dp (some p) s
        ≡ some (ret, dp', s'))
      × Good s'
unfolding invoke_staged invoke_create spine_conn_create_success
spine_invoke_returns m Good kernel dp p conn st s obeys good v e i l =
    elim (Bool-cases st.sent_create) [
      | inl created ↦
          let u = st.pending_update in
          let vs = staged_params u.control_is_pending u.control_registers in
          let (s', set, good') = enforced_returns m Good dp conn vs s obeys good in
          let (ret, dp', answered) =
            answer_returns m kernel dp conn u s' (omega (arith, i))
              ((obeys conn refl s' good').1 (u.measure_registers % 2 ^ 32)) in
          (
            ret,
            put_conn p (record conn { state = live (record st { pending_update = cleared }) }) dp',
            s',
            once_created m kernel dp p conn st s e l created ∙ rw (set, answered) refl,
            good',
          )
      | inr fresh ↦
          let (r, t, h, last, sent) =
            send_conn_create_frame kernel dp conn (IsValid-IsSlot dp p v e).name in
          elim (Bool-cases (is_neg r)) [
            | inl failed ↦ (
              spine_ok,
              put_conn p (record conn { last_create_msg_sent = last })
                  (record dp { last_msg_sent = t; sent = h }),
              s,
              until_created m kernel dp p conn st s e l fresh ∙ ground (arith, sent, failed),
              good,
            )
            | inr done ↦ (
              spine_ok,
              put_conn p
                  (record conn {
                    last_create_msg_sent = last;
                    state = live (record st { sent_create = true });
                  })
                  (record dp { last_msg_sent = t; sent = h }),
              s,
              until_created m kernel dp p conn st s e l fresh ∙ ground (arith, sent, done, l),
              good,
            )
          ]
    ]

-- Both together: on an open connection `spine_invoke` runs without a fault; the table stays valid, the
-- connection open and with the same socket and flow, every other slot and the pointers as they were, and
-- the state good. A connection whose create message is out stays so, and one whose is not has it sent if
-- the kernel delivers.
pub spine_invoke-IsValid :
    {S : Type 0} (m : CongestionControl S) (Good : S → Type 0) (kernel : Kernel)
    (dp : SpineDatapath) (p : ℕ) (s : S)
    → (o : IsOpen dp p) → Obeys m Good dp.pointers o.conn.impl
    → Good s
    → IsValid dp
    → (ret : ℤ) × (dp' : SpineDatapath) × (s' : S) × (spine_invoke m kernel dp (some p) s
        ≡ some (ret, dp', s'))
      × Good s'
      × IsInvoked kernel dp p o dp'
spine_invoke-IsValid m Good kernel dp p s o obeys good v =
    let (ret, dp', s', run, good') =
      spine_invoke_returns m Good kernel dp p o.conn o.priv s obeys good v o.at_p o.own_index
        o.has_state in
    (ret, dp', s', run, good', spine_invoke-IsInvoked m kernel dp p s v o run)
