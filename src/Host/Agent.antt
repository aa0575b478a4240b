-- ===== src/Host/Agent.antt =====
-- The agent's parameters in a running kernel module: a message to one of many sockets of src/tcp_vanilla.c, and
-- that socket's next `cong_control`.
use spine_kernel.Prelude.{
  ℕ, suc, ◌*◌, ◌/◌, ◌%◌, ◌^◌, ◌≤◌, ◌<◌, ◌≡◌, refl, ap, sym, ◌∙◌, ℤ, Option, none, true, false, not,
  ◌&&◌, ◌||◌, some, [], ◌∷◌, ◌++◌, ◌+ℤ◌, pos, is_neg, ◌==◌, ==_iff, to_int, Bytes, All, arith,
}
use spine_kernel.Datapath.State.{
  SpineDatapath, SpineConnection, SpinePrivState, live, cleared, Kernel, spine_ok,
}
use spine_kernel.Datapath.Registry.{conn_at}
use spine_kernel.Datapath.Staging.{spine_read_msg}
use spine_kernel.Datapath.Staging.Updates.{update_msg}
use spine_kernel.Datapath.Invoke.{spine_invoke}
use spine_kernel.Datapath.Invoke.Params.{params_fields}
use spine_kernel.Netlink.{Netlink, NlMsg, spine_nl_recv}
use spine_kernel.Tcp.{TcpSock, RateSample, TcpKernel, consult}
use spine_kernel.Tcp.Vanilla.{
  Vanilla, vanilla_module, vanilla_cong_control, lat_inflation, window_change, vanilla_set_cwnd,
}
use spine_kernel.Tcp.Vanilla.Params.{IsParam, spine_read_msg-vanilla_set_params}
use spine_kernel.Tcp.Vanilla.Safety.{IsHealthy}
use spine_kernel.Tcp.Ops.Vanilla.{vanilla, vanilla_callback, cong_control}
use spine_kernel.Host.{Host, put_sock, arrives, calls, step}
use spine_kernel.Host.Sound.{IsSound, owner_slot}

-- The update message of four parameters for the connection with the index `sid`.
abbrev pub params_msg : ℕ → ℕ → ℕ → ℕ → ℕ → ℕ → Bytes → NlMsg
params_msg nlmsg_len sid a b c d rest = record {
  nlmsg_len = nlmsg_len;
  payload = update_msg sid 4 (params_fields 0 (a ∷ b ∷ c ∷ d ∷ [])) ++ rest;
}

consult-some :
    (kernel : Kernel) (dp : SpineDatapath) (sk : ℕ) (conn : Option ℕ) (p : ℕ) (ca : Vanilla)
    → conn ≡ some p
    → consult (vanilla_module sk) kernel dp conn ca
      ≡ spine_invoke (vanilla_module sk) kernel dp (some p) ca
unfolding consult
consult-some kernel dp sk none p ca e = absurd (cc)
consult-some kernel dp sk (some q) p ca e = let same : q ≡ p = cc in rw same refl

-- `vanilla_cong_control` out of slow start, by what its call of `spine_invoke` returns.
cong_control-invoked :
    (k : TcpKernel) (kernel : Kernel) (dp dp' : SpineDatapath) (sk : ℕ) (rs : RateSample)
    (tp : TcpSock) (ca s : Vanilla) (p : ℕ) (ret : ℤ)
    → ca.conn ≡ some p
    → spine_invoke (vanilla_module sk) kernel dp (some p) ca ≡ some (ret, dp', s)
    → (k.tcp_in_slow_start tp && not ca.slow_start_passed) ≡ false
    → (is_neg rs.delivered || is_neg rs.interval_us) ≡ false
    → 0 < s.min_rtt_us
    → (n : ℤ) × (let (tp', ca') = vanilla_set_cwnd k tp (record s { cnt = n }) in
        vanilla_cong_control k kernel dp sk rs tp ca ≡ some (dp', tp', ca'))
unfolding vanilla_cong_control lat_inflation
cong_control-invoked k kernel dp dp' sk rs tp ca s p ret at_p invoked fast fine positive =
    let run = consult-some kernel dp sk ca.conn p ca at_p ∙ invoked in
    let nonzero : (s.min_rtt_us == 0) ≡ false = ground (arith, positive) in
    (
      s.cnt +ℤ window_change (tp.srtt_us / 8 * 1024 % 2 ^ 32 / s.min_rtt_us) s,
      rw (fast, fine, run, nonzero) refl,
    )

-- A callback's step, by what the callback returns.
step_calls :
    (k : TcpKernel) (kernel : Kernel) (h : Host Vanilla) (sk : ℕ) (rs : RateSample)
    (tp tp' : TcpSock) (ca ca' : Vanilla) (dp' : SpineDatapath)
    → h.socks sk ≡ some (tp, ca)
    → vanilla_cong_control k kernel h.dp sk rs tp ca ≡ some (dp', tp', ca')
    → step (vanilla k) (calls kernel sk (cong_control rs)) h
      ≡ some (record h { dp = dp'; socks = put_sock sk (some (tp', ca')) h.socks })
unfolding step vanilla_callback
step_calls k kernel h sk rs tp tp' ca ca' dp' at_sk run = rw (at_sk, run) refl

step_arrives :
    (k : TcpKernel) (h : Host Vanilla) (msg : NlMsg) (dp' : SpineDatapath)
    → spine_nl_recv h.netlink h.dp msg ≡ some dp'
    → step (vanilla k) (arrives msg) h ≡ some (record h { dp = dp' })
unfolding step
step_arrives k h msg dp' run = rw run refl

received_lem :
    (nl : Netlink) (dp dp' : SpineDatapath) (msg : NlMsg) (ret : ℤ)
    → nl.reader ≡ true
    → msg.nlmsg_len < 2 ^ 31
    → spine_read_msg dp msg.payload (pos msg.nlmsg_len) ≡ some (ret, dp')
    → spine_nl_recv nl dp msg ≡ some dp'
unfolding spine_nl_recv
received_lem nl dp dp' msg ret ready small run =
    let size : to_int msg.nlmsg_len ≡ pos msg.nlmsg_len = ground arith in rw (ready, size, run) refl

-- From the agent to one socket of many: on a sound host of the vanilla module, take a socket with a
-- connection whose create message is out and that has nothing staged. The netlink message of four
-- parameters a, b, c, d in 1 … 1024 to that connection is received, and the socket's next `cong_control`
-- out of slow start, with a valid sample, runs and leaves alpha, beta, gamma and delta at a, b, 2c and d;
-- every other socket keeps its fields and its state through both.
pub step-vanilla_set_params :
    (k : TcpKernel) (kernel : Kernel) (h : Host Vanilla) (sk p nlmsg_len : ℕ) (tp : TcpSock)
    (ca : Vanilla) (conn : SpineConnection) (st : SpinePrivState) (rs : RateSample) (a b c d : ℕ)
    (rest : Bytes) (sk' : ℕ)
    → IsSound (vanilla k) IsHealthy h
    → h.netlink.reader ≡ true
    → h.dp.pointers.set_params ≡ true
    → h.socks sk ≡ some (tp, ca)
    → ca.conn ≡ some p
    → conn_at h.dp p ≡ some conn
    → conn.state ≡ live st
    → st.sent_create ≡ true
    → st.pending_update ≡ cleared
    → All IsParam (a ∷ b ∷ c ∷ d ∷ [])
    → 64 ≤ nlmsg_len
    → nlmsg_len < 2 ^ 31
    → (k.tcp_in_slow_start tp && not ca.slow_start_passed) ≡ false
    → (is_neg rs.delivered || is_neg rs.interval_us) ≡ false
    → (sk' == sk) ≡ false
    → (h₁ : Host Vanilla) × (h₂ : Host Vanilla) × (tp' : TcpSock) × (ca' : Vanilla) × (step
          (vanilla k)
          (arrives (params_msg nlmsg_len (suc p) a b c d rest))
          h
        ≡ some h₁)
      × (step (vanilla k) (calls kernel sk (cong_control rs)) h₁ ≡ some h₂)
      × (h₂.socks sk ≡ some (tp', ca'))
      × (ca'.alpha ≡ a)
      × (ca'.beta ≡ b)
      × (ca'.gamma ≡ c * 2)
      × (ca'.delta ≡ d)
      × (h₂.socks sk' ≡ h.socks sk')
unfolding vanilla_set_cwnd
step-vanilla_set_params k kernel h sk p len tp ca conn st rs a b c d rest sk' sound ready bound
      at_sk at_p at_conn has_state created clean good long small fast fine other =
    let (c', at_c, own_index, of_sk, ours) =
      owner_slot h.dp sk p (vanilla k).alg (rw at_p at (sound.owns sk tp ca at_sk)) in
    let one : c' ≡ conn = ground (arith, at_c, at_conn) in
    let (dp₁, dp₂, received, invoked) =
      spine_read_msg-vanilla_set_params kernel h.dp p len conn st a b c d rest ca sound.valid
        at_conn (rw one at own_index) (rw one at ours) has_state created clean bound good long in
    let impl : conn.impl ≡ sk = rw one at of_sk in
    let on_socket = ap (λ a. spine_invoke (vanilla_module a) kernel dp₁ (some p) ca) (sym impl) in
    let msg = params_msg len (suc p) a b c d rest in
    let s = record ca { alpha = a; beta = b; gamma = c * 2; delta = d } in
    let (n, run) =
      cong_control-invoked k kernel dp₁ dp₂ sk rs tp ca s p (pos 0) at_p (on_socket ∙ invoked) fast
        fine (sound.good sk tp ca at_sk).2.0 in
    let (tp', ca') = vanilla_set_cwnd k tp (record s { cnt = n }) in
    let h₁ : Host Vanilla = record h { dp = dp₁ } in
    (
      h₁,
      record h₁ { dp = dp₂; socks = put_sock sk (some (tp', ca')) h₁.socks },
      tp',
      ca',
      step_arrives k h msg dp₁ (received_lem h.netlink h.dp dp₁ msg spine_ok ready small received),
      step_calls k kernel h₁ sk rs tp tp' ca ca' dp₂ at_sk run,
      own_entry {tp' = tp'} {ca' = ca'},
      refl {a = a},
      refl {a = b},
      refl {a = c * 2},
      refl {a = d},
      rw other (refl {a = h.socks sk'}),
    )
  where
    own_entry :
        {tp' : TcpSock} {ca' : Vanilla} → put_sock sk (some (tp', ca')) h.socks sk ≡ some (tp', ca')
    own_entry = let here : (sk == sk) ≡ true = (==_iff sk sk).1 refl in rw here refl
