-- ===== src/Tcp/Scubic/Agent.antt =====
-- The agent's parameters on their way to src/tcp_scubic.c: `spine_nl_recv`, `spine_read_msg`,
-- `spine_invoke` and `scubic_set_params`.
use spine_kernel.Prelude.{
  ℕ, suc, ◌+◌, ◌-◌, ◌*◌, ◌/◌, ◌^◌, ◌≤◌, ◌<◌, ◌≡◌, refl, ◌∙◌, true, false, ◌||◌, some, [], ◌∷◌, ◌++◌,
  pos, Bytes, leb, ◌==◌, to_int, arith,
}
use spine_kernel.Datapath.State.{
  SpineDatapath, SpineConnection, SpinePrivState, live, cleared, Kernel, spine_cubic,
}
use spine_kernel.Datapath.Registry.{conn_at}
use spine_kernel.Datapath.Registry.Slots.{IsValid}
use spine_kernel.Datapath.Staging.Updates.{update_msg}
use spine_kernel.Datapath.Invoke.{spine_invoke}
use spine_kernel.Datapath.Invoke.Params.{params_fields, spine_read_msg-spine_invoke}
use spine_kernel.Netlink.{Netlink, spine_nl_recv}
use spine_kernel.Tcp.Consult.{through_impl_lem}
use spine_kernel.Tcp.Scubic.{Bictcp, is_invalid, scubic_set_params, bictcp_update_params}
use spine_kernel.Tcp.Scubic.Params.{retuned}
use spine_kernel.Tcp.Scubic.Callbacks.{scubic_module}

abbrev derived : Bictcp → ℕ → ℕ → Bictcp
derived ca scale beta =
    retuned ca scale beta (8 * (1024 + beta) / 3 / (1024 - beta)) (2 ^ 40 / (scale * 10))

scubic_set_params_good :
    (conn : SpineConnection) (scale beta : ℕ) (ca : Bictcp)
    → conn.flow_info.alg ≡ spine_cubic
    → 1 ≤ scale
    → scale ≤ 1023
    → 1 ≤ beta
    → beta ≤ 1023
    → scubic_set_params conn (scale ∷ beta ∷ []) 2 ca ≡ some (derived ca scale beta)
unfolding scubic_set_params bictcp_update_params
scubic_set_params_good conn scale beta ca ours s1 s2 b1 b2 =
    let good : (is_invalid scale || is_invalid beta) ≡ false = ground arith in
    let safe : (leb 1024 beta || scale == 0) ≡ false = ground arith in rw (ours, good, safe) refl

-- From the agent's socket to cubic's curve: an open cubic connection with its create message out and
-- nothing staged gets, over netlink, the update message of a scale and a beta, both in 1 … 1023. Then the
-- next `spine_invoke` on it sets `bic_scale` and `beta` and the two factors computed from them, and
-- nothing else of the module's state.
pub spine_nl_recv-scubic_set_params :
    (nl : Netlink) (kernel : Kernel) (dp : SpineDatapath) (p nlmsg_len : ℕ) (conn : SpineConnection)
    (st : SpinePrivState) (scale beta : ℕ) (rest : Bytes) (ca : Bictcp)
    → nl.reader ≡ true
    → IsValid dp
    → conn_at dp p ≡ some conn
    → conn.index ≡ suc p
    → conn.flow_info.alg ≡ spine_cubic
    → conn.state ≡ live st
    → st.sent_create ≡ true
    → st.pending_update ≡ cleared
    → dp.pointers.set_params ≡ true
    → 1 ≤ scale
    → scale ≤ 1023
    → 1 ≤ beta
    → beta ≤ 1023
    → 38 ≤ nlmsg_len
    → nlmsg_len < 2 ^ 31
    → (dp₁ : SpineDatapath) × (dp₂ : SpineDatapath) × (spine_nl_recv nl dp (record {
      nlmsg_len = nlmsg_len;
      payload = update_msg (suc p) 2 (params_fields 0 (scale ∷ beta ∷ [])) ++ rest;
    })
        ≡ some dp₁)
      × (spine_invoke (scubic_module conn.impl) kernel dp₁ (some p) ca
          ≡ some (
            pos 0,
            dp₂,
            retuned ca scale beta (8 * (1024 + beta) / 3 / (1024 - beta)) (2 ^ 40 / (scale * 10)),
          ))
unfolding spine_nl_recv
spine_nl_recv-scubic_set_params nl kernel dp p len conn st scale beta rest ca ready v e i ours l
      created clean bound s1 s2 b1 b2 long small =
    let (conn', dp₁, received, info, impl, invoked) =
      spine_read_msg-spine_invoke (scubic_module conn.impl) kernel dp p len conn st
        (scale ∷ beta ∷ []) rest ca v e i l created clean bound (omega arith) (omega arith)
        (omega arith, (omega arith, tt)) (omega arith) in
    let size : to_int len ≡ pos len = ground arith in
    let set_both = scubic_set_params_good conn' scale beta ca (rw info ours) s1 s2 b1 b2 in
    (
      dp₁,
      _,
      rw (ready, size, received) refl,
      invoked _ (through_impl_lem conn.impl conn' _ impl ∙ set_both),
    )
