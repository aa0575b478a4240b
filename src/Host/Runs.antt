-- ===== src/Host/Runs.antt =====
-- Runs of the kernel module, from the moment it is loaded: any sequence of callbacks on its sockets, with
-- the agent's messages between them.
use spine_kernel.Prelude.{arith, ℕ, suc, true, refl, ◌≡◌, ◌≢◌, false, Bool, none, some, ℤ, is_neg}
use spine_kernel.Datapath.State.{SpineDatapath, SpineConnection, Pointers}
use spine_kernel.Datapath.Registry.{conn_at}
use spine_kernel.Datapath.Run.{IsFresh, IsFresh-IsValid}
use spine_kernel.Load.{Loader, Holdings, register, unregister}
use spine_kernel.Netlink.{released, give_back, free_spine_nl_sk}
use spine_kernel.Load.Outcome.{loaded-IsFresh, register_success}
use spine_kernel.Tcp.{TcpSock}
use spine_kernel.Tcp.Ops.{TcpCongestionOps, IsLawful}
use spine_kernel.Host.{Host, Event, socket_of, is_message, step, May, Reach, here, next}
use spine_kernel.Host.Sound.{IsSound, same_owner, owner_slot}
use spine_kernel.Host.Steps.{step-IsSound, step-kept, IsAside-socket_of}

-- The host of a module that has just been loaded: no socket uses it.
abbrev pub loaded_host : {S : Type 0} → Holdings → SpineDatapath → Host S
loaded_host holdings dp = record { dp = dp; netlink = holdings.netlink; socks = λ sk. none }

module _ {S Opening Call : Type 0} (ops : TcpCongestionOps S Opening Call) (Good : S → Type 0)
    (Uses : Pointers → Type 0) (CanOpen : Opening → TcpSock → Type 0)
    (CanCall : Call → TcpSock → Type 0) (law : IsLawful ops Good Uses CanOpen CanCall) where
  loaded_host-IsSound :
      (holdings : Holdings) (dp : SpineDatapath)
      → IsFresh dp
      → IsSound ops Good (loaded_host holdings dp)
  loaded_host-IsSound holdings dp fresh = record {
    valid = IsFresh-IsValid dp fresh;
    owns = λ sk tp ca e. absurd (cc);
    good = λ sk tp ca e. absurd (cc);
  }

  run-IsSound :
      {h h' : Host S}
      → Uses h.dp.pointers
      → IsSound ops Good h
      → Reach ops CanOpen CanCall h h'
      → IsSound ops Good h' × Uses h'.dp.pointers
  run-IsSound uses s here = (s, uses)
  run-IsSound {h} {h'} uses s (next {h' = before} e r can run) =
      let (sound, uses') = run-IsSound uses s r in
      let (sound', _, same) =
        step-kept ops Good Uses CanOpen CanCall law e before uses' sound can run in
      (sound', rw same uses')

  module _ (fetches : Bool) (l : Loader) {ret : ℤ} {holdings : Holdings} {dp : SpineDatapath}
      {h : Host S} (ran : register fetches l ≡ some (ret, holdings, dp))
      (success : is_neg ret ≡ false) (uses : Uses dp.pointers)
      (reach : Reach ops CanOpen CanCall (loaded_host holdings dp) h) where
    IsSound-run : IsSound ops Good h × Uses h.dp.pointers
    IsSound-run =
        let (is_loaded, is_holding) = register_success fetches l ran success in
        run-IsSound uses (loaded_host-IsSound holdings dp (rw is_loaded (loaded-IsFresh fetches l)))
          reach

    -- Such a run leads to sound hosts only.
    pub loaded-IsSound : IsSound ops Good h
    loaded-IsSound = IsSound-run.0

    -- The whole kernel module: once a register function has returned no error, with pointers that the
    -- module can work with, take any sequence of sockets taking up the module, callbacks on any of them,
    -- changes of their fields by TCP, sockets leaving, messages of the agent that return and calls of
    -- `check_fto`, in any order, with every answer of the kernel. If the module keeps its contract and the
    -- environment its side, the next event, unless it is a message, does not fault; whenever an event
    -- returns, a message as well, every socket of the host still owns its connection and has good
    -- state; and unloading gives back the memory and the socket, each once.
    pub register-step :
        (e : Event S Opening Call)
        → May ops CanOpen CanCall e h
        → (is_message e ≡ false → step ops e h ≢ none)
          × ((h' : Host S) → step ops e h ≡ some h' → IsSound ops Good h')
          × (unregister holdings
              ≡ some (record {
                datapath = released;
                table = released;
                netlink = record { reader = true; nl_sk = released };
                ops = false;
              }))
    unfolding unregister give_back free_spine_nl_sk
    register-step e can =
        let (sound, usable) = IsSound-run in
        let (_, is_holding) = register_success fetches l ran success in
        (
          λ unsaid fault.
              let (h', run, _, _, _) =
                step-IsSound ops Good Uses CanOpen CanCall law e h usable sound unsaid can in
              absurd (ground (arith, run, fault)),
          λ h' run. (step-kept ops Good Uses CanOpen CanCall law e h usable sound can run).0,
          rw is_holding refl,
        )

    -- Sockets do not disturb each other: in every such run, an event of one socket that returns leaves
    -- another socket that has a connection as it was: its fields and its state, and the slot of its
    -- connection, with all that the agent has staged there.
    pub step-IsAside :
        (e : Event S Opening Call) (h' : Host S) (sk sk' : ℕ) (tp : TcpSock) (ca : S) (p : ℕ)
        → May ops CanOpen CanCall e h
        → step ops e h ≡ some h'
        → socket_of e ≡ some sk
        → sk' ≢ sk
        → h.socks sk' ≡ some (tp, ca)
        → ops.conn ca ≡ some p
        → (h'.socks sk' ≡ some (tp, ca)) × (conn_at h'.dp p ≡ conn_at h.dp p)
    step-IsAside e h' sk sk' tp ca p can run about apart at_sk at_p =
        let (sound, usable) = IsSound-run in
        let (_, aside, _) = step-kept ops Good Uses CanOpen CanCall law e h usable sound can run in
        IsAside-socket_of ops Good e h h' sk aside about sk' tp ca p apart at_sk at_p

    -- In every such run two sockets with the same connection are one, and the address of its socket that
    -- the connection holds, by which `set_params` finds the module's state, is that of this socket. The
    -- flow is under the module's own algorithm, which `set_params` tests.
    pub one_owner :
        (sk sk' : ℕ) (tp tp' : TcpSock) (ca ca' : S) (p : ℕ)
        → h.socks sk ≡ some (tp, ca)
        → h.socks sk' ≡ some (tp', ca')
        → ops.conn ca ≡ some p
        → ops.conn ca' ≡ some p
        → (sk' ≡ sk)
          × (c : SpineConnection) × (conn_at h.dp p ≡ some c)
          × (c.index ≡ suc p)
          × (c.impl ≡ sk)
          × (c.flow_info.alg ≡ ops.alg)
    one_owner sk sk' tp tp' ca ca' p at_sk at_sk' at_p at_p' =
        let own = loaded-IsSound.owns sk tp ca at_sk in
        let (c, at_c, own_index, of_sk, ours) = owner_slot h.dp sk p ops.alg (rw at_p at own) in
        (
          same_owner h.dp sk' sk ops.alg (ops.conn ca') (ops.conn ca) p
              (loaded-IsSound.owns sk' tp' ca' at_sk') own at_p' at_p,
          c,
          at_c,
          own_index,
          of_sk,
          ours,
        )
