-- ===== src/Load/Outcome.antt =====
-- What the register functions of src/tcp_vanilla.c, src/tcp_neo.c and src/tcp_scubic.c leave, on every
-- branch, and that a loaded module runs and unloads.
use spine_kernel.Prelude.{
  ℕ, ◌≡◌, ◌≢◌, refl, Bool, true, false, not, none, some, [], ◌∷◌, ℤ, pos, negsuc, is_neg, length,
  arith, Bool-cases, inl, inr,
}
use spine_kernel.Wire.{ready}
use spine_kernel.Wire.Flows.{control_msg}
use spine_kernel.Datapath.State.{SpineDatapath, SpineDatapathInfo, Kernel, spine_ok}
use spine_kernel.Datapath.Registry.{spine_connection_start, spine_connection_free}
use spine_kernel.Datapath.Registry.Slots.{IsValid}
use spine_kernel.Datapath.Invoke.{CongestionControl}
use spine_kernel.Datapath.Timer.{is_missing_arg}
use spine_kernel.Datapath.Timer.Init.{spine_init_lem}
use spine_kernel.Datapath.Timer.{spine_init}
use spine_kernel.Datapath.Run.{IsFresh, Reach, Reach-IsValid}
use spine_kernel.Netlink.{absent, held, released, give_back, spine_nl_sk, free_spine_nl_sk}
use spine_kernel.Load.{
  Loader, Holdings, nothing_held, preset, configure, connect, register, unregister,
}

-- The datapath of a loaded module: its table is zeroed, and the ready message has gone out.
abbrev pub loaded : Bool → Loader → SpineDatapath
loaded fetches l = record (configure fetches (preset l.raw)) {
  time_zero = l.kernel.now 0;
  last_msg_sent = 0;
  in_fallback = false;
  sent = record { bytes = control_msg ready 0; msg_size = pos 12 } ∷ [];
}

-- Memory and socket are held.
abbrev pub holding : Bool → Holdings
holding ops = record {
  datapath = held;
  table = held;
  netlink = record { reader = true; nl_sk = held };
  ops = ops;
}

started_lem :
    (fetches : Bool) (l : Loader)
    → spine_init l.kernel (configure fetches (preset l.raw)) 0 ≡ some (spine_ok, loaded fetches l)
unfolding configure preset
started_lem fetches l =
    let present : is_missing_arg (configure fetches (preset l.raw)) ≡ false =
      unfold configure preset in refl in
    let unsent : (configure fetches (preset l.raw)).sent ≡ [] = unfold configure preset in refl in
    rw unsent at ((spine_init_lem l.kernel (configure fetches (preset l.raw)) 0).1 present)

connect_fails :
    (l : Loader) (h : Holdings) (dp : SpineDatapath)
    → l.socket_created ≡ false
    → connect l h dp
      ≡ some (negsuc 2, record h { netlink = record { reader = true; nl_sk = absent } }, dp)
unfolding connect spine_nl_sk
connect_fails l h dp c = rw c refl

connect_lem :
    (l : Loader) (h : Holdings) (dp dp' : SpineDatapath)
    → l.socket_created ≡ true
    → spine_init l.kernel dp 0 ≡ some (spine_ok, dp')
    → connect l h dp
      ≡ some (
        l.registered,
        record h {
          netlink = record { reader = true; nl_sk = held };
          ops = not (is_neg l.registered);
        },
        dp',
      )
unfolding connect spine_nl_sk
connect_lem l h dp dp' c init = rw (c, init) refl

-- Every branch of a register function. Without memory for the datapath it returns -1 and holds nothing;
-- without memory for the table it returns -2 and still holds the datapath; without a netlink socket it
-- returns -3 and still holds both. Else the datapath has a zeroed table and has sent the ready message,
-- -4 is never returned, and the result is that of `tcp_register_congestion_control`: even if that
-- failed, the memory and the open socket are held.
pub register_lem :
    (fetches : Bool) (l : Loader)
    → (l.datapath_allocated ≡ false → register fetches l ≡ some (negsuc 0, nothing_held, l.raw))
      × (l.datapath_allocated ≡ true
          → l.table_allocated ≡ false
          → register fetches l
            ≡ some (negsuc 1, record nothing_held { datapath = held }, preset l.raw))
      × (l.datapath_allocated ≡ true
          → l.table_allocated ≡ true
          → l.socket_created ≡ false
          → register fetches l
            ≡ some (
              negsuc 2,
              record (holding false) { netlink = record { reader = true; nl_sk = absent } },
              configure fetches (preset l.raw),
            ))
      × (l.datapath_allocated ≡ true
          → l.table_allocated ≡ true
          → l.socket_created ≡ true
          → register fetches l
            ≡ some (l.registered, holding (not (is_neg l.registered)), loaded fetches l))
unfolding register connect
register_lem fetches l = (
  λ a. rw a refl,
  λ a b. rw (a, b) refl,
  λ a b c.
      rw (a, b)
        (connect_fails l (record nothing_held { datapath = held; table = held })
          (configure fetches (preset l.raw)) c),
  λ a b c.
      rw (a, b)
        (connect_lem l (record nothing_held { datapath = held; table = held })
          (configure fetches (preset l.raw)) (loaded fetches l) c (started_lem fetches l)),
)

-- The table of a module that is loaded is zeroed.
pub loaded-IsFresh : (fetches : Bool) (l : Loader) → IsFresh (loaded fetches l)
unfolding configure preset
loaded-IsFresh fetches l = record { zeroed = refl; small = omega arith }

-- A register function that returns no error has obtained everything.
pub register_success :
    (fetches : Bool) (l : Loader) {ret : ℤ} {h : Holdings} {dp : SpineDatapath}
    → register fetches l ≡ some (ret, h, dp)
    → is_neg ret ≡ false
    → (dp ≡ loaded fetches l) × (h ≡ holding true)
register_success fetches l {ret} {h} {dp} ran good =
    let (no_memory, no_table, no_socket, all) = register_lem fetches l in
    elim (Bool-cases l.datapath_allocated) [
      | inr a ↦ absurd (refused (no_memory a))
      | inl a ↦ elim (Bool-cases l.table_allocated) [
        | inr b ↦ absurd (refused (no_table a b))
        | inl b ↦ elim (Bool-cases l.socket_created) [
          | inr c ↦ absurd (refused (no_socket a b c))
          | inl c ↦
              let done = all a b c in
              let same : ret ≡ l.registered = cc in
              let ops : not (is_neg l.registered) ≡ true = rw (← same, good) refl in
              let is_holding : h ≡ holding (not (is_neg l.registered)) = cc in
              (cc, rw ops at is_holding)
        ]
      ]
    ]
  where
    refused :
        {n : ℕ} {h' : Holdings} {dp' : SpineDatapath}
        → register fetches l ≡ some (negsuc n, h', dp')
        → ⊥
    refused {n} {h'} {dp'} failed = let same : ret ≡ negsuc n = cc in ground (arith, same, good)

-- A module that loads, runs and unloads: if its register function returns no error, then whatever calls
-- of the datapath library follow and return, with every message of the agent and every answer of the
-- kernel, the table stays valid, and flows can be started and freed without a fault; unloading gives
-- back the memory and the socket, each once.
pub register-Reach :
    {S : Type 0} (m : CongestionControl S) (fetches : Bool) (l : Loader) {ret : ℤ} {h : Holdings}
    {dp dp' : SpineDatapath}
    → register fetches l ≡ some (ret, h, dp)
    → is_neg ret ≡ false
    → Reach m dp dp'
    → IsValid dp'
      × ((kernel : Kernel) (impl : ℕ) (info : SpineDatapathInfo)
          → length info.cong_alg ≡ 64
          → spine_connection_start kernel dp' impl info ≢ none)
      × ((kernel : Kernel) (sid : ℕ) → spine_connection_free kernel dp' sid ≢ none)
      × (unregister h
          ≡ some (record {
            datapath = released;
            table = released;
            netlink = record { reader = true; nl_sk = released };
            ops = false;
          }))
unfolding unregister give_back free_spine_nl_sk
register-Reach m fetches l {ret} {h} {dp} {dp'} ran good reach =
    let (is_loaded, is_holding) = register_success fetches l ran good in
    let (v, starts, frees) = Reach-IsValid m (loaded-IsFresh fetches l) (rw is_loaded at reach) in
    (v, starts, frees, rw is_holding refl)
