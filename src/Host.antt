-- ===== src/Host.antt =====
-- The kernel module at work, as src/tcp_vanilla.c, src/tcp_neo.c and src/tcp_scubic.c are once they are
-- loaded: one datapath (src/lib/spine.c) that all sockets share, the private state that each socket has in the module, and the netlink socket
-- (src/spine_nl.c) by which the agent's messages arrive. TCP calls the callbacks of the module's table in
-- any order, on any of its sockets.
pub mod Sound
pub mod Steps
pub mod Runs
pub mod Agent
use spine_kernel.Prelude.{
  ℕ, ◌≡◌, ◌≢◌, ◌==◌, Bool, true, false, if◌then◌else◌, Option, none, some, ◌>>=◌, length,
}
use spine_kernel.Datapath.State.{SpineDatapath, SpineDatapathInfo, Kernel}
use spine_kernel.Datapath.Timer.{check_fto}
use spine_kernel.Netlink.{Netlink, NlMsg, spine_nl_recv}
use spine_kernel.Tcp.{TcpSock}
use spine_kernel.Tcp.Ops.{TcpCongestionOps}

-- The sockets that use the module, by their address: TCP's fields, and `inet_csk_ca(sk)`.
abbrev pub Sockets : Type 0 → Type 0
Sockets S = ℕ → Option (TcpSock × S)

abbrev pub put_sock : {S : Type 0} → ℕ → Option (TcpSock × S) → Sockets S → Sockets S
put_sock sk entry socks = λ j. if j == sk then entry else socks j

pub record Host (S : Type 0) : Type 0 where
  pub dp : SpineDatapath
  pub netlink : Netlink
  pub socks : Sockets S

-- What happens next: a socket takes up the module (with what its fields and its private memory hold),
-- TCP calls a callback on a socket, TCP sets the fields of a socket, a socket leaves the module, a message
-- of the agent arrives, or `check_fto` runs.
pub data Event (S Opening Call : Type 0) : Type 0 where
  takes_up : Kernel → Opening → (sk : ℕ) → TcpSock → S → Event S Opening Call
  calls : Kernel → (sk : ℕ) → Call → Event S Opening Call
  sets : (sk : ℕ) → TcpSock → Event S Opening Call
  leaves : Kernel → (sk : ℕ) → Event S Opening Call
  arrives : NlMsg → Event S Opening Call
  checks : (since_last : ℕ) → Event S Opening Call

-- A message of the agent, the one event on which the library itself can fault.
abbrev pub is_message : {S Opening Call : Type 0} → Event S Opening Call → Bool
is_message (takes_up kernel o sk tp ca) = false
is_message (calls kernel sk e) = false
is_message (sets sk tp) = false
is_message (leaves kernel sk) = false
is_message (arrives msg) = true
is_message (checks since_last) = false

-- The socket that an event is about.
abbrev pub socket_of : {S Opening Call : Type 0} → Event S Opening Call → Option ℕ
socket_of (takes_up kernel o sk tp ca) = some sk
socket_of (calls kernel sk e) = some sk
socket_of (sets sk tp) = some sk
socket_of (leaves kernel sk) = some sk
socket_of (arrives msg) = none
socket_of (checks since_last) = none

module _ {S Opening Call : Type 0} (ops : TcpCongestionOps S Opening Call) where
  -- `none` is a fault of the kernel, or an event on a socket that does not use the module.
  unfoldable pub step : Event S Opening Call → Host S → Option (Host S)
  step (takes_up kernel o sk tp ca) h = do
    (dp, tp, ca) ← ops.init kernel o h.dp sk tp ca
    some (record h { dp = dp; socks = put_sock sk (some (tp, ca)) h.socks })
  step (calls kernel sk e) h = do
    (tp, ca) ← h.socks sk
    (dp, tp, ca) ← ops.callback e kernel h.dp sk tp ca
    some (record h { dp = dp; socks = put_sock sk (some (tp, ca)) h.socks })
  step (sets sk tp) h = do
    (old, ca) ← h.socks sk
    some (record h { socks = put_sock sk (some (tp, ca)) h.socks })
  step (leaves kernel sk) h = do
    (tp, ca) ← h.socks sk
    dp ← ops.release kernel h.dp ca
    some (record h { dp = dp; socks = put_sock sk none h.socks })
  step (arrives msg) h = do dp ← spine_nl_recv h.netlink h.dp msg; some (record h { dp = dp })
  step (checks since_last) h = some (record h { dp = (check_fto since_last h.dp).1 })

  -- What the environment sees to before an event: a socket takes the module up once; it is in use until
  -- it leaves; and TCP provides what the module relies on. Any message may arrive, and at any time: one that
  -- faults has no step.
  module _ (CanOpen : Opening → TcpSock → Type 0) (CanCall : Call → TcpSock → Type 0) where
    abbrev pub May : Event S Opening Call → Host S → Type 0
    May (takes_up kernel o sk tp ca) h = (h.socks sk ≡ none) × CanOpen o tp
    May (calls kernel sk e) h =
        (tp : TcpSock) × (ca : S) × (h.socks sk ≡ some (tp, ca)) × CanCall e tp
    May (sets sk tp) h = h.socks sk ≢ none
    May (leaves kernel sk) h = h.socks sk ≢ none
    May (arrives msg) h = Unit {0}
    May (checks since_last) h = Unit {0}

    -- The hosts that events lead to.
    pub data Reach (h : Host S) : Host S → Type 0 where
      here : Reach h h
      next :
          {h' h'' : Host S} (e : Event S Opening Call)
          → Reach h h'
          → May e h'
          → step e h' ≡ some h''
          → Reach h h''
