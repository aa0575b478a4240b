-- ===== src/Tcp/Ops.antt =====
-- The tables `struct tcp_congestion_ops` of src/tcp_vanilla.c, src/tcp_neo.c and src/tcp_scubic.c, as one interface: what a
-- congestion control module gives to TCP, and what TCP and the datapath library rely on in it.
pub mod Vanilla
pub mod Neo
pub mod Scubic
use spine_kernel.Prelude.{ℕ, false, ◌≡◌, Option, some, length}
use spine_kernel.Datapath.State.{SpineDatapath, SpineInternalAlg, Kernel, Pointers}
use spine_kernel.Datapath.Registry.Slots.{IsValid}
use spine_kernel.Tcp.{TcpSock}
use spine_kernel.Tcp.Consult.{IsAttached, IsSocketOf, IsKept, IsStarted}
use spine_kernel.Tcp.Release.{IsReleased}

-- A module with the state `S` in each socket. `Call` is the calls that TCP makes on a socket between
-- `init` and `release`, each with what it is given besides the socket; what a callback returns to TCP
-- is left out. `Opening` is what the kernel answers to `init` itself, besides what it answers to the
-- library.
pub record TcpCongestionOps (S Opening Call : Type 0) : Type 0 where
  pub init :
      Kernel → Opening → SpineDatapath → ℕ → TcpSock → S → Option (SpineDatapath × TcpSock × S)
  pub callback :
      Call → Kernel → SpineDatapath → ℕ → TcpSock → S → Option (SpineDatapath × TcpSock × S)
  pub release : Kernel → SpineDatapath → S → Option SpineDatapath
  pub conn : S → Option ℕ
  pub alg : SpineInternalAlg

-- The call `run`, on the state `ca`, returns; it keeps the datapath, the connection and the state.
abbrev pub Serves :
    {S : Type 0}
    → (S → Option ℕ)
    → (S → Type 0)
    → SpineDatapath
    → S
    → Option (SpineDatapath × TcpSock × S)
    → Type 0
Serves {S} conn Good dp ca run =
    (dp' : SpineDatapath) × (tp' : TcpSock) × (ca' : S) × (run ≡ some (dp', tp', ca'))
    × IsKept dp (conn ca) dp'
    × (conn ca' ≡ conn ca)
    × Good ca'

-- The datapath of a module that has no `fetch_measurements`, where the memory of that pointer, which the
-- register function does not write, happens to be zero: then the library does not call it.
abbrev pub WithoutFetch : Pointers → Type 0
WithoutFetch ptrs = ptrs.fetch_measurements ≡ false

-- The contract of a module: on a datapath with the pointers that it can work with (`Uses`), and with what
-- TCP provides at `init` (`CanOpen`) and at a call (`CanCall`), each callback runs without a fault on a
-- valid table and state that is `Good`, whatever the kernel answers to the library and whatever the agent
-- has staged. `init` leaves good state, and takes no slot that was taken; a call on the socket `sk`, whose
-- connection holds that address, keeps the state good, the connection open and the other slots as they
-- are; `release` gives the connection back. The pointers stay as they are.
pub record IsLawful {S Opening Call : Type 0} (ops : TcpCongestionOps S Opening Call)
    (Good : S → Type 0) (Uses : Pointers → Type 0) (CanOpen : Opening → TcpSock → Type 0)
    (CanCall : Call → TcpSock → Type 0) : Type 0 where
  pub opens :
      (kernel : Kernel) (o : Opening) (dp : SpineDatapath) (sk : ℕ) (tp : TcpSock) (ca : S)
      → IsValid dp
      → CanOpen o tp
      → (dp' : SpineDatapath) × (tp' : TcpSock) × (ca' : S) × (ops.init kernel o dp sk tp ca
          ≡ some (dp', tp', ca'))
        × IsStarted dp sk ops.alg (ops.conn ca') dp'
        × Good ca'
  pub calls :
      (e : Call) (kernel : Kernel) (dp : SpineDatapath) (sk : ℕ) (tp : TcpSock) (ca : S)
      → Uses dp.pointers
      → IsValid dp
      → IsAttached dp (ops.conn ca)
      → IsSocketOf dp sk ops.alg (ops.conn ca)
      → Good ca
      → CanCall e tp
      → Serves ops.conn Good dp ca (ops.callback e kernel dp sk tp ca)
  pub closes :
      (kernel : Kernel) (dp : SpineDatapath) (ca : S)
      → IsValid dp
      → IsAttached dp (ops.conn ca)
      → IsReleased dp (ops.conn ca) (ops.release kernel dp ca)
