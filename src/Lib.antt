-- ===== src/Lib.antt =====
-- Spine: congestion control in the Linux kernel whose parameters a user-space agent sets over
-- netlink. This library models the kernel module, in C, and proves what its parts promise.
--
-- The parts, by file of the repository (src/ is a folder of it), and the modules that model them:
-- * src/lib/serialize.h, src/lib/serialize.c: module Wire. A buffer is the list of its bytes,
--   and numbers are little-endian, as on the kernel's x86-64 hosts. A writer returns C's `int`
--   and the buffer after it. Wire/RoundTrip and Wire/Flows read the messages back.
-- * src/lib/spine.h, spine_priv.h, spine_priv.c, spine_err.h, spine.c: module Datapath.
--   Datapath/State has the structures; Datapath/Timer `spine_init` and the fallback timer;
--   Datapath/Registry the table of connections; Datapath/Staging `spine_read_msg`;
--   Datapath/Invoke `spine_invoke`; Datapath/Run all sequences of calls;
--   Datapath/Refinement the table as a map from indices to flows.
-- * src/tcp_vanilla.c, src/tcp_neo.c, src/tcp_scubic.c: modules Tcp.Vanilla, Tcp.Neo and
--   Tcp.Scubic, the callbacks in Tcp/Neo/Callbacks and Tcp/Scubic/Callbacks; `cubic_root` is in
--   Tcp/Scubic/Root and `bictcp_update` in Tcp/Scubic/Update. Module Tcp has the fields of the
--   kernel's socket that they use, and `consult`, their call of `spine_invoke`, whose contract
--   is in Tcp/Consult. Tcp/Ops has the interface of a `struct tcp_congestion_ops`, and its
--   children the three tables.
-- * src/spine_nl.c, src/tcp_spine.c: modules Netlink and Clock. The register and unregister
--   functions of the three congestion controls are in module Load.
-- * module Host: a loaded module at work, that is the datapath, the netlink socket and every
--   socket's private state, with the events that change them one after another. It uses a table
--   of callbacks by its contract alone, the record `IsLawful` of Tcp/Ops. Any message may arrive;
--   one that faults (Datapath/Staging/Errors, Netlink/Delivery) has no step.
-- How they interact: a register function allocates the datapath, opens the netlink socket, sends
-- the ready message and registers the congestion control with TCP; `spine_nl_recv` hands a
-- message to `spine_read_msg`, which stages updates in the private state of the connection that
-- it names; the congestion control module calls `spine_invoke` from its own callbacks, which
-- hands the staged parameters back to the module and sends its measurements to the agent.
--
-- State is passed explicitly: a function takes the structure and returns it changed. Option is
-- used for C's undefined behaviour: `none` is an access outside an array or buffer, through a
-- null or dangling pointer, a division by zero, a call through a pointer that was never set, or a
-- second `kfree`. A C `int` is a ℤ; an unsigned number of w bits
-- is a natural number, with its wrap-around written out where it can occur. What the kernel
-- answers (clock, `send_msg`, allocation) is the argument `Kernel`; the callbacks of the
-- congestion control module are the parameter `CongestionControl`, and a fault in one of them is a
-- fault of `spine_invoke`. A module's callback for `spine_invoke` finds its state through
-- `conn->impl`; a call on a socket has that socket's state at hand, so a connection of another
-- socket stops the model (`through_impl` in Tcp), and module Host shows that this never happens.
-- The register functions of vanilla and scubic leave `fetch_measurements` as it was in the memory:
-- their callbacks are shown to run where that pointer is null (`WithoutFetch` in Tcp/Ops), and any
-- other value of it is a call that faults. Every loop runs over the
-- rounds that its counter has left, but that of the TCP friendliness, which has no counter and
-- runs on fuel: the loop takes something off the count of acknowledgements, a word of 32 bits, in
-- every round, so 2 ^ 32 rounds are enough where it ends.
--
-- The kernel's TCP is a parameter: `TcpKernel` has the functions that the modules call,
-- `CubicKernel` those of scubic with its module parameters, which are taken to be not negative,
-- and a socket is the record of the fields that they read and write. A ring of intervals that was
-- not allocated is a null pointer. Words of 32 and 64 bits wrap where the source can make them
-- wrap.
--
-- Not modelled: logging; what a callback returns to TCP, in module Host, where TCP may set a
-- socket's fields at any time; callbacks and messages at the same time, which the code does not
-- lock against; the user-space agent (python/), and the test programs (test/). The kernel's own
-- functions are arguments: its clock and timespec64, netlink, memory, and TCP.
pub mod Prelude
pub mod Wire
pub mod Host
pub mod Datapath
pub mod Tcp
pub mod Clock
pub mod Netlink
pub mod Load
mod Tests
