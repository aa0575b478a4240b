-- ===== src/Tcp/Neo/Agent.antt =====
-- The agent's request for measurements on its way through src/spine_nl.c and src/lib/spine.c to src/tcp_neo.c, and
-- the measurements on their way back: `spine_nl_recv`, `spine_read_msg`, `spine_invoke` and
-- `neo_fetch_measurements`.
use spine_kernel.Netlink.{Netlink}
