-- ===== src/Load.antt =====
-- Loading and unloading the kernel module: `vanilla_register`, `neo_register`, `cubictcp_register` and
-- their unregister functions, in src/tcp_vanilla.c, src/tcp_neo.c and src/tcp_scubic.c.
pub mod Outcome
use spine_kernel.Prelude.{
  ℕ, Bool, true, false, not, ◌||◌, Option, none, some, [], ℤ, pos, negsuc, is_neg, if◌then◌else◌,
  ◌>>=◌, replicate,
}
use spine_kernel.Datapath.State.{SpineDatapath, Kernel}
use spine_kernel.Datapath.Timer.{spine_init}
use spine_kernel.Datapath.Run.{zero_conn}
use spine_kernel.Netlink.{
  Handle, absent, held, released, give_back, Netlink, spine_nl_sk, free_spine_nl_sk,
}

-- The kernel's answers while the module is loaded: whether `kmalloc`, `kzalloc` and
-- `netlink_kernel_create` succeed, and the result of `tcp_register_congestion_control`. `raw` is what
-- the memory from `kmalloc` holds.
pub record Loader : Type 0 where
  pub datapath_allocated : Bool
  pub table_allocated : Bool
  pub socket_created : Bool
  pub registered : ℤ
  pub raw : SpineDatapath
  pub kernel : Kernel

-- What the module has obtained: `kernel_datapath`, its table of connections and its netlink socket;
-- and whether its `struct tcp_congestion_ops` is registered.
pub record Holdings : Type 0 where
  pub datapath : Handle
  pub table : Handle
  pub netlink : Netlink
  pub ops : Bool

abbrev pub max_active_flows : ℕ
max_active_flows = 1024

abbrev pub nothing_held : Holdings
nothing_held = record {
  datapath = absent;
  table = absent;
  netlink = record { reader = false; nl_sk = absent };
  ops = false;
}

-- The assignments to `kernel_datapath` before its table is allocated. No message has been sent.
unfoldable pub preset : SpineDatapath → SpineDatapath
preset raw = record raw {
  pointers = record raw.pointers {
    now = true;
    since_usecs = true;
    after_usecs = true;
    spine_active_connections = false;
  };
  max_connections = max_active_flows;
  spine_active_connections = [];
  fto_us = 1000;
  sent = [];
}

-- The assignments from the allocated table on. Without `fetches` the pointer `fetch_measurements` is
-- left as it was in memory.
unfoldable pub configure : Bool → SpineDatapath → SpineDatapath
configure fetches dp = record dp {
  pointers = record dp.pointers {
    set_params = true;
    fetch_measurements = fetches || dp.pointers.fetch_measurements;
    send_msg = true;
    spine_active_connections = true;
  };
  spine_active_connections = replicate max_active_flows zero_conn;
}

-- A register function behind the allocations: the returned `int`, what the module holds, and the
-- datapath.
unfoldable pub connect : Loader → Holdings → SpineDatapath → Option (ℤ × Holdings × SpineDatapath)
connect l h dp = do
  let (ret, netlink) = spine_nl_sk l.socket_created
  let h = record h { netlink = netlink }
  if is_neg ret then some (negsuc 2, h, dp) else do
    (ret, dp) ← spine_init l.kernel dp 0
    if is_neg ret
        then (do
          netlink ← free_spine_nl_sk h.netlink
          some (negsuc 3, record h { netlink = netlink }, dp))
        else some (l.registered, record h { ops = not (is_neg l.registered) }, dp)

-- A register function; `fetches` says whether it sets `fetch_measurements`.
unfoldable pub register : Bool → Loader → Option (ℤ × Holdings × SpineDatapath)
register fetches l =
    if not l.datapath_allocated
    then some (negsuc 0, nothing_held, l.raw)
    else if not l.table_allocated
    then some (negsuc 1, record nothing_held { datapath = held }, preset l.raw)
    else connect l (record nothing_held { datapath = held; table = held })
        (configure fetches (preset l.raw))

abbrev pub vanilla_register : Loader → Option (ℤ × Holdings × SpineDatapath)
vanilla_register = register false

abbrev pub neo_register : Loader → Option (ℤ × Holdings × SpineDatapath)
neo_register = register true

abbrev pub cubictcp_register : Loader → Option (ℤ × Holdings × SpineDatapath)
cubictcp_register = register false

-- The unregister functions.
unfoldable pub unregister : Holdings → Option Holdings
unregister h = do
  netlink ← free_spine_nl_sk h.netlink
  table ← give_back h.table
  datapath ← give_back h.datapath
  some (record { datapath = datapath; table = table; netlink = netlink; ops = false })
