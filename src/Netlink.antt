-- ===== src/Netlink.antt =====
-- Messages between the kernel module and the agent: src/spine_nl.c. The kernel's netlink API is the
-- parameter `NetKernel`.
pub mod Delivery
use spine_kernel.Prelude.{
  ℕ, ◌+◌, Bool, true, false, not, Option, none, some, ℤ, pos, negsuc, is_neg, to_int, ltb,
  if◌then◌else◌, ◌>>=◌, Bytes, take, length,
}
use spine_kernel.Datapath.State.{SpineDatapath}
use spine_kernel.Datapath.Staging.{spine_read_msg}

-- A pointer to an object that the module obtains from the kernel and gives back.
pub data Handle : Type 0 where
  absent held released : Handle

-- Giving an object back, as `kfree` and `netlink_kernel_release` do: nothing happens for NULL, and a
-- second time is a fault.
unfoldable pub give_back : Handle → Option Handle
give_back absent = some absent
give_back held = some released
give_back released = none

-- `spine_msg_reader`, which is NULL or `spine_read_msg`, and `nl_sk`.
pub record Netlink : Type 0 where
  pub reader : Bool
  pub nl_sk : Handle

-- A message as it arrives: `nlmsg_len` of its `struct nlmsghdr`, and the payload at `nlmsg_data`.
pub record NlMsg : Type 0 where
  pub nlmsg_len : ℕ
  pub payload : Bytes

-- `sizeof(struct nlmsghdr)`
abbrev pub nlmsg_hdrlen : ℕ
nlmsg_hdrlen = 16

-- The answers of the kernel to `nlmsg_new` and `nlmsg_multicast`.
pub record NetKernel : Type 0 where
  pub nlmsg_new : Bool
  pub nlmsg_multicast : Bytes → ℤ

-- `spine_nl_recv`. What the reader returns is only logged.
unfoldable pub spine_nl_recv : Netlink → SpineDatapath → NlMsg → Option SpineDatapath
spine_nl_recv nl dp nlh =
    if nl.reader
    then (do (ok, dp) ← spine_read_msg dp nlh.payload (to_int nlh.nlmsg_len); some dp)
    else some dp

-- `spine_nl_sk(spine_read_msg)`; `created` says whether `netlink_kernel_create` succeeds.
unfoldable pub spine_nl_sk : Bool → ℤ × Netlink
spine_nl_sk true = (pos 0, record { reader = true; nl_sk = held })
spine_nl_sk false = (negsuc 0, record { reader = true; nl_sk = absent })

unfoldable pub free_spine_nl_sk : Netlink → Option Netlink
free_spine_nl_sk nl = do nl_sk ← give_back nl.nl_sk; some (record nl { nl_sk = nl_sk })

-- `nl_sendmsg` of `msg_size` bytes, which is not negative, at `msg`: the returned `int`, and the bytes that went out. Reading
-- outside the buffer is a fault.
unfoldable pub nl_sendmsg : NetKernel → Bytes → ℕ → Option (ℤ × Option Bytes)
nl_sendmsg net msg msg_size =
    if not net.nlmsg_new
    then some (negsuc 0, none)
    else if ltb (length msg) msg_size
    then none
    else (let res = net.nlmsg_multicast (take msg_size msg) in
        some (if is_neg res then (res, none) else (pos 0, some (take msg_size msg))))
