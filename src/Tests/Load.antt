-- ===== src/Tests/Load.antt =====
-- Tests of loading, of netlink and of the clock.
use spine_kernel.Prelude.{
  ℕ, ◌+◌, ◌-◌, ◌*◌, ◌/◌, ◌≡◌, refl, inl, true, false, none, some, pos, negsuc, arith,
}
use spine_kernel.Wire.{SpineMsgHeader, header_bytes}
use spine_kernel.Clock.{
  Timekeeping, IsTimekeeping, spine_now, spine_since, spine_after, spine_since-spine_now,
}
use spine_kernel.Netlink.{held, absent, Netlink, NetKernel, spine_nl_recv}
use spine_kernel.Netlink.Delivery.{spine_nl_recv_overreads}
use spine_kernel.Load.{Loader, nothing_held, preset, configure, register}
use spine_kernel.Load.Outcome.{loaded, holding, register_lem}
use spine_kernel.Tests.Fixtures.{table, table-IsValid, open_conn, quiet_state, kernel}

-- Times in nanoseconds.
abbrev nanoseconds : Timekeeping
nanoseconds = record {
  Timespec = ℕ;
  timespec64_sub = λ a b. a - b;
  timespec64_add_ns = λ a ns. a + ns;
  timespec64_to_ns = λ a. a;
}

nanoseconds-IsTimekeeping : IsTimekeeping nanoseconds
nanoseconds-IsTimekeeping = record { sub_to_ns = λ a b h. refl; add_to_ns = λ a ns. refl }

spine_since-spine_now_example :
    (spine_since nanoseconds 5000 90000 (spine_now nanoseconds 5000 20000) ≡ (90000 - 20000) / 1000)
    × (spine_since nanoseconds 5000 90000 (spine_after nanoseconds 5000 20000 30)
        ≡ (90000 - (20000 + 30 * 1000)) / 1000)
spine_since-spine_now_example =
    spine_since-spine_now nanoseconds 5000 20000 90000 30 nanoseconds-IsTimekeeping (omega arith)
      (omega arith) (omega arith)

abbrev connected : Netlink
connected = record { reader = true; nl_sk = held }

abbrev bare : SpineMsgHeader
bare = record { msg_type = 3; len = 20; socket_id = 1 }

spine_nl_recv_overreads_example :
    spine_nl_recv connected table (record { nlmsg_len = 16 + 8; payload = header_bytes bare })
    ≡ none
spine_nl_recv_overreads_example =
    spine_nl_recv_overreads connected table bare 0 open_conn quiet_state refl table-IsValid refl
      refl refl (record { type_fits = omega arith; len_fits = omega arith; sid_fits = omega arith })
      (inl refl) refl (omega arith)

abbrev net : NetKernel
net = record { nlmsg_new = true; nlmsg_multicast = λ msg. pos 0 }

abbrev pub loader : Loader
loader = record {
  datapath_allocated = true;
  table_allocated = true;
  socket_created = true;
  registered = pos 0;
  raw = record table { time_zero = 77; fto_us = 5 };
  kernel = kernel;
}

register_lem_example :
    (true ≡ false → register true loader ≡ some (negsuc 0, nothing_held, loader.raw))
    × (true ≡ true
        → true ≡ false
        → register true loader
          ≡ some (negsuc 1, record nothing_held { datapath = held }, preset loader.raw))
    × (true ≡ true
        → true ≡ true
        → true ≡ false
        → register true loader
          ≡ some (
            negsuc 2,
            record (holding false) { netlink = record { reader = true; nl_sk = absent } },
            configure true (preset loader.raw),
          ))
    × (true ≡ true
        → true ≡ true
        → true ≡ true
        → register true loader ≡ some (pos 0, holding true, loaded true loader))
register_lem_example = register_lem true loader
