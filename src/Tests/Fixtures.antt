-- ===== src/Tests/Fixtures.antt =====
-- Data for the tests of the datapath: a table of three slots, the first of them open.
use spine_kernel.Tcp.{TcpSock, TcpKernel, RateSample, ca_open, pacing_none}
use spine_kernel.Prelude.{
  ltb, some, ℕ, ◌+◌, refl, inl, inr, true, false, List, [], ◌∷◌, pos, replicate, arith,
}
use spine_kernel.Datapath.State.{
  SpineDatapath, SpineConnection, SpineDatapathInfo, SpinePrivState, live, Kernel, Pointers,
  cleared, spine_neo,
}
use spine_kernel.Datapath.Registry.Slots.{IsSlot, IsValid, IsOpen}
use spine_kernel.Datapath.Run.{zero_conn}
use spine_kernel.Prelude.{le_bytes, read_le, store, overwrite}
use spine_kernel.Wire.{
  header_bytes, parse_header, read_header, serialize_header, write_body, write_ready_msg,
  write_release_msg, write_create_msg, create_bytes, write_measure_msg, copy_fields, take_exact,
  fields_bytes, read_update_field, char_to_u32, check_update_fields_msg, check_measure_fields_msg,
  drop_bytes,
}
use spine_kernel.Datapath.State.{post, stack_array}
use spine_kernel.Datapath.Timer.{update_fto_timer, turn_off_fto_timer, spine_init}
use spine_kernel.Datapath.Registry.{
  send_conn_create, init_spine_priv_state, spine_conn_create_success, claim_slot, open_slot,
  spine_connection_start, spine_connection_lookup, free_spine_priv_state, spine_connection_free,
}
use spine_kernel.Datapath.Staging.{
  stage_update, stage_multiple_updates, stage_measure_request, pending_of, read_updates,
  read_measure, stage_msg, size_error, spine_read_msg,
}
use spine_kernel.Datapath.Invoke.{
  send_measurement, report, staged_params, enforce, answer, invoke_staged, invoke_create, invoke_on,
  spine_invoke,
}
use spine_kernel.Datapath.Invoke.{CongestionControl}

abbrev pub flow : SpineDatapathInfo
flow = record {
  init_cwnd = 14480;
  mss = 1448;
  src_ip = 0x0100007f;
  src_port = 5001;
  dst_ip = 0x0200007f;
  dst_port = 443;
  alg = spine_neo;
  cong_alg = b'n' ∷ b'e' ∷ b'o' ∷ replicate 61 0;
}

abbrev pub quiet_state : SpinePrivState
quiet_state = record { sent_create = true; pending_update = cleared }

abbrev pub open_conn : SpineConnection
open_conn = record {
  index = 1;
  last_create_msg_sent = 40;
  flow_info = flow;
  state = live quiet_state;
  impl = 900;
  datapath = true;
}

abbrev pub all_set : Pointers
all_set = record {
  set_params = true;
  fetch_measurements = true;
  send_msg = true;
  now = true;
  since_usecs = true;
  after_usecs = true;
  spine_active_connections = true;
}

abbrev pub table : SpineDatapath
table = record {
  pointers = all_set;
  time_zero = 0;
  max_connections = 3;
  spine_active_connections = open_conn ∷ zero_conn ∷ zero_conn ∷ [];
  fto_us = 1000;
  last_msg_sent = 0;
  in_fallback = false;
  sent = [];
}

abbrev pub kernel : Kernel
kernel = record { now = λ i. 50 + i; since_usecs = λ t. 7; send_msg = pos 0; alloc = true }

-- A module whose state is the list of the parameters that it was given last.
abbrev pub recorder : CongestionControl (List ℕ)
recorder = record {
  set_params = λ conn params n s. some params;
  fetch_measurements = λ conn r s. some (11 ∷ 12 ∷ []);
}

pub zero_conn-IsSlot : (n p : ℕ) → IsSlot n p zero_conn
zero_conn-IsSlot n p = record {
  own = inl refl;
  kept = inl refl;
  last = λ _. refl;
  name = refl;
  staged = tt;
}

pub table-IsValid : IsValid table
table-IsValid = record {
  room = refl;
  small = omega arith;
  slots = (
    record {
      own = inr refl;
      kept = inr refl;
      last = λ e. absurd (omega arith);
      name = refl;
      staged = (refl, refl);
    },
    (zero_conn-IsSlot 3 1, (zero_conn-IsSlot 3 2, tt)),
  );
}

-- A socket outside recovery.
abbrev pub sock : TcpSock
sock = record {
  snd_cwnd = 100;
  snd_cwnd_clamp = 1000;
  snd_ssthresh = 50;
  srtt_us = 80000;
  packets_out = 40;
  mss_cache = 1448;
  data_segs_out = 500;
  tcp_mstamp = 90000;
  lost = 3;
  delivered = 400;
  icsk_ca_state = ca_open;
  sk_pacing_rate = 0;
  sk_max_pacing_rate = 100000000;
  snd_nxt = 700000;
  lsndtime = 4000;
  inet_saddr = 0x0100007f;
  inet_sport = 5001;
  inet_daddr = 0x0200007f;
  inet_dport = 443;
  ecn_ok = true;
  sk_pacing_status = pacing_none;
}

abbrev pub tcp_kernel : TcpKernel
tcp_kernel = record {
  tcp_in_slow_start = λ tp. ltb tp.snd_cwnd tp.snd_ssthresh;
  tcp_mss_to_mtu = λ tp mss. mss + 52;
  tcp_packets_in_flight = λ tp. tp.packets_out;
  tcp_reno_undo_cwnd = λ tp. tp.snd_cwnd;
  inet_ecn_dontxmit = λ tp. tp;
}

abbrev pub sample : RateSample
sample = record { acked_sacked = pos 2; delivered = pos 2; interval_us = pos 9000 }

pub table-IsOpen : IsOpen table 0
table-IsOpen = record {
  conn = open_conn;
  priv = quiet_state;
  at_p = refl;
  own_index = refl;
  has_state = refl;
}

-- Names what a test computes with: a test that unfolds `running` runs the library.
unfoldable pub running : Unit {0}
unfolding le_bytes read_le store overwrite header_bytes parse_header read_header serialize_header
    write_body write_ready_msg write_release_msg write_create_msg create_bytes write_measure_msg
    copy_fields take_exact fields_bytes read_update_field char_to_u32 check_update_fields_msg
    check_measure_fields_msg drop_bytes post stack_array update_fto_timer turn_off_fto_timer
    spine_init send_conn_create init_spine_priv_state spine_conn_create_success claim_slot open_slot
    spine_connection_start spine_connection_lookup free_spine_priv_state spine_connection_free
    stage_update stage_multiple_updates stage_measure_request pending_of read_updates read_measure
    stage_msg size_error spine_read_msg send_measurement report staged_params enforce answer
    invoke_staged invoke_create invoke_on spine_invoke
running = tt
