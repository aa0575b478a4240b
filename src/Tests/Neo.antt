-- ===== src/Tests/Neo.antt =====
-- Tests of src/tcp_neo.c.
use spine_kernel.Prelude.{
  ℕ, ◌≤◌, ◌≡◌, refl, true, false, none, some, [], ◌∷◌, ◌++◌, pos, replicate, arith, sub_u32,
}
use spine_kernel.Datapath.State.{SpineDatapath, spine_ok}
use spine_kernel.Datapath.Staging.{spine_read_msg}
use spine_kernel.Datapath.Staging.Updates.{update_msg}
use spine_kernel.Datapath.Invoke.{spine_invoke}
use spine_kernel.Datapath.Invoke.Params.{params_fields}
use spine_kernel.Tcp.{TcpSock, ca_open, ca_loss}
use spine_kernel.Tcp.Neo.{
  NeoData, NeoInterval, start_interval, process_receive, interval_at, neo_process,
}
use spine_kernel.Tcp.Neo.Callbacks.{
  neo_module, neo_init, neo_ssthresh, neo_set_state, zero_interval,
}
use spine_kernel.Tcp.Neo.Ring.{IsRing, Kept, Advances, neo_process-IsRing}
use spine_kernel.Tcp.Neo.Rates.{
  start_interval_lem, neo_init-neo_ssthresh, process_receive-neo_set_state,
  spine_read_msg-neo_set_params,
}
use spine_kernel.Tests.Fixtures.{
  quiet_state, open_conn, table, kernel, table-IsValid, sock, tcp_kernel,
}

abbrev pub ring : NeoData
ring = record {
  cnt = pos 0;
  slow_start_passed = true;
  intervals = some (replicate 20 zero_interval);
  send_index = 19;
  receive_index = 17;
  rate = 2000000;
  ready_rate = 2050001;
  lost_base = 2;
  delivered_base = 390;
  packets_counted = 390;
  prev_ca_state = ca_open;
  prior_cwnd = 0;
  first_circle = false;
  conn = some 0;
  double_counted = 1;
}

ring-IsRing : IsRing ring
ring-IsRing = ((replicate 20 zero_interval, refl, refl), omega arith, omega arith)

neo_process-IsRing_example :
    (r : TcpSock × NeoData) × (neo_process sock ring ≡ some r)
    × Kept sock ring r
    × Advances 19 r.1.send_index
    × Advances 17 r.1.receive_index
neo_process-IsRing_example = neo_process-IsRing sock ring (omega arith) ring-IsRing

abbrev up : ℕ
up = 1

start_interval_lem_example :
    (tp' : TcpSock) × (neo' : NeoData) × (x : NeoInterval) × (start_interval sock ring
      ≡ some (tp', neo'))
    × (interval_at neo' 19 ≡ some x)
    × (x.rate ≡ 2050001)
    × (tp'.sk_pacing_rate ≡ 2050001)
    × (neo'.rate ≡ 2050001)
    × (neo'.ready_rate ≡ 2050001)
    × (x.send_start ≡ 90000)
    × (x.packets_sent_base ≡ 500)
    × (x.packets_ended ≡ 0)
    × (tp'.snd_cwnd ≤ 1000)
start_interval_lem_example = start_interval_lem sock ring (omega arith) ring-IsRing

neo_init-neo_ssthresh_example :
    (ca' : NeoData) × (neo_init tcp_kernel kernel false table 77 sock ring
      ≡ some (table, sock, ca'))
    × (neo_ssthresh tcp_kernel sock ca' ≡ none)
neo_init-neo_ssthresh_example = neo_init-neo_ssthresh tcp_kernel kernel table 77 sock ring

process_receive-neo_set_state_example :
    (neo' : NeoData) × (process_receive sock (neo_set_state tcp_kernel ca_loss sock ring)
      ≡ some neo')
    × (neo'.packets_counted ≡ sub_u32 500 40)
process_receive-neo_set_state_example =
    process_receive-neo_set_state tcp_kernel sock ring ring-IsRing (omega arith) (omega arith)

spine_read_msg-neo_set_params_example :
    (dp₁ : SpineDatapath) × (dp₂ : SpineDatapath) × (spine_read_msg table
        (update_msg 1 1 (params_fields 0 (2 ∷ [])) ++ [])
        (pos 25)
      ≡ some (spine_ok, dp₁))
    × (spine_invoke (neo_module 900) kernel dp₁ (some 0) ring
        ≡ some (pos 0, dp₂, record ring { ready_rate = 1951999 }))
spine_read_msg-neo_set_params_example =
    spine_read_msg-neo_set_params kernel table 0 25 open_conn quiet_state 2 [] ring table-IsValid
      refl refl refl refl refl refl refl (omega arith) (omega arith)

-- An interval in which 40 packets were sent, 3 of them lost.
abbrev late : NeoInterval
late = record zero_interval {
  recv_start = 60000;
  recv_end = 91000;
  start_rtt = 10000;
  end_rtt = 10400;
  packets_sent_base = 460;
  packets_ended = 500;
  lost = 3;
  delivered = 37;
}

abbrev early : NeoInterval
early = record late {
  recv_start = 30000;
  recv_end = 60000;
  packets_ended = 460;
  packets_sent_base = 430;
}

abbrev ring_of_two : NeoData
ring_of_two = record ring {
  intervals = some (replicate 15 zero_interval ++ (early ∷ late ∷ []) ++ replicate 3 zero_interval);
}
