-- ===== src/Tests/Vanilla.antt =====
-- Tests of src/tcp_vanilla.c.
use spine_kernel.Prelude.{
  ◌+◌, ◌*◌, ◌/◌, ◌≤◌, ◌≡◌, refl, true, false, none, some, pos, negsuc, pos_part, neg_part, min_of,
  max_of, arith, ◌+ℤ◌,
}
use spine_kernel.Tcp.{consult, ca_open, ca_loss}
use spine_kernel.Tcp.Vanilla.{
  Vanilla, vanilla_ssthresh, restored_cwnd, vanilla_set_cwnd, vanilla_cong_control, lat_inflation,
  window_change,
}
use spine_kernel.Tcp.Vanilla.Window.{vanilla_set_cwnd_exact}
use spine_kernel.Tcp.Vanilla.Safety.{IsHealthy}
use spine_kernel.Tcp.Vanilla.Loss.{vanilla_ssthresh_lem, vanilla_cong_control_remembers}
use spine_kernel.Tests.Fixtures.{table, kernel, sock, tcp_kernel, sample}

abbrev pub at_work : Vanilla
at_work = record {
  min_rtt_us = 9000;
  cnt = pos 700;
  prev_ca_state = ca_loss;
  in_recovery = false;
  prior_cwnd = 140;
  r_cwnd = 0;
  alpha = 50;
  beta = 200;
  gamma = 200;
  delta = 717;
  slow_start_passed = true;
  conn = some 0;
}

at_work-IsHealthy : IsHealthy at_work
at_work-IsHealthy = (
  (
    (omega arith, omega arith),
    (omega arith, omega arith),
    (omega arith, omega arith),
    (omega arith, omega arith),
  ),
  (omega arith, omega arith),
  (omega arith, omega arith),
)

abbrev spent : Vanilla
spent = record at_work { cnt = negsuc 2999; prev_ca_state = ca_open }

vanilla_set_cwnd_exact_example :
    let (tp', ca') = vanilla_set_cwnd tcp_kernel sock spent in
    tp'.snd_cwnd * 1024 + pos_part ca'.cnt + 3000
    ≡ restored_cwnd sock spent * 1024 + 0 + neg_part ca'.cnt
unfolding restored_cwnd
vanilla_set_cwnd_exact_example =
    vanilla_set_cwnd_exact tcp_kernel sock spent (omega arith) (omega arith) (omega arith)

vanilla_ssthresh_lem_example :
    let (ssthresh, tp', ca') = vanilla_ssthresh sock at_work in
    (ssthresh ≡ tp'.snd_cwnd)
    × (tp'.snd_cwnd ≡ min_of (max_of (717 * 100 / 1024) 2) 1000)
    × (2 ≤ 100 → tp'.snd_cwnd ≤ 100)
    × (ca'.prior_cwnd ≡ 100)
    × (ca'.slow_start_passed ≡ true)
vanilla_ssthresh_lem_example =
    vanilla_ssthresh_lem sock at_work (omega arith, omega arith) (omega arith)

abbrev early : Vanilla
early = record at_work { conn = none }

vanilla_cong_control_remembers_example :
    let ca' = (vanilla_set_cwnd tcp_kernel sock (record early { cnt = pos 750 })).1 in
    (ca'.prev_ca_state ≡ ca_loss) × (ca'.prior_cwnd ≡ 140)
unfolding vanilla_cong_control consult lat_inflation window_change ◌+ℤ◌
vanilla_cong_control_remembers_example =
    vanilla_cong_control_remembers tcp_kernel kernel table 900 sample sock early refl
