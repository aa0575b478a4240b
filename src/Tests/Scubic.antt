-- ===== src/Tests/Scubic.antt =====
-- Tests of src/tcp_scubic.c.
use spine_kernel.Prelude.{
  min_of, ◌⊎◌, pos, false, ℕ, zero, suc, ◌+◌, ◌-◌, ◌*◌, ◌/◌, ◌%◌, ◌^◌, ◌≤◌, ◌<◌, ◌≡◌, refl, true,
  none, some, [], ◌∷◌, Bool-cases, inl, inr, ◌++◌, inr, if◌then◌else◌, ◌==◌, arith,
}
use native.Mathlib.Numerals.{unary_clauses}
use spine_kernel.Datapath.State.{SpineDatapath, SpineConnection, spine_cubic}
use spine_kernel.Datapath.Registry.Slots.{IsValid, put_conn-IsValid}
use spine_kernel.Datapath.Registry.{put_conn}
use spine_kernel.Datapath.Staging.Updates.{update_msg}
use spine_kernel.Datapath.Invoke.{spine_invoke}
use spine_kernel.Datapath.Invoke.Params.{params_fields}
use spine_kernel.Netlink.{held, spine_nl_recv}
use spine_kernel.Tcp.Scubic.Agent.{spine_nl_recv-scubic_set_params}
use spine_kernel.Tcp.Scubic.Params.{retuned}
use spine_kernel.Tcp.Scubic.{
  Bictcp, CubicKernel, friendly_loop, scubic_set_params, bictcp_recalc_ssthresh, update_friendly,
}
use spine_kernel.Tcp.Scubic.Params.{IsScaled, bictcp_recalc_ssthresh_lem}
use spine_kernel.Tcp.Scubic.Friendliness.{friendly_loop-div, scubic_set_params-update_friendly}
use spine_kernel.Tcp.Scubic.Root.{cubic_root}
use spine_kernel.Tcp.Scubic.Root.Bounds.{cube, cubic_root_close}
use spine_kernel.Tcp.Scubic.Callbacks.{scubic_module, bictcp_acked}
use spine_kernel.Tcp.Scubic.Delay.{bictcp_acked_lem}
use spine_kernel.Tests.Fixtures.{
  all_set, quiet_state, flow, open_conn, table, table-IsValid, kernel, tcp_kernel, sock,
}

abbrev cubic_conn : SpineConnection
cubic_conn = record open_conn { flow_info = record flow { alg = spine_cubic } }

-- The parameters that `bictcp_init` sets.
abbrev pub cubic : Bictcp
cubic = record {
  cnt = 20;
  last_max_cwnd = 120;
  last_cwnd = 99;
  last_time = 4900;
  bic_origin_point = 120;
  bic_k = 1000;
  delay_min = 640;
  epoch_start = 4000;
  ack_cnt = 9;
  tcp_cwnd = 100;
  sample_cnt = 3;
  found_train = false;
  found_delay = false;
  round_start = 4800;
  end_seq = 650000;
  last_ack = 4990;
  curr_rtt = 700;
  beta = 717;
  bic_scale = 41;
  cube_rtt_scale = 410;
  beta_scale = 15;
  cube_factor = 2681735677;
  conn = some 0;
}

cubic-IsScaled : IsScaled cubic
cubic-IsScaled = ((omega arith, omega arith), (omega arith, omega arith), refl, refl)

bictcp_recalc_ssthresh_lem_example :
    let (ssthresh, ca') = bictcp_recalc_ssthresh true 100 cubic in
    (ssthresh ≡ 70)
    × (2 < 100 → ssthresh < 100)
    × (ca'.last_max_cwnd ≡ 85)
    × (ca'.last_max_cwnd ≤ 100)
    × (ca'.epoch_start ≡ 0)
bictcp_recalc_ssthresh_lem_example =
    bictcp_recalc_ssthresh_lem true 100 cubic cubic-IsScaled (omega arith)

friendly_loop-div_example :
    friendly_loop 60 7 50 100 ≡ some (50 - (50 - 1) / 7 * 7, (100 + (50 - 1) / 7) % 2 ^ 32)
friendly_loop-div_example = friendly_loop-div 60 7 50 100 (omega arith) (omega arith) (omega arith)

scubic_set_params-update_friendly_example :
    (ca' : Bictcp) × (scubic_set_params cubic_conn (41 ∷ 1 ∷ []) 2 cubic ≡ some ca')
    × ((fuel : ℕ) → update_friendly fuel 3 ca' ≡ none)
scubic_set_params-update_friendly_example =
    scubic_set_params-update_friendly cubic_conn 41 3 cubic refl (omega arith) (omega arith)
      (omega arith) (omega arith)

-- The number of bits of a number below 2 ^ `width`.
unfoldable fls : ℕ → ℕ → ℕ
fls zero a = 0
fls (suc width) a = let rest = fls width (a / 2) in if a == 0 then 0 else suc rest

bits_above : (f a : ℕ) → a / 2 < 2 ^ f → a < 2 ^ suc f
bits_above f a h = omega arith

bits_below : (f a : ℕ) → (1 ≤ f → 2 ^ (f - 1) ≤ a / 2) → 0 < a → 2 ^ f ≤ a
bits_below zero a h positive = omega arith
bits_below (suc f) a h positive =
    let half : 2 ^ f ≤ a / 2 = simp unary_clauses at (h (omega arith)) in omega (arith, half)

fls_lem :
    (width a : ℕ)
    → a < 2 ^ width
    → (fls width a ≤ width) × (a < 2 ^ fls width a) × (1 ≤ fls width a → 2 ^ (fls width a - 1) ≤ a)
unfolding fls
fls_lem zero a h = (omega arith, omega arith, λ h. omega arith)
fls_lem (suc width) a h = elim (Bool-cases (a == 0)) [
  | inl empty ↦ rw empty (omega arith, ground arith, λ h. omega arith)
  | inr some_bit ↦
      let (few, above, below) = fls_lem width (a / 2) (omega arith) in
      let positive : 0 < a = ground arith in
      rw some_bit (
        omega (arith, few),
        bits_above _ a above,
        λ h. simp unary_clauses (bits_below _ a below positive),
      )
]

abbrev kernel_of_cubic : CubicKernel
kernel_of_cubic = record {
  fast_convergence = true;
  initial_ssthresh = 0;
  tcp_friendliness = true;
  hystart = true;
  detect_train = true;
  detect_delay = true;
  hystart_low_window = 16;
  hystart_ack_delta = 2;
  hz = 1000;
  jiffies = λ i. 5000;
  bictcp_clock = 5000;
  msecs_to_jiffies = λ ms. ms;
  fls64 = fls 64;
  tcp_is_cwnd_limited = λ tp. true;
  tcp_slow_start = λ tp acked. (
    acked - (min_of (tp.snd_cwnd + acked) tp.snd_ssthresh - tp.snd_cwnd),
    record tp {
      snd_cwnd = min_of (min_of (tp.snd_cwnd + acked) tp.snd_ssthresh) tp.snd_cwnd_clamp;
    },
  );
  tcp_cong_avoid_ai = λ tp w acked. elim w [
    | zero ↦ none
    | suc n ↦ some (record tp { snd_cwnd = tp.snd_cwnd + acked / suc n })
  ];
}

cubic_root_close_example :
    (r : ℕ) × (cubic_root (fls 64) 1000000 ≡ some r)
    × (8 * 1000000 ≤ 9 * cube (r + 1))
    × (64 ≤ 1000000 → 3 * cube r ≤ 4 * 1000000)
    × (cube r ≤ 2 * 1000000)
cubic_root_close_example = cubic_root_close (fls 64) 1000000 (fls_lem 64) (omega arith)

bictcp_acked_lem_example :
    let (tp', ca') = bictcp_acked tcp_kernel kernel_of_cubic (pos 50000) sock cubic in
    (tp'.snd_cwnd ≡ 100)
    × ((tp'.snd_ssthresh ≡ 50) ⊎ (tp'.snd_ssthresh ≡ 100))
    × (0 < 640 → (0 < ca'.delay_min) × (ca'.delay_min ≤ 640))
    × (false ≡ true → ca'.found_train ≡ true)
    × (false ≡ true → ca'.found_delay ≡ true)
bictcp_acked_lem_example = bictcp_acked_lem tcp_kernel kernel_of_cubic (pos 50000) sock cubic

abbrev cubic_table : SpineDatapath
cubic_table = put_conn 0 cubic_conn table

cubic_table-IsValid : IsValid cubic_table
cubic_table-IsValid = put_conn-IsValid table 0 cubic_conn table-IsValid (record {
  own = inr refl;
  kept = inr refl;
  last = λ e. absurd (omega arith);
  name = refl;
  staged = (refl, refl);
})

spine_nl_recv-scubic_set_params_example :
    (dp₁ : SpineDatapath) × (dp₂ : SpineDatapath) × (spine_nl_recv
        (record { reader = true; nl_sk = held })
        cubic_table
        (record {
          nlmsg_len = 54;
          payload = update_msg 1 2 (params_fields 0 (50 ∷ 800 ∷ [])) ++ [];
        })
      ≡ some dp₁)
    × (spine_invoke (scubic_module 900) kernel dp₁ (some 0) cubic
        ≡ some (
          pos 0,
          dp₂,
          retuned cubic 50 800 (8 * (1024 + 800) / 3 / (1024 - 800)) (2 ^ 40 / (50 * 10)),
        ))
spine_nl_recv-scubic_set_params_example =
    spine_nl_recv-scubic_set_params (record { reader = true; nl_sk = held }) kernel cubic_table 0 54
      cubic_conn quiet_state 50 800 [] cubic refl cubic_table-IsValid refl refl refl refl refl refl
      refl (omega arith) (omega arith) (omega arith) (omega arith) (omega arith) (omega arith)

-- The table of a cubic connection, without a pointer to measurements.
abbrev unset_table : SpineDatapath
unset_table = record cubic_table { pointers = record all_set { fetch_measurements = false } }
