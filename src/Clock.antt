-- ===== src/Clock.antt =====
-- The clock of src/tcp_spine.c: `spine_now`, `spine_since` and `spine_after`, which the datapath library
-- calls for its timeouts, and `spine_set_pacing_rate`. The kernel's `struct timespec64` and the functions on it are the parameter
-- `Timekeeping`.
use spine_kernel.Prelude.{ℕ, ◌+◌, ◌-◌, ◌*◌, ◌/◌, ◌%◌, ◌^◌, ◌≤◌, ◌<◌, ◌≡◌, arith}
use spine_kernel.Tcp.{TcpSock}

-- `struct timespec64`, `timespec64_sub`, `timespec64_add_ns` and `timespec64_to_ns`.
pub record Timekeeping : Type 1 where
  pub Timespec : Type 0
  pub timespec64_sub : Timespec → Timespec → Timespec
  pub timespec64_add_ns : Timespec → ℕ → Timespec
  pub timespec64_to_ns : Timespec → ℕ

-- What the kernel documents of them, for times that are not negative.
pub record IsTimekeeping (k : Timekeeping) : Type 0 where
  pub sub_to_ns :
      (a b : k.Timespec)
      → k.timespec64_to_ns b ≤ k.timespec64_to_ns a
      → k.timespec64_to_ns (k.timespec64_sub a b) ≡ k.timespec64_to_ns a - k.timespec64_to_ns b
  pub add_to_ns :
      (a : k.Timespec) (ns : ℕ)
      → k.timespec64_to_ns (k.timespec64_add_ns a ns) ≡ k.timespec64_to_ns a + ns

-- `NSEC_PER_USEC`
abbrev pub nsec_per_usec : ℕ
nsec_per_usec = 1000

unfoldable pub spine_set_pacing_rate : ℕ → TcpSock → TcpSock
spine_set_pacing_rate rate tp = record tp { sk_pacing_rate = rate }

module _ (k : Timekeeping) where
  -- The clock at the reading `now` of `ktime_get_real_ts64`.
  unfoldable pub spine_now : (tzero now : k.Timespec) → ℕ
  spine_now tzero now = k.timespec64_to_ns (k.timespec64_sub now tzero) % 2 ^ 64

  unfoldable pub spine_since : (tzero now : k.Timespec) → ℕ → ℕ
  spine_since tzero now since =
      let then_ts = k.timespec64_add_ns tzero since in
      k.timespec64_to_ns (k.timespec64_sub now then_ts) % 2 ^ 64 / nsec_per_usec

  unfoldable pub spine_after : (tzero now : k.Timespec) → ℕ → ℕ
  spine_after tzero now us =
      let elapsed = k.timespec64_sub now tzero in
      k.timespec64_to_ns (k.timespec64_add_ns elapsed (us * nsec_per_usec % 2 ^ 64)) % 2 ^ 64

  -- For readings in order, none before the time zero and all within 2 ^ 64 nanoseconds of it, the clock
  -- keeps time: `spine_since` of an earlier `spine_now` is the time between the two readings, in
  -- microseconds, and `spine_since` of a `spine_after` that has passed is the time since it passed.
  pub spine_since-spine_now :
      (tzero earlier now : k.Timespec) (us : ℕ)
      → IsTimekeeping k
      → k.timespec64_to_ns tzero ≤ k.timespec64_to_ns earlier
      → k.timespec64_to_ns earlier + us * 1000 ≤ k.timespec64_to_ns now
      → k.timespec64_to_ns now < 2 ^ 64
      → (spine_since tzero now (spine_now tzero earlier)
          ≡ (k.timespec64_to_ns now - k.timespec64_to_ns earlier) / 1000)
        × (spine_since tzero now (spine_after tzero earlier us)
            ≡ (k.timespec64_to_ns now - (k.timespec64_to_ns earlier + us * 1000)) / 1000)
  unfolding spine_now spine_since spine_after
  spine_since-spine_now tzero earlier now us laws started passed small = (
    since_of (spine_now tzero earlier) (earlier_ns) (omega arith)
        (unfold spine_now in omega (arith, elapsed)),
    since_of (spine_after tzero earlier us) (earlier_ns + us * 1000) (omega arith)
        (unfold spine_after in omega (arith, elapsed, added)),
  )
    where
      earlier_ns : ℕ
      earlier_ns = k.timespec64_to_ns earlier

      elapsed :
          k.timespec64_to_ns (k.timespec64_sub earlier tzero)
          ≡ earlier_ns - k.timespec64_to_ns tzero
      elapsed = laws.sub_to_ns earlier tzero started

      added :
          k.timespec64_to_ns
            (k.timespec64_add_ns (k.timespec64_sub earlier tzero) (us * 1000 % 2 ^ 64))
          ≡ earlier_ns - k.timespec64_to_ns tzero + us * 1000 % 2 ^ 64
      added =
          omega
            (arith, elapsed, laws.add_to_ns (k.timespec64_sub earlier tzero) (us * 1000 % 2 ^ 64))

      since_of :
          (since at : ℕ)
          → at ≤ k.timespec64_to_ns now
          → since + k.timespec64_to_ns tzero ≡ at
          → spine_since tzero now since ≡ (k.timespec64_to_ns now - at) / 1000
      since_of since at before same =
          let then_ns = laws.add_to_ns tzero since in
          let apart =
            laws.sub_to_ns now (k.timespec64_add_ns tzero since) (omega (arith, then_ns)) in
          unfold spine_since in omega (arith, then_ns, apart)
