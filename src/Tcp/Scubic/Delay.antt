-- ===== src/Tcp/Scubic/Delay.antt =====
-- Delays and idle times in src/tcp_scubic.c: `bictcp_acked`, `hystart_update` and `bictcp_cwnd_event`.
use spine_kernel.Prelude.{
  ℕ, ◌-◌, ◌^◌, ◌≤◌, ◌<◌, ◌≡◌, refl, ◌⊎◌, inl, inr, true, not, ◌&&◌, ◌||◌, ℤ, pos, negsuc, ltb, leb,
  ◌==◌, if◌then◌else◌, sub_u32, is_s32_neg, Bool-cases, arith,
}
use spine_kernel.Tcp.{TcpSock, TcpKernel}
use spine_kernel.Tcp.Scubic.{Bictcp, CubicKernel}
use spine_kernel.Tcp.Scubic.Callbacks.{
  bictcp_cwnd_event, detect_ack_train, detect_long_delay, hystart_update, sampled_delay,
  bictcp_acked,
}

-- What slow start's detection does to a socket and a state: the window stays, and the threshold stays
-- or becomes the window; the smallest delay stays, and what was found stays found.
abbrev IsDetection : TcpSock → Bictcp → TcpSock × Bictcp → Type 0
IsDetection tp ca r =
    (r.0.snd_cwnd ≡ tp.snd_cwnd)
    × ((r.0.snd_ssthresh ≡ tp.snd_ssthresh) ⊎ (r.0.snd_ssthresh ≡ tp.snd_cwnd))
    × (r.1.delay_min ≡ ca.delay_min)
    × (ca.found_train ≡ true → r.1.found_train ≡ true)
    × (ca.found_delay ≡ true → r.1.found_delay ≡ true)

hystart_update-IsDetection :
    (k : CubicKernel) (delay : ℕ) (tp : TcpSock) (ca : Bictcp)
    → IsDetection tp ca (hystart_update k delay tp ca)
unfolding hystart_update detect_ack_train detect_long_delay
hystart_update-IsDetection k delay tp ca =
    (ground arith, ground arith, ground arith, ground arith, ground arith)

sampled_delay_pos : (rtt_us : ℕ) → 0 < sampled_delay rtt_us
unfolding sampled_delay
sampled_delay_pos rtt_us = ground arith

-- A delay sample leaves the window as it is, and leaves the threshold or sets it to the window; a
-- smallest delay once known stays known and never grows; what slow start's detection found stays
-- found.
pub bictcp_acked_lem :
    (t : TcpKernel) (k : CubicKernel) (rtt_us : ℤ) (tp : TcpSock) (ca : Bictcp)
    → let (tp', ca') = bictcp_acked t k rtt_us tp ca in
      (tp'.snd_cwnd ≡ tp.snd_cwnd)
      × ((tp'.snd_ssthresh ≡ tp.snd_ssthresh) ⊎ (tp'.snd_ssthresh ≡ tp.snd_cwnd))
      × (0 < ca.delay_min → (0 < ca'.delay_min) × (ca'.delay_min ≤ ca.delay_min))
      × (ca.found_train ≡ true → ca'.found_train ≡ true)
      × (ca.found_delay ≡ true → ca'.found_delay ≡ true)
unfolding bictcp_acked
bictcp_acked_lem t k (negsuc n) tp ca = (refl, inl refl, λ h. (h, omega arith), λ h. h, λ h. h)
bictcp_acked_lem t k (pos rtt_us) tp ca =
    elim (Bool-cases (not (ca.epoch_start == 0) && (is_s32_neg age || ltb age k.hz))) [
      | inl early ↦ rw early (refl, inl refl, λ h. (h, omega arith), λ h. h, λ h. h)
      | inr counted ↦
          elim (Bool-cases
            (k.hystart && (t.tcp_in_slow_start tp && leb k.hystart_low_window tp.snd_cwnd))) [
              | inl on ↦
                  let (window, threshold, smallest, train, long) =
                    hystart_update-IsDetection k delay tp sampled in
                  rw (counted, on)
                    (
                      window,
                      threshold,
                      λ h. rw smallest (shrinks h),
                      λ h. train (trained h),
                      λ h. long (delayed h),
                    )
              | inr off ↦ rw (counted, off) (refl, inl refl, shrinks, trained, delayed)
            ]
    ]
  where
    age : ℕ
    age = sub_u32 (k.jiffies 0) ca.epoch_start

    delay : ℕ
    delay = sampled_delay rtt_us

    sampled : Bictcp
    sampled =
        if (ca.delay_min == 0) || ltb delay ca.delay_min
        then record ca { delay_min = delay }
        else ca

    shrinks : 0 < ca.delay_min → (0 < sampled.delay_min) × (sampled.delay_min ≤ ca.delay_min)
    shrinks h = let positive = sampled_delay_pos rtt_us in (ground arith, ground arith)

    trained : ca.found_train ≡ true → sampled.found_train ≡ true
    trained h = ground arith

    delayed : ca.found_delay ≡ true → sampled.found_delay ≡ true
    delayed h = ground arith

-- An idle time is taken out of the epoch: on the start of a transmission the time since the epoch
-- began loses the time since the last one, down to 0, if both are below 2 ^ 31 jiffies.
pub bictcp_cwnd_event_lem :
    (k : CubicKernel) (tp : TcpSock) (ca : Bictcp)
    → 0 < ca.epoch_start
    → ca.epoch_start < 2 ^ 32
    → k.jiffies 0 < 2 ^ 32
    → sub_u32 (k.jiffies 0) ca.epoch_start < 2 ^ 31
    → sub_u32 (k.jiffies 0) tp.lsndtime < 2 ^ 31
    → sub_u32 (k.jiffies 0) (bictcp_cwnd_event k tp ca).epoch_start
      ≡ sub_u32 (k.jiffies 0) ca.epoch_start - sub_u32 (k.jiffies 0) tp.lsndtime
unfolding bictcp_cwnd_event
bictcp_cwnd_event_lem k tp ca h1 h2 h3 h4 h5 = ground arith
