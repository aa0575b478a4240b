-- ===== src/Tcp/Neo/SlowStart.antt =====
-- The slow start of src/tcp_neo.c, `neo_slow_start` and `slow_set_cwnd`. Its only caller, in
-- `neo_cong_control`, is commented out.
use spine_kernel.Prelude.{
  ℕ, ◌+◌, ◌*◌, ◌%◌, ◌^◌, ◌≤◌, ◌≡◌, refl, Option, some, is_nonzero, max_of, min_of, if◌then◌else◌,
  ◌>>=◌, ◌-ℤ◌, tquot, scale, to_u32, to_int, arith,
}
use spine_kernel.Tcp.{TcpSock, TcpKernel}
use spine_kernel.Tcp.Neo.{NeoInterval, NeoData, interval_at, put_interval, neo_update_pacing_rate}
use spine_kernel.Tcp.Neo.Ring.{
  IsRing, interval_at_exists, put_interval-HasIntervals, interval_at-put_interval,
}

abbrev pub neo_scale : ℕ
neo_scale = 1000

-- `slow_set_cwnd`: the whole packets of `cnt` go into the window; the rest of it stays.
unfoldable pub slow_set_cwnd : TcpSock → NeoData → TcpSock × NeoData
slow_set_cwnd tp ca =
    let delta = tquot ca.cnt neo_scale in
    let moved = is_nonzero delta in
    let cwnd = if moved then (tp.snd_cwnd + to_u32 delta) % 2 ^ 32 else tp.snd_cwnd in
    (
      record tp { snd_cwnd = min_of (max_of 4 cwnd) tp.snd_cwnd_clamp },
      record ca { cnt = if moved then ca.cnt -ℤ scale delta neo_scale else ca.cnt },
    )

-- `neo_slow_start`: the socket and the module's state. It has no `return`, so no caller may use its
-- value. Without intervals it writes through a null pointer.
unfoldable pub neo_slow_start : TcpKernel → ℕ → TcpSock → NeoData → Option (TcpSock × NeoData)
neo_slow_start k acked tp ca = do
  let (tp, ca) = slow_set_cwnd tp (record ca { cnt = to_int (to_u32 ca.cnt + acked * 500) })
  let tp = neo_update_pacing_rate k tp
  let rate = tp.sk_pacing_rate
  first ← interval_at ca 0
  some (
    tp,
    put_interval 0 (record first { rate = rate }) (record ca { ready_rate = rate; rate = rate }),
  )

-- On an allocated ring, slow start runs without a fault and keeps the ring: the rate at which the socket
-- is paced, at most its maximum, is that of the first interval, of the module and of the next interval,
-- and the window is at most the cap.
pub neo_slow_start-IsRing :
    (k : TcpKernel) (acked : ℕ) (tp : TcpSock) (ca : NeoData)
    → IsRing ca
    → (tp' : TcpSock) × (ca' : NeoData) × (x : NeoInterval) × (neo_slow_start k acked tp ca
        ≡ some (tp', ca'))
      × IsRing ca'
      × (interval_at ca' 0 ≡ some x)
      × (x.rate ≡ tp'.sk_pacing_rate)
      × (ca'.rate ≡ tp'.sk_pacing_rate)
      × (ca'.ready_rate ≡ tp'.sk_pacing_rate)
      × (tp'.sk_pacing_rate ≤ tp.sk_max_pacing_rate)
      × (tp'.snd_cwnd ≤ tp.snd_cwnd_clamp)
unfolding neo_slow_start slow_set_cwnd neo_update_pacing_rate
neo_slow_start-IsRing k acked tp ca (held, s, r) =
    let (x, found) = interval_at_exists ca 0 held (omega arith) in
    let (moved, new) =
      slow_set_cwnd tp (record ca { cnt = to_int (to_u32 ca.cnt + acked * 500) }) in
    let tp' = neo_update_pacing_rate k moved in
    let rate = tp'.sk_pacing_rate in
    let new' = record new { ready_rate = rate; rate = rate } in
    let x' = record x { rate = rate } in
    (
      tp',
      put_interval 0 x' new',
      x',
      rw found refl,
      (put_interval-HasIntervals new' 0 x' held, s, r),
      interval_at-put_interval new' 0 x' held (omega arith),
      refl,
      refl,
      refl,
      ground arith,
      ground arith,
    )
