-- ===== src/Tcp/Neo/Ring.antt =====
-- The ring of monitor intervals of src/tcp_neo.c: its indices stay inside, and `neo_process` finds
-- every interval that it touches.
use spine_kernel.Prelude.{
  ℕ, ◌+◌, ◌/◌, if◌then◌else◌, ◌%◌, ◌^◌, ◌≤◌, ◌<◌, ◌≡◌, ◌∙◌, refl, ◌⊎◌, inl, inr, true, false, some,
  List, ltb, leb, ◌==◌, set, length, length-set, get_elem?-set_self, get_elem?_exists, max_of,
  min_of, Bool-cases, arith, sub_u32, sub_u64,
}
use spine_kernel.Tcp.{TcpSock}
use spine_kernel.Tcp.Neo.{
  NeoInterval, NeoData, get_next_index, get_previous_index, neo_set_cwnd,
  neo_calculate_and_set_rate, new_rate, interval_at, put_interval, start_interval,
  send_interval_ended, receive_interval_ended, start_next_send_interval, neo_update_interval,
  finish_send, process_send, next_receive, process_receive, neo_process, neo_valid, paced_cwnd,
}

-- The intervals are allocated, and both indices are inside.
abbrev pub HasIntervals : NeoData → Type 0
HasIntervals neo = (l : List NeoInterval) × (neo.intervals ≡ some l) × (length l ≡ 20)

abbrev pub IsRing : NeoData → Type 0
IsRing neo = HasIntervals neo × (neo.send_index < 20) × (neo.receive_index < 20)

-- The two index functions stay inside the ring, are inverse to each other, and always move.
pub get_next_index_lem :
    (i : ℕ)
    → i < 20
    → (get_next_index i < 20)
      × (get_previous_index i < 20)
      × (get_previous_index (get_next_index i) ≡ i)
      × (get_next_index (get_previous_index i) ≡ i)
      × (get_next_index i ≡ (i + 1) % 20)
unfolding get_next_index get_previous_index
get_next_index_lem i h = (ground arith, ground arith, ground arith, ground arith, ground arith)

pub interval_at_exists :
    (neo : NeoData) (i : ℕ)
    → HasIntervals neo
    → i < 20
    → (x : NeoInterval) × (interval_at neo i ≡ some x)
interval_at_exists neo i (l, e, n) h =
    let (x, found) = get_elem?_exists l i (omega arith) in (x, rw e found)

pub put_interval-HasIntervals :
    (neo : NeoData) (i : ℕ) (x : NeoInterval)
    → HasIntervals neo
    → HasIntervals (put_interval i x neo)
put_interval-HasIntervals neo i x (l, e, n) = (set l i x, rw e refl, rw (length-set l i x) n)

pub interval_at-put_interval :
    (neo : NeoData) (i : ℕ) (x : NeoInterval)
    → HasIntervals neo
    → i < 20
    → interval_at (put_interval i x neo) i ≡ some x
interval_at-put_interval neo i x (l, e, n) h = rw e (get_elem?-set_self l i x (omega arith))

-- What a step of the ring leaves: a ring, on the same socket and connection.
abbrev pub Kept : TcpSock → NeoData → TcpSock × NeoData → Type 0
Kept tp neo r = IsRing r.1 × (r.0.mss_cache ≡ tp.mss_cache) × (r.1.conn ≡ neo.conn)

pub neo_set_cwnd_lem :
    (tp : TcpSock)
    → 0 < tp.mss_cache
    → (w : ℕ) × (neo_set_cwnd tp ≡ some (record tp { snd_cwnd = w })) × (w ≤ tp.snd_cwnd_clamp)
unfolding neo_set_cwnd
neo_set_cwnd_lem tp h =
    let positive : (tp.mss_cache == 0) ≡ false = ground arith in
    (min_of (max_of 4 (paced_cwnd tp) % 2 ^ 32) tp.snd_cwnd_clamp, rw positive refl, ground arith)

pub start_interval-IsRing :
    (tp : TcpSock) (neo : NeoData)
    → 0 < tp.mss_cache
    → IsRing neo
    → (r : TcpSock × NeoData) × (start_interval tp neo ≡ some r)
      × Kept tp neo r
      × (r.1.send_index ≡ neo.send_index)
      × (r.1.receive_index ≡ neo.receive_index)
unfolding start_interval neo_calculate_and_set_rate
start_interval-IsRing tp neo h (held, s, r) =
    let (x, found) = interval_at_exists neo neo.send_index held s in
    let rate = new_rate tp neo in
    let (w, paced, _) = neo_set_cwnd_lem (record tp { sk_pacing_rate = rate }) h in
    let x' = record x {
      packets_ended = 0;
      lost = 0;
      delivered = 0;
      packets_sent_base = max_of tp.data_segs_out 1;
      send_start = tp.tcp_mstamp;
      rate = rate;
    } in
    let neo' = record neo { rate = rate; ready_rate = rate } in
    (
      (record tp { sk_pacing_rate = rate; snd_cwnd = w }, put_interval neo.send_index x' neo'),
      rw (found, paced) refl,
      ((put_interval-HasIntervals neo' neo.send_index x' held, s, r), refl, refl),
      refl,
      refl,
    )

-- One index stays, or moves on to the next of the 20 slots, from the last one to the first.
abbrev pub Advances : ℕ → ℕ → Type 0
Advances i j = (j ≡ i) ⊎ (j ≡ (i + 1) % 20)

start_next-IsRing :
    (tp : TcpSock) (neo : NeoData)
    → 0 < tp.mss_cache
    → IsRing neo
    → (r : TcpSock × NeoData) × (start_next_send_interval tp neo ≡ some r)
      × Kept tp neo r
      × (r.1.send_index ≡ get_next_index neo.send_index)
      × (r.1.receive_index ≡ neo.receive_index)
unfolding start_next_send_interval
start_next-IsRing tp neo h (held, s, r) =
    let neo' = record neo { send_index = get_next_index neo.send_index } in
    let inside = (get_next_index_lem neo.send_index s).0 in
    elim (Bool-cases (get_next_index neo.send_index == neo.receive_index)) [
      | inl full ↦ ((tp, neo'), rw full refl, ((held, inside, r), refl, refl), refl, refl)
      | inr room ↦
          let (out, run, kept, sent, same) = start_interval-IsRing tp neo' h (held, inside, r) in
          (out, rw room run, kept, sent, same)
    ]

send_interval_ended_cases :
    (x : NeoInterval) (tp : TcpSock)
    → (send_interval_ended x tp ≡ (true, record x { packets_ended = tp.data_segs_out }))
      ⊎ (send_interval_ended x tp ≡ (false, x))
unfolding send_interval_ended
send_interval_ended_cases x tp =
    elim (Bool-cases (leb 30000 (sub_u64 tp.tcp_mstamp x.send_start))) [
      | inl ended ↦ inl (rw ended refl)
      | inr goes_on ↦ inr (rw goes_on refl)
    ]

neo_valid_lem : (neo : NeoData) → HasIntervals neo → neo_valid neo ≡ true
unfolding neo_valid
neo_valid_lem neo (l, e, n) = rw e refl

process_send-IsRing :
    (tp : TcpSock) (neo : NeoData)
    → 0 < tp.mss_cache
    → IsRing neo
    → (r : TcpSock × NeoData) × (process_send tp neo ≡ some r)
      × Kept tp neo r
      × Advances neo.send_index r.1.send_index
      × (r.1.receive_index ≡ neo.receive_index)
unfolding process_send finish_send
process_send-IsRing tp neo h (held, s, r) =
    let (x, found) = interval_at_exists neo neo.send_index held s in
    elim (send_interval_ended_cases x tp) [
      | inl ended ↦
          let x' = record x { packets_ended = tp.data_segs_out; send_end = tp.tcp_mstamp } in
          let neo' = put_interval neo.send_index x' neo in
          let (out, run, kept, next, same) =
            start_next-IsRing tp neo' h
              (put_interval-HasIntervals neo neo.send_index x' held, s, r) in
          let slot = (get_next_index_lem neo.send_index s).4 in
          (out, rw (found, ended) run, kept, inr (next ∙ slot), same)
      | inr goes_on ↦
          ((tp, neo), rw (found, goes_on) refl, ((held, s, r), refl, refl), inl refl, refl)
    ]

next_receive-IsRing :
    (tp : TcpSock) (neo : NeoData)
    → IsRing neo
    → (neo' : NeoData) × (next_receive tp neo ≡ some neo')
      × Kept tp neo (tp, neo')
      × (neo'.receive_index ≡ get_next_index neo.receive_index)
      × (neo'.send_index ≡ neo.send_index)
      × (neo'.packets_counted ≡ neo.packets_counted)
unfolding next_receive
next_receive-IsRing tp neo (held, s, r) =
    let index = get_next_index neo.receive_index in
    let inside = (get_next_index_lem neo.receive_index r).0 in
    let (x, found) = interval_at_exists neo index held inside in
    let x' = record x { recv_start = tp.tcp_mstamp; start_rtt = tp.srtt_us / 8 } in
    let moved = record neo {
      receive_index = index;
      first_circle = if index == 0 then false else neo.first_circle;
    } in
    (
      put_interval index x' moved,
      rw found refl,
      ((put_interval-HasIntervals moved index x' held, s, inside), refl, refl),
      refl,
      refl,
      refl,
    )

pub process_receive-IsRing :
    (tp : TcpSock) (neo : NeoData)
    → IsRing neo
    → (neo' : NeoData) × (process_receive tp neo ≡ some neo')
      × Kept tp neo (tp, neo')
      × Advances neo.receive_index neo'.receive_index
      × (neo'.send_index ≡ neo.send_index)
      × (neo'.packets_counted ≡ sub_u32 (tp.delivered + tp.lost) neo.double_counted)
unfolding process_receive
process_receive-IsRing tp neo (held, s, r) =
    let (x, found) = interval_at_exists neo neo.receive_index held r in
    let counted = record neo {
      packets_counted = sub_u32 (tp.delivered + tp.lost) neo.double_counted;
    } in
    let x' =
      (if ltb ((1 + x.packets_sent_base) % 2 ^ 32) neo.packets_counted
        then neo_update_interval x counted tp
        else x) in
    let neo' = put_interval neo.receive_index x' counted in
    let ring : IsRing neo' = (put_interval-HasIntervals counted neo.receive_index x' held, s, r) in
    elim (Bool-cases (receive_interval_ended x' neo')) [
      | inl ended ↦
          let (out, run, kept, next, same, counted_same) = next_receive-IsRing tp neo' ring in
          let slot = (get_next_index_lem neo.receive_index r).4 in
          (out, rw (found, ended) run, kept, inr (next ∙ slot), same, counted_same)
      | inr goes_on ↦ (neo', rw (found, goes_on) refl, (ring, refl, refl), inl refl, refl, refl)
    ]

-- On an allocated ring and with a segment size, `neo_process` runs without a fault: it reads and
-- writes inside the ring only, and moves each index to the next slot of the ring, (i + 1) mod 20, or not at all.
pub neo_process-IsRing :
    (tp : TcpSock) (neo : NeoData)
    → 0 < tp.mss_cache
    → IsRing neo
    → (r : TcpSock × NeoData) × (neo_process tp neo ≡ some r)
      × Kept tp neo r
      × Advances neo.send_index r.1.send_index
      × Advances neo.receive_index r.1.receive_index
unfolding neo_process
neo_process-IsRing tp neo h (held, s, r) =
    let ((tp₁, neo₁), sent, (ring₁, mss₁, conn₁), moved₁, same₁) =
      process_send-IsRing tp neo h (held, s, r) in
    let (neo₂, received, (ring₂, mss₂, conn₂), moved₂, same₂, _) =
      process_receive-IsRing tp₁ neo₁ ring₁ in
    (
      (tp₁, neo₂),
      rw (neo_valid_lem neo held, sent, received) refl,
      (ring₂, rw mss₁ refl, rw (conn₂, conn₁) refl),
      rw same₂ moved₁,
      rw same₁ at moved₂,
    )
