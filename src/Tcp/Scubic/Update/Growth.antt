-- ===== src/Tcp/Scubic/Update/Growth.antt =====
-- `bictcp_update` of src/tcp_scubic.c ends without a fault, and what it leaves.
use spine_kernel.Prelude.{
  ℕ, ◌+◌, ◌-◌, ◌*◌, ◌/◌, ◌%◌, ◌^◌, ◌≤◌, ◌<◌, ◌≡◌, refl, ◌⊎◌, inl, inr, true, not, ◌&&◌, some, leb,
  ltb, ◌==◌, max_of, if◌then◌else◌, &&_true, ==_iff, Bool-cases, arith,
}
use native.Mathlib.Nat.{le-div_iff_mul-le, div-le_self, mul-le-mul}
use spine_kernel.Tcp.Scubic.{Bictcp, CubicKernel, friendly_delta, update_friendly}
use spine_kernel.Tcp.Scubic.Params.{IsScaled}
use spine_kernel.Tcp.Scubic.Friendliness.{loop_ends}
use spine_kernel.Tcp.Scubic.Root.Bounds.{IsFls, cubic_root_close}
use spine_kernel.Tcp.Scubic.Update.{
  start_epoch, epoch_time, bic_target, target_cnt, cubic_function, finish_update, is_recent,
  bictcp_update,
}

-- The loop of the TCP friendliness has something to subtract, for the agent's parameters and windows
-- of 4 packets to 2 ^ 19.
friendly_delta_pos :
    (cwnd : ℕ) (ca : Bictcp) → IsScaled ca → 4 ≤ cwnd → cwnd < 2 ^ 19 → 0 < friendly_delta cwnd ca
unfolding friendly_delta
friendly_delta_pos cwnd ca ((b1, b2), _, scaled, _) few many =
    let positive : 0 < 1024 - ca.beta = omega arith in
    let low : 2 ≤ 8 * (1024 + ca.beta) / 3 / (1024 - ca.beta) =
      (le-div_iff_mul-le positive).1 (omega arith) in
    let high : 8 * (1024 + ca.beta) / 3 / (1024 - ca.beta) ≤ 8 * (1024 + ca.beta) / 3 =
      div-le_self (8 * (1024 + ca.beta) / 3) (1024 - ca.beta) in
    let two : 2 ≤ ca.beta_scale = rw scaled low in
    let some_limit : ca.beta_scale ≤ 5460 = rw scaled (omega (arith, high)) in
    let least : 4 * 2 ≤ cwnd * ca.beta_scale = mul-le-mul few two in
    let small : cwnd ≤ 2 ^ 19 = omega arith in
    let most : cwnd * ca.beta_scale ≤ 2 ^ 19 * 5460 = mul-le-mul small some_limit in
    omega (arith, least, most)

-- What the steps of `bictcp_update` may change.
abbrev updated : Bictcp → ℕ → ℕ → ℕ → Bictcp
updated ca a c n = record ca { ack_cnt = a; tcp_cwnd = c; cnt = n }

finish_update_lem :
    (k : CubicKernel) (fuel cwnd : ℕ) (ca : Bictcp)
    → 0 < friendly_delta cwnd ca
    → ca.ack_cnt < fuel
    → (a : ℕ) × (c : ℕ) × (n : ℕ) × (finish_update k fuel cwnd ca ≡ some (updated ca a c n))
      × (2 ≤ n)
unfolding finish_update update_friendly
finish_update_lem k fuel cwnd ca positive enough = elim (Bool-cases k.tcp_friendliness) [
  | inl friendly ↦
      let (i, a, c, run, _, _) =
        loop_ends fuel (friendly_delta cwnd ca) ca.ack_cnt ca.tcp_cwnd positive enough in
      let max_cnt = cwnd / (c - cwnd) in
      let n = if ltb cwnd c && ltb max_cnt ca.cnt then max_cnt else ca.cnt in
      (a, c, max_of n 2, rw (friendly, run) refl, ground arith)
  | inr alone ↦ (ca.ack_cnt, ca.tcp_cwnd, max_of ca.cnt 2, rw alone refl, ground arith)
]

-- What `start_epoch` may change.
abbrev started : Bictcp → ℕ → ℕ → ℕ → ℕ → ℕ → ℕ → Bictcp
started ca e a c s k o = record ca {
  epoch_start = e;
  ack_cnt = a;
  tcp_cwnd = c;
  cube_rtt_scale = s;
  bic_k = k;
  bic_origin_point = o;
}

start_epoch_lem :
    (k : CubicKernel) (now cwnd acked : ℕ) (ca : Bictcp)
    → IsFls k.fls64
    → acked < 2 ^ 32
    → ca.ack_cnt < 2 ^ 32
    → (e : ℕ) × (a : ℕ) × (c : ℕ) × (s : ℕ) × (r : ℕ) × (o : ℕ) × (start_epoch k now cwnd acked ca
        ≡ some (started ca e a c s r o))
      × (a < 2 ^ 32)
unfolding start_epoch
start_epoch_lem k now cwnd acked ca fls small counted = elim (Bool-cases (ca.epoch_start == 0)) [
  | inr on ↦ (
    ca.epoch_start,
    ca.ack_cnt,
    ca.tcp_cwnd,
    ca.cube_rtt_scale,
    ca.bic_k,
    ca.bic_origin_point,
    rw on refl,
    counted,
  )
  | inl fresh ↦
      let scale = ca.bic_scale * 10 % 2 ^ 32 in
      elim (Bool-cases (leb ca.last_max_cwnd cwnd)) [
        | inl above ↦ (now, acked, cwnd, scale, 0, cwnd, rw (fresh, above) refl, small)
        | inr below ↦
            let (r, root, _, _, _) =
              cubic_root_close k.fls64 (ca.cube_factor * (ca.last_max_cwnd - cwnd) % 2 ^ 64) fls
                (omega arith) in
            (now, acked, cwnd, scale, r, ca.last_max_cwnd, rw (fresh, below, root) refl, small)
      ]
]

-- What a whole update may change, besides the count of acknowledgements.
abbrev pub IsUpdateOf : Bictcp → Bictcp → Type 0
IsUpdateOf ca ca' = IsScaled ca' × (ca'.conn ≡ ca.conn) × (ca'.last_max_cwnd ≡ ca.last_max_cwnd)

-- The acknowledgements of one packet more are at least 2, or the state is fresh.
abbrev pub IsPaced : Bictcp → Type 0
IsPaced ca = (2 ≤ ca.cnt) ⊎ (ca.last_cwnd ≡ 0)

pub bictcp_update_ends :
    (k : CubicKernel) (fuel cwnd acked : ℕ) (ca : Bictcp)
    → IsFls k.fls64
    → IsScaled ca
    → IsPaced ca
    → 4 ≤ cwnd
    → cwnd < 2 ^ 19
    → acked < 2 ^ 32
    → 2 ^ 32 ≤ fuel
    → (ca' : Bictcp) × (bictcp_update k fuel cwnd acked ca ≡ some ca')
      × IsUpdateOf ca ca'
      × (2 ≤ ca'.cnt)
unfolding bictcp_update cubic_function
bictcp_update_ends k fuel cwnd acked ca₀ fls scaled paced few many small enough =
    elim (Bool-cases (is_recent k cwnd ca)) [
      | inl recent ↦
          let same : (ca.last_cwnd == cwnd) ≡ true = (&&_true _ _ recent).0 in
          (
            ca,
            rw recent refl,
            (scaled, refl, refl),
            elim paced [
              | inl two ↦ two
              | inr fresh ↦ absurd (omega (arith, (==_iff ca.last_cwnd cwnd).0 same))
            ],
          )
      | inr old ↦ elim (Bool-cases (not (ca.epoch_start == 0) && (k.jiffies 1 == ca.last_time))) [
        | inl now ↦
            let (a, c, n, run, two) =
              finish_update_lem k fuel cwnd ca (friendly_delta_pos cwnd ca scaled few many)
                (omega arith) in
            (updated ca a c n, rw (old, now) run, (scaled, refl, refl), two)
        | inr later ↦
            let moved = record ca { last_cwnd = cwnd; last_time = k.jiffies 2 } in
            let (e, a, c, s, r, o, started_, counted) =
              start_epoch_lem k (k.jiffies 3) cwnd acked moved fls small (omega arith) in
            let begun = started moved e a c s r o in
            let cnt = target_cnt (bic_target (epoch_time k (k.jiffies 4) begun) begun) cwnd in
            let ready = record begun {
              cnt = if begun.last_max_cwnd == 0 && ltb 20 cnt then 20 else cnt;
            } in
            let (a', c', n, run, two) =
              finish_update_lem k fuel cwnd ready (friendly_delta_pos cwnd ready scaled few many)
                (omega (arith, counted)) in
            (updated ready a' c' n, rw (old, later, started_) run, (scaled, refl, refl), two)
      ]
    ]
  where
    ca : Bictcp
    ca = record ca₀ { ack_cnt = (ca₀.ack_cnt + acked) % 2 ^ 32 }
