-- ===== src/Datapath/Registry/Free.antt =====
-- What a caller of `spine_connection_free` of src/lib/spine.c can rely on.
use spine_kernel.Prelude.{
  ℕ, zero, suc, ◌-◌, ◌<◌, ◌≤◌, ◌≡◌, ◌≢◌, refl, ap, inl, inr, false, none, some, [], ◌∷◌, pos, ltb,
  ◌==◌, ==_iff, ltb→le, length, Bool-cases, arith, Bytes, get_elem?_bound, get_elem?_exists, ◌++◌,
  drop, take, take-append, length-append, length-le_bytes, le_bytes,
}
use spine_kernel.Wire.{release, header_bytes}
use spine_kernel.Wire.RoundTrip.{length-header_bytes}
use spine_kernel.Wire.Flows.{write_release_msg_lem, control_msg, control_header}
use spine_kernel.Datapath.State.{
  SpineDatapath, SpineConnection, StatePtr, null, live, dangling, Kernel, Sent, post, stack_array,
  length-stack_array,
}
use spine_kernel.Datapath.Registry.{
  free_spine_priv_state, conn_at, put_conn, spine_connection_free, spine_connection_lookup,
}
use spine_kernel.Datapath.Registry.Slots.{
  IsSlot, HasStaged, IsValid, is_dangling, IsValid-IsSlot, put_conn-IsValid, conn_at-put_conn,
  conn_at-put_conn_ne,
}

-- What is left of a pointer that was freed.
abbrev pub freed : StatePtr → StatePtr
freed null = null
freed (live s) = dangling
freed dangling = dangling

free_spine_priv_state_lem :
    (s : StatePtr) → is_dangling s ≡ false → free_spine_priv_state s ≡ some (freed s)
unfolding free_spine_priv_state
free_spine_priv_state_lem null h = refl
free_spine_priv_state_lem (live s) h = refl
free_spine_priv_state_lem dangling h = absurd (cc)

freed_null : (s : StatePtr) → s ≡ null → freed s ≡ null
freed_null s e = rw e

abbrev pub closed : SpineConnection → SpineConnection
closed c = record c { state = freed c.state; index = 0 }

-- The release message of a connection.
abbrev pub release_sent : ℕ → Sent
release_sent sid = record { bytes = control_msg release sid; msg_size = pos 12 }

length-control_msg : (t id : ℕ) → length (control_msg t id) ≡ 12
length-control_msg t id = omega (
  arith,
  length-append (header_bytes (control_header t)) (le_bytes 4 id),
  length-header_bytes (control_header t),
  length-le_bytes 4 id,
)

take-release :
    (sid : ℕ) (rest : Bytes) → take 12 (control_msg release sid ++ rest) ≡ control_msg release sid
take-release sid rest =
    rw (length-control_msg release sid) at (take-append (control_msg release sid) rest)

-- Freeing an open connection sends one release message with its index, frees its private state and
-- its slot, and changes nothing else.
spine_connection_free_open :
    (kernel : Kernel) (dp : SpineDatapath) (p : ℕ) {c : SpineConnection}
    → conn_at dp p ≡ some c
    → c.index ≡ suc p
    → is_dangling c.state ≡ false
    → suc p ≤ dp.max_connections
    → spine_connection_free kernel dp (suc p)
      ≡ some (put_conn p (closed c) (record dp { sent = dp.sent ++ (release_sent (suc p) ∷ []) }))
unfolding spine_connection_free post
spine_connection_free_open kernel dp p {c} e i kept h =
    let back : suc p - 1 ≡ p = omega arith in
    let written =
      write_release_msg_lem (stack_array 900) 12 (suc p) (omega arith)
        (omega (arith, length-stack_array 900)) in
    ground (
      arith,
      back,
      e,
      free_spine_priv_state_lem c.state kept,
      written,
      take-release (suc p) (drop 12 (stack_array 900)),
    )

freed_staged : (s : StatePtr) → HasStaged (freed s)
freed_staged null = tt
freed_staged (live s) = tt
freed_staged dangling = tt

pub open_kept :
    (n p : ℕ) (c : SpineConnection) → IsSlot n p c → c.index ≡ suc p → is_dangling c.state ≡ false
open_kept n p c s i = elim s.kept [ inl z ↦ absurd (omega arith) | inr k ↦ k ]

closed-IsSlot : (n p : ℕ) (c : SpineConnection) → IsSlot n p c → IsSlot n p (closed c)
closed-IsSlot n p c s = record {
  own = inl refl;
  kept = inl refl;
  last = λ end. freed_null c.state (s.last end);
  name = s.name;
  staged = freed_staged c.state;
}

-- `sid` names an open connection, or both functions leave the table alone.
pub data Named (kernel : Kernel) (dp : SpineDatapath) : ℕ → Type 0 where
  unknown :
      {sid : ℕ}
      → spine_connection_lookup dp sid ≡ some none
      → spine_connection_free kernel dp sid ≡ some dp
      → Named kernel dp sid
  known :
      (p : ℕ) (c : SpineConnection)
      → conn_at dp p ≡ some c
      → c.index ≡ suc p
      → suc p ≤ dp.max_connections
      → Named kernel dp (suc p)

pub named : (kernel : Kernel) (dp : SpineDatapath) → IsValid dp → (sid : ℕ) → Named kernel dp sid
unfolding spine_connection_lookup spine_connection_free
named kernel dp v zero = unknown refl refl
named kernel dp v (suc p) = elim (Bool-cases (ltb dp.max_connections (suc p))) [
  | inl beyond ↦ unknown (ground arith) (ground arith)
  | inr inside ↦
      let bound : p < length dp.spine_active_connections =
        omega (arith, ltb→le dp.max_connections (suc p) inside, v.room) in
      let (c, e) = get_elem?_exists dp.spine_active_connections p bound in
      let back : suc p - 1 ≡ p = omega arith in
      elim (Bool-cases (c.index == suc p)) [
        | inl same ↦
            known p c e ((==_iff c.index (suc p)).0 same) (ltb→le dp.max_connections (suc p) inside)
        | inr other ↦ unknown (ground (arith, back, e)) (ground (arith, back, e))
      ]
]

-- On a valid table `spine_connection_free` runs without a fault for every index, leaves a valid
-- table in which that index names no connection, and leaves every other slot as it was.
pub lookup-spine_connection_free :
    (kernel : Kernel) (dp : SpineDatapath) (sid : ℕ)
    → IsValid dp
    → (dp' : SpineDatapath) × (spine_connection_free kernel dp sid ≡ some dp')
      × IsValid dp'
      × (spine_connection_lookup dp' sid ≡ some none)
      × ((j : ℕ) → suc j ≢ sid → conn_at dp' j ≡ conn_at dp j)
lookup-spine_connection_free kernel dp sid v = by_name sid (named kernel dp v sid)
  where
    gone :
        (dp' : SpineDatapath) (p : ℕ) {c : SpineConnection}
        → conn_at dp' p ≡ some c
        → c.index ≡ 0
        → spine_connection_lookup dp' (suc p) ≡ some none
    gone dp' p e z =
        let back : suc p - 1 ≡ p = omega arith in
        unfold spine_connection_lookup in ground (arith, back, e, z)

    by_name :
        (sid : ℕ)
        → Named kernel dp sid
        → (dp' : SpineDatapath) × (spine_connection_free kernel dp sid ≡ some dp')
          × IsValid dp'
          × (spine_connection_lookup dp' sid ≡ some none)
          × ((j : ℕ) → suc j ≢ sid → conn_at dp' j ≡ conn_at dp j)
    by_name sid (unknown missing same) = (dp, same, v, missing, λ j n. refl)
    by_name sid (known p c e i h) =
        let s = IsValid-IsSlot dp p v e in
        let kept : is_dangling c.state ≡ false = open_kept dp.max_connections p c s i in
        let sent : SpineDatapath = record dp { sent = dp.sent ++ (release_sent (suc p) ∷ []) } in
        let bound = get_elem?_bound dp.spine_active_connections p e in
        (
          put_conn p (closed c) sent,
          spine_connection_free_open kernel dp p e i kept h,
          put_conn-IsValid sent p (closed c)
              (record { room = v.room; small = v.small; slots = v.slots })
              (closed-IsSlot dp.max_connections p c s),
          gone (put_conn p (closed c) sent) p (conn_at-put_conn p (closed c) sent bound) refl,
          λ j n. conn_at-put_conn_ne p j (closed c) sent (λ e'. n (ap suc e')),
        )
