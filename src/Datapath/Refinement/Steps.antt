-- ===== src/Datapath/Refinement/Steps.antt =====
-- Every call of the library of src/lib/spine.c does to the flows what the map allows.
use spine_kernel.Prelude.{
  ℕ, zero, suc, ◌≡◌, ◌≢◌, refl, sym, ap, Option, none, some, arith, false, get_elem?_bound,
  get_elem?_exists, ltb, ltb→le, ◌==◌, Bool-cases, Option-cases, inl, inr, ◌-◌, get_elem?,
  replicate,
}
use spine_kernel.Datapath.State.{SpineDatapath, SpineDatapathInfo, Kernel}
use spine_kernel.Datapath.Registry.{
  conn_at, put_conn, spine_connection_free, spine_connection_lookup,
}
use spine_kernel.Datapath.Registry.Slots.{IsValid}
use spine_kernel.Datapath.Registry.Start.{
  Started, full, lost, no_memory, success, opened, unopened, start_outcome,
}
use spine_kernel.Datapath.Registry.Free.{lookup-spine_connection_free}
use spine_kernel.Datapath.Timer.{check_fto}
use spine_kernel.Datapath.Invoke.{CongestionControl}
use spine_kernel.Datapath.Run.{
  zero_conn, IsFresh, Step, starts, frees, reads, invokes, checks, Reach, Reach-IsValid,
}
use spine_kernel.Datapath.Refinement.{
  flows, shown, Call, started, freed, internal, Spec, opens, refuses, loses, closes, keeps,
  IsElsewhere, flows_free, flows_written, flows-IsElsewhere,
}
use spine_kernel.Datapath.Refinement.Frames.{
  spine_read_msg-IsSame, spine_invoke-IsSame, check_fto-IsSame,
}

-- What `spine_connection_lookup` returns for an index that shows a flow, or none.
abbrev pub pointer : ℕ → Option SpineDatapathInfo → Option ℕ
pointer sid none = none
pointer sid (some info) = some (sid - 1)

lookup-flows :
    (dp : SpineDatapath) (sid : ℕ)
    → IsValid dp
    → spine_connection_lookup dp sid ≡ some (pointer sid (flows dp sid))
unfolding spine_connection_lookup
lookup-flows dp zero v = refl
lookup-flows dp (suc p) v =
    let back : suc p - 1 ≡ p = omega arith in
    let positive : (suc p == 0) ≡ false = ground arith in
    elim (Option-cases (conn_at dp p)) [
      | inl outside ↦ elim (Bool-cases (ltb dp.max_connections (suc p))) [
        | inl beyond ↦ rw (positive, outside, beyond) refl
        | inr inside ↦
            let low = ltb→le dp.max_connections (suc p) inside in
            let (c, at_p) =
              get_elem?_exists dp.spine_active_connections p (omega (arith, low, v.room)) in
            absurd (ground (arith, outside, at_p))
      ]
      | inr (c, at_p) ↦
          let low = get_elem?_bound dp.spine_active_connections p at_p in
          let inside : ltb dp.max_connections (suc p) ≡ false = ground (arith, low, v.room) in
          elim (Bool-cases (c.index == suc p)) [
            | inl own ↦ rw (positive, inside, back, at_p, own) (ap (λ k. some (some k)) (sym back))
            | inr other ↦ rw (positive, inside, back, at_p, other) refl
          ]
    ]

no_pointer : (sid : ℕ) (f : Option SpineDatapathInfo) → pointer sid f ≡ none → f ≡ none
no_pointer sid none h = refl
no_pointer sid (some info) h = absurd (cc)

start-Spec :
    (dp : SpineDatapath) (impl : ℕ) (info : SpineDatapathInfo) (r : Option ℕ × SpineDatapath)
    → Started dp impl info r
    → Spec (flows dp) (started info r.0) (flows r.1)
start-Spec dp impl info r (full all e) = rw e (refuses info (flows dp) (λ i. refl))
start-Spec dp impl info r (lost q c e free m z) =
    let taken = record c { index = suc q } in
    rw z (
      loses info c.flow_info q (flows (put_conn q taken dp)) (flows_free dp q e free)
        (flows_written dp q dp.last_msg_sent dp.sent taken e refl)
        (flows-IsElsewhere dp q dp.last_msg_sent dp.sent taken e))
start-Spec dp impl info r (no_memory q c e free m z) =
    let taken = unopened (record c { index = suc q }) impl info in
    rw z (
      loses info info q (flows (put_conn q taken dp)) (flows_free dp q e free)
        (flows_written dp q dp.last_msg_sent dp.sent taken e refl)
        (flows-IsElsewhere dp q dp.last_msg_sent dp.sent taken e))
start-Spec dp impl info r (success q c t h last created e free m z) =
    let new = opened (record c { index = suc q }) impl info last created in
    rw z (
      opens info q (flows (put_conn q new (record dp { last_msg_sent = t; sent = h })))
        (flows_free dp q e free) (flows_written dp q t h new e refl)
        (flows-IsElsewhere dp q t h new e))

free-Spec :
    (kernel : Kernel) (dp : SpineDatapath) (sid : ℕ) {dp' : SpineDatapath}
    → IsValid dp
    → spine_connection_free kernel dp sid ≡ some dp'
    → Spec (flows dp) (freed sid) (flows dp')
free-Spec kernel dp sid {dp'} v e =
    let (after, ran, v', gone, others) = lookup-spine_connection_free kernel dp sid v in
    let same : after ≡ dp' = ground (arith, e, ran) in
    rw (← same) (
      closes sid (flows after) (no_pointer sid (flows after sid) (found v' gone))
        (elsewhere after others))
  where
    found :
        {after : SpineDatapath}
        → IsValid after
        → spine_connection_lookup after sid ≡ some none
        → pointer sid (flows after sid) ≡ none
    found {after} v' gone = ground (arith, lookup-flows after sid v', gone)

    elsewhere :
        (after : SpineDatapath)
        → ((j : ℕ) → suc j ≢ sid → conn_at after j ≡ conn_at dp j)
        → IsElsewhere sid (flows dp) (flows after)
    elsewhere after others zero other = refl
    elsewhere after others (suc j) other = ap (shown (suc j)) (others j other)

-- What a step's caller sees of it.
abbrev pub call :
    {S : Type 0} (m : CongestionControl S) {dp dp' : SpineDatapath} → Step m dp dp' → Call
call m (starts kernel impl info r name e) = started info r
call m (frees kernel sid e) = freed sid
call m (reads buf z ret e) = internal
call m (invokes kernel p conn s s' ret at_p i e) = internal
call m (checks since_last e) = internal

module _ {S : Type 0} (m : CongestionControl S) where
  pub Step-Spec :
      {dp dp' : SpineDatapath} (s : Step m dp dp')
      → IsValid dp
      → Spec (flows dp) (call m s) (flows dp')
  Step-Spec {dp} {dp'} (starts kernel impl info r name e) v =
      let (res, ran, done) = start_outcome kernel dp impl info v name in
      let same : res ≡ (r, dp') = ground (arith, e, ran) in
      rw same at (start-Spec dp impl info res done)
  Step-Spec {dp} {dp'} (frees kernel sid e) v = free-Spec kernel dp sid v e
  Step-Spec {dp} {dp'} (reads buf z ret e) v = keeps (flows dp') (spine_read_msg-IsSame dp buf z e)
  Step-Spec {dp} {dp'} (invokes kernel p conn s s' ret at_p i e) v =
      keeps (flows dp') (spine_invoke-IsSame m kernel dp p conn v at_p i s e)
  Step-Spec {dp} {dp'} (checks since_last e) v =
      rw (← e) (keeps (flows (check_fto since_last dp).1) (check_fto-IsSame since_last dp))

no_flows : (n j sid : ℕ) → shown (suc sid) (get_elem? (replicate n zero_conn) j) ≡ none
no_flows zero j sid = refl
no_flows (suc n) zero sid = ground arith
no_flows (suc n) (suc j) sid = no_flows n j sid

IsFresh-empty : (dp : SpineDatapath) → IsFresh dp → (i : ℕ) → flows dp i ≡ none
IsFresh-empty dp f zero = refl
IsFresh-empty dp f (suc p) = rw f.zeroed (no_flows dp.max_connections p p)

-- The library implements a map from indices to flows. A zeroed table shows no flow. From every table
-- that a run of calls reaches, each call that returns does to the flows what the map allows: a start
-- opens the caller's flow under an index that was free, or returns NULL; a free closes its index; and no
-- other call changes a flow. And `spine_connection_lookup` finds just the indices that the map has.
pub Reach-Spec :
    {S : Type 0} (m : CongestionControl S) {dp dp' : SpineDatapath}
    → IsFresh dp
    → Reach m dp dp'
    → ((i : ℕ) → flows dp i ≡ none)
      × ((dp'' : SpineDatapath) (s : Step m dp' dp'') → Spec (flows dp') (call m s) (flows dp''))
      × ((sid : ℕ) → spine_connection_lookup dp' sid ≡ some (pointer sid (flows dp' sid)))
Reach-Spec m {dp} {dp'} f reach =
    let v = (Reach-IsValid m f reach).0 in
    (IsFresh-empty dp f, λ dp'' s. Step-Spec m s v, λ sid. lookup-flows dp' sid v)
