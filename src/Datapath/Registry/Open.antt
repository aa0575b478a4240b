-- ===== src/Datapath/Registry/Open.antt =====
-- What a caller of `spine_connection_start` and `spine_connection_lookup` can rely on.
use spine_kernel.Prelude.{
  ℕ, suc, ◌-◌, ◌<◌, ◌≤◌, ◌≡◌, ◌≢◌, refl, ap, ◌∙◌, inr, Bool, Option, none, some, length, arith,
  get_elem?_bound, All-get,
}
use spine_kernel.Datapath.State.{SpineDatapath, SpineConnection, SpineDatapathInfo, Kernel}
use spine_kernel.Datapath.Registry.{
  conn_at, put_conn, spine_connection_start, spine_connection_lookup,
}
use spine_kernel.Datapath.Registry.Slots.{
  IsValid-IsSlot, put_conn-IsValid, conn_at-put_conn_ne, is_dangling, IsValid, IsTaken,
  conn_at-put_conn,
}
use spine_kernel.Datapath.Registry.Start.{
  Started, full, lost, no_memory, success, opened, unopened, start_outcome,
}

slot_bound :
    (dp : SpineDatapath) (q : ℕ) {c : SpineConnection}
    → conn_at dp q ≡ some c
    → q < length dp.spine_active_connections
slot_bound dp q e = get_elem?_bound dp.spine_active_connections q e

pub lookup_found :
    (dp : SpineDatapath) (q : ℕ) {c : SpineConnection}
    → conn_at dp q ≡ some c
    → c.index ≡ suc q
    → suc q ≤ dp.max_connections
    → spine_connection_lookup dp (suc q) ≡ some (some q)
unfolding spine_connection_lookup
lookup_found dp q e i h = let back : suc q - 1 ≡ q = omega arith in ground (arith, back, e)

-- `dp'` is `dp` with the free slot `p`, not the last, opened for the flow; every other slot is as it was.
pub record IsOpened (dp : SpineDatapath) (p impl : ℕ) (info : SpineDatapathInfo)
    (dp' : SpineDatapath) : Type 0 where
  pub old : SpineConnection
  pub last : ℕ
  pub created : Bool
  pub was : conn_at dp p ≡ some old
  pub free : old.index ≡ 0
  pub inside : suc p < dp.max_connections
  pub is : conn_at dp' p ≡ some (opened (record old { index = suc p }) impl info last created)
  pub found : spine_connection_lookup dp' (suc p) ≡ some (some p)
  pub others : (j : ℕ) → j ≢ p → conn_at dp' j ≡ conn_at dp j

module _ (kernel : Kernel) (dp : SpineDatapath) (impl : ℕ) (info : SpineDatapathInfo)
    (v : IsValid dp) (name : length info.cong_alg ≡ 64) where
  -- Each of the ways to end leaves a valid table.
  pub Started-IsValid : (r : Option ℕ × SpineDatapath) → Started dp impl info r → IsValid r.1
  Started-IsValid r (full all e) = rw e v
  Started-IsValid r (lost q c e free h z) =
      let s = IsValid-IsSlot dp q v e in
      rw z (
        put_conn-IsValid dp q (record c { index = suc q }) v
          (record {
            own = inr refl;
            kept = inr (ap is_dangling (s.last h));
            last = s.last;
            name = s.name;
            staged = s.staged;
          }))
  Started-IsValid r (no_memory q c e free h z) = rw z (
      put_conn-IsValid dp q (unopened (record c { index = suc q }) impl info) v
        (record { own = inr refl; kept = inr refl; last = λ _. refl; name = name; staged = tt }))
  Started-IsValid r (success q c t l last created e free h z) = rw z (
      put_conn-IsValid (record dp { last_msg_sent = t; sent = l }) q
        (opened (record c { index = suc q }) impl info last created)
        (record { room = v.room; small = v.small; slots = v.slots })
        (record {
          own = inr refl;
          kept = inr refl;
          last = λ end. absurd (omega arith);
          name = name;
          staged = (refl, refl);
        }))

  -- On a valid table, with a name of 64 bytes, `spine_connection_start` runs without a fault,
  -- whatever the kernel answers, and leaves a valid table.
  pub spine_connection_start-IsValid :
      (r : Option ℕ × SpineDatapath) × (spine_connection_start kernel dp impl info ≡ some r)
      × IsValid r.1
  spine_connection_start-IsValid =
      let (r, e, s) = start_outcome kernel dp impl info v name in (r, e, Started-IsValid r s)

  IsOpened-by :
      (r : Option ℕ × SpineDatapath)
      → Started dp impl info r
      → (p : ℕ) (dp' : SpineDatapath) → r ≡ (some p, dp')
      → IsOpened dp p impl info dp'
  IsOpened-by r (full all e) p dp' h = absurd (cc)
  IsOpened-by r (lost q c e free m z) p dp' h = absurd (cc)
  IsOpened-by r (no_memory q c e free m z) p dp' h = absurd (cc)
  IsOpened-by r (success q c t l last created e free m z) p dp' h =
      let new : SpineConnection = opened (record c { index = suc q }) impl info last created in
      let after : SpineDatapath = put_conn q new (record dp { last_msg_sent = t; sent = l }) in
      let is_q : p ≡ q = cc in
      let is_after : dp' ≡ after = cc in
      let at_q : conn_at after q ≡ some new =
        conn_at-put_conn q new (record dp { last_msg_sent = t; sent = l }) (slot_bound dp q e) in
      rw (is_q, is_after)
        (record {
          old = c;
          last = last;
          created = created;
          was = e;
          free = free;
          inside = m;
          is = at_q;
          found = lookup_found after q at_q refl (omega arith);
          others = λ j n. conn_at-put_conn_ne q j new (record dp { last_msg_sent = t; sent = l }) n;
        })

  -- A connection that `spine_connection_start` returns was free before and is not the last slot; it
  -- now has its index, the caller's socket and flow, and private state with nothing staged; it is
  -- found under its index; and every other slot is as it was.
  pub lookup-spine_connection_start :
      (p : ℕ) (dp' : SpineDatapath)
      → spine_connection_start kernel dp impl info ≡ some (some p, dp')
      → IsOpened dp p impl info dp'
  lookup-spine_connection_start p dp' e =
      let (r, ran, s) = start_outcome kernel dp impl info v name in
      let same : r ≡ (some p, dp') = cc in IsOpened-by r s p dp' same

  -- The last slot is never handed out: if it is the only free one, `spine_connection_start` marks it
  -- as taken and returns NULL, so from then on no slot is free.
  pub spine_connection_start_loses_last :
      (q : ℕ) (c : SpineConnection)
      → suc q ≡ dp.max_connections
      → conn_at dp q ≡ some c
      → c.index ≡ 0
      → ((j : ℕ) (d : SpineConnection) → j ≢ q → conn_at dp j ≡ some d → IsTaken d)
      → spine_connection_start kernel dp impl info
        ≡ some (none, put_conn q (record c { index = suc q }) dp)
  spine_connection_start_loses_last q c end at_q free others =
      let (r, ran, s) = start_outcome kernel dp impl info v name in ran ∙ ap some (only r s)
    where
      only :
          (r : Option ℕ × SpineDatapath)
          → Started dp impl info r
          → r ≡ (none, put_conn q (record c { index = suc q }) dp)
      only r (full all z) = absurd (All-get IsTaken dp.spine_active_connections q all at_q free)
      only r (lost p d e f m z) =
          let same : p ≡ q = omega arith in
          let same_conn : d ≡ c = ground (arith, e, at_q, same) in rw (z, same_conn, same) refl
      only r (no_memory p d e f m z) = absurd (others p d (omega arith) e f)
      only r (success p d t l last created e f m z) = absurd (others p d (omega arith) e f)
