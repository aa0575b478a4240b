-- ===== src/Host/Sound.antt =====
-- The invariant of the kernel module with all of its sockets.
use spine_kernel.Prelude.{ℕ, suc, ◌≡◌, ◌≢◌, refl, sym, ap, ◌∙◌, Option, none, some, arith}
use spine_kernel.Datapath.State.{SpineDatapath, SpineConnection, SpineInternalAlg}
use spine_kernel.Datapath.Registry.{conn_at}
use spine_kernel.Datapath.Registry.Slots.{IsValid, IsOpen}
use spine_kernel.Datapath.Staging.Slots.{StillOpen, same_slot-IsOpen}
use spine_kernel.Tcp.{TcpSock}
use spine_kernel.Tcp.Consult.{IsAttached, IsSocketOf, IsKept, IsStarted}
use spine_kernel.Tcp.Release.{IsReleased}
use spine_kernel.Tcp.Ops.{TcpCongestionOps}
use spine_kernel.Host.{Host}

-- The connection of the socket `sk`, if it has one, is open, points back to that socket, and is
-- under the module's algorithm.
abbrev pub Owns : SpineDatapath → ℕ → SpineInternalAlg → Option ℕ → Type 0
Owns dp sk alg conn = IsAttached dp conn × IsSocketOf dp sk alg conn

-- The table is valid; each socket that uses the module owns its connection, and its state is good.
pub record IsSound {S Opening Call : Type 0} (ops : TcpCongestionOps S Opening Call)
    (Good : S → Type 0) (h : Host S) : Type 0 where
  pub valid : IsValid h.dp
  pub owns :
      (sk : ℕ) (tp : TcpSock) (ca : S)
      → h.socks sk ≡ some (tp, ca)
      → Owns h.dp sk ops.alg (ops.conn ca)
  pub good : (sk : ℕ) (tp : TcpSock) (ca : S) → h.socks sk ≡ some (tp, ca) → Good ca

-- The slot of a connection that two sockets own makes them one.
pub same_owner :
    (dp : SpineDatapath) (sk sk' : ℕ) (alg : SpineInternalAlg) (conn conn' : Option ℕ) (p : ℕ)
    → Owns dp sk alg conn
    → Owns dp sk' alg conn'
    → conn ≡ some p
    → conn' ≡ some p
    → sk ≡ sk'
same_owner dp sk sk' alg conn conn' p own own' e e' =
    let (c, at_p, of_sk, _) = rw e at own.1 in
    let (c', at_p', of_sk', _) = rw e' at own'.1 in
    let one : c ≡ c' = ground (arith, at_p, at_p') in ground (arith, of_sk, of_sk', one)

-- What an owner finds in the slot of its connection.
pub owner_slot :
    (dp : SpineDatapath) (sk p : ℕ) (alg : SpineInternalAlg)
    → Owns dp sk alg (some p)
    → (c : SpineConnection) × (conn_at dp p ≡ some c)
      × (c.index ≡ suc p)
      × (c.impl ≡ sk)
      × (c.flow_info.alg ≡ alg)
owner_slot dp sk p alg (o, (c, at_p, of_sk, ours)) =
    let one : o.conn ≡ c = ground (arith, at_p, o.at_p) in
    (o.conn, o.at_p, o.own_index, rw (← one) at of_sk, rw (← one) at ours)

-- What two datapaths with the same slot of a connection say of its owner.
pub same_slot-Owns :
    (dp dp' : SpineDatapath) (sk : ℕ) (alg : SpineInternalAlg) (conn : Option ℕ)
    → ((j : ℕ) → conn ≡ some j → conn_at dp' j ≡ conn_at dp j)
    → Owns dp sk alg conn
    → Owns dp' sk alg conn
same_slot-Owns dp dp' sk alg none same own = (tt, tt)
same_slot-Owns dp dp' sk alg (some p) same (o, (c, at_p, of_sk, ours)) =
    ((same_slot-IsOpen dp dp' p o (same p refl)).0, (c, same p refl ∙ at_p, of_sk, ours))

-- An owner stays one where its connection stays open, and of its socket.
pub StillOpen-Owns :
    (dp dp' : SpineDatapath) (sk : ℕ) (alg : SpineInternalAlg) (conn : Option ℕ)
    → ((j : ℕ) (o : IsOpen dp j) → StillOpen dp' o)
    → Owns dp sk alg conn
    → Owns dp' sk alg conn
StillOpen-Owns dp dp' sk alg none still own = (tt, tt)
StillOpen-Owns dp dp' sk alg (some p) still (o, (c, at_p, of_sk, ours)) =
    let (o', impl, info) = still p o in
    let one : o.conn ≡ c = ground (arith, at_p, o.at_p) in
    (o', (o'.conn, o'.at_p, impl ∙ rw (← one) at of_sk, ap (λ i. i.alg) info ∙ rw (← one) at ours))

-- Where a module's call for one socket keeps the datapath, opens a connection or gives one back, the slot
-- of another socket's connection is as it was.
module _ (dp : SpineDatapath) (sk sk' : ℕ) (alg : SpineInternalAlg) (conn conn' : Option ℕ)
    (own' : Owns dp sk' alg conn') where
  distinct : sk' ≢ sk → Owns dp sk alg conn → (j : ℕ) → conn' ≡ some j → conn ≢ some j
  distinct apart own j e z = apart (same_owner dp sk' sk alg conn' conn j own' own e z)

  pub others-IsKept :
      (dp' : SpineDatapath)
      → sk' ≢ sk
      → Owns dp sk alg conn
      → IsKept dp conn dp'
      → (j : ℕ) → conn' ≡ some j
      → conn_at dp' j ≡ conn_at dp j
  others-IsKept dp' apart own kept j e = kept.others j (distinct apart own j e)

  pub others-IsReleased :
      {run : Option SpineDatapath} (r : IsReleased dp conn run)
      → sk' ≢ sk
      → Owns dp sk alg conn
      → (j : ℕ) → conn' ≡ some j
      → conn_at r.after j ≡ conn_at dp j
  others-IsReleased r apart own j e = r.others j (distinct apart own j e)

  pub others-IsStarted :
      (dp' : SpineDatapath)
      → IsStarted dp sk alg conn dp'
      → (j : ℕ) → conn' ≡ some j
      → conn_at dp' j ≡ conn_at dp j
  others-IsStarted dp' started j e =
      let o : IsOpen dp j = (rw e at own'.0) in
      (started.others j o.conn o.at_p (λ free. absurd (omega (arith, free, o.own_index)))).1
      ∙ sym o.at_p
