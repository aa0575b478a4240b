-- ===== src/Tcp/Consult.antt =====
-- What the congestion control modules rely on when they call `spine_invoke`.
use spine_kernel.Prelude.{
  suc, length, ℕ, ◌≡◌, ◌≢◌, ◌∙◌, ap, refl, arith, ◌==◌, ==_iff, true, Option, none, some, ℤ, pos,
}
use spine_kernel.Datapath.State.{
  SpineDatapath, SpineConnection, SpineDatapathInfo, SpineInternalAlg, Kernel, cleared,
}
use spine_kernel.Datapath.Registry.{conn_at, spine_connection_start}
use spine_kernel.Datapath.Registry.Start.{
  opened, unopened, Started, full, lost, no_memory, success, start_outcome,
}
use spine_kernel.Datapath.Registry.Open.{Started-IsValid, lookup-spine_connection_start}
use spine_kernel.Datapath.Registry.Slots.{IsValid, IsOpen, IsTaken, conn_at-put_conn_ne}
use spine_kernel.Datapath.Invoke.{CongestionControl}
use spine_kernel.Datapath.Invoke.Safety.{Obeys, spine_invoke-IsValid}
use spine_kernel.Tcp.{consult, through_impl}

pub through_impl_lem :
    {A : Type 0} (sk : ℕ) (conn : SpineConnection) (run : Option A)
    → conn.impl ≡ sk
    → through_impl sk conn run ≡ run
unfolding through_impl
through_impl_lem sk conn run e =
    let here : (conn.impl == sk) ≡ true = (==_iff conn.impl sk).1 e in rw here refl

-- A free slot and a taken one are two.
two_slots :
    (dp : SpineDatapath) (q j : ℕ) (c d : SpineConnection)
    → conn_at dp q ≡ some c
    → conn_at dp j ≡ some d
    → c.index ≡ 0
    → IsTaken d
    → j ≢ q
two_slots dp q j c d at_q at_j free taken same =
    let one : c ≡ d = ground (arith, at_q, at_j, same) in taken (rw one at free)

-- The module's connection, if it has one, is open.
abbrev pub IsAttached : SpineDatapath → Option ℕ → Type 0
IsAttached dp none = Unit {0}
IsAttached dp (some p) = IsOpen dp p

-- The module's connection, if it has one, is that of the socket `sk`, under the algorithm `alg`.
abbrev pub IsSocketOf : SpineDatapath → ℕ → SpineInternalAlg → Option ℕ → Type 0
IsSocketOf dp sk alg none = Unit {0}
IsSocketOf dp sk alg (some p) =
    (c : SpineConnection) × (conn_at dp p ≡ some c) × (c.impl ≡ sk) × (c.flow_info.alg ≡ alg)

-- What a call for the connection `conn` leaves of the datapath `dp`: a valid table, with the connection
-- still open and of the same socket and algorithm, and every other slot as it was.
pub record IsKept (dp : SpineDatapath) (conn : Option ℕ) (dp' : SpineDatapath) : Type 0 where
  pub valid : IsValid dp'
  pub attached : IsAttached dp' conn
  pub socket :
      (sk : ℕ) (alg : SpineInternalAlg) → IsSocketOf dp sk alg conn → IsSocketOf dp' sk alg conn
  pub others : (j : ℕ) → conn ≢ some j → conn_at dp' j ≡ conn_at dp j
  pub pointers : dp'.pointers ≡ dp.pointers

-- What the opening of the connection `conn` for the socket `sk` leaves of the datapath `dp`: a valid
-- table, with the connection, if there is one, open, of that socket and under `alg`; each slot that was taken is another one, and as it was.
pub record IsStarted (dp : SpineDatapath) (sk : ℕ) (alg : SpineInternalAlg) (conn : Option ℕ)
    (dp' : SpineDatapath) : Type 0 where
  pub valid : IsValid dp'
  pub attached : IsAttached dp' conn
  pub socket : IsSocketOf dp' sk alg conn
  pub others :
      (j : ℕ) (c : SpineConnection)
      → conn_at dp j ≡ some c
      → IsTaken c
      → (conn ≢ some j) × (conn_at dp' j ≡ some c)
  pub pointers : dp'.pointers ≡ dp.pointers

-- A datapath that nothing happened to is kept.
pub same-IsKept :
    (dp : SpineDatapath) (conn : Option ℕ) → IsValid dp → IsAttached dp conn → IsKept dp conn dp
same-IsKept dp conn v at_conn = record {
  valid = v;
  attached = at_conn;
  socket = λ sk alg h. h;
  others = λ j n. refl;
  pointers = refl;
}

-- For a socket with the address `sk`, whose connection holds that address, the call runs without a fault
-- if the module obeys; it keeps the datapath, and the state good.
pub consult_lem :
    {S : Type 0} (m : CongestionControl S) (Good : S → Type 0) (kernel : Kernel)
    (dp : SpineDatapath) (sk : ℕ) (alg : SpineInternalAlg) (conn : Option ℕ) (s : S)
    → Obeys m Good dp.pointers sk
    → Good s
    → IsValid dp
    → IsAttached dp conn
    → IsSocketOf dp sk alg conn
    → (ret : ℤ) × (dp' : SpineDatapath) × (s' : S) × (consult m kernel dp conn s
        ≡ some (ret, dp', s'))
      × IsKept dp conn dp'
      × Good s'
unfolding consult
consult_lem m Good kernel dp sk alg none s obeys good v at_conn own =
    (pos 0, dp, s, refl, same-IsKept dp none v at_conn, good)
consult_lem m Good kernel dp sk alg (some p) s obeys good v o (c, at_p, of_sk, ours) =
    let one : o.conn ≡ c = ground (arith, at_p, o.at_p) in
    let (ret, dp', s', run, good', i) =
      spine_invoke-IsValid m Good kernel dp p s o (rw (one, of_sk) obeys) good v in
    (
      ret,
      dp',
      s',
      run,
      record {
        valid = i.valid;
        attached = i.still;
        socket = λ sk' alg' (c', at_p', of_sk', ours').
            let same : o.conn ≡ c' = ground (arith, at_p', o.at_p) in
            (
              i.still.conn,
              i.still.at_p,
              i.impl ∙ rw (← same) at of_sk',
              ap (λ f. f.alg) i.flow_info ∙ rw (← same) at ours',
            );
        others = λ j n. i.others j (λ e. n (rw e refl));
        pointers = i.pointers;
      },
      good',
    )

pub IsKept-of :
    {dp dp' : SpineDatapath} {conn conn' : Option ℕ}
    → conn' ≡ conn
    → IsKept dp conn' dp'
    → IsKept dp conn dp'
IsKept-of e kept = rw (← e) kept

Started-pointers :
    (kernel : Kernel) (dp : SpineDatapath) (sk : ℕ) (info : SpineDatapathInfo)
    (r : Option ℕ × SpineDatapath)
    → Started dp sk info r
    → r.1.pointers ≡ dp.pointers
Started-pointers kernel dp sk info r (full all z) = rw z refl
Started-pointers kernel dp sk info r (lost q c e free h z) = rw z refl
Started-pointers kernel dp sk info r (no_memory q c e free h z) = rw z refl
Started-pointers kernel dp sk info r (success q c t l last created e free h z) = rw z refl

Started-others :
    (kernel : Kernel) (dp : SpineDatapath) (sk : ℕ) (info : SpineDatapathInfo)
    (r : Option ℕ × SpineDatapath)
    → Started dp sk info r
    → (j : ℕ) (d : SpineConnection) → conn_at dp j ≡ some d
    → IsTaken d
    → (r.0 ≢ some j) × (conn_at r.1 j ≡ some d)
Started-others kernel dp sk info r (full all z) j d at_j taken = rw z ((λ e. absurd (cc)), at_j)
Started-others kernel dp sk info r (lost q c e free h z) j d at_j taken =
    let apart = two_slots dp q j c d e at_j free taken in
    rw z ((λ n. absurd (cc)), conn_at-put_conn_ne q j (record c { index = suc q }) dp apart ∙ at_j)
Started-others kernel dp sk info r (no_memory q c e free h z) j d at_j taken =
    let apart = two_slots dp q j c d e at_j free taken in
    rw z (
      (λ n. absurd (cc)),
      conn_at-put_conn_ne q j (unopened (record c { index = suc q }) sk info) dp apart ∙ at_j,
    )
Started-others kernel dp sk info r (success q c t l last created e free h z) j d at_j taken =
    let apart = two_slots dp q j c d e at_j free taken in
    rw z (
      (λ n. let same : j ≡ q = cc in apart same),
      conn_at-put_conn_ne q j (opened (record c { index = suc q }) sk info last created)
            (record dp { last_msg_sent = t; sent = l }) apart
          ∙ at_j,
    )

-- `spine_connection_start` runs without a fault on a valid table, with a name of 64 bytes.
pub start-IsStarted :
    (kernel : Kernel) (dp : SpineDatapath) (sk : ℕ) (info : SpineDatapathInfo)
    → IsValid dp
    → length info.cong_alg ≡ 64
    → (conn : Option ℕ) × (dp' : SpineDatapath) × (spine_connection_start kernel dp sk info
        ≡ some (conn, dp'))
      × IsStarted dp sk info.alg conn dp'
start-IsStarted kernel dp sk info v name =
    let ((conn, dp'), run, started) = start_outcome kernel dp sk info v name in
    (
      conn,
      dp',
      run,
      record {
        valid = Started-IsValid kernel dp sk info v name (conn, dp') started;
        attached = attached conn dp' run;
        socket = socket conn dp' run;
        others = Started-others kernel dp sk info (conn, dp') started;
        pointers = Started-pointers kernel dp sk info (conn, dp') started;
      },
    )
  where
    attached :
        (q : Option ℕ) (dp' : SpineDatapath)
        → spine_connection_start kernel dp sk info ≡ some (q, dp')
        → IsAttached dp' q
    attached none dp' run = tt
    attached (some p) dp' run =
        let o = lookup-spine_connection_start kernel dp sk info v name p dp' run in
        record {
          conn = opened (record o.old { index = suc p }) sk info o.last o.created;
          priv = record { sent_create = o.created; pending_update = cleared };
          at_p = o.is;
          own_index = refl;
          has_state = refl;
        }

    socket :
        (q : Option ℕ) (dp' : SpineDatapath)
        → spine_connection_start kernel dp sk info ≡ some (q, dp')
        → IsSocketOf dp' sk info.alg q
    socket none dp' run = tt
    socket (some p) dp' run =
        let o = lookup-spine_connection_start kernel dp sk info v name p dp' run in
        (opened (record o.old { index = suc p }) sk info o.last o.created, o.is, refl, refl)
