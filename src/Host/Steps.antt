-- ===== src/Host/Steps.antt =====
-- Each event of a sound host but a message runs without a fault, and each leaves a sound host.
use spine_kernel.Prelude.{
  ℕ, ◌==◌, ==_iff, ◌≡◌, ◌≢◌, refl, ap, Option, none, some, false, >>=-eq-some, inl, inr, Bool-cases,
  Option-cases, arith, to_int,
}
use spine_kernel.Datapath.State.{SpineDatapath, Pointers}
use spine_kernel.Datapath.Timer.{check_fto}
use spine_kernel.Datapath.Timer.Fallback.{check_fto_lem}
use spine_kernel.Datapath.Registry.{conn_at}
use spine_kernel.Datapath.Registry.Slots.{IsValid, IsOpen}
use spine_kernel.Datapath.Run.{check_fto-IsValid}
use spine_kernel.Datapath.Staging.{spine_read_msg}
use spine_kernel.Datapath.Staging.Safety.{spine_read_msg-IsValid}
use spine_kernel.Datapath.Staging.Pointers.{spine_read_msg-pointers}
use spine_kernel.Datapath.Staging.Slots.{StillOpen, same_slot-IsOpen, spine_read_msg-IsOpen}
use spine_kernel.Netlink.{Netlink, NlMsg, spine_nl_recv}
use spine_kernel.Tcp.{TcpSock}
use spine_kernel.Tcp.Ops.{TcpCongestionOps, IsLawful}
use spine_kernel.Host.{
  Host, put_sock, Event, is_message, takes_up, calls, sets, leaves, arrives, checks, socket_of,
  step, May,
}
use spine_kernel.Host.Sound.{
  Owns, IsSound, same_slot-Owns, StillOpen-Owns, others-IsKept, others-IsReleased, others-IsStarted,
}

-- Whenever `spine_nl_recv` returns, the table is still valid, what was open still is, and the pointers are
-- as they were.
pub spine_nl_recv-IsOpen :
    (nl : Netlink) (dp : SpineDatapath) (msg : NlMsg) {dp' : SpineDatapath}
    → spine_nl_recv nl dp msg ≡ some dp'
    → IsValid dp
    → IsValid dp' × ((j : ℕ) (o : IsOpen dp j) → StillOpen dp' o) × (dp'.pointers ≡ dp.pointers)
unfolding spine_nl_recv
spine_nl_recv-IsOpen nl dp msg {dp'} e v = elim (Bool-cases nl.reader) [
  | inl on ↦
      let ((ret, after), run, end) =
        >>=-eq-some (spine_read_msg dp msg.payload (to_int msg.nlmsg_len)) _ (rw on at e) in
      let same : after ≡ dp' = cc in
      rw (← same) (
        spine_read_msg-IsValid dp msg.payload (to_int msg.nlmsg_len) ret after v run,
        λ j o. spine_read_msg-IsOpen dp msg.payload (to_int msg.nlmsg_len) j run o,
        spine_read_msg-pointers dp msg.payload (to_int msg.nlmsg_len) run,
      )
  | inr off ↦
      let same : dp ≡ dp' = ground (arith, off) in rw (← same) (v, λ j o. (o, refl, refl), refl)
]

module _ {S Opening Call : Type 0} (ops : TcpCongestionOps S Opening Call) (Good : S → Type 0) where
  -- What the socket at another address than `sk` has is as it was: its entry, and the slot of its
  -- connection.
  abbrev pub IsElsewhere : ℕ → Host S → Host S → Type 0
  IsElsewhere sk h h' =
      (sk' : ℕ) (tp : TcpSock) (ca : S) (p : ℕ)
      → sk' ≢ sk
      → h.socks sk' ≡ some (tp, ca)
      → ops.conn ca ≡ some p
      → (h'.socks sk' ≡ some (tp, ca)) × (conn_at h'.dp p ≡ conn_at h.dp p)

  -- A new datapath for all sockets.
  moved-IsSound :
      (h : Host S) (dp' : SpineDatapath)
      → IsSound ops Good h
      → IsValid dp'
      → ((j : ℕ) (o : IsOpen h.dp j) → StillOpen dp' o)
      → IsSound ops Good (record h { dp = dp' })
  moved-IsSound h dp' s v still = record {
    valid = v;
    owns = λ sk tp ca e. StillOpen-Owns h.dp dp' sk ops.alg (ops.conn ca) still (s.owns sk tp ca e);
    good = s.good;
  }

  -- A new datapath, and a new entry for one socket.
  put-IsSound :
      (h : Host S) (dp' : SpineDatapath) (sk : ℕ) (entry : Option (TcpSock × S))
      → IsSound ops Good h
      → IsValid dp'
      → ((tp : TcpSock) (ca : S)
          → entry ≡ some (tp, ca)
          → Owns dp' sk ops.alg (ops.conn ca) × Good ca)
      → ((sk' : ℕ) (tp : TcpSock) (ca : S)
          → sk' ≢ sk
          → h.socks sk' ≡ some (tp, ca)
          → (j : ℕ) → ops.conn ca ≡ some j
          → conn_at dp' j ≡ conn_at h.dp j)
      → let h' = record h { dp = dp'; socks = put_sock sk entry h.socks } in
        IsSound ops Good h' × IsElsewhere sk h h'
  put-IsSound h dp' sk entry s v new others = (
    record {
      valid = v;
      owns = λ j tp ca e. elim (Bool-cases (j == sk)) [
        | inl own ↦ let here : j ≡ sk = (==_iff j sk).0 own in rw here (new tp ca (rw own at e)).0
        | inr other ↦
            let at_j = rw other at e in
            same_slot-Owns h.dp dp' j ops.alg (ops.conn ca)
              (others j tp ca (λ z. absurd (ground (arith, other, z))) at_j) (s.owns j tp ca at_j)
      ];
      good = λ j tp ca e. elim (Bool-cases (j == sk)) [
        | inl own ↦ (new tp ca (rw own at e)).1
        | inr other ↦ s.good j tp ca (rw other at e)
      ];
    },
    λ sk' tp ca p apart at_sk' at_p.
        let other : (sk' == sk) ≡ false = ground (arith, apart) in
        (rw other at_sk', others sk' tp ca apart at_sk' p at_p),
  )

  -- An event of one socket leaves every other aside.
  abbrev pub IsAside : Event S Opening Call → Host S → Host S → Type 0
  IsAside e h h' = elim (socket_of e) [ none ↦ Unit {0} | some sk ↦ IsElsewhere sk h h' ]

  pub IsAside-socket_of :
      (e : Event S Opening Call) (h h' : Host S) (sk : ℕ)
      → IsAside e h h'
      → socket_of e ≡ some sk
      → IsElsewhere sk h h'
  IsAside-socket_of e h h' sk aside about = of (socket_of e) aside about
    where
      of :
          (o : Option ℕ)
          → (elim o as (λ _. Type 0) [ none ↦ Unit {0} | some s ↦ IsElsewhere s h h' ])
          → o ≡ some sk
          → IsElsewhere sk h h'
      of none a z = absurd (cc)
      of (some s) a z = let same : s ≡ sk = cc in rw same at a

  module _ (Uses : Pointers → Type 0) (CanOpen : Opening → TcpSock → Type 0)
      (CanCall : Call → TcpSock → Type 0) (law : IsLawful ops Good Uses CanOpen CanCall) where
    -- On a sound host an event that the environment may cause, unless it is a message, runs without a
    -- fault, and leaves a sound host; the event of one socket leaves what another has as it was.
    pub step-IsSound :
        (e : Event S Opening Call) (h : Host S)
        → Uses h.dp.pointers
        → IsSound ops Good h
        → is_message e ≡ false
        → May ops CanOpen CanCall e h
        → (h' : Host S) × (step ops e h ≡ some h')
          × IsSound ops Good h'
          × IsAside e h h'
          × (h'.dp.pointers ≡ h.dp.pointers)
    unfolding step
    step-IsSound (takes_up kernel o sk tp ca) h uses s _ (free, can) =
        let (dp', tp', ca', run, started, good) = law.opens kernel o h.dp sk tp ca s.valid can in
        let (sound, aside) =
          put-IsSound h dp' sk (some (tp', ca')) s started.valid
            (λ tp'' ca'' e.
              let same : ca' ≡ ca'' = cc in rw (← same) ((started.attached, started.socket), good))
            (λ sk' tp'' ca'' apart at_sk.
              others-IsStarted h.dp sk sk' ops.alg (ops.conn ca') (ops.conn ca'')
                (s.owns sk' tp'' ca'' at_sk) dp' started) in
        (_, rw run refl, sound, aside, started.pointers)
    step-IsSound (calls kernel sk e) h uses s _ (tp, ca, at_sk, can) =
        let own = s.owns sk tp ca at_sk in
        let (dp', tp', ca', run, kept, same, good) =
          law.calls e kernel h.dp sk tp ca uses s.valid own.0 own.1 (s.good sk tp ca at_sk) can in
        let (sound, aside) =
          put-IsSound h dp' sk (some (tp', ca')) s kept.valid
            (λ tp'' ca'' e.
              let one : ca' ≡ ca'' = cc in
              rw (← one, same) ((kept.attached, kept.socket sk ops.alg own.1), good))
            (λ sk' tp'' ca'' apart at_sk'.
              others-IsKept h.dp sk sk' ops.alg (ops.conn ca) (ops.conn ca'')
                (s.owns sk' tp'' ca'' at_sk') dp' apart own kept) in
        (_, rw (at_sk, run) refl, sound, aside, kept.pointers)
    step-IsSound (sets sk tp) h uses s _ used = elim (Option-cases (h.socks sk)) [
      | inl none_ ↦ absurd (used none_)
      | inr ((old, ca), at_sk) ↦
          let (sound, aside) =
            put-IsSound h h.dp sk (some (tp, ca)) s s.valid
              (λ tp'' ca'' e.
                let one : ca ≡ ca'' = cc in
                rw (← one) (s.owns sk old ca at_sk, s.good sk old ca at_sk))
              (λ sk' tp'' ca'' apart at_sk' j at_j. refl) in
          (_, rw at_sk refl, sound, aside, refl)
    ]
    step-IsSound (leaves kernel sk) h uses s _ used = elim (Option-cases (h.socks sk)) [
      | inl none_ ↦ absurd (used none_)
      | inr ((tp, ca), at_sk) ↦
          let own = s.owns sk tp ca at_sk in
          let r = law.closes kernel h.dp ca s.valid own.0 in
          let (sound, aside) =
            put-IsSound h r.after sk none s r.valid (λ tp'' ca'' e. absurd (cc))
              (λ sk' tp'' ca'' apart at_sk'.
                others-IsReleased h.dp sk sk' ops.alg (ops.conn ca) (ops.conn ca'')
                  (s.owns sk' tp'' ca'' at_sk') r apart own) in
          (_, rw (at_sk, r.ran) refl, sound, aside, r.pointers)
    ]
    step-IsSound (arrives msg) h uses s other _ = absurd (cc)
    step-IsSound (checks since_last) h uses s _ _ = (
      record h { dp = (check_fto since_last h.dp).1 },
      refl,
      moved-IsSound h (check_fto since_last h.dp).1 s (check_fto-IsValid since_last h.dp s.valid)
          (λ j o.
            same_slot-IsOpen h.dp (check_fto since_last h.dp).1 j o
              (ap (λ r. conn_at r.1 j) (check_fto_lem since_last h.dp))),
      tt,
      ap (λ r. r.1.pointers) (check_fto_lem since_last h.dp),
    )

    other :
        (e : Event S Opening Call) (h : Host S) {h' : Host S}
        → Uses h.dp.pointers
        → IsSound ops Good h
        → is_message e ≡ false
        → May ops CanOpen CanCall e h
        → step ops e h ≡ some h'
        → IsSound ops Good h' × IsAside e h h' × (h'.dp.pointers ≡ h.dp.pointers)
    other e h {h'} uses s unsaid can run =
        let (after, ran, sound, aside, same) = step-IsSound e h uses s unsaid can in
        let one : after ≡ h' = cc in rw (← one) (sound, aside, same)

    -- Whenever an event that the environment may cause returns on a sound host, it leaves a sound host,
    -- also if it is a message.
    pub step-kept :
        (e : Event S Opening Call) (h : Host S) {h' : Host S}
        → Uses h.dp.pointers
        → IsSound ops Good h
        → May ops CanOpen CanCall e h
        → step ops e h ≡ some h'
        → IsSound ops Good h' × IsAside e h h' × (h'.dp.pointers ≡ h.dp.pointers)
    unfolding step
    step-kept (takes_up kernel o sk tp ca) h uses s can run =
        other (takes_up kernel o sk tp ca) h uses s refl can run
    step-kept (calls kernel sk e) h uses s can run = other (calls kernel sk e) h uses s refl can run
    step-kept (sets sk tp) h uses s can run = other (sets sk tp) h uses s refl can run
    step-kept (leaves kernel sk) h uses s can run = other (leaves kernel sk) h uses s refl can run
    step-kept (checks since_last) h uses s can run = other (checks since_last) h uses s refl can run
    step-kept (arrives msg) h {h'} uses s can run =
        let (dp', received, end) = >>=-eq-some (spine_nl_recv h.netlink h.dp msg) _ run in
        let (v, still, same) = spine_nl_recv-IsOpen h.netlink h.dp msg received s.valid in
        let after : record h { dp = dp' } ≡ h' = cc in
        rw (← after) (moved-IsSound h dp' s v still, tt, same)
