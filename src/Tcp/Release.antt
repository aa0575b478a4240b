-- ===== src/Tcp/Release.antt =====
-- What the release callbacks of src/tcp_vanilla.c, src/tcp_neo.c and src/tcp_scubic.c leave of the datapath.
use spine_kernel.Prelude.{
  ℕ, suc, ◌-◌, ◌≡◌, ◌≢◌, refl, Option, none, some, arith, ◌==◌, ◌||◌, ltb, pos, negsuc, inl, inr,
  Bool-cases, >>=-eq-some, if◌then◌else◌, is_neg, Bool, true, false, Bytes, ℤ,
}
use spine_kernel.Datapath.State.{SpineDatapath, SpineConnection, Kernel, stack_array, post}
use spine_kernel.Datapath.Registry.{
  conn_at, put_conn, spine_connection_lookup, spine_connection_free, free_spine_priv_state,
}
use spine_kernel.Wire.{write_release_msg}
use spine_kernel.Datapath.Registry.Slots.{IsValid}
use spine_kernel.Datapath.Registry.Free.{lookup-spine_connection_free}
use spine_kernel.Tcp.{release_conn}
use spine_kernel.Tcp.Consult.{IsAttached}

-- The datapath that `run` ends in is valid; the connection is not found any more, and every other slot is
-- as it was.
pub record IsReleased (dp : SpineDatapath) (conn : Option ℕ) (run : Option SpineDatapath)
    : Type 0 where
  pub after : SpineDatapath
  pub ran : run ≡ some after
  pub valid : IsValid after
  pub gone : (p : ℕ) → conn ≡ some p → spine_connection_lookup after (suc p) ≡ some none
  pub others : (j : ℕ) → conn ≢ some j → conn_at after j ≡ conn_at dp j
  pub pointers : after.pointers ≡ dp.pointers

post-pointers : (msg : Bytes) (n : ℤ) (dp : SpineDatapath) → (post msg n dp).pointers ≡ dp.pointers
unfolding post
post-pointers msg (pos n) dp = refl
post-pointers msg (negsuc n) dp = refl

-- The end of `spine_connection_free`, whether or not it could write the message.
put_conn-pointers :
    (failed : Bool) (dp : SpineDatapath) (p : ℕ) (c c' : SpineConnection) (msg : Bytes) (n : ℤ)
    {dp' : SpineDatapath}
    → (if failed then some (put_conn p c dp) else some (put_conn p c' (post msg n dp))) ≡ some dp'
    → dp'.pointers ≡ dp.pointers
put_conn-pointers true dp p c c' msg n {dp'} e =
    let same : put_conn p c dp ≡ dp' = cc in rw (← same) refl
put_conn-pointers false dp p c c' msg n {dp'} e =
    let same : put_conn p c' (post msg n dp) ≡ dp' = cc in rw (← same) (post-pointers msg n dp)

spine_connection_free-pointers :
    (kernel : Kernel) (dp : SpineDatapath) (sid : ℕ) {dp' : SpineDatapath}
    → spine_connection_free kernel dp sid ≡ some dp'
    → dp'.pointers ≡ dp.pointers
unfolding spine_connection_free
spine_connection_free-pointers kernel dp sid {dp'} run =
    elim (Bool-cases (sid == 0 || ltb dp.max_connections sid)) [
      | inl outside ↦ ground (arith, outside, run)
      | inr inside ↦
          let (conn, _, run₁) = >>=-eq-some (conn_at dp (sid - 1)) _ (rw inside at run) in
          elim (Bool-cases (conn.index == sid)) [
            | inr other ↦ ground (arith, other, run₁)
            | inl own ↦
                let (state, _, run₂) =
                  >>=-eq-some (free_spine_priv_state conn.state) _ (rw own at run₁) in
                let ((n, msg), _, run₃) =
                  >>=-eq-some (write_release_msg (stack_array 900) (pos 12) sid) _ run₂ in
                put_conn-pointers (is_neg n) dp (sid - 1) (record conn { state = state })
                  (record conn { state = state; index = 0 }) msg n run₃
          ]
    ]

-- What `release_conn` leaves of an open connection, or of none.
pub release_conn-IsReleased :
    (kernel : Kernel) (dp : SpineDatapath) (conn : Option ℕ)
    → IsValid dp
    → IsAttached dp conn
    → IsReleased dp conn (release_conn kernel dp conn)
unfolding release_conn
release_conn-IsReleased kernel dp none v o = record {
  after = dp;
  ran = refl;
  valid = v;
  gone = λ p e. absurd (cc);
  others = λ j n. refl;
  pointers = refl;
}
release_conn-IsReleased kernel dp (some p) v o =
    let (dp', run, v', gone, others) = lookup-spine_connection_free kernel dp (suc p) v in
    record {
      after = dp';
      ran = rw (o.at_p, o.own_index) run;
      valid = v';
      gone = λ q e. let same : suc q ≡ suc p = cc in rw same gone;
      others = λ j n. others j (λ e. let same : j ≡ p = omega (arith, e) in n (rw same refl));
      pointers = spine_connection_free-pointers kernel dp (suc p) run;
    }
