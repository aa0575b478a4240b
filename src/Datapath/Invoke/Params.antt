-- ===== src/Datapath/Invoke/Params.antt =====
-- From the agent's parameters to the congestion control module: an update message read by
-- `spine_read_msg`, then `spine_invoke`.
use spine_kernel.Prelude.{
  ℕ, zero, suc, ◌+◌, ◌*◌, ◌-◌, ◌<◌, ◌≤◌, ◌≡◌, refl, ap, sym, ◌∙◌, inr, Bool, true, false, some,
  List, [], ◌∷◌, pos, set, length, arith, Bytes, All, replicate, ◌++◌, append_assoc, append-nil,
  length-append, get_elem?_bound,
}
use spine_kernel.Wire.{UpdateField}
use spine_kernel.Wire.RoundTrip.{IsU64}
use spine_kernel.Datapath.State.{
  SpineDatapath, SpineConnection, SpinePrivState, StagedUpdate, live, Kernel, cleared, spine_ok,
}
use spine_kernel.Datapath.Timer.{turn_off_fto_timer}
use spine_kernel.Datapath.Registry.{conn_at, put_conn}
use spine_kernel.Datapath.Registry.Slots.{IsValid, conn_at-put_conn}
use spine_kernel.Datapath.Staging.{spine_read_msg}
use spine_kernel.Datapath.Staging.Updates.{IsControl, staged, staged_all, update_msg}
use spine_kernel.Datapath.Staging.Reception.{spine_read_msg-update_msg}
use spine_kernel.Datapath.Invoke.{
  CongestionControl, staged_params, enforce, answer, invoke_staged, invoke_on, spine_invoke,
}

-- The updates that carry a list of parameters: register i gets the i-th, as a volatile control
-- register (python/src/spine_flow.py and message.py).
abbrev pub params_fields : ℕ → List ℕ → List UpdateField
params_fields i [] = []
params_fields i (v ∷ vs) =
    record { reg_type = 8; reg_index = i; new_value = v } ∷ params_fields (i + 1) vs

abbrev trues : List ℕ → List Bool
trues [] = []
trues (v ∷ vs) = true ∷ trues vs

-- The staged registers once the values `vs` are in, with `m` registers left.
abbrev filled : List ℕ → ℕ → StagedUpdate
filled vs m = record {
  control_is_pending = trues vs ++ replicate m false;
  control_registers = vs ++ replicate m 0;
  measure_is_pending = false;
  measure_registers = 0;
}

set_next {ℓ} :
    {A : Type ℓ} (xs ys : List A) (d v : A)
    → set (xs ++ (d ∷ ys)) (length xs) v ≡ (xs ++ (v ∷ [])) ++ ys
set_next [] ys d v = refl
set_next (x ∷ xs) ys d v = ap (λ l. x ∷ l) (set_next xs ys d v)

length-trues : (vs : List ℕ) → length (trues vs) ≡ length vs
length-trues [] = refl
length-trues (v ∷ vs) = ap suc (length-trues vs)

trues-append : (vs ws : List ℕ) → trues (vs ++ ws) ≡ trues vs ++ trues ws
trues-append [] ws = refl
trues-append (v ∷ vs) ws = ap (λ l. true ∷ l) (trues-append vs ws)

staged-filled :
    (vs : List ℕ) (v m : ℕ)
    → staged (filled vs (suc m)) (record { reg_type = 8; reg_index = length vs; new_value = v })
      ≡ filled (vs ++ (v ∷ [])) m
staged-filled vs v m =
    rw
      (
        set_next vs (replicate m 0) 0 v,
        trues-append vs (v ∷ []),
        ← set_next (trues vs) (replicate m false) false true,
        length-trues vs,
      )
      refl

staged_all-filled :
    (vs ws : List ℕ) (m : ℕ)
    → staged_all (filled vs (length ws + m)) (params_fields (length vs) ws) ≡ filled (vs ++ ws) m
staged_all-filled vs [] m = let z : 0 + m ≡ m = omega arith in rw (z, append-nil) refl
staged_all-filled vs (w ∷ ws) m =
    let z : suc (length ws) + m ≡ suc (length ws + m) = omega arith in
    let next : length (vs ++ (w ∷ [])) ≡ length vs + 1 = omega (arith, length-append vs (w ∷ [])) in
    ap (λ k. staged_all (filled vs k) (params_fields (length vs) (w ∷ ws))) z
    ∙ ap (λ u. staged_all u (params_fields (length vs + 1) ws)) (staged-filled vs w (length ws + m))
    ∙ ap (λ k. staged_all (filled (vs ++ (w ∷ [])) (length ws + m)) (params_fields k ws)) (sym next)
    ∙ staged_all-filled (vs ++ (w ∷ [])) ws m
    ∙ ap (λ l. filled l m) (append_assoc vs (w ∷ []) ws)

-- The loop of `spine_invoke` collects just the values that were filled in.
staged_params-filled :
    (vs : List ℕ) (m : ℕ)
    → staged_params (filled vs m).control_is_pending (filled vs m).control_registers ≡ vs
unfolding staged_params
staged_params-filled [] zero = refl
staged_params-filled [] (suc m) = refl
staged_params-filled (v ∷ vs) m = ap (λ l. v ∷ l) (staged_params-filled vs m)

params_fields-IsControl :
    (i : ℕ) (vs : List ℕ) → i + length vs ≤ 20 → All IsU64 vs → All IsControl (params_fields i vs)
params_fields-IsControl i [] h v = tt
params_fields-IsControl i (w ∷ ws) h v = (
  record {
    fits = record { type_fits = omega arith; index_fits = omega arith; value_fits = v.0 };
    kind = inr refl;
    inside = omega arith;
  },
  params_fields-IsControl (i + 1) ws (omega arith) v.1,
)

length-params_fields : (i : ℕ) (vs : List ℕ) → length (params_fields i vs) ≡ length vs
length-params_fields i [] = refl
length-params_fields i (v ∷ vs) = ap suc (length-params_fields (i + 1) vs)

-- Up to 20 parameters, staged from a clean slate.
staged_from_cleared :
    (vs : List ℕ)
    → length vs ≤ 20
    → staged_all cleared (params_fields 0 vs) ≡ filled vs (20 - length vs)
staged_from_cleared vs h =
    let z : length vs + (20 - length vs) ≡ 20 = omega arith in
    ap (λ k. staged_all (filled [] k) (params_fields 0 vs)) (sym z)
    ∙ staged_all-filled [] vs (20 - length vs)

module _ {S : Type 0} (cc : CongestionControl S) where
  -- `spine_invoke` on a connection whose create message is out, with parameters staged and no
  -- measurement asked for: `set_params` gets them all in one call, and nothing stays staged.
  pub spine_invoke-set_params :
      (kernel : Kernel) (dp : SpineDatapath) (p : ℕ) (conn : SpineConnection) (st : SpinePrivState)
      (s s' : S)
      → conn_at dp p ≡ some conn
      → conn.state ≡ live st
      → st.sent_create ≡ true
      → dp.pointers.set_params ≡ true
      → st.pending_update.measure_is_pending ≡ false
      → 0
        < length
            (staged_params st.pending_update.control_is_pending st.pending_update.control_registers)
      → let vs =
          staged_params st.pending_update.control_is_pending st.pending_update.control_registers in
        cc.set_params conn vs (length vs) s ≡ some s'
        → spine_invoke cc kernel dp (some p) s
          ≡ some (
            pos 0,
            put_conn p (record conn { state = live (record st { pending_update = cleared }) }) dp,
            s',
          )
  unfolding spine_invoke invoke_on invoke_staged enforce answer
  spine_invoke-set_params kernel dp p conn st s s' e live_ created bound quiet some_ set =
      ground (arith)

  -- End to end: when an open connection with its create message out and nothing staged gets the
  -- update message of 1 to 20 parameters, the next `spine_invoke` calls `set_params` with just those
  -- parameters, in order, on the connection's socket and flow, and if that returns, it leaves the state
  -- that was returned, and nothing staged.
  pub spine_read_msg-spine_invoke :
      (kernel : Kernel) (dp : SpineDatapath) (p b : ℕ) (c : SpineConnection) (st : SpinePrivState)
      (vs : List ℕ) (rest : Bytes) (s : S)
      → IsValid dp
      → conn_at dp p ≡ some c
      → c.index ≡ suc p
      → c.state ≡ live st
      → st.sent_create ≡ true
      → st.pending_update ≡ cleared
      → dp.pointers.set_params ≡ true
      → 0 < length vs
      → length vs ≤ 20
      → All IsU64 vs
      → 12 + 13 * length vs ≤ b
      → (conn : SpineConnection) × (dp' : SpineDatapath) × (spine_read_msg dp
            (update_msg (suc p) (length (params_fields 0 vs)) (params_fields 0 vs) ++ rest)
            (pos b)
          ≡ some (spine_ok, dp'))
        × (conn.flow_info ≡ c.flow_info)
        × (conn.impl ≡ c.impl)
        × ((s' : S)
            → cc.set_params conn vs (length vs) s ≡ some s'
            → spine_invoke cc kernel dp' (some p) s
              ≡ some (
                pos 0,
                put_conn p
                    (record conn { state = live (record st { pending_update = cleared }) })
                    dp',
                s',
              ))
  unfolding turn_off_fto_timer
  spine_read_msg-spine_invoke kernel dp p b c st vs rest s v e i l created clean bound some_ few
        good fits =
      (conn, dp', received, refl, refl, delivered)
    where
      after : SpinePrivState
      after = record st { pending_update = filled vs (20 - length vs) }

      conn : SpineConnection
      conn = record c { state = live after }

      dp' : SpineDatapath
      dp' = put_conn p conn (turn_off_fto_timer dp)

      filled_in : staged_all st.pending_update (params_fields 0 vs) ≡ filled vs (20 - length vs)
      filled_in = rw clean (staged_from_cleared vs few)

      received :
          spine_read_msg dp
            (update_msg (suc p) (length (params_fields 0 vs)) (params_fields 0 vs) ++ rest)
            (pos b)
          ≡ some (spine_ok, dp')
      received = rw filled_in at (
          spine_read_msg-update_msg dp p b (params_fields 0 vs) rest c st v e i l
            (omega (arith, length-params_fields 0 vs))
            (params_fields-IsControl 0 vs (omega arith) good)
            (omega (arith, length-params_fields 0 vs)))

      collected :
          staged_params
            (filled vs (20 - length vs)).control_is_pending
            (filled vs (20 - length vs)).control_registers
          ≡ vs
      collected = staged_params-filled vs (20 - length vs)

      delivered :
          (s' : S)
          → cc.set_params conn vs (length vs) s ≡ some s'
          → spine_invoke cc kernel dp' (some p) s
            ≡ some (
              pos 0,
              put_conn p
                  (record conn { state = live (record st { pending_update = cleared }) })
                  dp',
              s',
            )
      delivered s' set =
          spine_invoke-set_params kernel dp' p conn after s s'
            (conn_at-put_conn p conn (turn_off_fto_timer dp)
              (get_elem?_bound dp.spine_active_connections p e))
            refl created bound refl (rw collected some_) (rw collected set)
