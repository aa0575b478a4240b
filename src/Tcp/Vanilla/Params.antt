-- ===== src/Tcp/Vanilla/Params.antt =====
-- `vanilla_set_params` of src/tcp_vanilla.c, and the way of the parameters to it.
use spine_kernel.Prelude.{
  ℕ, suc, ◌*◌, ◌%◌, ◌^◌, ◌≤◌, ◌≡◌, refl, ap, ◌∙◌, ◌⊎◌, inl, inr, true, not, ◌||◌, ◌==◌, some, List,
  [], ◌∷◌, ◌++◌, pos, get_or, Bytes, All, arith, Bool-cases,
}
use spine_kernel.Wire.RoundTrip.{IsU64}
use spine_kernel.Datapath.State.{
  SpineDatapath, SpineConnection, SpinePrivState, live, Kernel, cleared, spine_ok, spine_vanilla,
}
use spine_kernel.Datapath.Registry.{conn_at}
use spine_kernel.Datapath.Registry.Slots.{IsValid}
use spine_kernel.Datapath.Staging.{spine_read_msg}
use spine_kernel.Datapath.Staging.Updates.{update_msg}
use spine_kernel.Datapath.Invoke.{spine_invoke}
use spine_kernel.Datapath.Invoke.Params.{params_fields, spine_read_msg-spine_invoke}
use spine_kernel.Tcp.Consult.{through_impl_lem}
use spine_kernel.Tcp.Vanilla.{Vanilla, is_vanilla, check_params, vanilla_set_params, vanilla_module}

-- What the agent may send.
abbrev pub IsParam : ℕ → Type 0
IsParam a = (1 ≤ a) × (a ≤ 1024)

-- The ranges that the agent's parameters are kept in; gamma is stored doubled.
abbrev pub InRange : Vanilla → Type 0
InRange ca =
    IsParam ca.alpha × IsParam ca.beta × ((2 ≤ ca.gamma) × (ca.gamma ≤ 2048)) × IsParam ca.delta

-- All four parameters are taken, or none.
pub vanilla_set_params_outcome :
    (conn : SpineConnection) (vs : List ℕ) (n : ℕ) (ca : Vanilla)
    → (vanilla_set_params conn vs n ca ≡ ca)
      ⊎ ((check_params 4 vs ≡ true)
          × (vanilla_set_params conn vs n ca ≡ record ca {
            alpha = get_or vs 0 0 % 2 ^ 16;
            beta = get_or vs 1 0 % 2 ^ 16;
            gamma = get_or vs 2 0 * 2 % 2 ^ 16;
            delta = get_or vs 3 0 % 2 ^ 16;
          }))
unfolding vanilla_set_params
vanilla_set_params_outcome conn vs n ca =
    elim (Bool-cases (not (is_vanilla conn.flow_info.alg) || not (n == 4))) [
      | inl other ↦ inl (rw other refl)
      | inr ours ↦
          let four : n ≡ 4 = ground arith in
          elim (Bool-cases (check_params 4 vs)) [
            | inl good ↦ inr (good, rw (ours, four, good) refl)
            | inr bad ↦ inl (rw (ours, four, bad) refl)
          ]
    ]

checked_range :
    (vs : List ℕ) (ca : Vanilla)
    → check_params 4 vs ≡ true
    → InRange (record ca {
      alpha = get_or vs 0 0 % 2 ^ 16;
      beta = get_or vs 1 0 % 2 ^ 16;
      gamma = get_or vs 2 0 * 2 % 2 ^ 16;
      delta = get_or vs 3 0 % 2 ^ 16;
    })
checked_range [] ca h = absurd (cc)
checked_range (a ∷ []) ca h = absurd (ground arith)
checked_range (a ∷ b ∷ []) ca h = absurd (ground arith)
checked_range (a ∷ b ∷ c ∷ []) ca h = absurd (ground arith)
checked_range (a ∷ b ∷ c ∷ d ∷ vs) ca h = (
  (ground arith, ground arith),
  (ground arith, ground arith),
  (ground arith, ground arith),
  (ground arith, ground arith),
)

-- `vanilla_set_params` never takes a parameter out of its range, whatever it is called with.
pub vanilla_set_params-InRange :
    (conn : SpineConnection) (vs : List ℕ) (n : ℕ) (ca : Vanilla)
    → InRange ca
    → InRange (vanilla_set_params conn vs n ca)
vanilla_set_params-InRange conn vs n ca ok = elim (vanilla_set_params_outcome conn vs n ca) [
  | inl same ↦ rw same ok
  | inr (good, new) ↦ rw new (checked_range vs ca good)
]

checked :
    (a b c d : ℕ) → All IsParam (a ∷ b ∷ c ∷ d ∷ []) → check_params 4 (a ∷ b ∷ c ∷ d ∷ []) ≡ true
checked a b c d ((a1, a2), ((b1, b2), ((c1, c2), ((d1, d2), _)))) = ground arith

vanilla_set_params_good :
    (conn : SpineConnection) (a b c d : ℕ) (ca : Vanilla)
    → conn.flow_info.alg ≡ spine_vanilla
    → All IsParam (a ∷ b ∷ c ∷ d ∷ [])
    → vanilla_set_params conn (a ∷ b ∷ c ∷ d ∷ []) 4 ca
      ≡ record ca { alpha = a; beta = b; gamma = c * 2; delta = d }
unfolding vanilla_set_params
vanilla_set_params_good conn a b c d ca ours h =
    let ((a1, a2), ((b1, b2), ((c1, c2), ((d1, d2), _)))) = h in
    let ea : a % 2 ^ 16 ≡ a = omega arith in
    let eb : b % 2 ^ 16 ≡ b = omega arith in
    let ec : c * 2 % 2 ^ 16 ≡ c * 2 = omega arith in
    let ed : d % 2 ^ 16 ≡ d = omega arith in rw (ours, checked a b c d h, ea, eb, ec, ed) refl

params-IsU64 : (a b c d : ℕ) → All IsParam (a ∷ b ∷ c ∷ d ∷ []) → All IsU64 (a ∷ b ∷ c ∷ d ∷ [])
params-IsU64 a b c d ((a1, a2), ((b1, b2), ((c1, c2), ((d1, d2), _)))) =
    (omega arith, (omega arith, (omega arith, (omega arith, tt))))

-- From the agent to the window: an open vanilla connection with its create message out and nothing
-- staged gets the update message of four parameters a, b, c, d, each in 1 … 1024. Then the next
-- `spine_invoke` on it, with the state of the connection's socket, sets alpha, beta, gamma and delta to a, b, 2c and d, and nothing else of the
-- module's state.
pub spine_read_msg-vanilla_set_params :
    (kernel : Kernel) (dp : SpineDatapath) (p size : ℕ) (conn : SpineConnection)
    (st : SpinePrivState) (a b c d : ℕ) (rest : Bytes) (ca : Vanilla)
    → IsValid dp
    → conn_at dp p ≡ some conn
    → conn.index ≡ suc p
    → conn.flow_info.alg ≡ spine_vanilla
    → conn.state ≡ live st
    → st.sent_create ≡ true
    → st.pending_update ≡ cleared
    → dp.pointers.set_params ≡ true
    → All IsParam (a ∷ b ∷ c ∷ d ∷ [])
    → 64 ≤ size
    → (dp₁ : SpineDatapath) × (dp₂ : SpineDatapath) × (spine_read_msg dp
          (update_msg (suc p) 4 (params_fields 0 (a ∷ b ∷ c ∷ d ∷ [])) ++ rest)
          (pos size)
        ≡ some (spine_ok, dp₁))
      × (spine_invoke (vanilla_module conn.impl) kernel dp₁ (some p) ca
          ≡ some (pos 0, dp₂, record ca { alpha = a; beta = b; gamma = c * 2; delta = d }))
spine_read_msg-vanilla_set_params kernel dp p size conn st a b c d rest ca v e i ours l created
      clean bound good fits =
    let (conn', dp₁, received, info, impl, invoked) =
      spine_read_msg-spine_invoke (vanilla_module conn.impl) kernel dp p size conn st
        (a ∷ b ∷ c ∷ d ∷ []) rest ca v e i l created clean bound (omega arith) (omega arith)
        (params-IsU64 a b c d good) (omega arith) in
    let set_all = vanilla_set_params_good conn' a b c d ca (rw info ours) good in
    (dp₁, _, received, invoked _ (through_impl_lem conn.impl conn' _ impl ∙ ap some set_all))
