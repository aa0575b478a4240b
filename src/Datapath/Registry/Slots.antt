-- ===== src/Datapath/Registry/Slots.antt =====
-- The invariant of the table of connections, and the loop of `spine_connection_start`.
use spine_kernel.Prelude.{
  get_elem?-set_self, get_elem?-set_ne, length-set, sym, ◌∙◌, ℕ, zero, suc, ◌+◌, ◌%◌, ◌^◌, ◌<◌, ◌≡◌,
  ◌≢◌, refl, ◌⊎◌, inl, inr, Bool, true, false, some, List, [], ◌∷◌, ◌==◌, ==_iff, get_elem?, set,
  length, Bool-cases, arith, All,
}
use spine_kernel.Datapath.State.{
  SpineDatapath, SpineConnection, SpinePrivState, StatePtr, null, live, dangling, StagedUpdate,
}
use spine_kernel.Datapath.Registry.{claim_slot, conn_at, put_conn}
use native.Mathlib.Nat.{zero-add}

abbrev pub is_dangling : StatePtr → Bool
is_dangling null = false
is_dangling (live s) = false
is_dangling dangling = true

abbrev pub IsStaged : StagedUpdate → Type 0
IsStaged u = (length u.control_is_pending ≡ 20) × (length u.control_registers ≡ 20)

abbrev pub HasStaged : StatePtr → Type 0
HasStaged null = Unit {0}
HasStaged (live s) = IsStaged s.pending_update
HasStaged dangling = Unit {0}

-- The slot `p` of a table of `n`: its index is 0 or p + 1, an open connection has no dangling state,
-- the last slot has none at all, and the arrays have their sizes.
pub record IsSlot (n p : ℕ) (c : SpineConnection) : Type 0 where
  pub own : (c.index ≡ 0) ⊎ (c.index ≡ suc p)
  pub kept : (c.index ≡ 0) ⊎ (is_dangling c.state ≡ false)
  pub last : suc p ≡ n → c.state ≡ null
  pub name : length c.flow_info.cong_alg ≡ 64
  pub staged : HasStaged c.state

abbrev pub Slots : ℕ → ℕ → List SpineConnection → Type 0
Slots n p [] = Unit {0}
Slots n p (c ∷ cs) = IsSlot n p c × Slots n (suc p) cs

pub record IsValid (dp : SpineDatapath) : Type 0 where
  pub room : length dp.spine_active_connections ≡ dp.max_connections
  pub small : dp.max_connections < 2 ^ 16
  pub slots : Slots dp.max_connections 0 dp.spine_active_connections

pub Slots-get :
    (n p i : ℕ) (cs : List SpineConnection) {c : SpineConnection}
    → Slots n p cs
    → get_elem? cs i ≡ some c
    → IsSlot n (p + i) c
Slots-get n p i [] s e = cc
Slots-get n p zero (d ∷ cs) s e = let z : p + zero ≡ p = omega arith in rw z (grind (arith, s.0))
Slots-get n p (suc i) (d ∷ cs) s e =
    let z : p + suc i ≡ suc p + i = omega arith in rw z (Slots-get n (suc p) i cs s.1 e)

pub Slots-set :
    (n p i : ℕ) (cs : List SpineConnection) (c : SpineConnection)
    → Slots n p cs
    → IsSlot n (p + i) c
    → Slots n p (set cs i c)
Slots-set n p i [] c s h = tt
Slots-set n p zero (d ∷ cs) c s h = let z : p + zero ≡ p = omega arith in (rw z at h, s.1)
Slots-set n p (suc i) (d ∷ cs) c s h =
    let z : p + suc i ≡ suc p + i = omega arith in (s.0, Slots-set n (suc p) i cs c s.1 (rw z at h))

abbrev pub IsTaken : SpineConnection → Type 0
IsTaken c = c.index ≢ 0

abbrev pub claimed : ℕ → SpineConnection → SpineConnection
claimed k c = record c { index = k % 2 ^ 16 }

-- The loop takes the first slot with index 0, or passes all of them.
pub claim_slot_lem :
    (n sid : ℕ) (cs : List SpineConnection)
    → length cs ≡ n
    → (All IsTaken cs × (claim_slot n sid cs ≡ some (sid + n, cs)))
      ⊎ ((q : ℕ) × (c : SpineConnection) × (get_elem? cs q ≡ some c)
          × (c.index ≡ 0)
          × (q < n)
          × (claim_slot n sid cs ≡ some (sid + q + 1, set cs q (claimed (sid + q + 1) c))))
unfolding claim_slot
claim_slot_lem zero sid [] e = inl (tt, ground arith)
claim_slot_lem zero sid (c ∷ cs) e = absurd (omega arith)
claim_slot_lem (suc n) sid [] e = absurd (omega arith)
claim_slot_lem (suc n) sid (c ∷ cs) e = elim (Bool-cases (c.index == 0)) [
  | inl free ↦
      inr (zero, c, refl, (==_iff c.index 0).0 free, omega arith, ground (arith, plus_zero))
  | inr taken ↦ elim (claim_slot_lem n (sid + 1) cs (omega arith)) [
    | inl (all, r) ↦ inl ((λ z. absurd (ground arith), all), ground (arith, r, sums n))
    | inr (q, d, at_q, free, h, r) ↦
        inr (suc q, d, at_q, free, omega arith, ground (arith, r, sums_one q))
  ]
]
  where
    plus_zero : sid + zero + 1 ≡ sid + 1
    plus_zero = omega arith

    sums : (k : ℕ) → sid + 1 + k ≡ sid + suc k
    sums k = omega arith

    sums_one : (k : ℕ) → sid + 1 + k + 1 ≡ sid + suc k + 1
    sums_one k = omega arith

pub conn_at-put_conn :
    (p : ℕ) (c : SpineConnection) (dp : SpineDatapath)
    → p < length dp.spine_active_connections
    → conn_at (put_conn p c dp) p ≡ some c
conn_at-put_conn p c dp h = get_elem?-set_self dp.spine_active_connections p c h

pub conn_at-put_conn_ne :
    (p j : ℕ) (c : SpineConnection) (dp : SpineDatapath)
    → j ≢ p
    → conn_at (put_conn p c dp) j ≡ conn_at dp j
conn_at-put_conn_ne p j c dp h = get_elem?-set_ne dp.spine_active_connections p j c (λ e. h (sym e))

pub IsValid-IsSlot :
    (dp : SpineDatapath) (p : ℕ) {c : SpineConnection}
    → IsValid dp
    → conn_at dp p ≡ some c
    → IsSlot dp.max_connections p c
IsValid-IsSlot dp p v e =
    rw zero-add at (Slots-get dp.max_connections 0 p dp.spine_active_connections v.slots e)

-- Writing a good slot keeps the table valid, whatever happens to the timer and the messages sent.
pub put_conn-IsValid :
    (dp : SpineDatapath) (p : ℕ) (c : SpineConnection)
    → IsValid dp
    → IsSlot dp.max_connections p c
    → IsValid (put_conn p c dp)
put_conn-IsValid dp p c v s = record {
  room = length-set dp.spine_active_connections p c ∙ v.room;
  small = v.small;
  slots = Slots-set dp.max_connections 0 p dp.spine_active_connections c v.slots (rw zero-add s);
}

-- The slot `p` is an open connection with private state.
pub record IsOpen (dp : SpineDatapath) (p : ℕ) : Type 0 where
  pub conn : SpineConnection
  pub priv : SpinePrivState
  pub at_p : conn_at dp p ≡ some conn
  pub own_index : conn.index ≡ suc p
  pub has_state : conn.state ≡ live priv
