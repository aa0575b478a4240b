-- ===== src/Datapath/Refinement.antt =====
-- The library of src/lib/spine.c as a map from indices to flows: what a caller sees of the table.
pub mod Frames
pub mod Steps
use spine_kernel.Prelude.{
  ℕ, zero, suc, ◌≡◌, ◌≢◌, refl, ap, ◌∙◌, Bool, true, false, Option, none, some, List, ◌==◌,
  if◌then◌else◌, arith, get_elem?, get_elem?_bound, ==_iff, Bool-cases, inl, inr, length, replicate,
  Bytes, ℤ,
}
use spine_kernel.Datapath.State.{SpineDatapath, SpineConnection, SpineDatapathInfo, Kernel, Sent}
use spine_kernel.Datapath.Registry.{
  conn_at, put_conn, spine_connection_start, spine_connection_free,
}
use spine_kernel.Datapath.Registry.Slots.{conn_at-put_conn, conn_at-put_conn_ne}

-- The flows that are open, by index.
abbrev pub Flows : Type 0
Flows = ℕ → Option SpineDatapathInfo

-- The flow that a slot shows under the index `i`.
abbrev pub shown : ℕ → Option SpineConnection → Option SpineDatapathInfo
shown i none = none
shown i (some c) = if c.index == i then some c.flow_info else none

abbrev pub flows : SpineDatapath → Flows
flows dp zero = none
flows dp (suc p) = shown (suc p) (conn_at dp p)

-- A call as its caller sees it: a start with the connection returned, a free, or any other.
pub data Call : Type 0 where
  started : SpineDatapathInfo → Option ℕ → Call
  freed : ℕ → Call
  internal : Call

abbrev pub IsElsewhere : ℕ → Flows → Flows → Type 0
IsElsewhere i F F' = (j : ℕ) → j ≢ i → F' j ≡ F j

-- What a call may do to the flows. A start that returns a connection opens the caller's flow under an
-- index that was free; one that returns NULL changes nothing, or uses up a free index; a free closes
-- its index; nothing else changes.
pub data Spec (F : Flows) : Call → Flows → Type 0 where
  opens :
      (info : SpineDatapathInfo) (p : ℕ) (F' : Flows)
      → F (suc p) ≡ none
      → F' (suc p) ≡ some info
      → IsElsewhere (suc p) F F'
      → Spec F (started info (some p)) F'
  refuses :
      (info : SpineDatapathInfo) (F' : Flows)
      → ((i : ℕ) → F' i ≡ F i)
      → Spec F (started info none) F'
  loses :
      (info stale : SpineDatapathInfo) (p : ℕ) (F' : Flows)
      → F (suc p) ≡ none
      → F' (suc p) ≡ some stale
      → IsElsewhere (suc p) F F'
      → Spec F (started info none) F'
  closes : (sid : ℕ) (F' : Flows) → F' sid ≡ none → IsElsewhere sid F F' → Spec F (freed sid) F'
  keeps : (F' : Flows) → ((i : ℕ) → F' i ≡ F i) → Spec F internal F'

-- A free slot shows no flow.
pub flows_free :
    (dp : SpineDatapath) (p : ℕ) {c : SpineConnection}
    → conn_at dp p ≡ some c
    → c.index ≡ 0
    → flows dp (suc p) ≡ none
flows_free dp p at_p free = rw (at_p, free) (ground arith)

-- The slot `p` is written, whatever happens to the timer and the messages sent.
module _ (dp : SpineDatapath) (p t : ℕ) (h : List Sent) {c : SpineConnection} (c' : SpineConnection)
    (at_p : conn_at dp p ≡ some c) where
  pub flows_written :
      c'.index ≡ suc p
      → flows (put_conn p c' (record dp { last_msg_sent = t; sent = h })) (suc p)
        ≡ some c'.flow_info
  flows_written own =
      let now =
        conn_at-put_conn p c' (record dp { last_msg_sent = t; sent = h })
          (get_elem?_bound dp.spine_active_connections p at_p) in
      rw (now, own) (ground arith)

  pub flows-IsElsewhere :
      IsElsewhere
        (suc p)
        (flows dp)
        (flows (put_conn p c' (record dp { last_msg_sent = t; sent = h })))
  flows-IsElsewhere zero other = refl
  flows-IsElsewhere (suc j) other = ap (shown (suc j)) (
      conn_at-put_conn_ne p j c' (record dp { last_msg_sent = t; sent = h })
        (λ e. other (ap suc e)))

  pub flows_same :
      c'.index ≡ c.index
      → c'.flow_info ≡ c.flow_info
      → (i : ℕ) → flows (put_conn p c' (record dp { last_msg_sent = t; sent = h })) i ≡ flows dp i
  flows_same index info zero = refl
  flows_same index info (suc j) = elim (Bool-cases (j == p)) [
    | inr other ↦ flows-IsElsewhere (suc j) (λ e. absurd (ground (arith, other, e)))
    | inl here ↦
        let place : j ≡ p = (==_iff j p).0 here in
        let now =
          conn_at-put_conn p c' (record dp { last_msg_sent = t; sent = h })
            (get_elem?_bound dp.spine_active_connections p at_p) in
        rw (place, now, at_p, index, info) refl
  ]
