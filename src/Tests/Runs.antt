-- ===== src/Tests/Runs.antt =====
-- Tests of whole runs of the library of src/lib/spine.c.
use spine_kernel.Prelude.{
  ℕ, ◌-◌, ◌≡◌, refl, inr, true, false, Option, none, some, List, [], ◌∷◌, ◌++◌, negsuc, replicate,
  arith,
}
use spine_kernel.Datapath.State.{SpineDatapath, SpineConnection, Kernel, live}
use spine_kernel.Datapath.Registry.{spine_connection_start, spine_connection_free, put_conn}
use spine_kernel.Datapath.Registry.Slots.{IsValid, IsOpen, put_conn-IsValid}
use spine_kernel.Datapath.Invoke.Safety.{Obeys}
use spine_kernel.Datapath.Invoke.Delivery.{invoke_all, invoke_all-sent_create}
use spine_kernel.Datapath.Refinement.{Spec, flows}
use spine_kernel.Datapath.Refinement.Steps.{call, Reach-Spec}
use spine_kernel.Datapath.Run.{Step, frees, Reach, here, next, starts, zero_conn}
use spine_kernel.Tests.Fixtures.{
  flow, quiet_state, open_conn, table, kernel, recorder, running, table-IsValid,
}

abbrev started : Option (Option ℕ × SpineDatapath) → SpineDatapath
started none = table
started (some (p, dp)) = dp

abbrev fresh : SpineDatapath
fresh = record table { spine_active_connections = replicate 3 zero_conn }

abbrev opened_fresh : SpineDatapath
opened_fresh = started (spine_connection_start kernel fresh 77 flow)

one_start : Reach recorder fresh opened_fresh
unfolding running
one_start = next here (starts kernel 77 flow (some 0) refl refl)

abbrev closed_again : SpineDatapath
closed_again = elim (spine_connection_free kernel opened_fresh 1) [
  | none ↦ opened_fresh
  | some dp ↦ dp
]

one_free : Step recorder opened_fresh closed_again
unfolding running
one_free = frees kernel 1 refl

Reach-Spec_example : Spec (flows opened_fresh) (call recorder one_free) (flows closed_again)
Reach-Spec_example =
    (Reach-Spec recorder (record { zeroed = refl; small = omega arith }) one_start).1 closed_again
      one_free

-- A connection whose create message could not be sent.
abbrev waiting : SpineConnection
waiting = record open_conn { state = live (record quiet_state { sent_create = false }) }

abbrev waiting_table : SpineDatapath
waiting_table = put_conn 0 waiting table

waiting_table-IsValid : IsValid waiting_table
waiting_table-IsValid = put_conn-IsValid table 0 waiting table-IsValid (record {
  own = inr refl;
  kept = inr refl;
  last = λ e. absurd (omega arith);
  name = refl;
  staged = (refl, refl);
})

-- The kernel has no memory for a message, or 100 ms have passed and it has.
abbrev failing : Kernel
failing = record kernel { send_msg = negsuc 0 }

-- 100 ms have passed since the readings of the clock that the failing calls took, and since the time in
-- the connection; no time has passed since now.
abbrev delivering : Kernel
delivering = record kernel { since_usecs = λ then. 200050 - then }

recorder-Obeys : Obeys recorder (λ s. Unit {0}) waiting_table.pointers waiting.impl
recorder-Obeys conn of_sk s _ = (λ vs. (vs, refl, tt), λ r set. (11 ∷ 12 ∷ [], refl, omega arith))

invoke_all-sent_create_example :
    (dp' : SpineDatapath) × (s' : List ℕ) × (invoke_all recorder 0
        ((failing ∷ failing ∷ []) ++ (delivering ∷ kernel ∷ []))
        waiting_table
        []
      ≡ some (dp', s'))
    × IsValid dp'
    × (o : IsOpen dp' 0) × (o.priv.sent_create ≡ true)
invoke_all-sent_create_example =
    invoke_all-sent_create recorder (λ s. Unit {0}) 0 (failing ∷ failing ∷ []) delivering
      (kernel ∷ []) waiting_table []
      (record {
        conn = waiting;
        priv = record quiet_state { sent_create = false };
        at_p = refl;
        own_index = refl;
        has_state = refl;
      })
      recorder-Obeys tt waiting_table-IsValid refl (omega arith) (omega arith, (omega arith, tt))
