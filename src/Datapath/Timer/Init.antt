-- ===== src/Datapath/Timer/Init.antt =====
-- What `spine_init` of src/lib/spine.c does to a datapath.
use spine_kernel.Prelude.{
  ℕ, ◌≡◌, refl, true, false, some, [], ◌∷◌, ◌++◌, pos, take, drop, length, take-append,
  length-append, length-le_bytes, le_bytes, arith,
}
use spine_kernel.Wire.{ready, header_bytes}
use spine_kernel.Wire.RoundTrip.{length-header_bytes}
use spine_kernel.Wire.Flows.{write_ready_msg_lem, control_msg, control_header}
use spine_kernel.Datapath.State.{
  SpineDatapath, Kernel, post, stack_array, length-stack_array, spine_ok, spine_missing_arg,
}
use spine_kernel.Datapath.Timer.{spine_init, is_missing_arg}

length-ready : (id : ℕ) → length (control_msg ready id) ≡ 12
length-ready id = omega (
  arith,
  length-append (header_bytes (control_header ready)) (le_bytes 4 id),
  length-header_bytes (control_header ready),
  length-le_bytes 4 id,
)

-- `spine_init` returns -11 and changes nothing if a pointer or size that it needs is missing.
-- Otherwise it sends one ready message with the id, whose failure it ignores, sets the time zero,
-- stops the fallback timer, leaves fallback, and returns 1.
pub spine_init_lem :
    (kernel : Kernel) (dp : SpineDatapath) (id : ℕ)
    → (is_missing_arg dp ≡ true → spine_init kernel dp id ≡ some (spine_missing_arg, dp))
      × (is_missing_arg dp ≡ false
          → spine_init kernel dp id
            ≡ some (
              spine_ok,
              record dp {
                time_zero = kernel.now 0;
                last_msg_sent = 0;
                in_fallback = false;
                sent = dp.sent ++ (record { bytes = control_msg ready id; msg_size = pos 12 } ∷ []);
              },
            ))
unfolding spine_init post
spine_init_lem kernel dp id = (
  λ missing. rw missing,
  λ present.
      let written =
        write_ready_msg_lem (stack_array 12) 12 id (omega arith)
          (omega (arith, length-stack_array 12)) in
      let bytes : take 12 (control_msg ready id ++ drop 12 (stack_array 12))
          ≡ control_msg ready id =
        rw (length-ready id) at (take-append (control_msg ready id) (drop 12 (stack_array 12))) in
      rw (present, written, bytes) refl,
)
