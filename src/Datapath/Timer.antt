-- ===== src/Datapath/Timer.antt =====
-- The fallback timer of src/lib/spine.c (lines 475 to 511), and `spine_init`.
pub mod Fallback
pub mod Init
use spine_kernel.Prelude.{
  ℕ, Bool, true, false, not, ◌&&◌, ◌||◌, Option, some, ℤ, pos, is_neg, ltb, ◌==◌, if◌then◌else◌,
  ◌>>=◌,
}
use spine_kernel.Wire.{ready_msg_size, write_ready_msg}
use spine_kernel.Datapath.State.{
  SpineDatapath, Kernel, post, stack_array, spine_ok, spine_missing_arg,
}

-- `_update_fto_timer`, with the reading of the clock that it takes.
unfoldable pub update_fto_timer : ℕ → SpineDatapath → SpineDatapath
update_fto_timer now dp = if dp.last_msg_sent == 0 then record dp { last_msg_sent = now } else dp

-- `_check_fto`, with the time since `last_msg_sent`.
unfoldable pub check_fto : ℕ → SpineDatapath → Bool × SpineDatapath
check_fto since_last dp =
    let should_be_in_fallback = not (dp.last_msg_sent == 0) && ltb dp.fto_us since_last in
    (
      should_be_in_fallback,
      (if should_be_in_fallback && not dp.in_fallback
          then record dp { in_fallback = true }
          else if not should_be_in_fallback && dp.in_fallback
          then record dp { in_fallback = false }
          else dp),
    )

-- `_turn_off_fto_timer`
unfoldable pub turn_off_fto_timer : SpineDatapath → SpineDatapath
turn_off_fto_timer dp = record dp { in_fallback = false; last_msg_sent = 0 }

-- Some pointer or size that `spine_init` needs is missing.
abbrev pub is_missing_arg : SpineDatapath → Bool
is_missing_arg dp =
    not dp.pointers.set_params
    || (not dp.pointers.now
        || (not dp.pointers.since_usecs
            || (not dp.pointers.after_usecs
                || (not dp.pointers.spine_active_connections
                    || (dp.max_connections == 0 || (dp.fto_us == 0 || not dp.pointers.send_msg))))))

-- `spine_init` on a datapath that is not null. A failure to send the ready message is only logged.
unfoldable pub spine_init : Kernel → SpineDatapath → ℕ → Option (ℤ × SpineDatapath)
spine_init kernel dp id = if is_missing_arg dp then some (spine_missing_arg, dp) else do
  (ok, ready_msg) ← write_ready_msg (stack_array ready_msg_size) (pos ready_msg_size) id
  if is_neg ok
      then some (ok, dp)
      else some (
        spine_ok,
        record (post ready_msg (pos ready_msg_size) dp) {
          time_zero = kernel.now 0;
          last_msg_sent = 0;
          in_fallback = false;
        },
      )
