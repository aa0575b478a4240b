-- ===== src/Datapath/Timer/Fallback.antt =====
-- When the datapath of src/lib/spine.c falls back, and how it comes back.
use spine_kernel.Prelude.{
  ℕ, ◌<◌, ◌≡◌, ◌≢◌, ◌↔◌, refl, Bool, true, false, not, ◌&&◌, ltb, ◌==◌, arith,
}
use spine_kernel.Datapath.State.{SpineDatapath}
use spine_kernel.Datapath.Timer.{update_fto_timer, check_fto, turn_off_fto_timer}

-- Whether the timer runs, and has run longer than allowed.
abbrev pub is_late : ℕ → SpineDatapath → Bool
is_late since_last dp = not (dp.last_msg_sent == 0) && ltb dp.fto_us since_last

-- `_check_fto` stores what it returns, and changes nothing else.
pub check_fto_lem :
    (since_last : ℕ) (dp : SpineDatapath)
    → check_fto since_last dp
      ≡ (is_late since_last dp, record dp { in_fallback = is_late since_last dp })
unfolding check_fto
check_fto_lem since_last dp = ground arith

-- `_check_fto` returns true exactly when the timer runs and more than `fto_us` have passed; the flag of
-- the datapath is then what it returned, and all else is unchanged. On a stopped timer the check is
-- false, however late; `_update_fto_timer`, which runs when a message has failed, starts it at the time
-- that it reads, unless that is 0, and then the check is true exactly when more than `fto_us` have passed.
-- While the timer runs, a failure does not restart it; and once a message arrives the check is false.
pub check_fto_iff :
    (since_last : ℕ) (dp : SpineDatapath)
    → (((check_fto since_last dp).0 ≡ true) ↔ ((dp.last_msg_sent ≢ 0) × (dp.fto_us < since_last)))
      × ((check_fto since_last dp).1 ≡ record dp { in_fallback = (check_fto since_last dp).0 })
      × (dp.last_msg_sent ≡ 0
          → ((check_fto since_last dp).0 ≡ false)
            × ((now : ℕ)
                → now ≢ 0
                → (update_fto_timer now dp ≡ record dp { last_msg_sent = now })
                  × (((check_fto since_last (update_fto_timer now dp)).0 ≡ true)
                      ↔ (dp.fto_us < since_last))))
      × ((now now' : ℕ)
          → now ≢ 0
          → update_fto_timer now' (update_fto_timer now dp) ≡ update_fto_timer now dp)
      × ((check_fto since_last (turn_off_fto_timer dp)).0 ≡ false)
unfolding check_fto update_fto_timer turn_off_fto_timer
check_fto_iff since_last dp = (
  (λ h. (ground arith, ground arith), λ h. ground (arith, h.0, h.1)),
  ground arith,
  λ stopped. (
    ground arith,
    λ now h. (ground arith, (λ t. ground (arith, t), λ late. ground (arith, late))),
  ),
  λ now now' h. ground arith,
  refl,
)
