-- ===== src/Datapath/Staging/Errors.antt =====
-- What `spine_read_msg` of src/lib/spine.c does with messages that it should refuse, and with
-- measurement requests.
use spine_kernel.Prelude.{
  ℕ, suc, ◌+◌, ◌*◌, ◌%◌, ◌^◌, ◌<◌, ◌≤◌, ◌≡◌, ◌≢◌, refl, ◌∙◌, ◌⊎◌, inl, inr, true, false, none, some,
  List, [], ◌∷◌, ℤ, pos, negsuc, is_neg, lt→ltb, le→ltb, ◌>>=◌, length, arith, Bytes, All, ◌++◌,
  append_assoc, le_bytes,
}
use spine_kernel.Wire.{
  SpineMsgHeader, UpdateField, header_bytes, char_to_u32, check_update_fields_msg, read_header,
  is_readable,
}
use spine_kernel.Wire.RoundTrip.{IsHeader, parse_header-header_bytes}
use spine_kernel.Datapath.State.{
  spine_update_invalid_reg_type, SpineDatapath, SpineConnection, SpinePrivState, StagedUpdate, live,
}
use spine_kernel.Datapath.Timer.{turn_off_fto_timer}
use spine_kernel.Datapath.Registry.{conn_at, put_conn, spine_connection_lookup}
use spine_kernel.Datapath.Registry.Slots.{IsValid}
use spine_kernel.Datapath.Staging.{
  stage_update, stage_multiple_updates, read_updates, pending_of, stage_msg, size_error,
  spine_read_msg,
}
use spine_kernel.Datapath.Staging.Updates.{
  update_header, updates_bytes, field_bytes, IsField, IsControl, staged, staged_all,
  read_update_field-field_bytes, stage_update_lem,
}
use spine_kernel.Datapath.Staging.Reception.{
  read_header-header_bytes, spine_read_msg-stage_msg, read_count, skip_count, open_bound,
}

-- The types of message that the agent may send: state 6, param 7, update 3 and measure 1.
abbrev pub IsRead : ℕ → Type 0
IsRead t = ((t ≡ 6) ⊎ (t ≡ 7)) ⊎ ((t ≡ 3) ⊎ (t ≡ 1))

either :
    (t a b : ℕ)
    → is_readable a ≡ true
    → is_readable b ≡ true
    → (t ≡ a) ⊎ (t ≡ b)
    → is_readable t ≡ true
either t a b x y (inl e) = rw e x
either t a b x y (inr e) = rw e y

IsRead-is_readable : (t : ℕ) → IsRead t → is_readable t ≡ true
IsRead-is_readable t (inl e) = either t 6 7 refl refl e
IsRead-is_readable t (inr e) = either t 3 1 refl refl e

-- The checks of `spine_read_msg`, in order, on a buffer that begins with the header `h`: a type other
-- than 6, 7, 3 and 1 gives -1. For these types a negative size gives -21, whatever the rest of the header
-- says; for a size `b` that is not negative, a size below the announced length gives -22, then a length
-- above 32678 gives -23, all without a change; and then an unknown connection gives -71, and only the
-- fallback timer is stopped.
pub spine_read_msg_refuses :
    (dp : SpineDatapath) (h : SpineMsgHeader) (rest : Bytes)
    → IsHeader h
    → let read = λ (z : ℤ). spine_read_msg dp (header_bytes h ++ rest) z in
      (h.msg_type ≢ 6
        → h.msg_type ≢ 7
        → h.msg_type ≢ 3
        → h.msg_type ≢ 1
        → (z : ℤ) → read z ≡ some (negsuc 0, dp))
      × (IsRead h.msg_type
          → ((n : ℕ) → read (negsuc n) ≡ some (negsuc 20, dp))
            × ((b : ℕ)
                → (b < h.len → read (pos b) ≡ some (negsuc 21, dp))
                  × (h.len ≤ b → 32678 < h.len → read (pos b) ≡ some (negsuc 22, dp))
                  × (h.len ≤ b
                      → h.len ≤ 32678
                      → spine_connection_lookup (turn_off_fto_timer dp) (h.socket_id % 2 ^ 16)
                        ≡ some none
                      → read (pos b)
                        ≡ some (negsuc 70, record dp { in_fallback = false; last_msg_sent = 0 }))))
unfolding spine_read_msg size_error turn_off_fto_timer
spine_read_msg_refuses dp h rest v = (
  λ a b c d z. rw (unread (ground (arith, a, b, c, d))) refl,
  λ r. (
    λ n. rw (readable r) refl,
    λ b. (
      λ small. rw (readable r, lt→ltb b h.len small) refl,
      λ fits long. rw (readable r, le→ltb b h.len fits, lt→ltb 32678 h.len long) refl,
      λ fits short unknown.
          rw (readable r, le→ltb b h.len fits, le→ltb 32678 h.len short, unknown) refl,
    ),
  ),
)
  where
    readable : IsRead h.msg_type → read_header (header_bytes h ++ rest) ≡ some (h, pos 8, rest)
    readable r = read_header-header_bytes h rest v (IsRead-is_readable h.msg_type r)

    unread :
        is_readable h.msg_type ≡ false
        → read_header (header_bytes h ++ rest) ≡ some (h, negsuc 0, rest)
    unread r = unfold read_header in rw (parse_header-header_bytes h rest v, r)

-- The updates before the first that is not accepted are staged; then that one is tried.
stage_prefix :
    (u : StagedUpdate) (fs : List UpdateField) (n : ℕ) (f : UpdateField) (rest : Bytes)
    → All IsControl fs
    → IsField f
    → stage_multiple_updates u (length fs + suc n) (updates_bytes fs ++ (field_bytes f ++ rest)) ≡ (
        stage_update (staged_all u fs) f >>= λ (ret, pending). elim (is_neg ret) [
          | true ↦ some (ret, pending)
          | false ↦ stage_multiple_updates pending n rest
        ])
unfolding stage_multiple_updates updates_bytes
stage_prefix u [] n f rest h v =
    let z : 0 + suc n ≡ suc n = omega arith in rw (z, read_update_field-field_bytes f rest v) refl
stage_prefix u (g ∷ fs) n f rest h v =
    let z : suc (length fs) + suc n ≡ suc (length fs + suc n) = omega arith in
    rw
      (
        z,
        append_assoc,
        read_update_field-field_bytes g (updates_bytes fs ++ (field_bytes f ++ rest)) h.0.fits,
        stage_update_lem u g h.0,
      )
      (stage_prefix (staged u g) fs n f rest h.1 v)

-- A message for the connection `sid` that announces `fs`, then `f`, then `n` more updates.
abbrev pub bad_msg : ℕ → List UpdateField → ℕ → UpdateField → Bytes → Bytes
bad_msg sid fs n f rest =
    header_bytes (update_header sid (length fs + suc n))
    ++ (le_bytes 4 (length fs + suc n) ++ (updates_bytes fs ++ (field_bytes f ++ rest)))

-- Such a message for an open connection, where the updates `fs` are accepted.
module _ (dp : SpineDatapath) (p b : ℕ) (c : SpineConnection) (st : SpinePrivState) (v : IsValid dp)
    (e : conn_at dp p ≡ some c) (i : c.index ≡ suc p) (s : c.state ≡ live st)
    (fs : List UpdateField) (n : ℕ) (f : UpdateField) (rest : Bytes) (few : length fs + suc n < 128)
    (good : All IsControl fs) (bad : IsField f) (room : 12 + 13 * (length fs + suc n) ≤ b) where
  reached :
      spine_read_msg dp (bad_msg (suc p) fs n f rest) (pos b)
      ≡ stage_msg
          (update_header (suc p) (length fs + suc n))
          (turn_off_fto_timer dp)
          p
          (le_bytes 4 (length fs + suc n) ++ (updates_bytes fs ++ (field_bytes f ++ rest)))
  reached =
      spine_read_msg-stage_msg dp p b (update_header (suc p) (length fs + suc n)) _ {c = c}
        (omega (arith, v.small, open_bound dp p v e)) refl room (omega arith) refl
        (open_bound dp p v e) v.small e i

  -- An update whose register index is 20 or more, with an accepted type, is written outside the
  -- staged arrays: the index of the message is not checked.
  pub spine_read_msg_overruns :
      (f.reg_type ≡ 0) ⊎ (f.reg_type ≡ 8)
      → 20 ≤ f.reg_index
      → spine_read_msg dp (bad_msg (suc p) fs n f rest) (pos b) ≡ none
  unfolding stage_msg read_updates check_update_fields_msg char_to_u32 pending_of stage_update
      turn_off_fto_timer
  spine_read_msg_overruns kind far =
      let count : (length fs + suc n) % 256 ≡ length fs + suc n = omega arith in
      let (r, low) = read_count (length fs + suc n) (updates_bytes fs ++ (field_bytes f ++ rest)) in
      reached
      ∙ ground (
        arith,
        e,
        s,
        count,
        low,
        skip_count (length fs + suc n) (updates_bytes fs ++ (field_bytes f ++ rest)),
        stage_prefix st.pending_update fs n f rest good bad,
      )

  -- An update of any other type than 0 and 8 ends the message with -53; the updates before it stay
  -- staged.
  pub spine_read_msg_stops :
      f.reg_type ≢ 0
      → f.reg_type ≢ 8
      → spine_read_msg dp (bad_msg (suc p) fs n f rest) (pos b)
        ≡ some (
          spine_update_invalid_reg_type,
          put_conn p
              (record c {
                state = live (record st { pending_update = staged_all st.pending_update fs });
              })
              (turn_off_fto_timer dp),
        )
  unfolding stage_msg read_updates check_update_fields_msg char_to_u32 pending_of stage_update
      turn_off_fto_timer
  spine_read_msg_stops not_zero not_eight =
      let count : (length fs + suc n) % 256 ≡ length fs + suc n = omega arith in
      let (r, low) = read_count (length fs + suc n) (updates_bytes fs ++ (field_bytes f ++ rest)) in
      reached
      ∙ ground (
        arith,
        e,
        s,
        count,
        low,
        skip_count (length fs + suc n) (updates_bytes fs ++ (field_bytes f ++ rest)),
        stage_prefix st.pending_update fs n f rest good bad,
      )
