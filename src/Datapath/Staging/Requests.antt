-- ===== src/Datapath/Staging/Requests.antt =====
-- What the lowest byte of a word decides when `spine_read_msg` of src/lib/spine.c reads it: the
-- request of a measurement message, and the count of an update message.
use spine_kernel.Prelude.{
  ℕ, suc, ◌-◌, ◌%◌, ◌^◌, ◌<◌, ◌≤◌, ◌≡◌, ◌↔◌, refl, ◌∙◌, ◌⊎◌, true, some, List, pos, negsuc, length,
  arith, Bytes, All, ◌++◌, append_assoc, le_bytes,
}
use spine_kernel.Wire.{
  SpineMsgHeader, UpdateField, header_bytes, update_fields, measure, char_to_u32,
  check_update_fields_msg, check_measure_fields_msg, is_readable,
}
use spine_kernel.Wire.RoundTrip.{IsHeader}
use spine_kernel.Datapath.State.{SpineDatapath, SpineConnection, SpinePrivState, live, spine_ok}
use spine_kernel.Datapath.Timer.{turn_off_fto_timer}
use spine_kernel.Datapath.Registry.{conn_at, put_conn}
use spine_kernel.Datapath.Registry.Slots.{IsValid}
use spine_kernel.Datapath.Staging.{
  read_updates, pending_of, stage_msg, spine_read_msg, read_measure, stage_measure_request,
}
use spine_kernel.Datapath.Staging.Updates.{updates_bytes, IsControl, staged_all}
use spine_kernel.Datapath.Staging.Reception.{
  spine_read_msg-stage_msg, read_updates_lem, read_count, open_bound,
}

abbrev pub measure_request : ℕ → ℕ → Bytes
measure_request sid r =
    header_bytes (record { msg_type = measure; len = 12; socket_id = sid }) ++ le_bytes 4 r

-- One byte says the word only if the word is that byte with its sign extended.
char_to_u32_faithful :
    (r : ℕ) → r < 2 ^ 32 → (char_to_u32 (r % 256) ≡ r) ↔ ((r < 128) ⊎ (2 ^ 32 - 128 ≤ r))
unfolding char_to_u32
char_to_u32_faithful r h = ground arith

module _ (dp : SpineDatapath) (p b : ℕ) (c : SpineConnection) (st : SpinePrivState) (v : IsValid dp)
    (e : conn_at dp p ≡ some c) (i : c.index ≡ suc p) (s : c.state ≡ live st) where
  -- A measurement request for an open connection is staged, with the sign-extended lowest byte of
  -- its request id; so the staged id is the one sent exactly for ids below 128 and the 128 largest.
  pub spine_read_msg-measure_request :
      (r : ℕ) (rest : Bytes)
      → r < 2 ^ 32
      → 12 ≤ b
      → (spine_read_msg dp (measure_request (suc p) r ++ rest) (pos b)
          ≡ some (
            spine_ok,
            put_conn p
                (record c {
                  state = live (record st {
                    pending_update = record st.pending_update {
                      measure_is_pending = true;
                      measure_registers = char_to_u32 (r % 256);
                    };
                  });
                })
                (turn_off_fto_timer dp),
          ))
        × ((char_to_u32 (r % 256) ≡ r) ↔ ((r < 128) ⊎ (2 ^ 32 - 128 ≤ r)))
  unfolding stage_msg pending_of read_measure check_measure_fields_msg stage_measure_request
      turn_off_fto_timer
  spine_read_msg-measure_request r rest small fits =
      let h : SpineMsgHeader = record { msg_type = measure; len = 12; socket_id = suc p } in
      let (tail, low) = read_count r rest in
      (
        rw
            (
              append_assoc,
              spine_read_msg-stage_msg dp p b h (le_bytes 4 r ++ rest) {c = c}
                  (omega (arith, v.small, open_bound dp p v e)) refl fits (omega arith) refl
                  (open_bound dp p v e) v.small e i,
              e,
              s,
              low,
            )
            refl,
        char_to_u32_faithful r small,
      )

  -- The count of an update message is its lowest byte: at 128 or more the message gets -1 and stages
  -- nothing; below 128 that many updates are staged, whatever the three other bytes say.
  pub spine_read_msg_counts :
      (h : SpineMsgHeader) (n : ℕ) (fs : List UpdateField) (rest : Bytes)
      → IsHeader h
      → h.msg_type ≡ update_fields
      → h.socket_id ≡ suc p
      → h.len ≤ b
      → h.len ≤ 32678
      → All IsControl fs
      → (128 ≤ n % 256
          → spine_read_msg dp
              (header_bytes h ++ (le_bytes 4 n ++ (updates_bytes fs ++ rest)))
              (pos b)
            ≡ some (negsuc 0, put_conn p (record c { state = live st }) (turn_off_fto_timer dp)))
        × (n % 256 ≡ length fs
            → length fs < 128
            → spine_read_msg dp
                (header_bytes h ++ (le_bytes 4 n ++ (updates_bytes fs ++ rest)))
                (pos b)
              ≡ some (
                spine_ok,
                put_conn p
                    (record c {
                      state = live (record st { pending_update = staged_all st.pending_update fs });
                    })
                    (turn_off_fto_timer dp),
              ))
  spine_read_msg_counts h n fs rest hv t sid fits small good =
      (λ high. reached ∙ refused high, λ same few. reached ∙ taken same few)
    where
      body : Bytes
      body = le_bytes 4 n ++ (updates_bytes fs ++ rest)

      readable : is_readable h.msg_type ≡ true
      readable = rw t

      reached :
          spine_read_msg dp (header_bytes h ++ body) (pos b)
          ≡ stage_msg h (turn_off_fto_timer dp) p body
      reached =
          spine_read_msg-stage_msg dp p b h body {c = c} hv readable fits small sid
            (open_bound dp p v e) v.small e i

      refused :
          128 ≤ n % 256
          → stage_msg h (turn_off_fto_timer dp) p body
            ≡ some (negsuc 0, put_conn p (record c { state = live st }) (turn_off_fto_timer dp))
      refused high =
          let (tail, low) = read_count n (updates_bytes fs ++ rest) in
          unfold stage_msg pending_of read_updates check_update_fields_msg char_to_u32
            turn_off_fto_timer in
          ground (arith, e, s, low)

      taken :
          n % 256 ≡ length fs
          → length fs < 128
          → stage_msg h (turn_off_fto_timer dp) p body
            ≡ some (
              spine_ok,
              put_conn p
                  (record c {
                    state = live (record st { pending_update = staged_all st.pending_update fs });
                  })
                  (turn_off_fto_timer dp),
            )
      taken same few =
          unfold stage_msg pending_of turn_off_fto_timer in
          ground (arith, e, s, read_updates_lem h st.pending_update n fs rest t same few good)
