-- ===== src/Tests/Messages.antt =====
-- Tests of `spine_read_msg` of src/lib/spine.c on messages of every kind, and of whole runs.
use spine_kernel.Prelude.{
  inl, ℕ, ◌-◌, ◌%◌, ◌^◌, ◌<◌, ◌≤◌, ◌≡◌, ◌↔◌, refl, ◌⊎◌, inr, true, none, some, [], ◌∷◌, ◌++◌, pos,
  negsuc, All, arith, le_bytes,
}
use spine_kernel.Wire.{header_bytes, read_header, measure, char_to_u32, UpdateField, SpineMsgHeader}
use spine_kernel.Datapath.State.{SpineDatapath, live, cleared, spine_ok}
use spine_kernel.Datapath.Timer.{turn_off_fto_timer}
use spine_kernel.Datapath.Registry.{put_conn, conn_at}
use spine_kernel.Datapath.Staging.{spine_read_msg}
use spine_kernel.Datapath.Staging.Slots.{spine_read_msg_others}
use spine_kernel.Datapath.Staging.Updates.{IsControl, IsField, updates_bytes, staged_all}
use spine_kernel.Datapath.Staging.Errors.{spine_read_msg_refuses, bad_msg, spine_read_msg_overruns}
use spine_kernel.Datapath.Staging.Requests.{
  measure_request, spine_read_msg-measure_request, spine_read_msg_counts,
}
use spine_kernel.Datapath.Invoke.Params.{params_fields}
use spine_kernel.Tests.Fixtures.{quiet_state, open_conn, table, table-IsValid, running}

abbrev far_field : UpdateField
far_field = record { reg_type = 8; reg_index = 20; new_value = 5 }

abbrev odd_field : UpdateField
odd_field = record { reg_type = 3; reg_index = 0; new_value = 5 }

far_fits : IsField far_field
far_fits = record { type_fits = omega arith; index_fits = omega arith; value_fits = omega arith }

odd_fits : IsField odd_field
odd_fits = record { type_fits = omega arith; index_fits = omega arith; value_fits = omega arith }

one-IsControl : All IsControl (params_fields 0 (7 ∷ []))
one-IsControl = (
  record {
    fits = record { type_fits = omega arith; index_fits = omega arith; value_fits = omega arith };
    kind = inr refl;
    inside = omega arith;
  },
  tt,
)

-- A message that announces two updates and asks the first for register 20.
spine_read_msg_overruns_example : spine_read_msg table (bad_msg 1 [] 1 far_field []) (pos 60) ≡ none
spine_read_msg_overruns_example =
    spine_read_msg_overruns table 0 60 open_conn quiet_state table-IsValid refl refl refl [] 1
      far_field [] (omega arith) tt far_fits (omega arith) (inr refl) (omega arith)

spine_read_msg-measure_request_example :
    (spine_read_msg table (measure_request 1 200 ++ []) (pos 28)
      ≡ some (
        spine_ok,
        put_conn 0
            (record open_conn {
              state = live (record quiet_state {
                pending_update = record cleared {
                  measure_is_pending = true;
                  measure_registers = char_to_u32 200;
                };
              });
            })
            (turn_off_fto_timer table),
      ))
    × ((char_to_u32 200 ≡ 200) ↔ (◌<◌ 200 128 ⊎ (2 ^ 32 - 128 ≤ 200)))
spine_read_msg-measure_request_example =
    spine_read_msg-measure_request table 0 28 open_conn quiet_state table-IsValid refl refl refl 200
      [] (omega arith) (omega arith)

abbrev counted : SpineMsgHeader
counted = record { msg_type = 3; len = 25; socket_id = 1 }

-- A message that announces 257 updates is read as one.
spine_read_msg_counts_example :
    (128 ≤ 257 % 256
      → spine_read_msg table
          (header_bytes counted
            ++ (le_bytes 4 257 ++ (updates_bytes (params_fields 0 (7 ∷ [])) ++ [])))
          (pos 60)
        ≡ some (
          negsuc 0,
          put_conn 0 (record open_conn { state = live quiet_state }) (turn_off_fto_timer table),
        ))
    × (◌≡◌ {A = ℕ} (257 % 256) 1
        → ◌<◌ 1 128
        → spine_read_msg table
            (header_bytes counted
              ++ (le_bytes 4 257 ++ (updates_bytes (params_fields 0 (7 ∷ [])) ++ [])))
            (pos 60)
          ≡ some (
            spine_ok,
            put_conn 0
                (record open_conn {
                  state = live (record quiet_state {
                    pending_update = staged_all cleared (params_fields 0 (7 ∷ []));
                  });
                })
                (turn_off_fto_timer table),
          ))
spine_read_msg_counts_example =
    spine_read_msg_counts table 0 60 open_conn quiet_state table-IsValid refl refl refl counted 257
      (params_fields 0 (7 ∷ [])) [] (omega arith) refl refl (omega arith) (omega arith)
      one-IsControl

-- The header of a state message for the connection of index 3.
abbrev stateful : SpineMsgHeader
stateful = record { msg_type = 6; len = 12; socket_id = 3 }

spine_read_msg_refuses_example :
    spine_read_msg table (header_bytes stateful ++ []) (negsuc 4) ≡ some (negsuc 20, table)
spine_read_msg_refuses_example =
    ((spine_read_msg_refuses table stateful [] (omega arith)).1 (inl (inl refl))).0 4

-- A request for the connection of index 1, and the header in front of it.
abbrev requested : SpineMsgHeader
requested = record { msg_type = measure; len = 12; socket_id = 1 }

requested_lem : read_header (measure_request 1 9) ≡ some (requested, pos 8, le_bytes 4 9)
unfolding running
requested_lem = refl

abbrev asked : SpineDatapath
asked = elim (spine_read_msg table (measure_request 1 9) (pos 12)) [ none ↦ table | some r ↦ r.1 ]

asked_lem : spine_read_msg table (measure_request 1 9) (pos 12) ≡ some (spine_ok, asked)
unfolding running
asked_lem = refl

spine_read_msg_others_example : conn_at asked 1 ≡ conn_at table 1
spine_read_msg_others_example =
    spine_read_msg_others table (measure_request 1 9) (pos 12) spine_ok (pos 8) asked requested
      (le_bytes 4 9) 1 requested_lem asked_lem (omega arith)
