-- ===== src/Tests/Datapath.antt =====
-- Tests of the datapath of src/lib/spine.c.
use spine_kernel.Prelude.{
  ℕ, suc, ◌<◌, ◌≡◌, ◌≢◌, ◌↔◌, refl, inr, true, false, Option, none, some, [], ◌∷◌, ◌++◌, pos, All,
  zero, arith,
}
use spine_kernel.Wire.RoundTrip.{measure_header, parse_measurement}
use spine_kernel.Datapath.State.{
  SpineDatapath, SpineConnection, SpinePrivState, Sent, live, cleared, spine_ok,
}
use spine_kernel.Datapath.Timer.{check_fto, update_fto_timer, turn_off_fto_timer}
use spine_kernel.Datapath.Timer.Fallback.{check_fto_iff}
use spine_kernel.Datapath.Registry.{
  spine_connection_start, spine_connection_lookup, spine_connection_free, conn_at, put_conn,
}
use spine_kernel.Datapath.Registry.Slots.{IsValid}
use spine_kernel.Datapath.Registry.Open.{
  IsOpened, lookup-spine_connection_start, spine_connection_start_loses_last,
}
use spine_kernel.Datapath.Registry.Free.{lookup-spine_connection_free}
use spine_kernel.Datapath.Staging.{spine_read_msg}
use spine_kernel.Datapath.Staging.Updates.{IsControl, update_msg, staged_all}
use spine_kernel.Datapath.Staging.Reception.{spine_read_msg-update_msg}
use spine_kernel.Datapath.Invoke.{spine_invoke}
use spine_kernel.Datapath.Invoke.Params.{params_fields, spine_read_msg-spine_invoke}
use spine_kernel.Datapath.Invoke.Measurements.{parse_measurement-spine_invoke}
use spine_kernel.Datapath.Run.{zero_conn}
use spine_kernel.Tests.Fixtures.{
  flow, quiet_state, open_conn, table, kernel, recorder, running, table-IsValid, zero_conn-IsSlot,
}

-- Starting a flow on the test table takes slot 1.
abbrev started : Option (Option ℕ × SpineDatapath) → SpineDatapath
started none = table
started (some (p, dp)) = dp

check_fto_iff_example :
    (((check_fto 1500 table).0 ≡ true) ↔ ((table.last_msg_sent ≢ 0) × (table.fto_us < 1500)))
    × ((check_fto 1500 table).1 ≡ record table { in_fallback = (check_fto 1500 table).0 })
    × (table.last_msg_sent ≡ 0
        → ((check_fto 1500 table).0 ≡ false)
          × ((now : ℕ)
              → now ≢ 0
              → (update_fto_timer now table ≡ record table { last_msg_sent = now })
                × (((check_fto 1500 (update_fto_timer now table)).0 ≡ true)
                    ↔ (table.fto_us < 1500))))
    × ((now now' : ℕ)
        → now ≢ 0
        → update_fto_timer now' (update_fto_timer now table) ≡ update_fto_timer now table)
    × ((check_fto 1500 (turn_off_fto_timer table)).0 ≡ false)
check_fto_iff_example = check_fto_iff 1500 table

lookup-spine_connection_start_example :
    IsOpened table 1 77 flow (started (spine_connection_start kernel table 77 flow))
unfolding running
lookup-spine_connection_start_example =
    lookup-spine_connection_start kernel table 77 flow table-IsValid refl 1
      (started (spine_connection_start kernel table 77 flow)) refl

lookup-spine_connection_free_example :
    (dp' : SpineDatapath) × (spine_connection_free kernel table 1 ≡ some dp')
    × IsValid dp'
    × (spine_connection_lookup dp' 1 ≡ some none)
    × ((j : ℕ) → suc j ≢ 1 → conn_at dp' j ≡ conn_at table j)
lookup-spine_connection_free_example = lookup-spine_connection_free kernel table 1 table-IsValid

-- A table of three slots of which only the last is free.
abbrev second_conn : SpineConnection
second_conn = record open_conn { index = 2 }

abbrev full_table : SpineDatapath
full_table = record table { spine_active_connections = open_conn ∷ second_conn ∷ zero_conn ∷ [] }

full_table-IsValid : IsValid full_table
full_table-IsValid = record {
  room = refl;
  small = omega arith;
  slots = (
    table-IsValid.slots.0,
    (
      record {
        own = inr refl;
        kept = inr refl;
        last = λ e. absurd (omega arith);
        name = refl;
        staged = (refl, refl);
      },
      (zero_conn-IsSlot 3 2, tt),
    ),
  );
}

full_table_taken :
    (j : ℕ) (d : SpineConnection) → j ≢ 2 → conn_at full_table j ≡ some d → d.index ≢ 0
full_table_taken zero d n e = ground (arith, e)
full_table_taken (suc zero) d n e = ground (arith, e)
full_table_taken (suc (suc zero)) d n e = absurd (n refl)
full_table_taken (suc (suc (suc j))) d n e = absurd (cc)

spine_connection_start_loses_last_example :
    spine_connection_start kernel full_table 77 flow
    ≡ some (none, put_conn 2 (record zero_conn { index = 3 }) full_table)
spine_connection_start_loses_last_example =
    spine_connection_start_loses_last kernel full_table 77 flow full_table-IsValid refl 2 zero_conn
      refl refl refl full_table_taken

two-IsControl : All IsControl (params_fields 0 (7 ∷ 8 ∷ []))
two-IsControl = (
  record {
    fits = record { type_fits = omega arith; index_fits = omega arith; value_fits = omega arith };
    kind = inr refl;
    inside = omega arith;
  },
  (
    record {
      fits = record { type_fits = omega arith; index_fits = omega arith; value_fits = omega arith };
      kind = inr refl;
      inside = omega arith;
    },
    tt,
  ),
)

spine_read_msg-update_msg_example :
    spine_read_msg table (update_msg 1 2 (params_fields 0 (7 ∷ 8 ∷ [])) ++ (9 ∷ [])) (pos 60)
    ≡ some (
      spine_ok,
      put_conn 0
          (record open_conn {
            state = live (record quiet_state {
              pending_update = staged_all cleared (params_fields 0 (7 ∷ 8 ∷ []));
            });
          })
          (turn_off_fto_timer table),
    )
spine_read_msg-update_msg_example =
    spine_read_msg-update_msg table 0 60 (params_fields 0 (7 ∷ 8 ∷ [])) (9 ∷ []) open_conn
      quiet_state table-IsValid refl refl refl (omega arith) two-IsControl (omega arith)

spine_read_msg-spine_invoke_example :
    (conn : SpineConnection) × (dp' : SpineDatapath) × (spine_read_msg table
        (update_msg 1 2 (params_fields 0 (7 ∷ 8 ∷ [])) ++ [])
        (pos 60)
      ≡ some (spine_ok, dp'))
    × (conn.flow_info ≡ flow)
    × (conn.impl ≡ 900)
    × (spine_invoke recorder kernel dp' (some 0) []
        ≡ some (
          pos 0,
          put_conn 0
              (record conn { state = live (record quiet_state { pending_update = cleared }) })
              dp',
          7 ∷ 8 ∷ [],
        ))
spine_read_msg-spine_invoke_example =
    let (conn, dp', received, info, impl, invoked) =
      spine_read_msg-spine_invoke recorder kernel table 0 60 open_conn quiet_state (7 ∷ 8 ∷ []) []
        [] table-IsValid refl refl refl refl refl refl (omega arith) (omega arith)
        (omega arith, (omega arith, tt)) (omega arith) in
    (conn, dp', received, info, impl, invoked (7 ∷ 8 ∷ []) refl)

abbrev asked : SpinePrivState
asked = record quiet_state {
  pending_update = record cleared { measure_is_pending = true; measure_registers = 5 };
}

abbrev asked_conn : SpineConnection
asked_conn = record open_conn { state = live asked }

abbrev asked_table : SpineDatapath
asked_table = record table { spine_active_connections = asked_conn ∷ zero_conn ∷ zero_conn ∷ [] }

asked_table-IsValid : IsValid asked_table
asked_table-IsValid = record {
  room = refl;
  small = omega arith;
  slots = (
    record {
      own = inr refl;
      kept = inr refl;
      last = λ e. absurd (omega arith);
      name = refl;
      staged = (refl, refl);
    },
    (zero_conn-IsSlot 3 1, (zero_conn-IsSlot 3 2, tt)),
  );
}

parse_measurement-spine_invoke_example :
    (t : ℕ) × (m : Sent) × (spine_invoke recorder kernel asked_table (some 0) []
      ≡ some (
        pos 0,
        put_conn 0
            (record asked_conn { state = live (record asked { pending_update = cleared }) })
            (record asked_table { last_msg_sent = t; sent = m ∷ [] }),
        [],
      ))
    × (m.msg_size ≡ pos 32)
    × (parse_measurement m.bytes
        ≡ some (record { header = measure_header 1 2; program_uid = 5; fields = 11 ∷ 12 ∷ [] }, []))
unfolding running
parse_measurement-spine_invoke_example =
    parse_measurement-spine_invoke recorder kernel asked_table 0 asked_conn asked [] []
      (11 ∷ 12 ∷ []) asked_table-IsValid refl refl refl refl refl refl refl refl (omega arith)
      (omega arith) (omega arith)
