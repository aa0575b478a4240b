-- ===== src/Datapath/Staging/Updates.antt =====
-- The update messages of the agent (python/src/message.py, UpdateMsg) as `spine_read_msg` reads them.
use spine_kernel.Prelude.{
  ℕ, ◌+◌, ◌*◌, ◌^◌, ◌<◌, ◌≡◌, refl, ◌⊎◌, true, some, List, [], ◌∷◌, set, length, arith, Bytes, All,
  ◌++◌, append_assoc, le_bytes, read_le-le_bytes,
}
use spine_kernel.Wire.{SpineMsgHeader, UpdateField, read_update_field, header_bytes, update_fields}
use spine_kernel.Datapath.State.{StagedUpdate, spine_ok}
use spine_kernel.Datapath.Staging.{stage_update, stage_multiple_updates}

-- The bytes of one update, of a list of them, and of a whole message.
unfoldable pub field_bytes : UpdateField → Bytes
field_bytes f = le_bytes 1 f.reg_type ++ (le_bytes 4 f.reg_index ++ le_bytes 8 f.new_value)

unfoldable pub updates_bytes : List UpdateField → Bytes
updates_bytes [] = []
updates_bytes (f ∷ fs) = field_bytes f ++ updates_bytes fs

abbrev pub update_header : ℕ → ℕ → SpineMsgHeader
update_header sid n = record { msg_type = update_fields; len = 12 + 13 * n; socket_id = sid }

-- A message that announces `n` updates and holds `fs`.
unfoldable pub update_msg : ℕ → ℕ → List UpdateField → Bytes
update_msg sid n fs = header_bytes (update_header sid n) ++ (le_bytes 4 n ++ updates_bytes fs)

-- The types of the fields hold what is in them.
pub record IsField (f : UpdateField) : Type 0 where
  pub type_fits : f.reg_type < 2 ^ 8
  pub index_fits : f.reg_index < 2 ^ 32
  pub value_fits : f.new_value < 2 ^ 64

-- An update that `stage_update` accepts, with an index inside the arrays.
pub record IsControl (f : UpdateField) : Type 0 where
  pub fits : IsField f
  pub kind : (f.reg_type ≡ 0) ⊎ (f.reg_type ≡ 8)
  pub inside : f.reg_index < 20

-- What an accepted update does to the staged registers, and what a list of them does.
abbrev pub staged : StagedUpdate → UpdateField → StagedUpdate
staged u f = record u {
  control_is_pending = set u.control_is_pending f.reg_index true;
  control_registers = set u.control_registers f.reg_index f.new_value;
}

abbrev pub staged_all : StagedUpdate → List UpdateField → StagedUpdate
staged_all u [] = u
staged_all u (f ∷ fs) = staged_all (staged u f) fs

pub read_update_field-field_bytes :
    (f : UpdateField) (rest : Bytes)
    → IsField f
    → read_update_field (field_bytes f ++ rest) ≡ some (f, rest)
unfolding read_update_field field_bytes
read_update_field-field_bytes f rest v = rw (
  append_assoc,
  append_assoc,
  read_le-le_bytes 1 f.reg_type _ v.type_fits,
  read_le-le_bytes 4 f.reg_index _ v.index_fits,
  read_le-le_bytes 8 f.new_value rest v.value_fits,
)

pub stage_update_lem :
    (u : StagedUpdate) (f : UpdateField)
    → IsControl f
    → stage_update u f ≡ some (spine_ok, staged u f)
unfolding stage_update
stage_update_lem u f v = ground arith

pub stage_multiple_updates_lem :
    (u : StagedUpdate) (fs : List UpdateField) (rest : Bytes)
    → All IsControl fs
    → stage_multiple_updates u (length fs) (updates_bytes fs ++ rest)
      ≡ some (spine_ok, staged_all u fs)
unfolding stage_multiple_updates updates_bytes
stage_multiple_updates_lem u [] rest h = refl
stage_multiple_updates_lem u (f ∷ fs) rest h =
    rw
      (
        append_assoc,
        read_update_field-field_bytes f (updates_bytes fs ++ rest) h.0.fits,
        stage_update_lem u f h.0,
      )
      (stage_multiple_updates_lem (staged u f) fs rest h.1)
