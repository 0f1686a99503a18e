-- ===== src/Plugin/Registration.antt =====
-- The data references that src/plugin.c provides: their registration with X-Plane, and its end. The
-- static variables `dataref_x` are the pointers to what X-Plane has registered, NULL as `none`.
pub mod Expose
pub mod Table
pub mod Cycle
pub mod Counts
pub mod Provide
pub mod Names
pub mod Documented
pub mod Balance
mod Tests
use mathlib.Core.Logic.{ite}
use psx_xp_mover.Base.{
  ℕ, Bool, true, false, Option, none, some, List, [], ◌∷◌, ◌++◌, is_some, if◌then◌else◌,
}

-- A data reference of the plugin: its variable `dataref_x`, its name `dataref_name_x`, and the variable
-- or the functions behind it.
pub data Provided : Type 0 where
  model_length_offset model_height_offset debug_spin_hdg always_update_elevation_info : Provided
  terrain_elevation_meters terrain_elevation_remaining_cycles suspend_terrain_blending : Provided
  ground_contact_cycles ground_contact_fraction firm_ground_speed lift_ground_speed : Provided
  low_speed_fraction low_speed_fraction_factor elevation_blending_fraction : Provided
  calculated_ground_speed publish_ground_speed publish_motion_vector : Provided
  psx_latitude psx_longitude psx_elevation suspend_injection interpolate : Provided
  interpolation_buffer_millis interpolation_compensate_time_difference : Provided
  average_psx_time_difference interpolation_time_source : Provided
  log_level_console log_level_xplane : Provided
  plugin_version plugin_build_id plugin_build_ref plugin_build_target plugin_build_time : Provided
  connection_hostname connection_port connection_established : Provided

unfoldable pub Provided-discrete : Discrete Provided
Provided-discrete = hlevel

-- `xplmType_Double`, `xplmType_Int` and `xplmType_Data`
pub data ValueType : Type 0 where
  type_double type_int type_data : ValueType

-- the functions by which X-Plane reads a value, and writes one
pub data Reader : Type 0 where
  reads_double reads_int reads_bool reads_log_level reads_string : Reader

pub data Writer : Type 0 where
  writes_double writes_int writes_bool writes_log_level writes_hostname writes_port : Writer

-- a function, with the variable that it is registered for
pub record Reading : Type 0 where
  pub in_read : Option Reader
  pub read_refcon : Option Provided

pub record Writing : Type 0 where
  pub in_write : Option Writer
  pub write_refcon : Option Provided

-- A call of X-Plane: a registration with its result, the announcement of a name to the plugin that
-- edits data references, and the end of a registration.
pub data Call : Type 0 where
  register_accessor : Provided → ValueType → Reading → Writing → Option ℕ → Call
  send_message : ℕ → Provided → Call
  unregister_accessor : Option ℕ → Call

-- What X-Plane answers: the accessor that a registration returns, if any, and the number of that
-- plugin, if it is there.
pub record Registrar : Type 0 where
  pub accessors : Provided → Option ℕ
  pub editor : Option ℕ

-- the static variables, and the calls, the latest in front
pub record Registry : Type 0 where
  pub refs : Provided → Option ℕ
  pub dataref_editor_plugin_id : Option ℕ
  pub datarefs_initialized : Bool
  pub calls : List Call

-- an assignment to one of the variables
unfoldable pub assign : Provided → Option ℕ → (Provided → Option ℕ) → Provided → Option ℕ
assign p v refs q = ite (Provided-discrete q p) v (refs q)

abbrev pub message_to : Option ℕ → Provided → List Call
message_to none name = []
message_to (some id) name = send_message id name ∷ []

abbrev pub editor_id : Registrar → Registry → Option ℕ
editor_id x s = if is_some s.dataref_editor_plugin_id then s.dataref_editor_plugin_id else x.editor

-- The plugin that edits data references is looked for until it has been found.
unfoldable pub announce_dataref : Registrar → Provided → Registry → Registry
announce_dataref x name s = record s {
  dataref_editor_plugin_id = editor_id x s;
  calls = message_to (editor_id x s) name ++ s.calls;
}

-- the part that the three functions share: whether there is an accessor, and the state
unfoldable pub register_dataref :
    ValueType
    → Registrar
    → Option Provided
    → Option Provided
    → Reading
    → Writing
    → Registry
    → Bool × Registry
unfolding announce_dataref
register_dataref t x dest none reading writing s = (false, s)
register_dataref t x none (some name) reading writing s = (false, s)
register_dataref t x (some p) (some name) reading writing s =
    let accessor = x.accessors name in
    let registered = record s {
      refs = assign p accessor s.refs;
      calls = register_accessor name t reading writing accessor ∷ s.calls;
    } in
    if is_some reading.in_read
    then (is_some accessor, announce_dataref x name registered)
    else (false, s)

abbrev pub register_double_dataref :
    Registrar → Option Provided → Option Provided → Reading → Writing → Registry → Bool × Registry
register_double_dataref = register_dataref type_double

abbrev pub register_int_dataref :
    Registrar → Option Provided → Option Provided → Reading → Writing → Registry → Bool × Registry
register_int_dataref = register_dataref type_int

abbrev pub register_blob_dataref :
    Registrar → Option Provided → Option Provided → Reading → Writing → Registry → Bool × Registry
register_blob_dataref = register_dataref type_data

-- The argument is the address of the variable, which is NULL for none of them: what is not registered
-- is not told apart.
unfoldable pub unregister_dataref : Option Provided → Registry → Registry
unregister_dataref none s = s
unregister_dataref (some p) s = record s {
  refs = assign p none s.refs;
  calls = unregister_accessor (s.refs p) ∷ s.calls;
}
