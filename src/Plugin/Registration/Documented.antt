-- ===== src/Plugin/Registration/Documented.antt =====
-- The data references that src/plugin.c provides are those that README.md documents: the table there,
-- with a type and an access for each, and the calls that they mean.
pub mod Registers
use mathlib.Core.Path.{subst}
use psx_xp_mover.Base.{
  IsIn, append-IsIn, get_elem?, ℕ, zero, suc, ◌≡◌, ◌↔◌, ◌∙◌, refl, sym, ap, arith, Bool, true,
  false, ◌&&◌, inl, inr, Option, none, some, List, [], ◌∷◌, ◌++◌, All, is_some, if◌then◌else◌,
}
use psx_xp_mover.Plugin.Registration.{
  model_length_offset, model_height_offset, debug_spin_hdg, always_update_elevation_info,
  terrain_elevation_meters, terrain_elevation_remaining_cycles, suspend_terrain_blending,
  ground_contact_cycles, ground_contact_fraction, firm_ground_speed, lift_ground_speed,
  low_speed_fraction, low_speed_fraction_factor, elevation_blending_fraction,
  calculated_ground_speed, publish_ground_speed, publish_motion_vector, psx_latitude, psx_longitude,
  psx_elevation, suspend_injection, interpolate, interpolation_buffer_millis,
  interpolation_compensate_time_difference, average_psx_time_difference, interpolation_time_source,
  log_level_console, log_level_xplane, plugin_version, plugin_build_id, plugin_build_ref,
  plugin_build_target, plugin_build_time, connection_hostname, connection_port,
  connection_established, Provided, ValueType, type_double, type_int, type_data, Reader,
  reads_double, reads_int, reads_bool, reads_log_level, reads_string, Writer, writes_double,
  writes_int, writes_bool, writes_log_level, writes_hostname, writes_port, Reading, Writing, Call,
  register_accessor, editor_id, Registrar, Registry, message_to, announce_dataref, register_dataref,
}
use psx_xp_mover.Plugin.Registration.Expose.{
  read_by, written_by, read_only, expose_double_as_dataref_writable,
  expose_double_as_dataref_readonly, expose_int_as_dataref_writable, expose_int_as_dataref_readonly,
  expose_int_as_dataref_delegated, expose_bool_as_dataref_writable, expose_bool_as_dataref_readonly,
  expose_log_level_as_dataref_writable, expose_string_as_dataref_readonly,
  expose_string_as_dataref_delegated,
}
use psx_xp_mover.Plugin.Registration.Table.{
  Row, row, Way, double_writable, double_readonly, int_writable, int_readonly, bool_writable,
  bool_readonly, log_level_writable, string_readonly, hostname, port, exposure, provided,
}
use psx_xp_mover.Plugin.Registration.Cycle.{expose_all}
use psx_xp_mover.Plugin.Registration.Provide.{
  names, all_accessors, provided-NoDup, expose_all-assigned, expose_all_success,
}

-- double, boolean, integer, string[1] and string[256]
pub data Kind : Type 0 where
  double_value boolean_value integer_value letter_value text_value : Kind

-- the type in the table, and whether the access is "writable"
abbrev pub documented : Provided → Kind × Bool
documented model_length_offset = (double_value, true)
documented model_height_offset = (double_value, true)
documented debug_spin_hdg = (double_value, true)
documented always_update_elevation_info = (boolean_value, true)
documented terrain_elevation_meters = (double_value, false)
documented terrain_elevation_remaining_cycles = (integer_value, false)
documented suspend_terrain_blending = (boolean_value, true)
documented ground_contact_cycles = (integer_value, false)
documented ground_contact_fraction = (double_value, false)
documented firm_ground_speed = (double_value, true)
documented lift_ground_speed = (double_value, true)
documented low_speed_fraction = (double_value, false)
documented low_speed_fraction_factor = (double_value, true)
documented elevation_blending_fraction = (double_value, false)
documented calculated_ground_speed = (double_value, false)
documented publish_ground_speed = (boolean_value, true)
documented publish_motion_vector = (boolean_value, true)
documented psx_latitude = (double_value, false)
documented psx_longitude = (double_value, false)
documented psx_elevation = (double_value, false)
documented suspend_injection = (boolean_value, true)
documented interpolate = (boolean_value, true)
documented interpolation_buffer_millis = (double_value, true)
documented interpolation_compensate_time_difference = (boolean_value, true)
documented average_psx_time_difference = (double_value, false)
documented interpolation_time_source = (integer_value, true)
documented log_level_console = (letter_value, true)
documented log_level_xplane = (letter_value, true)
documented plugin_version = (text_value, false)
documented plugin_build_id = (text_value, false)
documented plugin_build_ref = (text_value, false)
documented plugin_build_target = (text_value, false)
documented plugin_build_time = (text_value, false)
documented connection_hostname = (text_value, true)
documented connection_port = (integer_value, true)
documented connection_established = (boolean_value, false)

abbrev pub type_of : Kind → ValueType
type_of double_value = type_double
type_of boolean_value = type_int
type_of integer_value = type_int
type_of letter_value = type_data
type_of text_value = type_data

abbrev pub reader_of : Kind → Reader
reader_of double_value = reads_double
reader_of boolean_value = reads_bool
reader_of integer_value = reads_int
reader_of letter_value = reads_log_level
reader_of text_value = reads_string

-- The host name and the port are written by functions of their own.
abbrev pub writer_of : Provided → Kind → Writer
writer_of connection_port integer_value = writes_port
writer_of p double_value = writes_double
writer_of p boolean_value = writes_bool
writer_of p integer_value = writes_int
writer_of p letter_value = writes_log_level
writer_of p text_value = writes_hostname

-- the call by which a documented data reference is registered for the variable that is meant
abbrev pub meant : Registrar → Provided → Call
meant x p =
    let (kind, is_writable) = documented p in
    register_accessor p (type_of kind) (read_by (reader_of kind) p)
      (if is_writable then written_by (writer_of p kind) p else read_only) (x.accessors p)
