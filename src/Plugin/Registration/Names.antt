-- ===== src/Plugin/Registration/Names.antt =====
-- The names of the data references that src/plugin.c provides, by which X-Plane knows them.
use Prim.Native.String.{String}
use text.Mathlib.Text.{◌==◌}
use psx_xp_mover.Base.{◌≡◌, Option, none, some, List, [], ◌∷◌, All, if◌then◌else◌, arith}
use psx_xp_mover.Plugin.Registration.{
  Provided, model_length_offset, model_height_offset, debug_spin_hdg, always_update_elevation_info,
  terrain_elevation_meters, terrain_elevation_remaining_cycles, suspend_terrain_blending,
  ground_contact_cycles, ground_contact_fraction, firm_ground_speed, lift_ground_speed,
  low_speed_fraction, low_speed_fraction_factor, elevation_blending_fraction,
  calculated_ground_speed, publish_ground_speed, publish_motion_vector, psx_latitude, psx_longitude,
  psx_elevation, suspend_injection, interpolate, interpolation_buffer_millis,
  interpolation_compensate_time_difference, average_psx_time_difference, interpolation_time_source,
  log_level_console, log_level_xplane, plugin_version, plugin_build_id, plugin_build_ref,
  plugin_build_target, plugin_build_time, connection_hostname, connection_port,
  connection_established,
}
use psx_xp_mover.Plugin.Registration.Table.{provided}
use psx_xp_mover.Plugin.Registration.Provide.{names}

unfoldable pub dataref_name : Provided → String
dataref_name model_length_offset = "xpmover/model_offset/length"
dataref_name model_height_offset = "xpmover/model_offset/height"
dataref_name debug_spin_hdg = "xpmover/debug/spin_hdg"
dataref_name always_update_elevation_info = "xpmover/terrain/always_update_elevation_info"
dataref_name terrain_elevation_meters = "xpmover/terrain/elevation_msl_meters"
dataref_name terrain_elevation_remaining_cycles = "xpmover/terrain/remaining_cycles"
dataref_name suspend_terrain_blending = "xpmover/terrain/blending/suspend"
dataref_name ground_contact_cycles = "xpmover/terrain/blending/ground_contact_cycles"
dataref_name ground_contact_fraction = "xpmover/terrain/blending/ground_contact_fraction"
dataref_name firm_ground_speed = "xpmover/terrain/blending/firm_ground_speed"
dataref_name lift_ground_speed = "xpmover/terrain/blending/lift_ground_speed"
dataref_name low_speed_fraction = "xpmover/terrain/blending/low_speed_fraction"
dataref_name low_speed_fraction_factor = "xpmover/terrain/blending/low_speed_fraction_factor"
dataref_name elevation_blending_fraction = "xpmover/terrain/blending/elevation_blending_fraction"
dataref_name calculated_ground_speed = "xpmover/ground_speed_calculated"
dataref_name publish_ground_speed = "xpmover/publish/ground_speed_calculated"
dataref_name publish_motion_vector = "xpmover/publish/motion_vector"
dataref_name psx_latitude = "xpmover/psx/flightdeck_latitude"
dataref_name psx_longitude = "xpmover/psx/flightdeck_longitude"
dataref_name psx_elevation = "xpmover/psx/elevation_msl_m"
dataref_name suspend_injection = "xpmover/suspend_injection"
dataref_name interpolate = "xpmover/interpolate"
dataref_name interpolation_buffer_millis = "xpmover/interpolation_buffer_ms"
dataref_name interpolation_compensate_time_difference = "xpmover/interpolation_compensate_time_diff"
dataref_name average_psx_time_difference = "xpmover/avg_psx_time_diff_ms"
dataref_name interpolation_time_source = "xpmover/interpolation_time_source"
dataref_name log_level_console = "xpmover/logging/console_level"
dataref_name log_level_xplane = "xpmover/logging/xplane_level"
dataref_name plugin_version = "xpmover/plugin/version"
dataref_name plugin_build_id = "xpmover/plugin/build_id"
dataref_name plugin_build_ref = "xpmover/plugin/build_ref"
dataref_name plugin_build_target = "xpmover/plugin/build_target"
dataref_name plugin_build_time = "xpmover/plugin/build_time"
dataref_name connection_hostname = "xpmover/connection/hostname"
dataref_name connection_port = "xpmover/connection/port"
dataref_name connection_established = "xpmover/connection/established"

-- the first data reference with a name
abbrev find_name : String → List Provided → Option Provided
find_name name [] = none
find_name name (p ∷ ps) = if dataref_name p == name then some p else find_name name ps

-- No two of them share a name: the first with a name is the only one.
pub dataref_name_found :
    All (λ p. find_name (dataref_name p) (names provided) ≡ some p) (names provided)
unfolding dataref_name
dataref_name_found = ground arith
