-- ===== src/Plugin/Registration/Table.antt =====
-- Which data references src/plugin.c provides, how each of them is exposed, and the order in which they
-- are registered and unregistered.
use psx_xp_mover.Base.{some, List, [], ◌∷◌}
use psx_xp_mover.Plugin.Registration.{
  Provided, model_height_offset, model_length_offset, debug_spin_hdg, always_update_elevation_info,
  terrain_elevation_meters, terrain_elevation_remaining_cycles, suspend_terrain_blending,
  ground_contact_cycles, ground_contact_fraction, firm_ground_speed, lift_ground_speed,
  low_speed_fraction, low_speed_fraction_factor, elevation_blending_fraction,
  calculated_ground_speed, publish_ground_speed, publish_motion_vector, psx_latitude, psx_longitude,
  psx_elevation, suspend_injection, interpolate, interpolation_buffer_millis,
  average_psx_time_difference, interpolation_compensate_time_difference, interpolation_time_source,
  log_level_console, log_level_xplane, plugin_version, plugin_build_id, plugin_build_ref,
  plugin_build_target, plugin_build_time, connection_hostname, connection_port,
  connection_established, writes_hostname, writes_port,
}
use psx_xp_mover.Plugin.Registration.Expose.{
  Exposure, expose_bool_as_dataref_readonly, expose_bool_as_dataref_writable,
  expose_double_as_dataref_readonly, expose_double_as_dataref_writable,
  expose_int_as_dataref_delegated, expose_int_as_dataref_readonly, expose_int_as_dataref_writable,
  expose_log_level_as_dataref_writable, expose_string_as_dataref_delegated,
  expose_string_as_dataref_readonly,
}

-- the ways in which flight_loop_callback exposes a data reference
pub data Way : Type 0 where
  double_writable double_readonly int_writable int_readonly bool_writable bool_readonly
        string_readonly hostname port :
      Way
  log_level_writable : Provided → Way

unfoldable pub exposure : Way → Exposure
exposure double_writable = expose_double_as_dataref_writable
exposure double_readonly = expose_double_as_dataref_readonly
exposure int_writable = expose_int_as_dataref_writable
exposure int_readonly = expose_int_as_dataref_readonly
exposure bool_writable = expose_bool_as_dataref_writable
exposure bool_readonly = expose_bool_as_dataref_readonly
exposure (log_level_writable set) = expose_log_level_as_dataref_writable (some set)
exposure string_readonly = expose_string_as_dataref_readonly
exposure hostname = expose_string_as_dataref_delegated writes_hostname
exposure port = expose_int_as_dataref_delegated writes_port

-- A call that exposes a data reference: the variable for the accessor, the name, and what is read and
-- written.
pub record Row : Type 0 where
  pub dest : Provided
  pub name : Provided
  pub value : Provided
  pub way : Way

abbrev pub row : Way → Provided → Provided → Provided → Row
row way dest name value = record { dest = dest; name = name; value = value; way = way }

-- the calls in their order
abbrev pub provided : List Row
provided =
    row double_writable model_height_offset model_height_offset model_height_offset
    ∷ row double_writable model_length_offset model_length_offset model_length_offset
    ∷ row double_writable debug_spin_hdg debug_spin_hdg debug_spin_hdg
    ∷ row bool_writable always_update_elevation_info always_update_elevation_info
        always_update_elevation_info
    ∷ row double_readonly terrain_elevation_meters terrain_elevation_meters terrain_elevation_meters
    ∷ row int_readonly terrain_elevation_remaining_cycles terrain_elevation_remaining_cycles
        terrain_elevation_remaining_cycles
    ∷ row bool_writable suspend_terrain_blending suspend_terrain_blending suspend_terrain_blending
    ∷ row int_readonly ground_contact_cycles ground_contact_cycles ground_contact_cycles
    ∷ row double_readonly ground_contact_fraction ground_contact_fraction ground_contact_fraction
    ∷ row double_writable firm_ground_speed firm_ground_speed firm_ground_speed
    ∷ row double_writable lift_ground_speed lift_ground_speed lift_ground_speed
    ∷ row double_readonly low_speed_fraction low_speed_fraction low_speed_fraction
    ∷ row double_writable low_speed_fraction_factor low_speed_fraction_factor
        low_speed_fraction_factor
    ∷ row double_readonly elevation_blending_fraction elevation_blending_fraction
        elevation_blending_fraction
    ∷ row double_readonly calculated_ground_speed calculated_ground_speed calculated_ground_speed
    ∷ row bool_writable publish_ground_speed publish_ground_speed publish_ground_speed
    ∷ row bool_writable publish_motion_vector publish_motion_vector publish_motion_vector
    ∷ row double_readonly psx_latitude psx_latitude psx_latitude
    ∷ row double_readonly psx_longitude psx_longitude psx_longitude
    ∷ row double_readonly psx_elevation psx_elevation psx_elevation
    ∷ row bool_writable suspend_injection suspend_injection suspend_injection
    ∷ row bool_writable interpolate interpolate interpolate
    ∷ row double_writable interpolation_buffer_millis interpolation_buffer_millis
        interpolation_buffer_millis
    ∷ row double_readonly average_psx_time_difference average_psx_time_difference
        average_psx_time_difference
    ∷ row bool_writable interpolation_compensate_time_difference
        interpolation_compensate_time_difference interpolation_compensate_time_difference
    ∷ row int_writable interpolation_time_source interpolation_time_source interpolation_time_source
    ∷ row (log_level_writable log_level_console) log_level_console log_level_console
        log_level_console
    ∷ row (log_level_writable log_level_xplane) log_level_xplane log_level_xplane log_level_xplane
    ∷ row string_readonly plugin_version plugin_version plugin_version
    ∷ row string_readonly plugin_build_id plugin_build_id plugin_build_id
    ∷ row string_readonly plugin_build_ref plugin_build_ref plugin_build_ref
    ∷ row string_readonly plugin_build_target plugin_build_target plugin_build_target
    ∷ row string_readonly plugin_build_time plugin_build_time plugin_build_time
    ∷ row hostname connection_hostname connection_hostname connection_hostname
    ∷ row port connection_port connection_port connection_port
    ∷ row bool_readonly connection_established connection_established connection_established
    ∷ []

-- in the order in which XPluginDisable unregisters them
abbrev pub withdrawn : List Provided
withdrawn =
    model_height_offset ∷ model_length_offset ∷ debug_spin_hdg ∷ always_update_elevation_info
    ∷ terrain_elevation_meters ∷ terrain_elevation_remaining_cycles ∷ suspend_terrain_blending
    ∷ ground_contact_cycles ∷ ground_contact_fraction ∷ firm_ground_speed ∷ lift_ground_speed
    ∷ low_speed_fraction ∷ low_speed_fraction_factor ∷ elevation_blending_fraction
    ∷ calculated_ground_speed ∷ publish_ground_speed ∷ publish_motion_vector ∷ psx_latitude
    ∷ psx_longitude ∷ psx_elevation ∷ suspend_injection ∷ interpolate ∷ interpolation_buffer_millis
    ∷ average_psx_time_difference ∷ interpolation_compensate_time_difference
    ∷ interpolation_time_source ∷ log_level_xplane ∷ log_level_console ∷ plugin_build_id
    ∷ plugin_build_ref ∷ plugin_build_target ∷ plugin_build_time ∷ plugin_version
    ∷ connection_hostname ∷ connection_port ∷ connection_established ∷ []
