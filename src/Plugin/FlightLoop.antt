-- ===== src/Plugin/FlightLoop.antt =====
-- The state of `flight_loop_callback` of src/plugin.c, what X-Plane answers to it in a cycle, and what
-- it writes to X-Plane. The children are its parts, in their order, and the whole in Callback.
pub mod Setup
pub mod Frame
pub mod Speed
pub mod Elevation
pub mod Callback
pub mod Rule
pub mod Suspended
pub mod Run
pub mod Sound
pub mod Untouched
pub mod Once
pub mod Quiet
pub mod Published
pub mod Ends
pub mod Shown
pub mod Stale
mod Cases
mod Tests
use psx_xp_mover.Base.{ℕ, Bool, Option, List}
use psx_xp_mover.Base.Int.{ℤ}
use psx_xp_mover.Psx.Frame.{BoostFrame}
use psx_xp_mover.Plugin.Countdown.{Terrain}
use psx_xp_mover.Plugin.Receive.{PsxData}

-- the data references of X-Plane that the plugin finds
pub data DataRef : Type 0 where
  override_oxygen override_pressurization override_planepath : DataRef
  cabin_altitude pilot_felt_altitude : DataRef
  psi_hdg phi_roll theta_pitch : DataRef
  local_x local_y local_z local_vx local_vy local_vz : DataRef
  ground_speed ground_speed2 ground_contact total_running_time_sec : DataRef

-- `XPLMSetDatai`, `XPLMSetDataf`, `XPLMSetDatad`, and `XPLMSetDatavi` with one value at the start
pub data Write (V : Type 0) : Type 0 where
  set_datai : DataRef → ℤ → Write V
  set_dataf : DataRef → V → Write V
  set_datad : DataRef → V → Write V
  set_datavi : DataRef → ℤ → Write V

-- the variables that can be set through data references of the plugin
pub record Settings (V : Type 0) : Type 0 where
  pub model_height_offset_meters : V
  pub model_length_offset_meters : V
  pub debug_spin_hdg : V
  pub always_update_elevation_info : Bool
  pub suspend_terrain_blending : Bool
  pub firm_ground_speed : V
  pub lift_ground_speed : V
  pub low_speed_fraction_factor : V
  pub publish_ground_speed : Bool
  pub publish_motion_vector : Bool
  pub suspend_injection : Bool
  pub interpolate : Bool
  pub interpolation_buffer_millis : V
  pub interpolation_compensate_time_difference : Bool

-- The static variables of a cycle. `found` says which of the pointers to X-Plane's data references are
-- not NULL.
pub record Flight (V : Type 0) : Type 0 where
  pub psx : PsxData V
  pub settings : Settings V
  pub found : DataRef → Bool
  pub datarefs_initialized : Bool
  pub has_dataref_cabin_altitude : Bool
  pub cycles_to_override_plane_path : ℤ
  pub cycles_to_update_sim_time_diff : ℤ
  pub terrain : Terrain V
  pub calculated_ground_speed : V
  pub low_speed_fraction : V
  pub ground_contact_cycles : ℤ
  pub ground_contact_fraction : V
  pub elevation_blending_fraction : V
  pub psx_latitude : V
  pub psx_longitude : V
  pub psx_elevation : V

-- `XPLMProbeInfo_t`, as far as it is read
pub record ProbeInfo (V : Type 0) : Type 0 where
  pub location_x : V
  pub location_y : V
  pub location_z : V
  pub velocity_x : V
  pub velocity_y : V
  pub velocity_z : V

-- What X-Plane and the system answer in a cycle.
pub record Answers (V : Type 0) : Type 0 where
  pub finds : DataRef → Bool
  -- whether the mutex can be locked
  pub locks : Bool
  -- `tv_nsec` of `timespec_get`
  pub nanos : Option ℤ
  pub total_running_time_sec : V
  -- `clock()` over `CLOCKS_PER_SEC`
  pub runtime_seconds : V
  -- `XPLMWorldToLocal` and `XPLMLocalToWorld`
  pub world_to_local : V → V → V → V × V × V
  pub local_to_world : V → V → V → V × V × V
  -- `XPLMProbeTerrainXYZ`, if it hits
  pub probe_terrain : V → V → V → Option (ProbeInfo V)
  -- the position that X-Plane has
  pub position : V × V × V

-- the result: to be called on the next frame, or not again
pub data Interval : Type 0 where
  call_on_next_frame stop : Interval
