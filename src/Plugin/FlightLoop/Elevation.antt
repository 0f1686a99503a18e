-- ===== src/Plugin/FlightLoop/Elevation.antt =====
-- The blending of elevations in `flight_loop_callback`: its fractions, the probe of X-Plane's terrain,
-- and the local position that comes of it.
use psx_xp_mover.Base.{Bool, false, not, ◌&&◌, ◌||◌, Option, none, some, if◌then◌else◌}
use psx_xp_mover.Double.{Double, Math}
use psx_xp_mover.Utils.Conversions.{deg2rad}
use psx_xp_mover.Plugin.Blending.{
  zero_d, one_d, eq, update_ground_contact_cycles, update_low_speed_fraction,
  ground_contact_fraction, raw_elevation_blending_fraction, record_raw_elevation_blending_fraction,
  get_average_elevation_blending_fraction,
}
use psx_xp_mover.Plugin.Countdown.{Terrain, probed}
use psx_xp_mover.Plugin.FlightLoop.{Flight, ProbeInfo, Answers}
use psx_xp_mover.Plugin.FlightLoop.Frame.{Values}

module _ (d : Double) where
  open d use {D, of_int, is_nan, lt, add, sub, mul}

  -- The fractions, with the flags of the frame: ground contact, and whether the frame is new.
  unfoldable pub update_fractions : Bool → Bool → Flight D → Flight D
  unfolding update_ground_contact_cycles
  update_fractions has_contact is_new_boost_frame s =
      let low_speed =
        update_low_speed_fraction d s.calculated_ground_speed s.settings.firm_ground_speed
          s.settings.lift_ground_speed s.low_speed_fraction in
      let cycles = update_ground_contact_cycles has_contact s.ground_contact_cycles in
      let contact = ground_contact_fraction d cycles in
      let raw =
        raw_elevation_blending_fraction d low_speed contact s.settings.low_speed_fraction_factor
          s.settings.suspend_terrain_blending in
      let fractions =
        if is_new_boost_frame
        then record_raw_elevation_blending_fraction d raw s.psx.fractions
        else s.psx.fractions in
      record s {
        low_speed_fraction = low_speed;
        ground_contact_cycles = cycles;
        ground_contact_fraction = contact;
        elevation_blending_fraction = get_average_elevation_blending_fraction d fractions;
        psx = record s.psx { fractions = fractions };
      }

  -- `!isnan(terrain_elevation_meters)`
  abbrev pub is_known : Option D → Bool
  is_known none = false
  is_known (some elevation) = not (is_nan elevation)

  abbrev pub elevation_or : Option D → D → D
  elevation_or none other = other
  elevation_or (some elevation) other = elevation

  -- the offset of the elevation, and the elevation, where the terrain is known
  unfoldable pub blend_elevation : D → D → D → (D → D) → D × D
  blend_elevation fraction terrain psx_elevation neg =
      let offset = neg (mul fraction (sub psx_elevation terrain)) in
      if eq d fraction (one_d d) then (zero_d d, terrain) else (offset, add psx_elevation offset)

  -- What becomes of the terrain by a hit: an object that moves is ignored.
  unfoldable pub take_probe : Answers D → Option (ProbeInfo D) → Terrain D → Terrain D
  take_probe x none t = t
  take_probe x (some info) t =
      let (latitude, longitude, elevation) =
        x.local_to_world info.location_x info.location_y info.location_z in
      if eq d info.velocity_x (zero_d d)
        && eq d info.velocity_y (zero_d d)
        && eq d info.velocity_z (zero_d d)
      then probed elevation
      else t

  module _ (m : Math d) where
    open m use {neg, sin, cos, to_float}

    -- PSX's position, corrected by the offset between the centers of the two models
    unfoldable pub place : Answers D → Flight D → Values D → D × D × D
    unfolding deg2rad
    place x s v =
        let (local_x, local_y, local_z) =
          x.world_to_local v.latitude v.longitude
            (add v.elevation_msl_meters s.settings.model_height_offset_meters) in
        let heading = deg2rad d m v.heading_true_degrees in
        (
          sub local_x (mul (sin heading) s.settings.model_length_offset_meters),
          local_y,
          add local_z (mul (cos heading) s.settings.model_length_offset_meters),
        )

    unfoldable pub probe_terrain : Answers D → D × D × D → Flight D → Flight D
    unfolding take_probe
    probe_terrain x (local_x, local_y, local_z) s =
        let hit = x.probe_terrain (to_float local_x) (to_float local_y) (to_float local_z) in
        if not (eq d s.elevation_blending_fraction (zero_d d))
          || s.settings.always_update_elevation_info
        then record s { terrain = take_probe x hit s.terrain }
        else s

    -- The offset of the elevation, and the position with the blended elevation.
    unfoldable pub adjust_elevation : Answers D → Flight D → Values D → D × D × D → D × (D × D × D)
    unfolding blend_elevation
    adjust_elevation x s v (local_x, local_y, local_z) =
        let fraction = s.elevation_blending_fraction in
        let elevation = v.elevation_msl_meters in
        let (offset, blended) =
          blend_elevation fraction (elevation_or s.terrain.elevation_meters elevation) elevation
            neg in
        let adjusted = add blended s.settings.model_height_offset_meters in
        let (ignore_x, adjusted_y, ignore_z) = x.world_to_local v.latitude v.longitude adjusted in
        if lt (zero_d d) fraction && is_known s.terrain.elevation_meters
        then (offset, (local_x, adjusted_y, local_z))
        else (zero_d d, (local_x, local_y, local_z))
