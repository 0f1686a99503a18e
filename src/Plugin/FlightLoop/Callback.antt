-- ===== src/Plugin/FlightLoop/Callback.antt =====
-- `flight_loop_callback`, composed of its parts: the interval that it returns, the state behind it, and
-- what it has written to X-Plane. `none` where the loops of the time to query do not end.
use psx_xp_mover.Base.{ℕ, Bool, not, Option, some, List, [], ◌∷◌, ◌++◌, ◌>>=◌, if◌then◌else◌}
use psx_xp_mover.Base.Int.{pos}
use psx_xp_mover.Double.{Double, Math}
use psx_xp_mover.Utils.Conversions.{deg2rad}
use psx_xp_mover.Psx.Frame.{BoostFrame}
use psx_xp_mover.Psx.Received.{zero_frame}
use psx_xp_mover.Plugin.Blending.{one_d}
use psx_xp_mover.Plugin.History.{record_boost_frame}
use psx_xp_mover.Plugin.FlightLoop.{
  override_oxygen, override_pressurization, cabin_altitude, pilot_felt_altitude, psi_hdg, phi_roll,
  theta_pitch, local_x, local_y, local_z, ground_contact, Write, set_datai, set_dataf, set_datad,
  Flight, Answers, Interval, call_on_next_frame, stop,
}
use psx_xp_mover.Plugin.FlightLoop.Setup.{find_datarefs, override_writes, begin_cycle}
use psx_xp_mover.Plugin.FlightLoop.Frame.{
  Values, Taken, take_frame, interpolate_frame, values_to_apply, override_frame,
}
use psx_xp_mover.Plugin.FlightLoop.Speed.{
  reference_frame, reference_index, dereferenced, calculate_ground_speed, limit_ground_speed,
  ground_speed_writes, motion_writes,
}
use psx_xp_mover.Plugin.FlightLoop.Elevation.{
  update_fractions, place, probe_terrain, adjust_elevation,
}

pub record Outcome (V : Type 0) : Type 0 where
  pub interval : Interval
  pub state : Flight V
  pub writes : List (Write V)

module _ (d : Double) (m : Math d) where
  open d use {D, of_int, le, add, sub, mul}
  open m use {sin, cos, to_float}

  -- what keeps the pilot breathing
  abbrev pub oxygen_writes : Flight D → List (Write D)
  oxygen_writes s =
      set_datai override_oxygen (pos 1)
        ∷ set_datai override_pressurization (pos 1)
        ∷ (if s.has_dataref_cabin_altitude
            then set_dataf cabin_altitude (of_int (pos 0)) ∷ []
            else [])
      ++ set_dataf pilot_felt_altitude (of_int (pos 0)) ∷ []

  -- PSX => X-Plane
  unfoldable pub inject : Flight D → Values D → D × D × D → List (Write D)
  inject s v (x, y, z) =
      set_dataf psi_hdg (to_float v.heading_true_degrees)
      ∷ set_dataf phi_roll (to_float v.bank_degrees)
      ∷ set_dataf theta_pitch (to_float v.pitch_degrees)
      ∷ set_datad local_x x
      ∷ set_datad local_y y
      ∷ set_datad local_z z
      ∷ set_datai ground_contact (if le (one_d d) s.ground_contact_fraction then pos 1 else pos 0)
      ∷ []

  abbrev pub expose : D → D → D → Flight D → Flight D
  expose latitude longitude elevation s = record s {
    psx_latitude = latitude;
    psx_longitude = longitude;
    psx_elevation = elevation;
  }

  -- X-Plane => PSX, while the injection is suspended
  unfoldable pub read_back : Answers D → BoostFrame D → D → Flight D → Flight D
  unfolding deg2rad
  read_back x frame elevation_blending_offset s =
      let (at_x, at_y, at_z) = x.position in
      let heading = deg2rad d m frame.heading_true_degrees in
      let offset = s.settings.model_length_offset_meters in
      let (latitude, longitude, elevation) =
        x.local_to_world (add at_x (mul (sin heading) offset)) at_y
          (sub at_z (mul (cos heading) offset)) in
      expose latitude longitude
        (sub (sub elevation elevation_blending_offset) s.settings.model_height_offset_meters) s

  -- the last part: the values that PSX's position is exposed by
  unfoldable pub exchange :
      Answers D
      → BoostFrame D
      → Bool
      → Values D
      → D × (D × D × D)
      → Flight D
      → Flight D × List (Write D)
  unfolding inject read_back
  exchange x frame is_new_boost_frame v (offset, position) s =
      if not s.settings.suspend_injection
      then (
        expose frame.flight_deck_latitude frame.flight_deck_longitude frame.elevation_msl_meters s,
        inject s v position,
      )
      else if is_new_boost_frame
      then (read_back x frame offset s, [])
      else (s, [])

  -- The speed, and the record of the frame. The reference is a pointer into the array: where it points to
  -- the oldest of 154 frames, the record overwrites it before the motion vector reads it.
  unfoldable pub move : Answers D → BoostFrame D → Bool → Flight D → Flight D × List (Write D)
  move x frame is_new_boost_frame s =
      let history = s.psx.history in
      let reference = reference_frame d (zero_frame d m) history frame.timestamp_millis_part in
      let speed =
        limit_ground_speed d
          (calculate_ground_speed d m reference frame s.calculated_ground_speed) in
      let recorded = if is_new_boost_frame then record_boost_frame history frame else history in
      let pointer = reference_index d (zero_frame d m) history frame.timestamp_millis_part in
      (
        record s { calculated_ground_speed = speed; psx = record s.psx { history = recorded } },
        ground_speed_writes d s.settings speed
            ++ motion_writes d m x s.settings (dereferenced d pointer recorded reference) frame
                speed,
      )

  -- from the ground speed on, for a frame that is placed
  unfoldable pub apply_frame : Answers D → Taken D → Flight D × List (Write D)
  apply_frame x taken =
      let frame = override_frame d m x taken.state taken.frame in
      let is_new = taken.is_new_boost_frame in
      let (moved, speed_writes) = move x frame is_new taken.state in
      let blended = update_fractions d frame.ground_contact is_new moved in
      let v = values_to_apply d frame taken.interpolated in
      let position = place d m x blended v in
      let probed = probe_terrain d m x position blended in
      let adjusted = adjust_elevation d m x probed v position in
      let (exchanged, writes) = exchange x frame is_new v adjusted probed in
      (exchanged, speed_writes ++ (oxygen_writes probed ++ writes))

  -- behind the unlocking
  unfoldable pub finish_cycle : Answers D → List (Write D) → Taken D → Outcome D
  finish_cycle x written taken =
      let (state, writes) = apply_frame x taken in
      if not taken.is_new
      then record { interval = call_on_next_frame; state = taken.state; writes = written }
      else record { interval = call_on_next_frame; state = state; writes = written ++ writes }

  unfoldable pub flight_loop_callback : ℕ → Answers D → Flight D → Option (Outcome D)
  flight_loop_callback fuel x s =
      let found = find_datarefs d x s in
      let begun = begin_cycle d x found in
      let written = override_writes d found.cycles_to_override_plane_path in
      let locked = (do
        taken ← interpolate_frame d fuel x (take_frame d begun)
        some (finish_cycle x written taken)) in
      if not found.datarefs_initialized
      then some (record { interval = stop; state = found; writes = [] })
      else if not x.locks
      then some (record { interval = call_on_next_frame; state = begun; writes = written })
      else locked
