-- ===== src/Plugin/FlightLoop/Setup.antt =====
-- The start of `flight_loop_callback`: X-Plane's data references, the override of the plane path, the
-- time difference of X-Plane's running time, and the age of the terrain elevation.
use psx_xp_mover.Base.{ℕ, Bool, true, ◌&&◌, List, [], ◌∷◌, ◌==◌, if◌then◌else◌}
use psx_xp_mover.Base.Int.{ℤ, pos, ◌-ℤ◌, ltb_ℤ}
use psx_xp_mover.Double.{Double}
use psx_xp_mover.Plugin.Countdown.{override_plane_path, expire}
use psx_xp_mover.Plugin.TimeSource.{
  interpolation_time_source_sim_run, get_millis_rtc, get_millis_sim_run,
}
use psx_xp_mover.Plugin.FlightLoop.{
  DataRef, override_oxygen, override_pressurization, override_planepath, cabin_altitude,
  pilot_felt_altitude, psi_hdg, phi_roll, theta_pitch, local_x, local_y, local_z, local_vx,
  local_vy, local_vz, ground_speed, ground_speed2, ground_contact, total_running_time_sec, Write,
  set_datavi, Flight, Answers,
}

-- `INIT_CYCLES_TO_UPDATE_SIM_TIME_DIFF`
abbrev pub init_cycles_to_update_sim_time_diff : ℕ
init_cycles_to_update_sim_time_diff = 500

-- the data references that the plugin cannot do without
abbrev pub required : List DataRef
required =
    override_oxygen ∷ override_pressurization ∷ override_planepath ∷ pilot_felt_altitude ∷ psi_hdg
    ∷ phi_roll ∷ theta_pitch ∷ local_x ∷ local_y ∷ local_z ∷ local_vx ∷ local_vy ∷ local_vz
    ∷ ground_speed ∷ ground_speed2 ∷ ground_contact ∷ total_running_time_sec ∷ []

unfoldable pub finds_all : (DataRef → Bool) → List DataRef → Bool
finds_all finds [] = true
finds_all finds (r ∷ rs) = finds r && finds_all finds rs

module _ (d : Double) where
  open d use {D, of_int, is_nan, sub}

  -- Each call of `find_dataref` assigns what X-Plane returns to the pointer, NULL too, and the calls are
  -- made for all 18 pointers, whatever the others return.
  unfoldable pub find_datarefs : Answers D → Flight D → Flight D
  unfolding finds_all
  find_datarefs x s = if s.datarefs_initialized then s else record s {
    found = x.finds;
    has_dataref_cabin_altitude = x.finds cabin_altitude;
    datarefs_initialized = finds_all x.finds required;
  }

  -- The time by X-Plane's running time, and by the system's clock.
  abbrev pub sim_run_millis : Answers D → Flight D → D
  sim_run_millis x s = get_millis_sim_run d s.datarefs_initialized x.total_running_time_sec

  abbrev pub rtc_millis : Answers D → D
  rtc_millis x = get_millis_rtc d x.nanos

  unfoldable pub update_sim_time_diff : Answers D → Flight D → Flight D
  unfolding ◌-ℤ◌
  update_sim_time_diff x s =
      let diff_millis = sub (rtc_millis x) (sim_run_millis x s) in
      if s.psx.interpolation_time_source == interpolation_time_source_sim_run
      then (if ltb_ℤ (pos 0) s.cycles_to_update_sim_time_diff
          then record s {
            cycles_to_update_sim_time_diff = s.cycles_to_update_sim_time_diff -ℤ pos 1;
          }
          else record s {
            cycles_to_update_sim_time_diff = pos init_cycles_to_update_sim_time_diff;
            psx = record s.psx {
              average_psx_time_difference =
                  if is_nan diff_millis then of_int (pos 0) else diff_millis;
            };
          })
      else s

  -- what is written at the start of a cycle
  abbrev pub override_writes : ℤ → List (Write D)
  override_writes cycles =
      if (override_plane_path cycles).0 then set_datavi override_planepath (pos 1) ∷ [] else []

  unfoldable pub begin_cycle : Answers D → Flight D → Flight D
  begin_cycle x s =
      let counted = record s {
        cycles_to_override_plane_path = (override_plane_path s.cycles_to_override_plane_path).1;
      } in
      let timed = update_sim_time_diff x counted in record timed { terrain = expire timed.terrain }
