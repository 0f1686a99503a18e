-- ===== src/Plugin/FlightLoop/Suspended.antt =====
-- While the injection is suspended, X-Plane moves the aircraft: a cycle of the flight loop writes no
-- part of its position, attitude or speed.
use psx_xp_mover.Base.{
  ℕ, ◌≡◌, refl, ◌∙◌, ap, arith, Bool, true, false, Option, none, some, List, [], ◌∷◌, ◌++◌, All,
}
use psx_xp_mover.Base.Int.{ℤ}
use psx_xp_mover.Double.{Double, Math}
use psx_xp_mover.Psx.Frame.{BoostFrame}
use psx_xp_mover.Plugin.Countdown.{override_plane_path}
use psx_xp_mover.Plugin.FlightLoop.{
  DataRef, override_oxygen, override_pressurization, override_planepath, cabin_altitude,
  pilot_felt_altitude, Write, set_datai, set_dataf, set_datad, set_datavi, Settings, Flight,
  Answers,
}
use psx_xp_mover.Plugin.FlightLoop.Setup.{
  find_datarefs, update_sim_time_diff, override_writes, begin_cycle,
}
use psx_xp_mover.Plugin.FlightLoop.Frame.{Values, Taken, override_frame, values_to_apply}
use psx_xp_mover.Plugin.FlightLoop.Speed.{ground_speed_writes, motion_writes}
use psx_xp_mover.Plugin.FlightLoop.Elevation.{
  update_fractions, probe_terrain, place, adjust_elevation,
}
use psx_xp_mover.Plugin.FlightLoop.Callback.{
  oxygen_writes, exchange, move, apply_frame, finish_cycle, flight_loop_callback,
}
use psx_xp_mover.Plugin.FlightLoop.Rule.{
  Returns, QueryEnds, begun, taken_with, flight_loop_callback-Returns,
}

-- the data references that say who flies, and the oxygen
abbrev pub is_general : DataRef → Bool
is_general override_planepath = true
is_general override_oxygen = true
is_general override_pressurization = true
is_general cabin_altitude = true
is_general pilot_felt_altitude = true
is_general _ = false

module _ {V : Type 0} where
  abbrev pub target : Write V → DataRef
  target (set_datai r v) = r
  target (set_dataf r v) = r
  target (set_datad r v) = r
  target (set_datavi r v) = r

  abbrev pub LeavesAircraft : Write V → Type 0
  LeavesAircraft w = is_general (target w) ≡ true

  append-LeavesAircraft :
      (ws vs : List (Write V))
      → All LeavesAircraft ws
      → All LeavesAircraft vs
      → All LeavesAircraft (ws ++ vs)
  append-LeavesAircraft [] vs h k = k
  append-LeavesAircraft (w ∷ ws) vs h k = (h.0, append-LeavesAircraft ws vs h.1 k)

module _ (d : Double) where
  open d use {D}

  settings-find : (x : Answers D) (s : Flight D) → (find_datarefs d x s).settings ≡ s.settings
  unfolding find_datarefs
  settings-find x s = ground arith

  settings-update :
      (x : Answers D) (s : Flight D) → (update_sim_time_diff d x s).settings ≡ s.settings
  unfolding update_sim_time_diff
  settings-update x s = ground arith

  pub settings-begun : (x : Answers D) (s : Flight D) → (begun d x s).settings ≡ s.settings
  unfolding begin_cycle
  settings-begun x s =
      let found = find_datarefs d x s in
      settings-update x (record found {
        cycles_to_override_plane_path = (override_plane_path found.cycles_to_override_plane_path).1;
      })
      ∙ settings-find x s

  override-LeavesAircraft : (c : ℤ) → All LeavesAircraft (override_writes d c)
  override-LeavesAircraft c = ground arith

  oxygen-LeavesAircraft : (m : Math d) (s : Flight D) → All LeavesAircraft (oxygen_writes d m s)
  oxygen-LeavesAircraft m s = ground arith

  no_ground_speed :
      (c : Settings D) (speed : D) → c.suspend_injection ≡ true → ground_speed_writes d c speed ≡ []
  unfolding ground_speed_writes
  no_ground_speed c speed h = ground arith

  module _ (m : Math d) where
    no_motion :
        (x : Answers D) (c : Settings D) (r : Option (BoostFrame D × ℤ)) (frame : BoostFrame D)
        (speed : D)
        → c.suspend_injection ≡ true
        → motion_writes d m x c r frame speed ≡ []
    unfolding motion_writes
    no_motion x c none frame speed h = refl
    no_motion x c (some (reference, age)) frame speed h = ground arith

    no_move :
        (x : Answers D) (frame : BoostFrame D) (is_new : Bool) (s : Flight D)
        → s.settings.suspend_injection ≡ true
        → (move d m x frame is_new s).1 ≡ []
    unfolding move
    no_move x frame is_new s h =
        rw (no_ground_speed s.settings _ h, no_motion x s.settings _ frame _ h) refl

    pub settings-move :
        (x : Answers D) (frame : BoostFrame D) (is_new : Bool) (s : Flight D)
        → (move d m x frame is_new s).0.settings ≡ s.settings
    unfolding move
    settings-move x frame is_new s = refl

    no_exchange :
        (x : Answers D) (frame : BoostFrame D) (is_new : Bool) (v : Values D) (p : D × (D × D × D))
        (s : Flight D)
        → s.settings.suspend_injection ≡ true
        → (exchange d m x frame is_new v p s).1 ≡ []
    unfolding exchange
    no_exchange x frame is_new v p s h = ground arith

    pub settings-blend :
        (has_contact is_new : Bool) (s : Flight D)
        → (update_fractions d has_contact is_new s).settings ≡ s.settings
    unfolding update_fractions
    settings-blend has_contact is_new s = refl

    pub settings-probe :
        (x : Answers D) (p : D × D × D) (s : Flight D)
        → (probe_terrain d m x p s).settings ≡ s.settings
    unfolding probe_terrain
    settings-probe x p s = ground arith

    apply-LeavesAircraft :
        (x : Answers D) (taken : Taken D)
        → taken.state.settings.suspend_injection ≡ true
        → All LeavesAircraft (apply_frame d m x taken).1
    unfolding apply_frame
    apply-LeavesAircraft x taken h =
        let frame = override_frame d m x taken.state taken.frame in
        let moved = (move d m x frame taken.is_new_boost_frame taken.state).0 in
        let blended = update_fractions d frame.ground_contact taken.is_new_boost_frame moved in
        let v = values_to_apply d frame taken.interpolated in
        let position = place d m x blended v in
        let probed = probe_terrain d m x position blended in
        let same : probed.settings ≡ taken.state.settings =
          settings-probe x position blended
          ∙ settings-blend frame.ground_contact taken.is_new_boost_frame moved
          ∙ settings-move x frame taken.is_new_boost_frame taken.state in
        let suspended : probed.settings.suspend_injection ≡ true =
          ap (λ c. c.suspend_injection) same ∙ h in
        rw
          (
            no_move x frame taken.is_new_boost_frame taken.state h,
            no_exchange x frame taken.is_new_boost_frame v
                (adjust_elevation d m x probed v position) probed suspended,
          )
          (append-LeavesAircraft (oxygen_writes d m probed) [] (oxygen-LeavesAircraft m probed) tt)

    finish-LeavesAircraft :
        (x : Answers D) (written : List (Write D)) (taken : Taken D)
        → All LeavesAircraft written
        → taken.state.settings.suspend_injection ≡ true
        → All LeavesAircraft (finish_cycle d m x written taken).writes
    unfolding finish_cycle
    finish-LeavesAircraft x written taken h k = ground (
      arith,
      append-LeavesAircraft written (apply_frame d m x taken).1,
      apply-LeavesAircraft x taken,
    )

    -- A cycle of the flight loop in which the injection is suspended, and in which the loops of the time
    -- to query end, ends and writes only the override of the plane path and what the oxygen needs.
    pub flight_loop_callback-LeavesAircraft :
        (fuel : ℕ) (x : Answers D) (s : Flight D)
        → QueryEnds d fuel x s
        → s.settings.suspend_injection ≡ true
        → Returns (λ o. All LeavesAircraft o.writes) (flight_loop_callback d m fuel x s)
    flight_loop_callback-LeavesAircraft fuel x s ends h =
        let c = (find_datarefs d x s).cycles_to_override_plane_path in
        let suspended = ap (λ c. c.suspend_injection) (settings-begun x s) ∙ h in
        flight_loop_callback-Returns d m (λ o. All LeavesAircraft o.writes) fuel x s tt
          (override-LeavesAircraft c)
          (λ source is_new v _.
            finish-LeavesAircraft x (override_writes d c)
              (taken_with d (begun d x s) source is_new v) (override-LeavesAircraft c) suspended)
          ends
