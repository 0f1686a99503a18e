-- ===== src/Plugin/FlightLoop/Sound/Cycle.antt =====
-- A cycle of the flight loop keeps the plugin sound, and so does all that can happen to it.
use psx_xp_mover.Base.{
  ℕ, ◌≡◌, not, arith, Bool, true, false, Option, none, some, List, if◌then◌else◌,
}
use psx_xp_mover.Base.Int.{pos, negsuc}
use psx_xp_mover.Double.{Double, Math}
use psx_xp_mover.Psx.Frame.{BoostFrame}
use psx_xp_mover.Plugin.History.{record_boost_frame}
use psx_xp_mover.Plugin.Blending.{record_raw_elevation_blending_fraction}
use psx_xp_mover.Plugin.Countdown.{Terrain}
use psx_xp_mover.Plugin.Receive.{PsxData}
use psx_xp_mover.Plugin.Receive.Sound.{
  IsSoundData, record-HasIndexedHistory, record_fraction-HasIndexedFractions, handle-IsSoundData,
}
use psx_xp_mover.Plugin.FlightLoop.{Flight, ProbeInfo, Answers, Write}
use psx_xp_mover.Plugin.FlightLoop.Frame.{Values, Taken, override_frame, values_to_apply}
use psx_xp_mover.Plugin.FlightLoop.Elevation.{update_fractions, probe_terrain, take_probe, place}
use psx_xp_mover.Plugin.FlightLoop.Callback.{
  Outcome, expose, exchange, read_back, move, apply_frame, finish_cycle, flight_loop_callback,
}
use psx_xp_mover.Plugin.FlightLoop.Rule.{begun, taken_with, written, flight_loop_callback_outcome}
use psx_xp_mover.Plugin.FlightLoop.Run.{
  Step, call_back, cycle, set_settings, set_time_source, Reach, here, next,
}
use psx_xp_mover.Plugin.FlightLoop.Sound.{
  Within, IsSound, contact-Within, choice-IsSound, pair-IsSound, find-IsSound, settings-IsSound,
  source-IsSound, begin-IsSound, take-IsSound, history_if, fractions_if,
}

module _ (d : Double) where
  open d use {D}

  module _ (m : Math d) where
    recorded-IsSoundData :
        (is_new : Bool) (frame : BoostFrame D) (p : PsxData D)
        → IsSoundData p
        → IsSoundData (record p {
          history = if is_new then record_boost_frame p.history frame else p.history;
        })
    recorded-IsSoundData is_new frame p w = record {
      history =
          history_if is_new _ _ (record-HasIndexedHistory p.history frame w.history) w.history;
      channels = w.channels;
      differences = w.differences;
      fractions = w.fractions;
    }

    blended-IsSoundData :
        (is_new : Bool) (raw : D) (p : PsxData D)
        → IsSoundData p
        → IsSoundData (record p {
          fractions =
              if is_new
              then record_raw_elevation_blending_fraction d raw p.fractions
              else p.fractions;
        })
    blended-IsSoundData is_new raw p w = record {
      history = w.history;
      channels = w.channels;
      differences = w.differences;
      fractions =
          fractions_if is_new _ _
            (record_fraction-HasIndexedFractions d raw p.fractions w.fractions) w.fractions;
    }

    probe-Within :
        (x : Answers D) (hit : Option (ProbeInfo D)) (t : Terrain D)
        → Within (negsuc 0) (pos 1800) t.remaining_cycles
        → Within (negsuc 0) (pos 1800) (take_probe d x hit t).remaining_cycles
    unfolding take_probe
    probe-Within x none t w = w
    probe-Within x (some info) t w = ground arith

    expose-IsSound :
        (latitude longitude elevation : D) (s : Flight D)
        → IsSound s
        → IsSound (expose d m latitude longitude elevation s)
    expose-IsSound latitude longitude elevation s w = record {
      received = w.received;
      contact_in = w.contact_in;
      override_in = w.override_in;
      sim_time_in = w.sim_time_in;
      terrain_in = w.terrain_in;
    }

    outcome-IsSound :
        (b : Bool) (o o' : Outcome D)
        → IsSound o.state
        → IsSound o'.state
        → IsSound (if b then o else o').state
    outcome-IsSound true o o' v w = v
    outcome-IsSound false o o' v w = w

    move-IsSound :
        (x : Answers D) (frame : BoostFrame D) (is_new : Bool) (s : Flight D)
        → IsSound s
        → IsSound (move d m x frame is_new s).0
    unfolding move
    move-IsSound x frame is_new s w = record {
      received = recorded-IsSoundData is_new frame s.psx w.received;
      contact_in = w.contact_in;
      override_in = w.override_in;
      sim_time_in = w.sim_time_in;
      terrain_in = w.terrain_in;
    }

    blend-IsSound :
        (has_contact is_new : Bool) (s : Flight D)
        → IsSound s
        → IsSound (update_fractions d has_contact is_new s)
    unfolding update_fractions
    blend-IsSound has_contact is_new s w = record {
      received = blended-IsSoundData is_new _ s.psx w.received;
      contact_in = contact-Within has_contact s.ground_contact_cycles;
      override_in = w.override_in;
      sim_time_in = w.sim_time_in;
      terrain_in = w.terrain_in;
    }

    probe-IsSound :
        (x : Answers D) (p : D × D × D) (s : Flight D)
        → IsSound s
        → IsSound (probe_terrain d m x p s)
    unfolding probe_terrain
    probe-IsSound x p s w =
        choice-IsSound d _ _ s
          (record {
            received = w.received;
            contact_in = w.contact_in;
            override_in = w.override_in;
            sim_time_in = w.sim_time_in;
            terrain_in = probe-Within x _ s.terrain w.terrain_in;
          })
          w

    exchange-IsSound :
        (x : Answers D) (frame : BoostFrame D) (is_new : Bool) (v : Values D) (p : D × (D × D × D))
        (s : Flight D)
        → IsSound s
        → IsSound (exchange d m x frame is_new v p s).0
    unfolding exchange read_back
    exchange-IsSound x frame is_new v p s w =
        pair-IsSound d (not s.settings.suspend_injection) _ _ (expose-IsSound _ _ _ s w)
          (pair-IsSound d is_new _ _ (expose-IsSound _ _ _ s w) w)

    apply-IsSound :
        (x : Answers D) (taken : Taken D)
        → IsSound taken.state
        → IsSound (apply_frame d m x taken).0
    unfolding apply_frame
    apply-IsSound x taken w =
        let frame = override_frame d m x taken.state taken.frame in
        let is_new = taken.is_new_boost_frame in
        let moved = move-IsSound x frame is_new taken.state w in
        let blended = blend-IsSound frame.ground_contact is_new _ moved in
        let probed =
          probe-IsSound x (place d m x _ (values_to_apply d frame taken.interpolated)) _ blended in
        exchange-IsSound x frame is_new (values_to_apply d frame taken.interpolated) _ _ probed

    finish-IsSound :
        (x : Answers D) (ws : List (Write D)) (taken : Taken D)
        → IsSound taken.state
        → IsSound (finish_cycle d m x ws taken).state
    unfolding finish_cycle
    finish-IsSound x ws taken w = outcome-IsSound (not taken.is_new) _ _ w (apply-IsSound x taken w)

    pub cycle-IsSound :
        (fuel : ℕ) (x : Answers D) (s : Flight D) {o : Outcome D}
        → flight_loop_callback d m fuel x s ≡ some o
        → IsSound s
        → IsSound o.state
    cycle-IsSound fuel x s e w =
        let found = find-IsSound d x s w in
        let started = begin-IsSound d x _ found in
        flight_loop_callback_outcome d m (λ o. IsSound o.state) fuel x s found started
          (λ source is_new v _.
            finish-IsSound x (written d m x s) (taken_with d (begun d x s) source is_new v)
              (take-IsSound d (begun d x s) source is_new v started))
          e

    Step-IsSound : {s t : Flight D} → Step d m s t → IsSound s → IsSound t
    Step-IsSound (call_back e s) w = record {
      received = handle-IsSoundData d e s.psx w.received;
      contact_in = w.contact_in;
      override_in = w.override_in;
      sim_time_in = w.sim_time_in;
      terrain_in = w.terrain_in;
    }
    Step-IsSound (cycle fuel x s o e) w = cycle-IsSound fuel x s e w
    Step-IsSound (set_settings c s) w = settings-IsSound d c s w
    Step-IsSound (set_time_source n s) w = source-IsSound d n s w

    -- Every state that is reached from a sound one by calls of the connection's thread and of the flight
    -- loop, and by writes to the settings, is sound: the rings of the interpolators, the history, the
    -- fractions and the clock differences are indexed in range, and the cycle counters are within their
    -- limits.
    pub Reach-IsSound : {s t : Flight D} → IsSound s → Reach d m s t → IsSound t
    Reach-IsSound w here = w
    Reach-IsSound w (next r st) = Step-IsSound st (Reach-IsSound w r)
