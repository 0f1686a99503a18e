-- ===== src/Plugin/Whole/Kept.antt =====
-- The interpolators are there as long as the plugin is enabled: cycles of the flight loop leave them
-- alone, and received frames and resets change no more than what they hold.
use psx_xp_mover.Base.{
  ℕ, ◌≡◌, refl, ◌∙◌, arith, Bool, true, false, Option, none, some, List, is_some,
}
use psx_xp_mover.Double.{Double, Math}
use psx_xp_mover.Interpolation.{Interpolator, interpolator_add_point, interpolator_reset}
use psx_xp_mover.Psx.Frame.{BoostFrame}
use psx_xp_mover.Plugin.Receive.{
  Channels, PsxData, PsxEvent, connected, disconnected, received, add_points,
  on_boost_frame_received, reset_psx_data, handle,
}
use psx_xp_mover.Plugin.FlightLoop.{Flight, Answers, Write}
use psx_xp_mover.Plugin.FlightLoop.Frame.{Values, Taken, override_frame, values_to_apply}
use psx_xp_mover.Plugin.FlightLoop.Elevation.{
  update_fractions, probe_terrain, place, adjust_elevation,
}
use psx_xp_mover.Plugin.FlightLoop.Callback.{
  Outcome, exchange, read_back, move, apply_frame, finish_cycle, flight_loop_callback,
}
use psx_xp_mover.Plugin.FlightLoop.Rule.{begun, taken_with, written, flight_loop_callback_outcome}
use psx_xp_mover.Plugin.FlightLoop.Stale.{channels-find, channels-begun}

-- All six interpolators are there.
pub record HasChannels {V : Type 0} (c : Channels V) : Type 0 where
  pub latitude : is_some c.flight_deck_latitude ≡ true
  pub longitude : is_some c.flight_deck_longitude ≡ true
  pub elevation : is_some c.psx_elevation_msl_meters ≡ true
  pub heading : is_some c.heading_true_degrees ≡ true
  pub pitch : is_some c.pitch_degrees ≡ true
  pub bank : is_some c.bank_degrees ≡ true

module _ (d : Double) where
  open d use {D}

  add_point-kept :
      (i : Option (Interpolator D)) (t : ℕ) (v : D)
      → is_some i ≡ true
      → is_some (interpolator_add_point d i t v) ≡ true
  unfolding interpolator_add_point
  add_point-kept none t v h = h
  add_point-kept (some i) t v h = refl

  reset-kept :
      (i : Option (Interpolator D)) → is_some i ≡ true → is_some (interpolator_reset d i) ≡ true
  unfolding interpolator_reset
  reset-kept none h = h
  reset-kept (some i) h = refl

  add_points-HasChannels :
      (frame : BoostFrame D) (c : Channels D) → HasChannels c → HasChannels (add_points d frame c)
  unfolding add_points
  add_points-HasChannels frame c h = record {
    latitude = add_point-kept _ _ _ h.latitude;
    longitude = add_point-kept _ _ _ h.longitude;
    elevation = add_point-kept _ _ _ h.elevation;
    heading = add_point-kept _ _ _ h.heading;
    pitch = add_point-kept _ _ _ h.pitch;
    bank = add_point-kept _ _ _ h.bank;
  }

  pub reset-HasChannels :
      (locks : Bool) (p : PsxData D)
      → HasChannels p.channels
      → HasChannels (reset_psx_data d locks p).channels
  unfolding reset_psx_data
  reset-HasChannels false p h = h
  reset-HasChannels true p h = record {
    latitude = reset-kept _ h.latitude;
    longitude = reset-kept _ h.longitude;
    elevation = reset-kept _ h.elevation;
    heading = reset-kept _ h.heading;
    pitch = reset-kept _ h.pitch;
    bank = reset-kept _ h.bank;
  }

  received-HasChannels :
      (locks : Bool) (clock : D) (frame : BoostFrame D) (p : PsxData D)
      → HasChannels p.channels
      → HasChannels (on_boost_frame_received d locks clock frame p).channels
  unfolding on_boost_frame_received
  received-HasChannels false clock frame p h = h
  received-HasChannels true clock frame p h = add_points-HasChannels frame p.channels h

  pub handle-HasChannels :
      (e : PsxEvent D) (p : PsxData D)
      → HasChannels p.channels
      → HasChannels (handle d e p).channels
  unfolding handle
  handle-HasChannels (connected locks) p h = reset-HasChannels locks _ h
  handle-HasChannels (disconnected locks) p h = reset-HasChannels locks _ h
  handle-HasChannels (received locks clock frame) p h = received-HasChannels locks clock frame p h

  module _ (m : Math d) where
    channels-move :
        (x : Answers D) (frame : BoostFrame D) (is_new : Bool) (s : Flight D)
        → (move d m x frame is_new s).0.psx.channels ≡ s.psx.channels
    unfolding move
    channels-move x frame is_new s = refl

    channels-blend :
        (has_contact is_new : Bool) (s : Flight D)
        → (update_fractions d has_contact is_new s).psx.channels ≡ s.psx.channels
    unfolding update_fractions
    channels-blend has_contact is_new s = refl

    channels-probe :
        (x : Answers D) (p : D × D × D) (s : Flight D)
        → (probe_terrain d m x p s).psx.channels ≡ s.psx.channels
    unfolding probe_terrain
    channels-probe x p s = ground arith

    channels-exchange :
        (x : Answers D) (frame : BoostFrame D) (is_new : Bool) (v : Values D) (p : D × (D × D × D))
        (s : Flight D)
        → (exchange d m x frame is_new v p s).0.psx.channels ≡ s.psx.channels
    unfolding exchange read_back
    channels-exchange x frame is_new v p s = ground arith

    channels-apply :
        (x : Answers D) (taken : Taken D)
        → (apply_frame d m x taken).0.psx.channels ≡ taken.state.psx.channels
    unfolding apply_frame
    channels-apply x taken =
        let frame = override_frame d m x taken.state taken.frame in
        let is_new = taken.is_new_boost_frame in
        let moved = (move d m x frame is_new taken.state).0 in
        let blended = update_fractions d frame.ground_contact is_new moved in
        let v = values_to_apply d frame taken.interpolated in
        let position = place d m x blended v in
        let probed = probe_terrain d m x position blended in
        channels-exchange x frame is_new v (adjust_elevation d m x probed v position) probed
        ∙ channels-probe x position blended
        ∙ channels-blend frame.ground_contact is_new moved
        ∙ channels-move x frame is_new taken.state

    channels-finish :
        (x : Answers D) (ws : List (Write D)) (taken : Taken D)
        → (finish_cycle d m x ws taken).state.psx.channels ≡ taken.state.psx.channels
    unfolding finish_cycle
    channels-finish x ws taken = ground (arith, channels-apply x taken)

    -- A cycle leaves the interpolators as they are.
    pub channels-flight_loop_callback :
        (fuel : ℕ) (x : Answers D) (s : Flight D) {o : Outcome D}
        → flight_loop_callback d m fuel x s ≡ some o
        → o.state.psx.channels ≡ s.psx.channels
    channels-flight_loop_callback fuel x s e =
        flight_loop_callback_outcome d m (λ o. o.state.psx.channels ≡ s.psx.channels) fuel x s
          (channels-find d x s) (channels-begun d x s)
          (λ source is_new v _.
            channels-finish x (written d m x s) (taken_with d (begun d x s) source is_new v)
            ∙ channels-begun d x s)
          e
