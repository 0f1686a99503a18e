-- ===== src/Plugin/FlightLoop/Shown.antt =====
-- Where the attitude and the position of a frame are among what a cycle writes to X-Plane.
use mathlib.Core.Path.{subst}
use psx_xp_mover.Base.{
  IsIn, append-IsIn, ◌≡◌, refl, sym, ap, ◌∙◌, arith, Bool, false, inl, inr, List, ◌++◌,
}
use psx_xp_mover.Double.{Double, Math, IsOrdered}
use psx_xp_mover.Psx.Frame.{BoostFrame}
use psx_xp_mover.Plugin.FlightLoop.{
  psi_hdg, phi_roll, theta_pitch, local_x, local_z, Write, set_dataf, set_datad, Flight, Answers,
}
use psx_xp_mover.Plugin.FlightLoop.Frame.{
  Values, Taken, has_debug_override, no_values, values_to_apply, override_frame,
}
use psx_xp_mover.Plugin.FlightLoop.Elevation.{
  update_fractions, probe_terrain, place, adjust_elevation,
}
use psx_xp_mover.Plugin.FlightLoop.Callback.{inject, exchange, oxygen_writes, move, apply_frame}
use psx_xp_mover.Plugin.FlightLoop.Suspended.{settings-move, settings-blend, settings-probe}

module _ (d : Double) where
  open d use {D, nan, is_nan, add, sub, mul}

  -- the values of a frame as they were received
  abbrev pub received_values : BoostFrame D → Values D
  received_values frame = record {
    latitude = frame.flight_deck_latitude;
    longitude = frame.flight_deck_longitude;
    elevation_msl_meters = frame.elevation_msl_meters;
    heading_true_degrees = frame.heading_true_degrees;
    pitch_degrees = frame.pitch_degrees;
    bank_degrees = frame.bank_degrees;
  }

  values_to_apply-none :
      (ordered : IsOrdered d) (frame : BoostFrame D)
      → values_to_apply d frame (no_values d) ≡ received_values frame
  values_to_apply-none ordered frame = rw ordered.is_nan-nan refl

  module _ (m : Math d) where
    open m use {to_float}

    override_frame-unspun :
        (x : Answers D) (s : Flight D) (frame : BoostFrame D)
        → has_debug_override d s ≡ false
        → override_frame d m x s frame ≡ frame
    unfolding override_frame
    override_frame-unspun x s frame h = rw h refl

    adjust_elevation-lateral :
        (x : Answers D) (s : Flight D) (v : Values D) (p : D × D × D)
        → ((adjust_elevation d m x s v p).1.0 ≡ p.0) × ((adjust_elevation d m x s v p).1.2 ≡ p.2)
    unfolding adjust_elevation
    adjust_elevation-lateral x s v p = ground arith

    place-settings :
        (x : Answers D) (s t : Flight D) (v : Values D)
        → t.settings ≡ s.settings
        → place d m x t v ≡ place d m x s v
    unfolding place
    place-settings x s t v h = rw h refl

    -- the attitude and the lateral position of a frame
    pub record IsShown (x : Answers D) (s : Flight D) (frame : BoostFrame D) (ws : List (Write D))
        : Type 0 where
      pub heading : IsIn (set_dataf psi_hdg (to_float frame.heading_true_degrees)) ws
      pub bank : IsIn (set_dataf phi_roll (to_float frame.bank_degrees)) ws
      pub pitch : IsIn (set_dataf theta_pitch (to_float frame.pitch_degrees)) ws
      pub east : IsIn (set_datad local_x (place d m x s (received_values frame)).0) ws
      pub south : IsIn (set_datad local_z (place d m x s (received_values frame)).2) ws

    pub append-IsShown :
        (x : Answers D) (s : Flight D) (frame : BoostFrame D) (vs ws : List (Write D))
        → IsShown x s frame ws
        → IsShown x s frame (vs ++ ws)
    append-IsShown x s frame vs ws h = record {
      heading = append-IsIn _ vs ws h.heading;
      bank = append-IsIn _ vs ws h.bank;
      pitch = append-IsIn _ vs ws h.pitch;
      east = append-IsIn _ vs ws h.east;
      south = append-IsIn _ vs ws h.south;
    }

    inject-IsShown :
        (x : Answers D) (s t : Flight D) (frame : BoostFrame D) (p : D × D × D)
        → p.0 ≡ (place d m x s (received_values frame)).0
        → p.2 ≡ (place d m x s (received_values frame)).2
        → IsShown x s frame (inject d m t (received_values frame) p)
    unfolding inject
    inject-IsShown x s t frame p e f = record {
      heading = inl refl;
      bank = inr (inl refl);
      pitch = inr (inr (inl refl));
      east = inr (inr (inr (inl (ap (set_datad local_x) (sym e)))));
      south = inr (inr (inr (inr (inr (inl (ap (set_datad local_z) (sym f)))))));
    }

    exchange-active :
        (x : Answers D) (frame : BoostFrame D) (is_new : Bool) (v : Values D) (p : D × (D × D × D))
        (s : Flight D)
        → s.settings.suspend_injection ≡ false
        → (exchange d m x frame is_new v p s).1 ≡ inject d m s v p.1
    unfolding exchange
    exchange-active x frame is_new v p s h = ground arith

    pub apply_frame-IsShown :
        (ordered : IsOrdered d) (x : Answers D) (taken : Taken D)
        → taken.interpolated ≡ no_values d
        → has_debug_override d taken.state ≡ false
        → taken.state.settings.suspend_injection ≡ false
        → IsShown x taken.state taken.frame (apply_frame d m x taken).1
    unfolding apply_frame
    apply_frame-IsShown ordered x taken e unspun active =
        let s = taken.state in
        let frame = taken.frame in
        let is_new = taken.is_new_boost_frame in
        let moved = (move d m x frame is_new s).0 in
        let blended = update_fractions d frame.ground_contact is_new moved in
        let v = received_values frame in
        let position = place d m x blended v in
        let probed = probe_terrain d m x position blended in
        let placed : position ≡ place d m x s v = place-settings x s blended v (
          settings-blend d m frame.ground_contact is_new moved
          ∙ settings-move d m x frame is_new s) in
        let same : probed.settings ≡ s.settings =
          settings-probe d m x position blended
          ∙ settings-blend d m frame.ground_contact is_new moved
          ∙ settings-move d m x frame is_new s in
        let lateral = adjust_elevation-lateral x probed v position in
        rw
          (
            override_frame-unspun x s frame unspun,
            e,
            values_to_apply-none ordered frame,
            exchange-active x frame is_new v (adjust_elevation d m x probed v position) probed
                (ap (λ c. c.suspend_injection) same ∙ active),
          )
          (append-IsShown x s frame (move d m x frame is_new s).1 _ (
            append-IsShown x s frame (oxygen_writes d m probed) _ (
              inject-IsShown x s probed frame _ (lateral.0 ∙ ap (λ p. p.0) placed)
                (lateral.1 ∙ ap (λ p. p.2) placed))))

    pub IsShown-settings :
        (x : Answers D) (s t : Flight D) (frame : BoostFrame D) (ws : List (Write D))
        → t.settings ≡ s.settings
        → IsShown x t frame ws
        → IsShown x s frame ws
    IsShown-settings x s t frame ws h w =
        let same = place-settings x s t (received_values frame) h in
        record {
          heading = w.heading;
          bank = w.bank;
          pitch = w.pitch;
          east = subst (λ p. IsIn (set_datad local_x p.0) ws) same w.east;
          south = subst (λ p. IsIn (set_datad local_z p.2) ws) same w.south;
        }
