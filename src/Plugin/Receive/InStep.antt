-- ===== src/Plugin/Receive/InStep.antt =====
-- The six interpolators of src/plugin.c hold frames of the same times, so that what they return for
-- one time belongs to one pair of boost frames.
use psx_xp_mover.Base.{ℕ, ◌≡◌, sym, ◌∙◌, Bool, true, false, Option, none, some, List, [], ◌∷◌, All}
use psx_xp_mover.Double.{Double}
use psx_xp_mover.Interpolation.{Interpolator, interpolator_add_point, interpolator_reset}
use psx_xp_mover.Psx.Frame.{BoostFrame}
use psx_xp_mover.Plugin.Receive.{
  Channels, PsxData, PsxEvent, connected, disconnected, received, handle, handle_all, add_points,
  on_boost_frame_received, reset_psx_data,
}
use psx_xp_mover.Plugin.Receive.Aligned.{IsAligned, add_point-IsAligned, reset-IsAligned}

module _ {V : Type 0} where
  -- Two interpolators that both exist and are aligned, or that both do not exist.
  abbrev pub AreAligned : Option (Interpolator V) → Option (Interpolator V) → Type 0
  AreAligned (some i) (some j) = IsAligned i j
  AreAligned none none = Unit
  AreAligned none (some j) = ⊥
  AreAligned (some i) none = ⊥

  -- All six interpolators hold frames of the same times.
  pub record IsInStep (c : Channels V) : Type 0 where
    pub longitude : AreAligned c.flight_deck_latitude c.flight_deck_longitude
    pub elevation : AreAligned c.flight_deck_latitude c.psx_elevation_msl_meters
    pub heading : AreAligned c.flight_deck_latitude c.heading_true_degrees
    pub pitch : AreAligned c.flight_deck_latitude c.pitch_degrees
    pub bank : AreAligned c.flight_deck_latitude c.bank_degrees

module _ (d : Double) where
  open d use {D, is_finite}

  interpolator_add_point-AreAligned :
      (i j : Option (Interpolator D)) (t : ℕ) (v w : D)
      → is_finite v ≡ is_finite w
      → AreAligned i j
      → AreAligned (interpolator_add_point d i t v) (interpolator_add_point d j t w)
  unfolding interpolator_add_point
  interpolator_add_point-AreAligned none none t v w e a = a
  interpolator_add_point-AreAligned none (some j) t v w e a = a
  interpolator_add_point-AreAligned (some i) none t v w e a = a
  interpolator_add_point-AreAligned (some i) (some j) t v w e a =
      add_point-IsAligned d i j t v w e a

  interpolator_reset-AreAligned :
      (i j : Option (Interpolator D))
      → AreAligned i j
      → AreAligned (interpolator_reset d i) (interpolator_reset d j)
  unfolding interpolator_reset
  interpolator_reset-AreAligned none none a = a
  interpolator_reset-AreAligned none (some j) a = a
  interpolator_reset-AreAligned (some i) none a = a
  interpolator_reset-AreAligned (some i) (some j) a = reset-IsAligned d a

  -- The six values are finite.
  pub record IsFinite (frame : BoostFrame D) : Type 0 where
    pub finite_latitude : is_finite frame.flight_deck_latitude ≡ true
    pub finite_longitude : is_finite frame.flight_deck_longitude ≡ true
    pub finite_elevation : is_finite frame.elevation_msl_meters ≡ true
    pub finite_heading : is_finite frame.heading_true_degrees ≡ true
    pub finite_pitch : is_finite frame.pitch_degrees ≡ true
    pub finite_bank : is_finite frame.bank_degrees ≡ true

  add_points-IsInStep :
      (frame : BoostFrame D) (c : Channels D)
      → IsFinite frame
      → IsInStep c
      → IsInStep (add_points d frame c)
  unfolding add_points
  add_points-IsInStep frame c f w =
      let first = f.finite_latitude in
      record {
        longitude =
            interpolator_add_point-AreAligned c.flight_deck_latitude c.flight_deck_longitude _ _ _
              (first ∙ sym f.finite_longitude) w.longitude;
        elevation =
            interpolator_add_point-AreAligned c.flight_deck_latitude c.psx_elevation_msl_meters _ _
              _ (first ∙ sym f.finite_elevation) w.elevation;
        heading =
            interpolator_add_point-AreAligned c.flight_deck_latitude c.heading_true_degrees _ _ _
              (first ∙ sym f.finite_heading) w.heading;
        pitch =
            interpolator_add_point-AreAligned c.flight_deck_latitude c.pitch_degrees _ _ _
              (first ∙ sym f.finite_pitch) w.pitch;
        bank =
            interpolator_add_point-AreAligned c.flight_deck_latitude c.bank_degrees _ _ _
              (first ∙ sym f.finite_bank) w.bank;
      }

  on_boost_frame_received-IsInStep :
      (locks : Bool) (clock : D) (frame : BoostFrame D) (s : PsxData D)
      → IsFinite frame
      → IsInStep s.channels
      → IsInStep (on_boost_frame_received d locks clock frame s).channels
  unfolding on_boost_frame_received
  on_boost_frame_received-IsInStep false clock frame s f w = w
  on_boost_frame_received-IsInStep true clock frame s f w = add_points-IsInStep frame s.channels f w

  reset_psx_data-IsInStep :
      (locks : Bool) (s : PsxData D)
      → IsInStep s.channels
      → IsInStep (reset_psx_data d locks s).channels
  unfolding reset_psx_data
  reset_psx_data-IsInStep false s w = w
  reset_psx_data-IsInStep true s w =
      let c = s.channels in
      record {
        longitude = interpolator_reset-AreAligned c.flight_deck_latitude _ w.longitude;
        elevation = interpolator_reset-AreAligned c.flight_deck_latitude _ w.elevation;
        heading = interpolator_reset-AreAligned c.flight_deck_latitude _ w.heading;
        pitch = interpolator_reset-AreAligned c.flight_deck_latitude _ w.pitch;
        bank = interpolator_reset-AreAligned c.flight_deck_latitude _ w.bank;
      }

  abbrev pub FramesAreFinite : PsxEvent D → Type 0
  FramesAreFinite (received locks clock frame) = IsFinite frame
  FramesAreFinite (connected locks) = Unit
  FramesAreFinite (disconnected locks) = Unit

  handle-IsInStep :
      (e : PsxEvent D) (s : PsxData D)
      → FramesAreFinite e
      → IsInStep s.channels
      → IsInStep (handle d e s).channels
  unfolding handle
  handle-IsInStep (received locks clock frame) s f w =
      on_boost_frame_received-IsInStep locks clock frame s f w
  handle-IsInStep (connected locks) s f w = reset_psx_data-IsInStep locks _ w
  handle-IsInStep (disconnected locks) s f w = reset_psx_data-IsInStep locks _ w

  -- Where the six interpolators hold frames of the same times, they do so after any sequence of
  -- connections, disconnections and received frames of which the six values are finite, whatever the
  -- clock and wherever the mutex cannot be locked.
  pub handle_all-IsInStep :
      (es : List (PsxEvent D)) (s : PsxData D)
      → All FramesAreFinite es
      → IsInStep s.channels
      → IsInStep (handle_all d es s).channels
  unfolding handle_all
  handle_all-IsInStep [] s f w = w
  handle_all-IsInStep (e ∷ es) s f w = handle_all-IsInStep es _ f.1 (handle-IsInStep e s f.0 w)
