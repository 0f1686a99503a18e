-- ===== src/Plugin/FlightLoop/Frame.antt =====
-- The part of `flight_loop_callback` that is protected by the mutex, the spinning that is there for
-- debugging, and the values that the aircraft is placed by.
use psx_xp_mover.Base.{ℕ, Bool, true, not, ◌&&◌, ◌||◌, Option, some, ◌>>=◌, if◌then◌else◌}
use psx_xp_mover.Base.Int.{ℤ, pos, int32}
use psx_xp_mover.Double.{Double, Math}
use psx_xp_mover.Interpolation.{interpolator_calculate}
use psx_xp_mover.Psx.Frame.{BoostFrame}
use psx_xp_mover.Psx.Received.{psx_recalculate_boost_frame}
use psx_xp_mover.Plugin.Blending.{eq}
use psx_xp_mover.Plugin.QueryTime.{interpolation_timestamp}
use psx_xp_mover.Plugin.Receive.{Channels}
use psx_xp_mover.Plugin.TimeSource.{get_millis}
use psx_xp_mover.Plugin.FlightLoop.{Flight, Answers}
use psx_xp_mover.Plugin.FlightLoop.Setup.{rtc_millis, sim_run_millis}

-- the six values that are interpolated
pub record Values (V : Type 0) : Type 0 where
  pub latitude : V
  pub longitude : V
  pub elevation_msl_meters : V
  pub heading_true_degrees : V
  pub pitch_degrees : V
  pub bank_degrees : V

-- the local variables behind the unlocking, and the state
pub record Taken (V : Type 0) : Type 0 where
  pub frame : BoostFrame V
  pub is_new_boost_frame : Bool
  pub is_new : Bool
  pub interpolated : Values V
  pub state : Flight V

module _ (d : Double) where
  open d use {D, of_int, nan, is_nan, mul, div, round, trunc}

  abbrev pub has_debug_override : Flight D → Bool
  has_debug_override s = not (eq d s.settings.debug_spin_hdg (of_int (pos 0)))

  abbrev pub no_values : Values D
  no_values = record {
    latitude = nan;
    longitude = nan;
    elevation_msl_meters = nan;
    heading_true_degrees = nan;
    pitch_degrees = nan;
    bank_degrees = nan;
  }

  unfoldable pub calculate_values : Channels D → D → Values D
  unfolding interpolator_calculate
  calculate_values c t = record {
    latitude = interpolator_calculate d c.flight_deck_latitude t;
    longitude = interpolator_calculate d c.flight_deck_longitude t;
    elevation_msl_meters = interpolator_calculate d c.psx_elevation_msl_meters t;
    heading_true_degrees = interpolator_calculate d c.heading_true_degrees t;
    pitch_degrees = interpolator_calculate d c.pitch_degrees t;
    bank_degrees = interpolator_calculate d c.bank_degrees t;
  }

  -- The frame, which counts as applied from now on.
  abbrev pub take_frame : Flight D → Taken D
  take_frame s = record {
    frame = s.psx.boost_frame;
    is_new_boost_frame = not s.psx.boost_frame_applied;
    is_new = not s.psx.boost_frame_applied || has_debug_override s;
    interpolated = no_values;
    state = record s { psx = record s.psx { boost_frame_applied = true } };
  }

  -- The values of the interpolators; `none` where the loops of the time to query do not end with the
  -- fuel.
  unfoldable pub interpolate_frame : ℕ → Answers D → Taken D → Option (Taken D)
  unfolding calculate_values
  interpolate_frame fuel x taken =
      let s = taken.state in
      let (now, source) =
        get_millis d (rtc_millis d x) (sim_run_millis d x s) s.psx.interpolation_time_source in
      let sourced = record taken {
        state = record s { psx = record s.psx { interpolation_time_source = source } };
      } in
      let queried = (do
        t ←
            interpolation_timestamp d fuel now s.settings.interpolation_buffer_millis
              s.settings.interpolation_compensate_time_difference s.psx.average_psx_time_difference
        some
            (record sourced { is_new = true; interpolated = calculate_values s.psx.channels t })) in
      if s.settings.interpolate && not (has_debug_override s)
      then (if is_nan now then some sourced else queried)
      else some taken

  -- what is placed: the interpolated value, or the received one where there is none
  abbrev pub value_or : D → D → D
  value_or interpolated received = if is_nan interpolated then received else interpolated

  abbrev pub values_to_apply : BoostFrame D → Values D → Values D
  values_to_apply frame v = record {
    latitude = value_or v.latitude frame.flight_deck_latitude;
    longitude = value_or v.longitude frame.flight_deck_longitude;
    elevation_msl_meters = value_or v.elevation_msl_meters frame.elevation_msl_meters;
    heading_true_degrees = value_or v.heading_true_degrees frame.heading_true_degrees;
    pitch_degrees = value_or v.pitch_degrees frame.pitch_degrees;
    bank_degrees = value_or v.bank_degrees frame.bank_degrees;
  }

  module _ (m : Math d) where
    open m use {fmod}

    -- the heading of an aircraft that is spun, in hundredths of a degree
    abbrev pub spin_heading : D → D → ℤ
    spin_heading runtime_seconds spin = int32 (
        trunc (
          round (
            mul (mul (div (fmod runtime_seconds spin) spin) (of_int (pos 360)))
              (of_int (pos 100)))))

    unfoldable pub override_frame : Answers D → Flight D → BoostFrame D → BoostFrame D
    unfolding psx_recalculate_boost_frame
    override_frame x s frame =
        if has_debug_override s
        then psx_recalculate_boost_frame d m (record frame {
          heading_true_degrees_hundreds = spin_heading x.runtime_seconds s.settings.debug_spin_hdg;
        })
        else frame
