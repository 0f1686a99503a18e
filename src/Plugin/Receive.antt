-- ===== src/Plugin/Receive.antt =====
-- What src/plugin.c keeps of the frames that it receives: `on_boost_frame_received`, and
-- `reset_psx_data` when a connection begins or ends.
pub mod Aligned
pub mod InStep
pub mod Sound
mod Tests
use psx_xp_mover.Base.{ℕ, Bool, true, false, not, Option, List, [], ◌∷◌, ◌==◌, if◌then◌else◌}
use psx_xp_mover.Base.Int.{ℤ, pos, u32_of_int}
use psx_xp_mover.Double.{Double}
use psx_xp_mover.Interpolation.{Interpolator, interpolator_reset, interpolator_add_point}
use psx_xp_mover.Psx.Frame.{BoostFrame}
use psx_xp_mover.Plugin.History.{History, clear_previous_boost_frames}
use psx_xp_mover.Plugin.Blending.{Fractions, clear_raw_elevation_blending_fractions}
use psx_xp_mover.Plugin.TimeDifference.{Differences, receive_difference}

-- `INTERPOLATION_TIME_SOURCE_RTC`
abbrev pub interpolation_time_source_rtc : ℕ
interpolation_time_source_rtc = 1

-- the six interpolators
pub record Channels (V : Type 0) : Type 0 where
  pub flight_deck_latitude : Option (Interpolator V)
  pub flight_deck_longitude : Option (Interpolator V)
  pub psx_elevation_msl_meters : Option (Interpolator V)
  pub heading_true_degrees : Option (Interpolator V)
  pub pitch_degrees : Option (Interpolator V)
  pub bank_degrees : Option (Interpolator V)

-- the static variables that frames are received into
pub record PsxData (V : Type 0) : Type 0 where
  pub connection_established : Bool
  pub boost_frame : BoostFrame V
  pub boost_frame_applied : Bool
  pub history : History V
  pub channels : Channels V
  pub differences : Differences
  pub average_psx_time_difference : V
  pub interpolation_time_source : ℕ
  pub fractions : Fractions V

-- What the receiver of src/psx.c calls back, with whether the mutex can be locked then.
pub data PsxEvent (V : Type 0) : Type 0 where
  connected : Bool → PsxEvent V
  disconnected : Bool → PsxEvent V
  received : Bool → V → BoostFrame V → PsxEvent V

module _ (d : Double) where
  open d use {D, of_int, nan, is_nan}

  -- The timestamp, an `int`, is passed on as `unsigned int`.
  unfoldable pub add_points : BoostFrame D → Channels D → Channels D
  unfolding interpolator_add_point
  add_points frame c =
      let timestamp = u32_of_int frame.timestamp_millis_part in
      record {
        flight_deck_latitude =
            interpolator_add_point d c.flight_deck_latitude timestamp frame.flight_deck_latitude;
        flight_deck_longitude =
            interpolator_add_point d c.flight_deck_longitude timestamp frame.flight_deck_longitude;
        psx_elevation_msl_meters =
            interpolator_add_point d c.psx_elevation_msl_meters timestamp
              frame.elevation_msl_meters;
        heading_true_degrees =
            interpolator_add_point d c.heading_true_degrees timestamp frame.heading_true_degrees;
        pitch_degrees = interpolator_add_point d c.pitch_degrees timestamp frame.pitch_degrees;
        bank_degrees = interpolator_add_point d c.bank_degrees timestamp frame.bank_degrees;
      }

  -- The clock is what `get_millis_rtc` returns; the flag says whether the mutex can be locked.
  unfoldable pub on_boost_frame_received : Bool → D → BoostFrame D → PsxData D → PsxData D
  on_boost_frame_received locks clock frame s =
      let by_rtc = s.interpolation_time_source == interpolation_time_source_rtc in
      let measured = receive_difference d clock frame.timestamp_millis_part s.differences in
      let average = if is_nan measured.0 then of_int (pos 0) else measured.0 in
      let timed = record s { differences = if by_rtc then measured.1 else s.differences } in
      if not locks then timed else record timed {
        boost_frame = frame;
        boost_frame_applied = false;
        average_psx_time_difference = if by_rtc then average else s.average_psx_time_difference;
        channels = add_points frame s.channels;
      }

  unfoldable pub reset_psx_data : Bool → PsxData D → PsxData D
  unfolding interpolator_reset
  reset_psx_data locks s =
      let c = s.channels in
      if not locks then s else record s {
        history = clear_previous_boost_frames s.history;
        fractions = clear_raw_elevation_blending_fractions d s.fractions;
        channels = record {
          flight_deck_latitude = interpolator_reset d c.flight_deck_latitude;
          flight_deck_longitude = interpolator_reset d c.flight_deck_longitude;
          psx_elevation_msl_meters = interpolator_reset d c.psx_elevation_msl_meters;
          heading_true_degrees = interpolator_reset d c.heading_true_degrees;
          pitch_degrees = interpolator_reset d c.pitch_degrees;
          bank_degrees = interpolator_reset d c.bank_degrees;
        };
      }

  abbrev pub on_psx_connected : Bool → PsxData D → PsxData D
  on_psx_connected locks s = reset_psx_data locks (record s { connection_established = true })

  abbrev pub on_psx_disconnected : Bool → PsxData D → PsxData D
  on_psx_disconnected locks s = reset_psx_data locks (record s { connection_established = false })

  unfoldable pub handle : PsxEvent D → PsxData D → PsxData D
  handle (connected locks) s = on_psx_connected locks s
  handle (disconnected locks) s = on_psx_disconnected locks s
  handle (received locks clock frame) s = on_boost_frame_received locks clock frame s

  unfoldable pub handle_all : List (PsxEvent D) → PsxData D → PsxData D
  handle_all [] s = s
  handle_all (e ∷ es) s = handle_all es (handle e s)
