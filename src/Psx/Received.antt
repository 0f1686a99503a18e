-- ===== src/Psx/Received.antt =====
-- What src/psx.c makes of a line: `psx_recalculate_boost_frame` and `on_line_received`.
pub mod Feed
use psx_xp_mover.Base.{ℕ, Bool, true, false, Option, none, some, ◌>>=◌}
use psx_xp_mover.Base.Int.{ℤ, pos}
use psx_xp_mover.Double.{Double, Math}
use psx_xp_mover.Utils.{Bytes}
use psx_xp_mover.Utils.Conversions.{decimal, deg2rad, feet2meters}
use psx_xp_mover.Psx.Frame.{BoostFrame}
use psx_xp_mover.Psx.Parse.{psx_parse_boost_frame}

module _ (d : Double) (m : Math d) where
  open d use {D, of_int, add, sub, mul, div}
  open m use {neg, sin, to_float}

  -- `(float) hundreds / 100.0f`, which is the quotient of the floats, rounded to a float
  abbrev pub float_hundredth : D → D
  float_hundredth hundreds = to_float (div hundreds (of_int (pos 100)))

  -- the elevation of the airframe's center, in feet
  abbrev pub airframe_center_altitude_feet : ℤ → D → D
  airframe_center_altitude_feet altitude_hundreds pitch_degrees =
      let flight_deck_altitude_msl_feet = div (of_int altitude_hundreds) (of_int (pos 100)) in
      sub flight_deck_altitude_msl_feet (
        add (decimal d 28412073 1000000) (mul (decimal d 925 10) (sin (deg2rad d m pitch_degrees))))

  -- It returns true in all cases.
  unfoldable pub psx_recalculate_boost_frame : BoostFrame D → BoostFrame D
  unfolding feet2meters deg2rad
  psx_recalculate_boost_frame frame =
      let pitch_degrees = float_hundredth (to_float (of_int frame.pitch_degrees_hundreds)) in
      record frame {
        bank_degrees = float_hundredth (neg (to_float (of_int frame.bank_degrees_hundreds)));
        pitch_degrees = pitch_degrees;
        heading_true_degrees =
            float_hundredth (to_float (of_int frame.heading_true_degrees_hundreds));
        elevation_msl_meters = feet2meters d (
            airframe_center_altitude_feet frame.flight_deck_altitude_msl_feet_hundreds
              pitch_degrees);
      }

  -- `psx_boost_frame_t boost_frame = {0}`
  abbrev pub zero_frame : BoostFrame D
  zero_frame = record {
    ground_contact = false;
    flight_deck_altitude_msl_feet_hundreds = pos 0;
    heading_true_degrees_hundreds = pos 0;
    pitch_degrees_hundreds = pos 0;
    bank_degrees_hundreds = pos 0;
    flight_deck_latitude = of_int (pos 0);
    flight_deck_longitude = of_int (pos 0);
    timestamp_millis_part = pos 0;
    elevation_msl_meters = of_int (pos 0);
    heading_true_degrees = of_int (pos 0);
    pitch_degrees = of_int (pos 0);
    bank_degrees = of_int (pos 0);
  }

  -- The frame that the callback is called with, if the line is understood.
  unfoldable pub on_line_received : (Bytes → D) → (ℕ → Bool) → Bytes → Option (BoostFrame D)
  unfolding psx_parse_boost_frame psx_recalculate_boost_frame
  on_line_received atof grants line = do
    frame ← psx_parse_boost_frame atof grants zero_frame line
    some (psx_recalculate_boost_frame frame)
