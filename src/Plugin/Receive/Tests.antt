-- ===== src/Plugin/Receive/Tests.antt =====
-- Frames that src/plugin.c receives, with concrete values.
use psx_xp_mover.Base.{ℕ, refl, true, false, Option, List, [], ◌∷◌, replicate}
use psx_xp_mover.Base.Int.{ℤ, pos}
use psx_xp_mover.Double.Fixed.{Fixed, num, fixed}
use psx_xp_mover.Interpolation.{Interpolator, create_interpolator}
use psx_xp_mover.Psx.Frame.{BoostFrame}
use psx_xp_mover.Plugin.Receive.{Channels, PsxData, PsxEvent, connected, received, handle_all}
use psx_xp_mover.Plugin.Receive.InStep.{AreAligned, IsInStep, IsFinite, handle_all-IsInStep}

-- A frame for one time, of which all values are the same.
abbrev frame_of : ℕ → Fixed → BoostFrame Fixed
frame_of time v = record {
  ground_contact = false;
  flight_deck_altitude_msl_feet_hundreds = pos 0;
  heading_true_degrees_hundreds = pos 0;
  pitch_degrees_hundreds = pos 0;
  bank_degrees_hundreds = pos 0;
  flight_deck_latitude = v;
  flight_deck_longitude = v;
  timestamp_millis_part = pos time;
  elevation_msl_meters = v;
  heading_true_degrees = v;
  pitch_degrees = v;
  bank_degrees = v;
}

abbrev new_interpolator : Option (Interpolator Fixed)
new_interpolator = create_interpolator fixed true

abbrev new_channels : Channels Fixed
new_channels = record {
  flight_deck_latitude = new_interpolator;
  flight_deck_longitude = new_interpolator;
  psx_elevation_msl_meters = new_interpolator;
  heading_true_degrees = new_interpolator;
  pitch_degrees = new_interpolator;
  bank_degrees = new_interpolator;
}

abbrev new_data : PsxData Fixed
new_data = record {
  connection_established = false;
  boost_frame = frame_of 0 (num (pos 0));
  boost_frame_applied = true;
  history = record { frames = replicate 154 (frame_of 0 (num (pos 0))); index = 0; num = 0 };
  channels = new_channels;
  differences = record { diffs = replicate 770 (pos 0); num = 0; next = 0 };
  average_psx_time_difference = num (pos 0);
  interpolation_time_source = 1;
  fractions = record { raw = replicate 5 (num (pos 0)); next = 0; num = 0 };
}

new_interpolator-AreAligned : AreAligned new_interpolator new_interpolator
unfolding create_interpolator
new_interpolator-AreAligned = record { same_start = refl; same_num = refl; same_times = refl }

new_channels-IsInStep : IsInStep new_channels
new_channels-IsInStep =
    let same = new_interpolator-AreAligned in
    record { longitude = same; elevation = same; heading = same; pitch = same; bank = same }

frame_of-IsFinite : (time : ℕ) (v : ℤ) → IsFinite fixed (frame_of time (num v))
frame_of-IsFinite time v = record {
  finite_latitude = refl;
  finite_longitude = refl;
  finite_elevation = refl;
  finite_heading = refl;
  finite_pitch = refl;
  finite_bank = refl;
}

abbrev events : List (PsxEvent Fixed)
events =
    connected true
    ∷ received true (num (pos 20000)) (frame_of 10 (num (pos 5)))
    ∷ received false (num (pos 30000)) (frame_of 20 (num (pos 6)))
    ∷ received true (num (pos 40000)) (frame_of 30 (num (pos 7)))
    ∷ []

handle_all-IsInStep_example : IsInStep (handle_all fixed events new_data).channels
handle_all-IsInStep_example =
    handle_all-IsInStep fixed events new_data
      (
        tt,
        (
          frame_of-IsFinite 10 (pos 5),
          (frame_of-IsFinite 20 (pos 6), (frame_of-IsFinite 30 (pos 7), tt)),
        ),
      )
      new_channels-IsInStep
