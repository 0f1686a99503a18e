-- ===== src/Plugin/History/Tests.antt =====
-- A history of two boost frames, of src/plugin.c.
use psx_xp_mover.Base.{ℕ, ◌≡◌, refl, arith, true, some, ◌∷◌, replicate}
use psx_xp_mover.Base.Int.{pos}
use psx_xp_mover.Psx.Frame.{BoostFrame}
use psx_xp_mover.Plugin.History.{History, find_previous_boost_frame_by_age}
use psx_xp_mover.Plugin.History.Refine.{IsValid, find_refines}

abbrev frame_at : ℕ → BoostFrame ℕ
frame_at millis = record {
  ground_contact = true;
  flight_deck_altitude_msl_feet_hundreds = pos 500;
  heading_true_degrees_hundreds = pos 9000;
  pitch_degrees_hundreds = pos 0;
  bank_degrees_hundreds = pos 0;
  flight_deck_latitude = 50;
  flight_deck_longitude = 8;
  timestamp_millis_part = pos millis;
  elevation_msl_meters = 2;
  heading_true_degrees = 90;
  pitch_degrees = 0;
  bank_degrees = 0;
}

abbrev two_frames : History ℕ
two_frames = record {
  index = 1;
  num = 2;
  frames = frame_at 700 ∷ frame_at 200 ∷ replicate 152 (frame_at 0);
}

two_frames-IsValid : IsValid two_frames
two_frames-IsValid = record {
  storage = refl;
  index_in = omega arith;
  num_in = omega arith;
  times_in = ground arith;
}

find_refines_example :
    find_previous_boost_frame_by_age (frame_at 0) two_frames (pos 300) (pos 90) (pos 800)
    ≡ some (frame_at 700, pos 600)
find_refines_example =
    find_refines (frame_at 0) two_frames 300 90 800 two_frames-IsValid (refl, omega arith)
      (omega arith)
