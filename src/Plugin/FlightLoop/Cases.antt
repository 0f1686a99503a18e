-- ===== src/Plugin/FlightLoop/Cases.antt =====
-- States and answers for concrete cycles of the flight loop.
use psx_xp_mover.Base.{ℕ, ◌*◌, Bool, true, false, Option, none, some, replicate}
use psx_xp_mover.Base.Int.{pos, negsuc}
use psx_xp_mover.Double.Fixed.{Fixed, num, fixed}
use psx_xp_mover.Interpolation.{Interpolator, create_interpolator}
use psx_xp_mover.Psx.Frame.{BoostFrame}
use psx_xp_mover.Plugin.Receive.{PsxData}
use psx_xp_mover.Plugin.FlightLoop.{DataRef, Settings, Flight, Answers}

abbrev pub whole : ℕ → Fixed
whole n = num (pos (n * 1000))

abbrev pub frame_at : ℕ → BoostFrame Fixed
frame_at time = record {
  ground_contact = true;
  flight_deck_altitude_msl_feet_hundreds = pos 0;
  heading_true_degrees_hundreds = pos 0;
  pitch_degrees_hundreds = pos 0;
  bank_degrees_hundreds = pos 0;
  flight_deck_latitude = whole 1;
  flight_deck_longitude = whole 2;
  timestamp_millis_part = pos time;
  elevation_msl_meters = whole 3;
  heading_true_degrees = whole 0;
  pitch_degrees = whole 0;
  bank_degrees = whole 0;
}

abbrev pub interpolator : Option (Interpolator Fixed)
interpolator = create_interpolator fixed true

abbrev pub data_of : Bool → PsxData Fixed
data_of applied = record {
  connection_established = true;
  boost_frame = frame_at 0;
  boost_frame_applied = applied;
  history = record { frames = replicate 154 (frame_at 0); index = 0; num = 0 };
  channels = record {
    flight_deck_latitude = interpolator;
    flight_deck_longitude = interpolator;
    psx_elevation_msl_meters = interpolator;
    heading_true_degrees = interpolator;
    pitch_degrees = interpolator;
    bank_degrees = interpolator;
  };
  differences = record { diffs = replicate 770 (pos 0); num = 0; next = 0 };
  average_psx_time_difference = whole 0;
  interpolation_time_source = 1;
  fractions = record { raw = replicate 5 (whole 0); next = 0; num = 0 };
}

abbrev pub settings_of : Bool → Bool → Settings Fixed
settings_of suspend_injection interpolate = record {
  model_height_offset_meters = whole 0;
  model_length_offset_meters = whole 0;
  debug_spin_hdg = whole 0;
  always_update_elevation_info = false;
  suspend_terrain_blending = false;
  firm_ground_speed = whole 60;
  lift_ground_speed = whole 160;
  low_speed_fraction_factor = whole 1;
  publish_ground_speed = true;
  publish_motion_vector = true;
  suspend_injection = suspend_injection;
  interpolate = interpolate;
  interpolation_buffer_millis = whole 50;
  interpolation_compensate_time_difference = true;
}

abbrev pub flight_of : Bool → Bool → Settings Fixed → Flight Fixed
flight_of initialized applied settings = record {
  psx = data_of applied;
  settings = settings;
  found = λ _. false;
  datarefs_initialized = initialized;
  has_dataref_cabin_altitude = false;
  cycles_to_override_plane_path = pos 10;
  cycles_to_update_sim_time_diff = pos 500;
  terrain = record { elevation_meters = none; remaining_cycles = negsuc 0 };
  calculated_ground_speed = whole 0;
  low_speed_fraction = whole 0;
  ground_contact_cycles = pos 0;
  ground_contact_fraction = whole 0;
  elevation_blending_fraction = whole 0;
  psx_latitude = whole 0;
  psx_longitude = whole 0;
  psx_elevation = whole 0;
}

-- It is half a second past.
abbrev pub answers_with : (DataRef → Bool) → Answers Fixed
answers_with finds = record {
  finds = finds;
  locks = true;
  nanos = some (pos 500000000);
  total_running_time_sec = whole 12;
  runtime_seconds = whole 0;
  world_to_local = λ a b c. (a, c, b);
  local_to_world = λ a b c. (a, c, b);
  probe_terrain = λ _ _ _. none;
  position = (whole 0, whole 0, whole 0);
}

abbrev pub answers : Answers Fixed
answers = answers_with (λ _. true)

abbrev pub suspended : Flight Fixed
suspended = flight_of false false (settings_of true true)

abbrev pub waiting : Flight Fixed
waiting = flight_of true false (settings_of false true)
