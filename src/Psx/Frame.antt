-- ===== src/Psx/Frame.antt =====
-- `psx_boost_frame_t` of src/psx.h. The `double` and `float` fields are numbers of type `V`.
use psx_xp_mover.Base.{Bool}
use psx_xp_mover.Base.Int.{ℤ}

pub record BoostFrame (V : Type 0) : Type 0 where
  -- received over the network
  pub ground_contact : Bool
  pub flight_deck_altitude_msl_feet_hundreds : ℤ
  pub heading_true_degrees_hundreds : ℤ
  pub pitch_degrees_hundreds : ℤ
  pub bank_degrees_hundreds : ℤ
  pub flight_deck_latitude : V
  pub flight_deck_longitude : V
  pub timestamp_millis_part : ℤ
  -- calculated locally
  pub elevation_msl_meters : V
  pub heading_true_degrees : V
  pub pitch_degrees : V
  pub bank_degrees : V
