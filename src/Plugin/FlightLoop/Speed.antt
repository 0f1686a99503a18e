-- ===== src/Plugin/FlightLoop/Speed.antt =====
-- The ground speed of `flight_loop_callback`, from a frame of about a second ago, and what of it is
-- written to X-Plane.
use psx_xp_mover.Base.{
  ℕ, suc, get_or, ◌*◌, not, ◌&&◌, Option, none, some, List, [], ◌∷◌, if◌then◌else◌,
}
use psx_xp_mover.Base.Int.{ℤ, pos}
use psx_xp_mover.Double.{Double, Math}
use psx_xp_mover.Utils.Conversions.{
  meters_per_nautical_mile, great_circle_distance_meters, meters2nauticalmiles,
  nauticalmiles2meters,
}
use psx_xp_mover.Psx.Frame.{BoostFrame}
use psx_xp_mover.Plugin.History.{History, find_previous_boost_frame_by_age}
use psx_xp_mover.Plugin.FlightLoop.{
  local_vx, local_vy, local_vz, ground_speed, ground_speed2, Write, set_dataf, set_datad, Settings,
  Answers,
}

-- `MAX_ACCELERATED_GROUND_SPEED`
abbrev pub max_accelerated_ground_speed : ℕ
max_accelerated_ground_speed = 64 * 700

-- `MILLISECONDS_PER_SECOND`
abbrev pub milliseconds_per_second : ℕ
milliseconds_per_second = 1000

-- `MILLISECONDS_PER_HOUR`
abbrev pub milliseconds_per_hour : ℕ
milliseconds_per_hour = 3600 * milliseconds_per_second

-- `MAX_PUBLISHED_GROUND_SPEED`
abbrev pub max_published_ground_speed : ℕ
max_published_ground_speed = 750

module _ (d : Double) where
  open d use {D, of_int, lt, le, add, sub, mul, div}

  -- `MAX_PUBLISHED_GROUND_SPEED_METERS_PER_SECOND`
  abbrev pub max_published_ground_speed_meters_per_second : D
  max_published_ground_speed_meters_per_second =
      div (mul (of_int (pos max_published_ground_speed)) (of_int (pos meters_per_nautical_mile)))
        (of_int (pos 3600))

  -- the frame that the speed refers to, with its age
  abbrev pub reference_frame : BoostFrame D → History D → ℤ → Option (BoostFrame D × ℤ)
  reference_frame empty history timestamp =
      find_previous_boost_frame_by_age empty history timestamp (pos 800) (pos 1500)

  -- The index of that frame, to which the pointer points. The search looks at the timestamps alone, so
  -- that it finds the index where the frames carry their indices in place of their values.
  abbrev pub numbered_frame : ℕ → BoostFrame D → BoostFrame ℕ
  numbered_frame i f = record {
    ground_contact = f.ground_contact;
    flight_deck_altitude_msl_feet_hundreds = f.flight_deck_altitude_msl_feet_hundreds;
    heading_true_degrees_hundreds = f.heading_true_degrees_hundreds;
    pitch_degrees_hundreds = f.pitch_degrees_hundreds;
    bank_degrees_hundreds = f.bank_degrees_hundreds;
    flight_deck_latitude = i;
    flight_deck_longitude = i;
    timestamp_millis_part = f.timestamp_millis_part;
    elevation_msl_meters = i;
    heading_true_degrees = i;
    pitch_degrees = i;
    bank_degrees = i;
  }

  abbrev pub numbered : ℕ → List (BoostFrame D) → List (BoostFrame ℕ)
  numbered i [] = []
  numbered i (f ∷ fs) = numbered_frame i f ∷ numbered (suc i) fs

  abbrev pub index_of : Option (BoostFrame ℕ × ℤ) → Option ℕ
  index_of none = none
  index_of (some (frame, age)) = some frame.flight_deck_latitude

  unfoldable pub reference_index : BoostFrame D → History D → ℤ → Option ℕ
  unfolding find_previous_boost_frame_by_age
  reference_index empty history timestamp = index_of (
      find_previous_boost_frame_by_age (numbered_frame 0 empty)
        (record { index = history.index; num = history.num; frames = numbered 0 history.frames })
        timestamp (pos 800) (pos 1500))

  -- what the pointer refers to in another state of the array, with the age that was stored
  abbrev pub dereferenced :
      Option ℕ → History D → Option (BoostFrame D × ℤ) → Option (BoostFrame D × ℤ)
  dereferenced (some i) history (some (frame, age)) = some (get_or history.frames i frame, age)
  dereferenced _ history reference = reference

  unfoldable pub limit_ground_speed : D → D
  limit_ground_speed speed =
      if lt speed (of_int (pos 0))
      then of_int (pos 0)
      else if lt (of_int (pos max_accelerated_ground_speed)) speed
      then of_int (pos max_accelerated_ground_speed)
      else speed

  unfoldable pub published_ground_speed : D → D
  unfolding nauticalmiles2meters
  published_ground_speed speed =
      let meters = nauticalmiles2meters d speed in
      if lt max_published_ground_speed_meters_per_second meters
      then max_published_ground_speed_meters_per_second
      else meters

  unfoldable pub ground_speed_writes : Settings D → D → List (Write D)
  unfolding published_ground_speed
  ground_speed_writes settings speed =
      let meters = published_ground_speed speed in
      if settings.publish_ground_speed && not settings.suspend_injection
      then set_datad ground_speed meters ∷ set_datad ground_speed2 meters ∷ []
      else []

  module _ (m : Math d) where
    open m use {sqrt, to_float}

    -- The speed by the reference frame, or as it was without one.
    unfoldable pub calculate_ground_speed : Option (BoostFrame D × ℤ) → BoostFrame D → D → D
    unfolding great_circle_distance_meters meters2nauticalmiles
    calculate_ground_speed none frame speed = speed
    calculate_ground_speed (some (reference, age)) frame speed =
        let diff_distance_meters =
          great_circle_distance_meters d m reference.flight_deck_latitude
            reference.flight_deck_longitude frame.flight_deck_latitude
            frame.flight_deck_longitude in
        meters2nauticalmiles d
          (div (mul diff_distance_meters (of_int (pos milliseconds_per_hour))) (of_int age))

    -- `XPLMWorldToLocal` at a frame
    abbrev pub local_of : Answers D → BoostFrame D → D × D × D
    local_of x frame =
        x.world_to_local frame.flight_deck_latitude frame.flight_deck_longitude
          frame.elevation_msl_meters

    -- The movement over the age of the reference, scaled down where it is excessive.
    unfoldable pub motion_vector : Answers D → BoostFrame D → ℤ → BoostFrame D → D → D × D × D
    motion_vector x reference age frame speed =
        let (current_x, current_y, current_z) = local_of x frame in
        let (reference_x, reference_y, reference_z) = local_of x reference in
        let reference_age_seconds = div (of_int age) (of_int (pos milliseconds_per_second)) in
        let inverse = div (of_int (pos 1)) reference_age_seconds in
        let vector_x = mul (sub current_x reference_x) inverse in
        let vector_y = mul (sub current_y reference_y) inverse in
        let vector_z = mul (sub current_z reference_z) inverse in
        let length = sqrt (add (mul vector_x vector_x) (mul vector_z vector_z)) in
        let scale = div max_published_ground_speed_meters_per_second length in
        if le (of_int (pos max_published_ground_speed)) speed
        then (mul vector_x scale, mul vector_y scale, mul vector_z scale)
        else (vector_x, vector_y, vector_z)

    abbrev pub vector_writes : D × D × D → List (Write D)
    vector_writes (vector_x, vector_y, vector_z) =
        set_dataf local_vx (to_float vector_x)
        ∷ set_dataf local_vy (to_float vector_y)
        ∷ set_dataf local_vz (to_float vector_z)
        ∷ []

    unfoldable pub motion_writes :
        Answers D → Settings D → Option (BoostFrame D × ℤ) → BoostFrame D → D → List (Write D)
    unfolding motion_vector
    motion_writes x settings none frame speed = []
    motion_writes x settings (some (reference, age)) frame speed =
        if settings.publish_motion_vector && not settings.suspend_injection
        then vector_writes (motion_vector x reference age frame speed)
        else []
