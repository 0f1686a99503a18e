-- ===== src/Utils/Conversions.antt =====
-- The conversions of units and the distance between two places of src/utils.c.
use psx_xp_mover.Base.{ℕ}
use psx_xp_mover.Base.Int.{pos}
use psx_xp_mover.Double.{Double, Math}

-- `METERS_PER_NAUTICAL_MILE`
abbrev pub meters_per_nautical_mile : ℕ
meters_per_nautical_mile = 1852

-- `MEAN_RADIUS_EARTH`
abbrev pub mean_radius_earth : ℕ
mean_radius_earth = 6371009

module _ (d : Double) where
  open d use {D, of_int, add, sub, mul, div}

  -- A decimal literal is the double nearest to it, which is also the quotient of the two integers.
  abbrev pub decimal : ℕ → ℕ → D
  decimal numerator denominator = div (of_int (pos numerator)) (of_int (pos denominator))

  unfoldable pub nauticalmiles2meters : D → D
  nauticalmiles2meters nautical_miles = mul nautical_miles (of_int (pos meters_per_nautical_mile))

  unfoldable pub meters2nauticalmiles : D → D
  meters2nauticalmiles meters = mul meters (decimal 1 meters_per_nautical_mile)

  -- `METERS_PER_FOOT`
  abbrev pub meters_per_foot : D
  meters_per_foot = decimal 3048 10000

  unfoldable pub feet2meters : D → D
  feet2meters feet = mul feet meters_per_foot

  unfoldable pub meters2feet : D → D
  meters2feet meters = mul meters (div (of_int (pos 1)) meters_per_foot)

  module _ (m : Math d) where
    open m use {pi, fabs, sqrt, sin, cos, asin}

    unfoldable pub deg2rad : D → D
    deg2rad degrees = mul degrees (div pi (of_int (pos 180)))

    unfoldable pub rad2deg : D → D
    rad2deg radians = mul radians (div (of_int (pos 180)) pi)

    -- the square of the sine of half an angle
    abbrev pub haversine : D → D
    haversine delta =
        let single_sine_half = sin (div delta (of_int (pos 2))) in
        mul single_sine_half single_sine_half

    unfoldable pub great_circle_distance_meters_haversine : D → D → D → D → D
    unfolding deg2rad
    great_circle_distance_meters_haversine latitude1 longitude1 latitude2 longitude2 =
        let latitude1_radians = deg2rad latitude1 in
        let longitude1_radians = deg2rad longitude1 in
        let latitude2_radians = deg2rad latitude2 in
        let longitude2_radians = deg2rad longitude2 in
        let haversine_delta_latitude = haversine (fabs (sub latitude1_radians latitude2_radians)) in
        let haversine_delta_longitude =
          haversine (fabs (sub longitude1_radians longitude2_radians)) in
        let central_angle = mul (of_int (pos 2)) (
          asin (
            sqrt (
              add haversine_delta_latitude (
                mul (mul (cos latitude1_radians) (cos latitude2_radians))
                  haversine_delta_longitude)))) in
        mul (of_int (pos mean_radius_earth)) central_angle

    unfoldable pub great_circle_distance_meters : D → D → D → D → D
    great_circle_distance_meters latitude1 longitude1 latitude2 longitude2 =
        great_circle_distance_meters_haversine latitude1 longitude1 latitude2 longitude2
