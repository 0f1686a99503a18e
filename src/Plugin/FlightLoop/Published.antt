-- ===== src/Plugin/FlightLoop/Published.antt =====
-- The ground speed that is written to X-Plane.
use psx_xp_mover.Base.{
  ℕ, ◌*◌, ◌≤◌, ◌≡◌, ap, arith, true, false, Bool-cases, inl, inr, if◌then◌else◌,
}
use psx_xp_mover.Base.Int.{pos}
use psx_xp_mover.Double.{Double, IsOrdered, IsScaled, IsExact}
use psx_xp_mover.Utils.Conversions.{nauticalmiles2meters}
use psx_xp_mover.Plugin.FlightLoop.Speed.{
  max_published_ground_speed_meters_per_second, published_ground_speed,
}

module _ (d : Double) (ordered : IsOrdered d) (scaled : IsScaled d) (exact : IsExact d) where
  open d use {D, of_int, is_nan, lt, le, mul, div}

  -- two numbers, neither above the other
  abbrev pub IsSame : D → D → Type 0
  IsSame a b = (le a b ≡ true) × (le b a ≡ true)

  -- 750 knots in meters per second
  abbrev pub top_speed : D
  top_speed = div (of_int (pos 1389000)) (of_int (pos 3600))

  top_speed_lem : max_published_ground_speed_meters_per_second d ≡ top_speed
  top_speed_lem = ap (λ n. div n (of_int (pos 3600))) (scaled.mul-of_int 750 1852 (omega arith))

  meters_lem :
      (k : ℕ) → k ≤ 44800 → nauticalmiles2meters d (of_int (pos k)) ≡ of_int (pos (k * 1852))
  unfolding nauticalmiles2meters
  meters_lem k h = scaled.mul-of_int k 1852 (omega arith)

  limited_to :
      (top x : D)
      → is_nan top ≡ false
      → is_nan x ≡ false
      → le top x ≡ true
      → IsSame (if lt top x then top else x) top
  limited_to top x p q h = elim (Bool-cases (lt top x)) [
    | inl above ↦ rw above (ordered.le_refl top p, ordered.le_refl top p)
    | inr below ↦ rw below (ordered.le_of_not_lt top x p q below, h)
  ]

  -- Every whole ground speed from 1 to 44800 knots is written as 750 knots: what is compared with the
  -- top speed in meters per second, and written as such, is the speed in meters per hour.
  pub published_ground_speed-IsSame :
      (k : ℕ) → 1 ≤ k → k ≤ 44800 → IsSame (published_ground_speed d (of_int (pos k))) top_speed
  unfolding published_ground_speed
  published_ground_speed-IsSame k h l =
      rw (top_speed_lem, meters_lem k l)
        (limited_to top_speed (of_int (pos (k * 1852)))
          (scaled.is_nan-div 1389000 3600 (omega arith))
          (exact.is_nan-of_int (pos (k * 1852)) (omega arith, omega arith))
          (scaled.div-le 1389000 3600 (k * 1852) (omega arith) (omega arith) (omega arith)
            (omega arith)))
