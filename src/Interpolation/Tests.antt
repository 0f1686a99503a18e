-- ===== src/Interpolation/Tests.antt =====
-- Rings of src/interpolation.c with concrete numbers.
use psx_xp_mover.Base.{
  ℕ, suc, ◌<◌, ◌≡◌, ◌⊎◌, refl, get_or, arith, true, [], ◌∷◌, ◌++◌, All, replicate,
}
use psx_xp_mover.Base.Int.{pos, ◌-ℤ◌}
use psx_xp_mover.Double.Fixed.{Fixed, num, fixed, fixed-IsExact, fixed-IsOrdered}
use psx_xp_mover.Interpolation.{
  KeyFrame, Interpolator, latest_frame_index, find_frames, time_between_frames, interpolate_between,
  dlimit, between_or_nan, blank, maintain, add_point, calculate,
}
use psx_xp_mover.Interpolation.Timeline.{IsTimeline, keep, record_point, frames_for}
use psx_xp_mover.Interpolation.Inv.{IsValid}
use psx_xp_mover.Interpolation.Refine.{contents, maintain_refines, add_point_refines}
use psx_xp_mover.Interpolation.Seek.{calculate_refines}
use psx_xp_mover.Interpolation.Query.{add_point-IsTimeline, calculate_at_key_frame}
use psx_xp_mover.Interpolation.Bounds.{HasFinite, Between, calculate-Between}

abbrev frame : ℕ → ℕ → KeyFrame Fixed
frame t v = record { timestamp_millis_part = t; value = num (pos v) }

-- Two frames, the second one behind the end of a second.
abbrev two_points : Interpolator Fixed
two_points = record {
  frames_start = 7;
  num_frames = 2;
  frames = frame 100 3000 ∷ (replicate 6 (blank fixed) ++ frame 900 1000 ∷ []);
}

two_points-IsValid : IsValid two_points
two_points-IsValid = record {
  storage = refl;
  start_in = omega arith;
  num_in = omega arith;
  times_in = ground arith;
}

two_points-IsTimeline : IsTimeline (contents fixed two_points)
two_points-IsTimeline = ground arith

two_points-HasFinite : All (HasFinite fixed) two_points.frames
two_points-HasFinite = ground arith

halfway : calculate fixed two_points (num (pos 0)) ≡ num (pos 2000)
unfolding calculate ◌-ℤ◌ latest_frame_index find_frames time_between_frames interpolate_between
    dlimit
halfway = refl

maintain_refines_example :
    contents fixed (maintain fixed two_points (fixed.of_int (pos 599)))
    ≡ keep 599 (contents fixed two_points)
maintain_refines_example =
    maintain_refines fixed fixed-IsExact two_points 599 (omega arith) two_points-IsValid

add_point_refines_example :
    contents fixed (add_point fixed two_points 300 (num (pos 5000)))
    ≡ record_point true (frame 300 5000) (contents fixed two_points)
add_point_refines_example =
    add_point_refines fixed fixed-IsExact two_points 300 (num (pos 5000)) (omega arith)
      two_points-IsValid

add_point-IsTimeline_example :
    IsTimeline (contents fixed (add_point fixed two_points 300 (num (pos 5000))))
add_point-IsTimeline_example =
    add_point-IsTimeline fixed fixed-IsExact two_points 300 (num (pos 5000)) (omega arith)
      two_points-IsValid two_points-IsTimeline

calculate_refines_example :
    calculate fixed two_points (fixed.of_int (pos 0))
    ≡ between_or_nan fixed (frames_for (contents fixed two_points) 0) (fixed.of_int (pos 0))
calculate_refines_example =
    calculate_refines fixed fixed-IsExact two_points 0 (omega arith) two_points-IsValid

calculate_at_key_frame_example :
    calculate fixed two_points (fixed.of_int (pos 900)) ≡ num (pos 1000)
calculate_at_key_frame_example =
    calculate_at_key_frame fixed fixed-IsExact two_points 1 two_points-IsValid two_points-IsTimeline
      (omega arith) (omega arith) (omega arith)

calculate-Between_example :
    (fixed.is_nan (calculate fixed two_points (num (pos 7500))) ≡ true)
    ⊎ ((j : ℕ) × (suc j < 2)
        × Between fixed
            (get_or (contents fixed two_points) (suc j) (blank fixed)).value
            (get_or (contents fixed two_points) j (blank fixed)).value
            (calculate fixed two_points (num (pos 7500))))
calculate-Between_example =
    calculate-Between fixed fixed-IsOrdered two_points (num (pos 7500)) two_points-IsValid
      two_points-HasFinite
