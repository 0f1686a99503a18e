-- ===== src/Interpolation/Query.antt =====
-- What `interpolator_calculate` returns: the recorded value at a recorded time, and nothing outside
-- the two values that it interpolates between.
use psx_xp_mover.Base.{
  ℕ, zero, suc, ◌≤◌, ◌<◌, ◌≡◌, ◌≢◌, sym, ◌∙◌, arith, true, leb, List, [], ◌∷◌, some, get_or, length,
}
use psx_xp_mover.Base.Int.{pos, ◌+ℤ◌, ◌-ℤ◌}
use psx_xp_mover.Double.{Double, IsExact}
use psx_xp_mover.Interpolation.{
  KeyFrame, Interpolator, add_point, interpolate_between, millis_between, between_or_nan, calculate,
  blank,
}
use psx_xp_mover.Interpolation.Timeline.{
  elapsed, frames_for, age_at, IsTimeline, record_point-IsTimeline, elapsed_age, enclosing_age,
  at_in_second,
}
use psx_xp_mover.Interpolation.Inv.{IsValid, InSecond}
use psx_xp_mover.Interpolation.Refine.{contents, length-contents, add_point_refines}
use psx_xp_mover.Interpolation.Seek.{wrap_second_lem, calculate_refines, le_pos}

module _ (d : Double) (laws : IsExact d) where
  open d use {D, of_int}

  millis_between_lem :
      (base target : KeyFrame D)
      → InSecond base
      → InSecond target
      → base.timestamp_millis_part ≢ target.timestamp_millis_part
      → millis_between d base target
        ≡ pos (elapsed target.timestamp_millis_part base.timestamp_millis_part)
  unfolding ◌+ℤ◌ ◌-ℤ◌
  millis_between_lem base target h k ne = ground arith

  at_base :
      (base target : KeyFrame D)
      → InSecond base
      → interpolate_between d base target (of_int (pos base.timestamp_millis_part)) ≡ base.value
  unfolding interpolate_between
  at_base base target h =
      rw (wrap_second_lem d laws base.timestamp_millis_part base.timestamp_millis_part h h) (
        rw
          (le_pos d laws (elapsed base.timestamp_millis_part base.timestamp_millis_part) 0
            (omega arith) (omega arith))
          (ground arith))

  at_target :
      (base target : KeyFrame D)
      → InSecond base
      → InSecond target
      → base.timestamp_millis_part ≢ target.timestamp_millis_part
      → interpolate_between d base target (of_int (pos target.timestamp_millis_part)) ≡ target.value
  unfolding interpolate_between
  at_target base target h k ne =
      let ago = elapsed target.timestamp_millis_part base.timestamp_millis_part in
      rw (wrap_second_lem d laws target.timestamp_millis_part base.timestamp_millis_part k h) (
        rw (le_pos d laws ago 0 (omega arith) (omega arith)) (
          rw (millis_between_lem base target h k ne)
            (rw (le_pos d laws ago ago (omega arith) (omega arith)) (ground arith))))

  at_recorded :
      (e : KeyFrame D) (f g : KeyFrame D) (fs : List (KeyFrame D)) (k : ℕ)
      → IsTimeline (f ∷ g ∷ fs)
      → k < suc (suc (length fs))
      → age_at (f ∷ g ∷ fs) k ≤ 499
      → let x = get_or (f ∷ g ∷ fs) k e in
        between_or_nan d
          (frames_for (f ∷ g ∷ fs) x.timestamp_millis_part)
          (of_int (pos x.timestamp_millis_part))
        ≡ x.value
  at_recorded e f g fs zero w h a =
      let g_in = at_in_second e fs g zero w.2 (omega arith) in
      let now : elapsed f.timestamp_millis_part f.timestamp_millis_part ≡ 0 = omega (arith, w.0) in
      rw now (ground (arith, at_target g f g_in w.0 (λ q. w.1 (sym q))))
  at_recorded e f g fs (suc k) w h a =
      let x = get_or (g ∷ fs) k e in
      let x_in = at_in_second e fs g k w.2 (omega arith) in
      let age = elapsed_age e (g ∷ fs) f (suc k) w h (omega arith) in
      let found = enclosing_age e (g ∷ fs) f k w h in
      let near : leb (age_at (f ∷ g ∷ fs) (suc k)) 499 ≡ true = ground arith in
      let chosen : frames_for (f ∷ g ∷ fs) x.timestamp_millis_part
          ≡ some (x, get_or (f ∷ g ∷ fs) k e) =
        rw age (rw near found) in
      rw chosen (at_base x (get_or (f ∷ g ∷ fs) k e) x_in)

  at_recorded_of_two :
      (e : KeyFrame D) (fs : List (KeyFrame D)) (k : ℕ)
      → IsTimeline fs
      → 2 ≤ length fs
      → k < length fs
      → age_at fs k ≤ 499
      → let x = get_or fs k e in
        between_or_nan d
          (frames_for fs x.timestamp_millis_part)
          (of_int (pos x.timestamp_millis_part))
        ≡ x.value
  at_recorded_of_two e [] k w two h a = absurd (omega arith)
  at_recorded_of_two e (f ∷ []) k w two h a = absurd (omega arith)
  at_recorded_of_two e (f ∷ g ∷ fs) k w two h a = at_recorded e f g fs k w h a

  recorded-InSecond :
      (e : KeyFrame D) (fs : List (KeyFrame D)) (k : ℕ)
      → IsTimeline fs
      → k < length fs
      → InSecond (get_or fs k e)
  recorded-InSecond e [] k w h = absurd (omega arith)
  recorded-InSecond e (f ∷ fs) k w h = at_in_second e fs f k w h

  -- At the millisecond of a recorded frame at most 499 ms older than the latest one, the value
  -- recorded for it comes back, if there are two frames at least.
  pub calculate_at_key_frame :
      (i : Interpolator D) (k : ℕ)
      → IsValid i
      → IsTimeline (contents d i)
      → 2 ≤ i.num_frames
      → k < i.num_frames
      → age_at (contents d i) k ≤ 499
      → let x = get_or (contents d i) k (blank d) in
        calculate d i (of_int (pos x.timestamp_millis_part)) ≡ x.value
  calculate_at_key_frame i k w t two h a =
      let count = length-contents d i in
      let x_in = recorded-InSecond (blank d) (contents d i) k t (omega arith) in
      calculate_refines d laws i _ x_in w
      ∙ at_recorded_of_two (blank d) (contents d i) k t (omega arith) (omega arith) a

  -- Adding a point at a millisecond part keeps neighbouring frames at different times below 1000.
  pub add_point-IsTimeline :
      (i : Interpolator D) (timestamp : ℕ) (v : D)
      → timestamp < 1000
      → IsValid i
      → IsTimeline (contents d i)
      → IsTimeline (contents d (add_point d i timestamp v))
  add_point-IsTimeline i timestamp v h w t = rw (add_point_refines d laws i timestamp v h w) (
      record_point-IsTimeline (d.is_finite v)
        (record { timestamp_millis_part = timestamp; value = v }) (contents d i) h t)
