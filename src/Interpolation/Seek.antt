-- ===== src/Interpolation/Seek.antt =====
-- The search of `interpolator_calculate` over the ring, at a whole millisecond, is the search over
-- the list of its frames.
use psx_xp_mover.Base.{
  ℕ, zero, suc, ◌-◌, ◌≤◌, ◌<◌, ◌≡◌, ◌≢◌, refl, ap, ap₂, ◌∙◌, arith, inl, inr, Bool-cases, ltb, leb,
  ◌==◌, if◌then◌else◌, List, All, All-get_or, none, get_or,
}
use psx_xp_mover.Base.Int.{pos, int_of_u32, ◌+ℤ◌, ◌-ℤ◌}
use psx_xp_mover.Base.Ring.{prev, recent}
use psx_xp_mover.Double.{Double, IsExact}
use psx_xp_mover.Interpolation.{
  KeyFrame, Interpolator, ipmod, frame_index, latest_frame_index, latest_frame, time_between_frames,
  find_frames, between_or_nan, wrap_second, calculate, blank,
}
use psx_xp_mover.Interpolation.Timeline.{elapsed, enclosing, frames_for}
use psx_xp_mover.Interpolation.Inv.{IsValid, InSecond, latest_frame_index_lem}
use psx_xp_mover.Interpolation.Refine.{
  latest_index, contents, contents_latest, latest_frame-InSecond,
}

pub base_index_lem : (k : ℕ) → k < 8 → frame_index (int_of_u32 k -ℤ pos 1) ≡ prev 8 k
unfolding ipmod ◌-ℤ◌
base_index_lem zero h = refl
base_index_lem (suc k) h = ground arith

pub prev_lt : (k : ℕ) → k < 8 → prev 8 k < 8
prev_lt zero h = omega arith
prev_lt (suc k) h = omega arith

module _ (d : Double) (laws : IsExact d) where
  open d use {D, of_int, nan, lt, le, sub, add}

  pub time_between_lem :
      (target base : KeyFrame D)
      → InSecond target
      → InSecond base
      → time_between_frames d target base
        ≡ pos (elapsed target.timestamp_millis_part base.timestamp_millis_part)
  unfolding time_between_frames
  time_between_lem target base h k = ground arith

  sub_pos :
      (a b : ℕ) → a < 1000 → b ≤ a → sub (of_int (pos a)) (of_int (pos b)) ≡ of_int (pos (a - b))
  unfolding ◌-ℤ◌
  sub_pos a b h k =
      laws.sub-of_int (pos a) (pos b) (omega arith) (omega arith) ∙ ap of_int (ground arith)

  -- the wrapped difference of two millisecond parts
  pub wrap_second_lem :
      (a b : ℕ)
      → a < 1000
      → b < 1000
      → wrap_second d (sub (of_int (pos a)) (of_int (pos b))) ≡ of_int (pos (elapsed a b))
  unfolding ◌-ℤ◌ ◌+ℤ◌
  wrap_second_lem a b h k = rw (laws.sub-of_int (pos a) (pos b) (omega arith) (omega arith)) (
      rw (laws.lt-of_int (pos a -ℤ pos b) (pos 0) (ground arith) (omega arith)) (
        rw (laws.add-of_int (pos a -ℤ pos b) (pos 1000) (ground arith) (omega arith))
          (ground arith)))

  pub le_pos : (a b : ℕ) → a < 1000 → b < 1000 → le (of_int (pos a)) (of_int (pos b)) ≡ leb a b
  le_pos a b h k = laws.le-of_int (pos a) (pos b) (omega arith) (omega arith) ∙ ground arith

  find_frames_refines :
      (fs : List (KeyFrame D)) (n k ago : ℕ)
      → All InSecond fs
      → k < 8
      → ago < 1000
      → find_frames d fs n k (of_int (pos ago)) ≡ enclosing (recent (blank d) fs 8 k (suc n)) ago
  unfolding find_frames
  find_frames_refines fs zero k ago a h g = refl
  find_frames_refines fs (suc n) k ago a h g =
      let target = get_or fs k (blank d) in
      let base = get_or fs (prev 8 k) (blank d) in
      let gap = elapsed target.timestamp_millis_part base.timestamp_millis_part in
      rw
        (
          base_index_lem k h,
          time_between_lem target base (All-get_or InSecond fs k (blank d) a (omega arith))
              (All-get_or InSecond fs (prev 8 k) (blank d) a (omega arith)),
        )
        (rw (le_pos ago gap g (omega arith)) (elim (Bool-cases (leb ago gap)) [
          | inl enough ↦ rw (enough) refl
          | inr more ↦
              rw (more, sub_pos ago gap g (ground arith))
                (find_frames_refines fs n (prev 8 k) (ago - gap) a (prev_lt k h) (omega arith))
        ]))

  lt_pos : (a b : ℕ) → a < 1000 → b < 1000 → lt (of_int (pos a)) (of_int (pos b)) ≡ ltb a b
  lt_pos a b h k = laws.lt-of_int (pos a) (pos b) (omega arith) (omega arith) ∙ ground arith

  -- `calculate` with its times as plain numbers
  calculate_lem :
      (i : Interpolator D) (t : ℕ)
      → t < 1000
      → IsValid i
      → let ago = elapsed (latest_frame d i).timestamp_millis_part t in
        calculate d i (of_int (pos t)) ≡ (
          if ltb i.num_frames 2
          then nan
          else if ltb 499 ago
          then nan
          else between_or_nan d
              (enclosing
                (recent (blank d) i.frames 8 (latest_frame_index d i) (suc (i.num_frames - 1)))
                ago)
              (of_int (pos t)))
  unfolding calculate
  calculate_lem i t h w =
      let latest_in = latest_frame-InSecond d i w in
      let ago = elapsed (latest_frame d i).timestamp_millis_part t in
      rw
        (
          wrap_second_lem (latest_frame d i).timestamp_millis_part t latest_in h,
          lt_pos 499 ago (omega arith) (omega arith),
        )
        (rw (
          find_frames_refines i.frames (i.num_frames - 1) (latest_frame_index d i) ago w.times_in
            (omega (arith, latest_frame_index_lem d i w)) (omega arith)))

  frames_for-contents :
      (i : Interpolator D) (t : ℕ)
      → IsValid i
      → i.num_frames ≢ 0
      → let ago = elapsed (latest_frame d i).timestamp_millis_part t in
        frames_for (contents d i) t ≡ (if leb ago 499 then enclosing (contents d i) ago else none)
  frames_for-contents i t w h = rw (contents_latest d i w h)

  enclosing_of_few :
      (fs : List (KeyFrame D)) (k n ago : ℕ)
      → n < 2
      → enclosing (recent (blank d) fs 8 k n) ago ≡ none
  enclosing_of_few fs k zero ago h = refl
  enclosing_of_few fs k (suc zero) ago h = refl
  enclosing_of_few fs k (suc (suc n)) ago h = absurd (omega arith)

  -- `interpolator_calculate` at a whole millisecond works with the two neighbours that the list
  -- of frames has for that time, or returns NaN where it has none.
  pub calculate_refines :
      (i : Interpolator D) (t : ℕ)
      → t < 1000
      → IsValid i
      → calculate d i (of_int (pos t))
        ≡ between_or_nan d (frames_for (contents d i) t) (of_int (pos t))
  calculate_refines i t h w = rw (calculate_lem i t h w) (elim (Bool-cases (i.num_frames == 0)) [
    | inl empty ↦ let none_yet : i.num_frames ≡ 0 = ground arith in rw none_yet refl
    | inr some_frames ↦
        rw (frames_for-contents i t w (ground arith)) (elim (Bool-cases (ltb i.num_frames 2)) [
          | inl few ↦
              rw (few, enclosing_of_few i.frames (latest_index d i) i.num_frames ago (ground arith))
                (ground arith)
          | inr enough ↦ rw enough (ground (arith, same_search (ground arith)))
        ])
  ])
    where
      ago : ℕ
      ago = elapsed (latest_frame d i).timestamp_millis_part t

      same_search :
          suc (i.num_frames - 1) ≡ i.num_frames
          → enclosing
              (recent (blank d) i.frames 8 (latest_frame_index d i) (suc (i.num_frames - 1)))
              ago
            ≡ enclosing (contents d i) ago
      same_search e =
          ap₂ (λ k n. enclosing (recent (blank d) i.frames 8 k n) ago)
            (latest_frame_index_lem d i w) e
