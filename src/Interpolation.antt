-- ===== src/Interpolation.antt =====
-- src/interpolation.c: a ring of at most eight key frames, each a value at a millisecond part, and
-- the value interpolated between two of them. A pointer that may be NULL is an `Option`.
pub mod Timeline
pub mod Inv
pub mod Refine
pub mod Query
pub mod Seek
pub mod Bounds
mod Tests
use psx_xp_mover.Base.{
  ℕ, zero, suc, ◌+◌, ◌-◌, ◌^◌, Bool, not, Option, none, some, List, replicate, set, get_or, ltb,
  leb, ◌==◌, if◌then◌else◌,
}
use psx_xp_mover.Base.Int.{ℤ, pos, pos_part, ◌+ℤ◌, ◌-ℤ◌, ltb_ℤ, leb_ℤ, u32, int_of_u32, int32, rem}
use psx_xp_mover.Double.{Double}

abbrev pub max_interpolator_frames : ℕ
max_interpolator_frames = 8

abbrev pub max_interpolator_frame_time_diff_millis : ℕ
max_interpolator_frame_time_diff_millis = 499

-- `interpolator_key_frame_t`
pub record KeyFrame (V : Type 0) : Type 0 where
  pub timestamp_millis_part : ℕ
  pub value : V

-- `interpolator_t`
pub record Interpolator (V : Type 0) : Type 0 where
  pub frames_start : ℕ
  pub num_frames : ℕ
  pub frames : List (KeyFrame V)

unfoldable pub ilimit : ℤ → ℤ → ℤ → ℤ
ilimit value min_incl max_incl =
    if ltb_ℤ value min_incl then min_incl else if ltb_ℤ max_incl value then max_incl else value

-- the "positive modulo"
unfoldable pub ipmod : ℤ → ℕ → ℤ
unfolding ◌+ℤ◌
ipmod value divisor =
    let res = rem value divisor in if leb_ℤ (pos 0) res then res else res +ℤ pos divisor

-- an index of `frames`, as `ipmod` leaves it
abbrev pub frame_index : ℤ → ℕ
frame_index value = pos_part (ipmod value max_interpolator_frames)

-- `(int) a - (int) b` for two timestamps
abbrev pub timestamp_diff : ℕ → ℕ → ℤ
timestamp_diff a b = int_of_u32 a -ℤ int_of_u32 b

module _ (d : Double) where
  open d use {D, of_int, nan, is_finite, lt, le, add, sub, mul, div, floor, lround}

  unfoldable pub ifloor : D → ℤ
  ifloor value = int32 (lround (floor value))

  unfoldable pub dlimit : D → D → D → D
  dlimit value a_incl b_incl =
      let ordered = le a_incl b_incl in
      let min_incl = if ordered then a_incl else b_incl in
      let max_incl = if ordered then b_incl else a_incl in
      if lt value min_incl then min_incl else if lt max_incl value then max_incl else value

  abbrev pub blank : KeyFrame D
  blank = record { timestamp_millis_part = 0; value = of_int (pos 0) }

  -- The argument says whether `zmalloc` finds memory.
  unfoldable pub create_interpolator : Bool → Option (Interpolator D)
  create_interpolator has_memory =
      if has_memory
      then some (record {
        frames_start = 0;
        num_frames = 0;
        frames = replicate max_interpolator_frames blank;
      })
      else none

  abbrev pub reset_frames : Interpolator D → Interpolator D
  reset_frames i = record i { num_frames = 0 }

  unfoldable pub interpolator_reset : Option (Interpolator D) → Option (Interpolator D)
  interpolator_reset none = none
  interpolator_reset (some i) = some (reset_frames i)

  -- `ipmod(frames_start + num_frames - 1, MAX_INTERPOLATOR_FRAMES)`, the sum taken unsigned
  unfoldable pub latest_frame_index : Interpolator D → ℕ
  unfolding ipmod
  latest_frame_index i =
      frame_index (int_of_u32 (u32 (i.frames_start + i.num_frames + (2 ^ 32 - 1))))

  abbrev pub latest_frame : Interpolator D → KeyFrame D
  latest_frame i = get_or i.frames (latest_frame_index i) blank

  -- The time since the latest frame, by the millisecond parts alone.
  unfoldable pub millis_since : ℤ → KeyFrame D → ℤ
  unfolding ◌+ℤ◌ ◌-ℤ◌
  millis_since now f =
      let diff = now -ℤ int_of_u32 f.timestamp_millis_part in
      if ltb_ℤ diff (pos 0) then diff +ℤ pos 1000 else diff

  unfoldable pub maintain : Interpolator D → D → Interpolator D
  maintain i timestamp_millis_part =
      let now = ilimit (ifloor timestamp_millis_part) (pos 0) (pos 999) in
      let diff = millis_since now (latest_frame i) in
      if i.num_frames == 0
      then i
      else if ltb_ℤ diff (pos 0)
      then reset_frames i
      else if leb_ℤ (pos max_interpolator_frame_time_diff_millis) diff
      then reset_frames i
      else i

  unfoldable pub interpolator_maintain : Option (Interpolator D) → D → Option (Interpolator D)
  interpolator_maintain none t = none
  interpolator_maintain (some i) t = some (maintain i t)

  -- the last lines of `interpolator_add_point`: the ring's new extent, and the frame written
  abbrev pub write_frame : Interpolator D → ℕ → ℕ → ℕ → ℕ → D → Interpolator D
  write_frame i start num index timestamp v = record {
    frames_start = start;
    num_frames = num;
    frames = set i.frames index (record { timestamp_millis_part = timestamp; value = v });
  }

  unfoldable pub insert_frame : Interpolator D → ℕ → D → Interpolator D
  unfolding ipmod ◌+ℤ◌
  insert_frame i timestamp v =
      let new_frame_index = int_of_u32 i.frames_start in
      let num_frames = i.num_frames in
      if num_frames == 0
      then write_frame i i.frames_start 1 (pos_part new_frame_index) timestamp v
      else if (latest_frame i).timestamp_millis_part == timestamp
      then i
      else if leb max_interpolator_frames num_frames
      then write_frame i (frame_index (new_frame_index +ℤ pos 1)) max_interpolator_frames
          (pos_part new_frame_index) timestamp v
      else write_frame i i.frames_start (num_frames + 1)
          (frame_index (new_frame_index +ℤ int_of_u32 num_frames)) timestamp v

  unfoldable pub add_point : Interpolator D → ℕ → D → Interpolator D
  add_point i timestamp v =
      let i' = maintain i (of_int (pos timestamp)) in
      if not (is_finite v) then i' else insert_frame i' timestamp v

  unfoldable pub interpolator_add_point : Option (Interpolator D) → ℕ → D → Option (Interpolator D)
  interpolator_add_point none timestamp v = none
  interpolator_add_point (some i) timestamp v = some (add_point i timestamp v)

  -- the time from `base` to `target`, as the search takes it
  unfoldable pub time_between_frames : KeyFrame D → KeyFrame D → ℤ
  unfolding ◌+ℤ◌ ◌-ℤ◌
  time_between_frames target base =
      let diff = timestamp_diff target.timestamp_millis_part base.timestamp_millis_part in
      if ltb_ℤ diff (pos 0) then diff +ℤ pos 1000 else diff

  -- The search back from the latest frame, over the frames that remain: the base frame and the
  -- target frame, or `none` if the time is not between frames.
  unfoldable pub find_frames : List (KeyFrame D) → ℕ → ℕ → D → Option (KeyFrame D × KeyFrame D)
  unfolding ipmod ◌-ℤ◌
  find_frames frames zero target_frame_index time_to_target_frame = none
  find_frames frames (suc remaining) target_frame_index time_to_target_frame =
      let base_frame_index = frame_index (int_of_u32 target_frame_index -ℤ pos 1) in
      let base = get_or frames base_frame_index blank in
      let target = get_or frames target_frame_index blank in
      let between = of_int (time_between_frames target base) in
      let rest = find_frames frames remaining base_frame_index (sub time_to_target_frame between) in
      if le time_to_target_frame between then some (base, target) else rest

  -- `millis_between_frames`, where equal timestamps count as a second
  abbrev pub millis_between : KeyFrame D → KeyFrame D → ℤ
  millis_between base target =
      let diff = timestamp_diff target.timestamp_millis_part base.timestamp_millis_part in
      if leb_ℤ diff (pos 0) then diff +ℤ pos 1000 else diff

  -- `x < 0` gives `x + 1000`
  abbrev pub wrap_second : D → D
  wrap_second x = if lt x (of_int (pos 0)) then add x (of_int (pos 1000)) else x

  unfoldable pub interpolate_between : KeyFrame D → KeyFrame D → D → D
  unfolding ◌+ℤ◌ ◌-ℤ◌
  interpolate_between base target t =
      let between = of_int (millis_between base target) in
      let since = wrap_second (sub t (of_int (pos base.timestamp_millis_part))) in
      let fraction = dlimit (div since between) (of_int (pos 0)) (of_int (pos 1)) in
      let value_diff = sub target.value base.value in
      if le since (of_int (pos 0))
      then base.value
      else if le between since
      then target.value
      else dlimit (add base.value (mul fraction value_diff)) base.value target.value

  -- what becomes of the search's result
  abbrev pub between_or_nan : Option (KeyFrame D × KeyFrame D) → D → D
  between_or_nan none t = nan
  between_or_nan (some (base, target)) t = interpolate_between base target t

  unfoldable pub calculate : Interpolator D → D → D
  calculate i t =
      let target = latest_frame i in
      let time = wrap_second (sub (of_int (pos target.timestamp_millis_part)) t) in
      let found = find_frames i.frames (i.num_frames - 1) (latest_frame_index i) time in
      if ltb i.num_frames 2
      then nan
      else if lt (of_int (pos max_interpolator_frame_time_diff_millis)) time
      then nan
      else between_or_nan found t

  unfoldable pub interpolator_calculate : Option (Interpolator D) → D → D
  interpolator_calculate none t = nan
  interpolator_calculate (some i) t = calculate i t
