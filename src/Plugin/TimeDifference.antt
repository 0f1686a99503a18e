-- ===== src/Plugin/TimeDifference.antt =====
-- The first part of `on_boost_frame_received` in src/plugin.c: the difference between the local clock
-- and that of PSX, and its average over the last frames.
pub mod Range
use psx_xp_mover.Base.{
  ℕ, zero, suc, ◌+◌, ◌*◌, ◌%◌, Bool, true, false, Option, none, some, List, [], ◌∷◌, set, take,
  replicate, ltb, if◌then◌else◌,
}
use psx_xp_mover.Base.Int.{ℤ, pos, negsuc, ◌+ℤ◌, ◌-ℤ◌, ltb_ℤ, leb_ℤ, int32}
use psx_xp_mover.Double.{Double}
use psx_xp_mover.Plugin.History.{psx_max_fps}

-- `MAX_NUM_TIME_DIFFERENCE_RECORDS`
abbrev pub max_records : ℕ
max_records = 10 * psx_max_fps

-- `diff_receive_timestamp_millis` with its count and next index
pub record Differences : Type 0 where
  pub diffs : List ℤ
  pub num : ℕ
  pub next : ℕ

-- of an `int` and the frame's millisecond part
unfoldable pub clock_diff : ℤ → ℤ → ℤ
unfolding ◌+ℤ◌ ◌-ℤ◌
clock_diff local remote =
    let diff_millis = local -ℤ remote in
    if leb_ℤ diff_millis (negsuc 499) then diff_millis +ℤ pos 1000 else diff_millis

unfoldable pub record_difference : ℤ → Differences → Differences
record_difference diff_millis s = record {
  diffs = set s.diffs s.next diff_millis;
  num = if ltb s.num max_records then s.num + 1 else s.num;
  next = (s.next + 1) % max_records;
}

-- the sum of the first entries, kept in a `long`
unfoldable pub sum_of : ℕ → List ℤ → ℤ
unfolding ◌+ℤ◌
sum_of zero diffs = pos 0
sum_of (suc n) [] = pos 0
sum_of (suc n) (x ∷ diffs) = x +ℤ sum_of n diffs

module _ (d : Double) where
  open d use {D, of_int, nan, is_nan, le, div, round, trunc}

  -- the clock as an `int` between 0 and 999
  unfoldable pub local_millis : D → ℤ
  local_millis millis =
      let rounded = int32 (trunc (round millis)) in
      if ltb_ℤ rounded (pos 0) then pos 0 else if leb_ℤ (pos 1000) rounded then pos 999 else rounded

  unfoldable pub average_of : Differences → D
  unfolding sum_of
  average_of s = div (of_int (sum_of s.num s.diffs)) (of_int (pos s.num))

  -- The average, or NaN, and the records. The argument is what `get_millis_rtc` returns.
  unfoldable pub receive_difference : D → ℤ → Differences → D × Differences
  receive_difference millis remote s =
      let s' = record_difference (clock_diff (local_millis millis) remote) s in
      if is_nan millis
      then (nan, s)
      else if le (of_int (pos 0)) millis
      then (average_of s', s')
      else (nan, s)
