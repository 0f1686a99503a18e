-- ===== src/Plugin/QueryTime.antt =====
-- The time for which `flight_loop_callback` of src/plugin.c asks the interpolators: the present less
-- the buffer and the difference of the clocks, brought into a second by two loops. A loop that is not
-- over with the fuel given returns `none`.
pub mod Second
mod Tests
use psx_xp_mover.Base.{ℕ, zero, suc, Bool, Option, none, some, if◌then◌else◌, ◌>>=◌}
use psx_xp_mover.Base.Int.{ℤ, pos}
use psx_xp_mover.Double.{Double}

module _ (d : Double) where
  open d use {D, of_int, lt, le, add, sub, div}

  -- `while (t < 0) t += 1000`
  unfoldable pub raise_to_second : ℕ → D → Option D
  raise_to_second zero t = if lt t (of_int (pos 0)) then none else some t
  raise_to_second (suc fuel) t =
      let rest = raise_to_second fuel (add t (of_int (pos 1000))) in
      if lt t (of_int (pos 0)) then rest else some t

  -- `while (t >= 1000) t -= 1000`
  unfoldable pub lower_to_second : ℕ → D → Option D
  lower_to_second zero t = if le (of_int (pos 1000)) t then none else some t
  lower_to_second (suc fuel) t =
      let rest = lower_to_second fuel (sub t (of_int (pos 1000))) in
      if le (of_int (pos 1000)) t then rest else some t

  -- What is still not in the second becomes 0 or 999.999999.
  unfoldable pub limit_to_second : D → D
  limit_to_second t =
      if lt t (of_int (pos 0))
      then of_int (pos 0)
      else if le (of_int (pos 1000)) t
      then div (of_int (pos 999999999)) (of_int (pos 1000000))
      else t

  unfoldable pub into_second : ℕ → D → Option D
  into_second fuel t = do
    raised ← raise_to_second fuel t
    lowered ← lower_to_second fuel raised
    some (limit_to_second lowered)

  -- the time that the loops start with
  abbrev pub time_to_query : D → D → Bool → D → D
  time_to_query now buffer compensate difference =
      let t = sub now buffer in if compensate then sub t difference else t

  unfoldable pub interpolation_timestamp : ℕ → D → D → Bool → D → Option D
  interpolation_timestamp fuel now buffer compensate difference =
      into_second fuel (time_to_query now buffer compensate difference)
