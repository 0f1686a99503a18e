-- ===== src/Plugin/TimeSource.antt =====
-- src/plugin.c: the millisecond part of the present, by the system's clock or by the time that X-Plane
-- runs.
use psx_xp_mover.Base.{ℕ, Bool, not, ◌||◌, Option, none, some, ◌==◌, if◌then◌else◌}
use psx_xp_mover.Base.Int.{ℤ, pos}
use psx_xp_mover.Double.{Double}
use psx_xp_mover.Utils.Conversions.{decimal}
use psx_xp_mover.Plugin.Receive.{interpolation_time_source_rtc}

-- `INTERPOLATION_TIME_SOURCE_SIM_RUN`
abbrev pub interpolation_time_source_sim_run : ℕ
interpolation_time_source_sim_run = 2

-- `INTERPOLATION_TIME_SOURCE_DEFAULT`
abbrev pub interpolation_time_source_default : ℕ
interpolation_time_source_default = interpolation_time_source_rtc

-- `NANOS_PER_MILLI`
abbrev pub nanos_per_milli : ℕ
nanos_per_milli = 1000000

module _ (d : Double) where
  open d use {D, of_int, nan, lt, le, sub, mul, div, round, trunc}

  -- The argument is `tv_nsec`, if `timespec_get` succeeds.
  unfoldable pub get_millis_rtc : Option ℤ → D
  get_millis_rtc none = nan
  get_millis_rtc (some nanos) =
      let millis = div (of_int nanos) (of_int (pos nanos_per_milli)) in
      if lt millis (of_int (pos 0)) || le (of_int (pos 1000)) millis then nan else millis

  -- the fraction that `modf` returns
  abbrev pub fractional_part : D → D
  fractional_part x = sub x (of_int (trunc x))

  -- The arguments are `datarefs_initialized` and X-Plane's running time.
  unfoldable pub get_millis_sim_run : Bool → D → D
  get_millis_sim_run datarefs_initialized sim_runtime_secs =
      let millis = round (mul (fractional_part sim_runtime_secs) (of_int (pos 1000))) in
      if not datarefs_initialized
      then nan
      else if lt millis (of_int (pos 0))
      then of_int (pos 0)
      else if le (of_int (pos 1000)) millis
      then decimal d 999999999 1000000
      else millis

  -- The time, and the source behind the call. A source that is neither becomes the default, and the
  -- function calls itself once more, which is the call with the default.
  unfoldable pub get_millis : D → D → ℕ → D × ℕ
  get_millis rtc sim_run source =
      if source == interpolation_time_source_rtc
      then (rtc, source)
      else if source == interpolation_time_source_sim_run
      then (sim_run, source)
      else (rtc, interpolation_time_source_default)
