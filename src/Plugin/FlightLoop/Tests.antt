-- ===== src/Plugin/FlightLoop/Tests.antt =====
-- Cycles of the flight loop with concrete values.
use psx_xp_mover.Base.{◌≡◌, refl, arith, Bool, true, false, some, [], ◌∷◌, ◌++◌, replicate, All}
use psx_xp_mover.Base.Int.{pos}
use psx_xp_mover.Double.Fixed.{
  Fixed, fixed, fixed_math, fixed-IsExact, fixed-IsOrdered, fixed-IsScaled,
}
use psx_xp_mover.Interpolation.{interpolator_reset}
use psx_xp_mover.Plugin.Countdown.{override_plane_path, expire, count_down}
use psx_xp_mover.Plugin.TimeSource.{get_millis, get_millis_rtc, get_millis_sim_run}
use psx_xp_mover.Plugin.QueryTime.{
  interpolation_timestamp, into_second, raise_to_second, lower_to_second, limit_to_second,
}
use psx_xp_mover.Plugin.History.{
  History, frame_diff_millis, visit, search, choose, record_boost_frame,
  find_previous_boost_frame_by_age,
}
use psx_xp_mover.Plugin.Receive.{reset_psx_data}
use psx_xp_mover.Plugin.FlightLoop.{
  DataRef, override_planepath, theta_pitch, Flight, call_on_next_frame, stop,
}
use psx_xp_mover.Plugin.FlightLoop.Setup.{find_datarefs, begin_cycle, update_sim_time_diff}
use psx_xp_mover.Plugin.FlightLoop.Callback.{Outcome, flight_loop_callback}
use psx_xp_mover.Plugin.FlightLoop.Rule.{present, Returns, QueryEnds, flight_loop_callback_ends}
use psx_xp_mover.Plugin.FlightLoop.Run.{none_yet, one_more}
use psx_xp_mover.Plugin.FlightLoop.Suspended.{
  target, LeavesAircraft, flight_loop_callback-LeavesAircraft,
}
use psx_xp_mover.Plugin.FlightLoop.Once.{TakesOnce, Cycles-TakesOnce}
use psx_xp_mover.Plugin.FlightLoop.Quiet.{
  IsStill, flight_loop_callback-missing, flight_loop_callback-idle,
}
use psx_xp_mover.Plugin.FlightLoop.Shown.{IsShown}
use psx_xp_mover.Plugin.FlightLoop.Stale.{after_reset, flight_loop_callback-IsShown}
use psx_xp_mover.Plugin.FlightLoop.Ends.{flight_loop_callback_within}
use psx_xp_mover.Plugin.FlightLoop.Speed.{published_ground_speed, reference_index, dereferenced}
use psx_xp_mover.Plugin.FlightLoop.Published.{IsSame, top_speed, published_ground_speed-IsSame}
use psx_xp_mover.Plugin.FlightLoop.Cases.{
  whole, frame_at, settings_of, flight_of, answers_with, answers, suspended, waiting,
}

suspended_query : QueryEnds fixed 1 answers suspended
unfolding find_datarefs begin_cycle update_sim_time_diff override_plane_path expire count_down
    get_millis get_millis_rtc get_millis_sim_run interpolation_timestamp into_second raise_to_second
    lower_to_second limit_to_second
suspended_query = (whole 450, refl)

waiting_query : QueryEnds fixed 1 answers waiting
unfolding find_datarefs begin_cycle update_sim_time_diff override_plane_path expire count_down
    get_millis get_millis_rtc get_millis_sim_run interpolation_timestamp into_second raise_to_second
    lower_to_second limit_to_second
waiting_query = (whole 450, refl)

flight_loop_callback-LeavesAircraft_example :
    Returns
      (λ o. All LeavesAircraft o.writes)
      (flight_loop_callback fixed fixed_math 1 answers suspended)
flight_loop_callback-LeavesAircraft_example =
    flight_loop_callback-LeavesAircraft fixed fixed_math 1 answers suspended suspended_query refl

-- the cycle that takes the frame, and one behind it
abbrev first :
    (o : Outcome Fixed) × (flight_loop_callback fixed fixed_math 1 answers waiting ≡ some o)
first = flight_loop_callback_ends fixed fixed_math 1 answers waiting waiting_query

Cycles-TakesOnce_example : TakesOnce waiting first.0.state
Cycles-TakesOnce_example =
    Cycles-TakesOnce fixed fixed_math refl (one_more 1 answers first.0 none_yet first.1)

-- X-Plane lacks one data reference.
abbrev no_pitch : DataRef → Bool
no_pitch theta_pitch = false
no_pitch _ = true

flight_loop_callback-missing_example :
    flight_loop_callback fixed fixed_math 1 (answers_with no_pitch) suspended
    ≡ some (record {
      interval = stop;
      state = record suspended { found = no_pitch; has_dataref_cabin_altitude = true };
      writes = [];
    })
flight_loop_callback-missing_example =
    flight_loop_callback-missing fixed fixed_math 1 (answers_with no_pitch) suspended theta_pitch
      refl (λ e. ground arith) refl

abbrev idle : Flight Fixed
idle = flight_of true true (settings_of false false)

flight_loop_callback-idle_example :
    (o : Outcome Fixed) × (flight_loop_callback fixed fixed_math 0 answers idle ≡ some o)
    × (o.interval ≡ call_on_next_frame)
    × IsStill idle o.state
    × All (λ w. target w ≡ override_planepath) o.writes
flight_loop_callback-idle_example =
    flight_loop_callback-idle fixed fixed_math answers idle refl refl refl refl

-- The frame of a second ago is the first of the array, and its slot holds the new frame once that is
-- recorded behind the last one.
abbrev full_history : History Fixed
full_history = record {
  index = 153;
  num = 154;
  frames = frame_at 700 ∷ replicate 151 (frame_at 300) ++ frame_at 300 ∷ frame_at 400 ∷ [];
}

oldest_is_referred_to : reference_index fixed (frame_at 0) full_history (pos 700) ≡ some 0
unfolding reference_index find_previous_boost_frame_by_age search visit choose frame_diff_millis
oldest_is_referred_to = refl

recorded_over :
    dereferenced fixed
      (some 0)
      (record_boost_frame full_history (frame_at 699))
      (some (frame_at 700, pos 1000))
    ≡ some (frame_at 699, pos 1000)
unfolding record_boost_frame
recorded_over = refl

published_ground_speed-IsSame_example :
    IsSame fixed fixed-IsOrdered fixed-IsScaled fixed-IsExact
      (published_ground_speed fixed (whole 140))
      (top_speed fixed fixed-IsOrdered fixed-IsScaled fixed-IsExact)
published_ground_speed-IsSame_example =
    published_ground_speed-IsSame fixed fixed-IsOrdered fixed-IsScaled fixed-IsExact 140
      (omega arith) (omega arith)

-- half a second past, with a buffer of 50 ms
flight_loop_callback_within_example :
    (o : Outcome Fixed) × (flight_loop_callback fixed fixed_math 1 answers waiting ≡ some o)
unfolding find_datarefs begin_cycle update_sim_time_diff override_plane_path expire count_down
    get_millis get_millis_rtc get_millis_sim_run
flight_loop_callback_within_example =
    flight_loop_callback_within fixed fixed_math fixed-IsExact 1 answers waiting 500 (pos 50)
      (pos 0) refl refl refl (omega arith) (omega arith, omega arith) (omega arith, omega arith)
      (omega arith) (omega arith)

-- No frame has been received since the plugin was enabled.
abbrev enabled : Flight Fixed
enabled = flight_of true true (settings_of false true)

enabled_query : QueryEnds fixed 1 answers (after_reset fixed enabled)
unfolding find_datarefs begin_cycle update_sim_time_diff override_plane_path expire count_down
    get_millis get_millis_rtc get_millis_sim_run interpolation_timestamp into_second raise_to_second
    lower_to_second limit_to_second reset_psx_data interpolator_reset
enabled_query = (whole 450, refl)

enabled_known : fixed.is_nan (present fixed answers (after_reset fixed enabled)) ≡ false
unfolding find_datarefs begin_cycle update_sim_time_diff override_plane_path expire count_down
    get_millis get_millis_rtc get_millis_sim_run reset_psx_data interpolator_reset
enabled_known = refl

flight_loop_callback-IsShown_example :
    Returns
      (λ o. IsShown fixed fixed_math answers enabled (frame_at 0) o.writes)
      (flight_loop_callback fixed fixed_math 1 answers (after_reset fixed enabled))
flight_loop_callback-IsShown_example =
    flight_loop_callback-IsShown fixed fixed_math fixed-IsOrdered 1 answers enabled refl refl refl
      refl refl enabled_known enabled_query
