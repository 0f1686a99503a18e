-- ===== src/Plugin/FlightLoop/Ends.antt =====
-- The flight loop ends where its times are whole milliseconds.
use mathlib.Core.Path.{subst}
use psx_xp_mover.Base.{ℕ, Bool, sym, refl, if◌then◌else◌, ◌+◌, ◌*◌, ◌^◌, ◌<◌, ◌≤◌, ◌≡◌, some}
use psx_xp_mover.Base.Int.{ℤ, pos, pos_part, neg_part, ◌-ℤ◌}
use psx_xp_mover.Double.{Double, Math, IsExact}
use psx_xp_mover.Plugin.QueryTime.{interpolation_timestamp}
use psx_xp_mover.Plugin.QueryTime.Second.{residue, interpolation_timestamp_ends}
use psx_xp_mover.Plugin.FlightLoop.{Flight, Answers}
use psx_xp_mover.Plugin.FlightLoop.Callback.{Outcome, flight_loop_callback}
use psx_xp_mover.Plugin.FlightLoop.Rule.{begun, present, QueryEnds, flight_loop_callback_ends}

module _ (d : Double) (m : Math d) (exact : IsExact d) where
  open d use {D, of_int}

  congr_query :
      {now now' buffer buffer' difference difference' : D} (fuel : ℕ) (compensate : Bool)
      → now ≡ now'
      → buffer ≡ buffer'
      → difference ≡ difference'
      → interpolation_timestamp d fuel now buffer compensate difference
        ≡ interpolation_timestamp d fuel now' buffer' compensate difference'
  congr_query fuel compensate e f g = rw (e, f, g) refl

  -- Where the present is a whole millisecond within the second, and the interpolation buffer and the
  -- difference of the clocks are whole numbers of less than 2 ^ 31, a cycle of the flight loop ends:
  -- each of the two loops over seconds needs at most as many rounds as seconds are begun by what is
  -- to be subtracted and to be added.
  pub flight_loop_callback_within :
      (fuel : ℕ) (x : Answers D) (s : Flight D) (now : ℕ) (buffer difference : ℤ)
      → present d x s ≡ of_int (pos now)
      → (begun d x s).settings.interpolation_buffer_millis ≡ of_int buffer
      → (begun d x s).psx.average_psx_time_difference ≡ of_int difference
      → now < 1000
      → (pos_part buffer < 2 ^ 31) × (neg_part buffer < 2 ^ 31)
      → (pos_part difference < 2 ^ 31) × (neg_part difference < 2 ^ 31)
      → pos_part buffer + pos_part difference ≤ 1000 * fuel
      → now + neg_part buffer + neg_part difference ≤ 1000 * fuel
      → (o : Outcome D) × (flight_loop_callback d m fuel x s ≡ some o)
  flight_loop_callback_within fuel x s now buffer difference e f g n b c h k =
      let compensate = (begun d x s).settings.interpolation_compensate_time_difference in
      let over =
        interpolation_timestamp_ends d exact fuel now buffer compensate difference n b c h k in
      let ends : QueryEnds d fuel x s =
        subst (λ r. (t : D) × (r ≡ some t)) (sym (congr_query fuel compensate e f g))
          (
            of_int (
                pos (
                  residue
                    (if compensate then pos now -ℤ buffer -ℤ difference else pos now -ℤ buffer))),
            over,
          ) in
      flight_loop_callback_ends d m fuel x s ends
