-- ===== src/Plugin/FlightLoop/Stale.antt =====
-- What a cycle does with a frame that counts as applied, where the interpolators have nothing: behind
-- a reset of the received data, as when the plugin is enabled or the connection is lost.
use mathlib.Core.Path.{subst}
use psx_xp_mover.Base.{
  ℕ, ◌≡◌, refl, sym, ap, ◌∙◌, arith, Bool, true, false, not, Option, none, some, List,
  if◌then◌else◌, ◌>>=◌,
}
use psx_xp_mover.Double.{Double, Math, IsOrdered}
use psx_xp_mover.Interpolation.{Interpolator, interpolator_reset, interpolator_calculate, calculate}
use psx_xp_mover.Plugin.Receive.{PsxData, reset_psx_data}
use psx_xp_mover.Plugin.Countdown.{override_plane_path}
use psx_xp_mover.Plugin.FlightLoop.{Write, Flight, Answers}
use psx_xp_mover.Plugin.FlightLoop.Setup.{
  rtc_millis, sim_run_millis, find_datarefs, update_sim_time_diff, begin_cycle,
}
use psx_xp_mover.Plugin.FlightLoop.Frame.{
  Values, Taken, has_debug_override, no_values, calculate_values, take_frame, interpolate_frame,
}
use psx_xp_mover.Plugin.FlightLoop.Callback.{Outcome, finish_cycle, flight_loop_callback}
use psx_xp_mover.Plugin.FlightLoop.Untouched.{begun-IsUntouched}
use psx_xp_mover.Plugin.FlightLoop.Quiet.{initialized_find}
use psx_xp_mover.Plugin.TimeSource.{get_millis}
use psx_xp_mover.Plugin.FlightLoop.Rule.{
  Returns, begun, present, query, QueryEnds, taken_with, written,
}
use psx_xp_mover.Plugin.FlightLoop.Shown.{
  IsShown, append-IsShown, IsShown-settings, apply_frame-IsShown,
}

module _ (d : Double) where
  open d use {D, nan, is_nan, add, sub, mul}

  calculate-reset :
      (i : Option (Interpolator D)) (t : D)
      → interpolator_calculate d (interpolator_reset d i) t ≡ nan
  unfolding interpolator_calculate interpolator_reset calculate
  calculate-reset none t = refl
  calculate-reset (some i) t = refl

  calculate_values-reset :
      (p : PsxData D) (t : D)
      → calculate_values d (reset_psx_data d true p).channels t ≡ no_values d
  unfolding calculate_values reset_psx_data
  calculate_values-reset p t =
      let c = p.channels in
      rw
        (
          calculate-reset c.flight_deck_latitude t,
          calculate-reset c.flight_deck_longitude t,
          calculate-reset c.psx_elevation_msl_meters t,
          calculate-reset c.heading_true_degrees t,
          calculate-reset c.pitch_degrees t,
          calculate-reset c.bank_degrees t,
        )
        refl

  pub channels-find :
      (x : Answers D) (s : Flight D) → (find_datarefs d x s).psx.channels ≡ s.psx.channels
  unfolding find_datarefs
  channels-find x s = ground arith

  channels-update :
      (x : Answers D) (s : Flight D) → (update_sim_time_diff d x s).psx.channels ≡ s.psx.channels
  unfolding update_sim_time_diff
  channels-update x s = ground arith

  pub channels-begun : (x : Answers D) (s : Flight D) → (begun d x s).psx.channels ≡ s.psx.channels
  unfolding begin_cycle
  channels-begun x s =
      let found = find_datarefs d x s in
      channels-update x (record found {
        cycles_to_override_plane_path = (override_plane_path found.cycles_to_override_plane_path).1;
      })
      ∙ channels-find x s

  abbrev pub after_reset : Flight D → Flight D
  after_reset s = record s { psx = reset_psx_data d true s.psx }

  boost_frame-reset : (p : PsxData D) → (reset_psx_data d true p).boost_frame ≡ p.boost_frame
  unfolding reset_psx_data
  boost_frame-reset p = refl

  module _ (m : Math d) where
    -- a cycle that interpolates
    interpolate_frame-on :
        (fuel : ℕ) (x : Answers D) (s : Flight D) (t : D)
        → (begun d x s).settings.interpolate ≡ true
        → has_debug_override d (begun d x s) ≡ false
        → is_nan (present d x s) ≡ false
        → query d fuel x s ≡ some t
        → (source : ℕ) × (interpolate_frame d fuel x (take_frame d (begun d x s))
            ≡ some (
                taken_with d
                  (begun d x s)
                  source
                  true
                  (calculate_values d (begun d x s).psx.channels t)))
    unfolding interpolate_frame
    interpolate_frame-on fuel x s t on unspun known e =
        let b = begun d x s in
        let source =
          (get_millis d (rtc_millis d x) (sim_run_millis d x b)
            b.psx.interpolation_time_source).1 in
        (source, rw (on, unspun, known, e) refl)

    finish_cycle-IsShown :
        (ordered : IsOrdered d) (x : Answers D) (b : Flight D) (ws : List (Write D)) (source : ℕ)
        (v : Values D)
        → v ≡ no_values d
        → has_debug_override d b ≡ false
        → b.settings.suspend_injection ≡ false
        → IsShown d m x b b.psx.boost_frame
            (finish_cycle d m x ws (taken_with d b source true v)).writes
    unfolding finish_cycle
    finish_cycle-IsShown ordered x b ws source v e unspun active =
        let taken = taken_with d b source true v in
        IsShown-settings d m x b taken.state b.psx.boost_frame _ refl (
          append-IsShown d m x taken.state taken.frame ws _
            (apply_frame-IsShown d m ordered x taken e unspun active))

    stale_branch :
        (P : Outcome D → Type 0) (initialized locks : Bool) (a b : Option (Outcome D))
        (r : Option (Taken D)) (t : Taken D) (f : Taken D → Outcome D)
        → initialized ≡ true
        → locks ≡ true
        → r ≡ some t
        → P (f t)
        → Returns P (
            if not initialized
            then a
            else if not locks
            then b
            else (r >>= (λ taken. some (f taken))))
    stale_branch P true true a b r t f h k e p =
        subst (λ q. Returns P (q >>= (λ taken. some (f taken)))) (sym e) p
    stale_branch P true false a b r t f h k e p = cc
    stale_branch P false locks a b r t f h k e p = cc

    -- Behind a reset of the received data, as when the plugin is enabled and before PSX sends its first
    -- frame, a cycle that interpolates and may inject moves the aircraft to the frame that is stored,
    -- also where that frame is marked as applied: the interpolators have no values, and the
    -- attitude and the lateral position that are written are those of the stored frame.
    pub flight_loop_callback-IsShown :
        (ordered : IsOrdered d) (fuel : ℕ) (x : Answers D) (s : Flight D)
        → s.datarefs_initialized ≡ true
        → x.locks ≡ true
        → s.settings.interpolate ≡ true
        → has_debug_override d s ≡ false
        → s.settings.suspend_injection ≡ false
        → is_nan (present d x (after_reset s)) ≡ false
        → QueryEnds d fuel x (after_reset s)
        → Returns
            (λ o. IsShown d m x s s.psx.boost_frame o.writes)
            (flight_loop_callback d m fuel x (after_reset s))
    unfolding flight_loop_callback
    flight_loop_callback-IsShown ordered fuel x s initialized locks on unspun active known (t, e) =
        let r = after_reset s in
        let b = begun d x r in
        let u = begun-IsUntouched d x r in
        let same : b.settings ≡ s.settings = u.same_settings in
        let still_unspun : has_debug_override d b ≡ false = rw same unspun in
        let (source, interpolated) =
          interpolate_frame-on fuel x r t (ap (λ c. c.interpolate) same ∙ on) still_unspun known
            e in
        let empty : calculate_values d b.psx.channels t ≡ no_values d =
          ap (λ c. calculate_values d c t) (channels-begun x r) ∙ calculate_values-reset s.psx t in
        let outcome =
          finish_cycle d m x (written d m x r)
            (taken_with d b source true (calculate_values d b.psx.channels t)) in
        let shown : IsShown d m x b b.psx.boost_frame outcome.writes =
          finish_cycle-IsShown ordered x b (written d m x r) source _ empty still_unspun
            (ap (λ c. c.suspend_injection) same ∙ active) in
        stale_branch (λ o. IsShown d m x s s.psx.boost_frame o.writes)
          (find_datarefs d x r).datarefs_initialized x.locks _ _ _ _
          (finish_cycle d m x (written d m x r)) (initialized_find d m x r initialized) locks
          interpolated
          (IsShown-settings d m x s b s.psx.boost_frame outcome.writes same (
            subst (λ f. IsShown d m x b f outcome.writes) (u.same_frame ∙ boost_frame-reset s.psx)
              shown))
