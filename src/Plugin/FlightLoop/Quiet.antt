-- ===== src/Plugin/FlightLoop/Quiet.antt =====
-- The cycles of the flight loop that move nothing: without X-Plane's data references, and without
-- anything new.
use mathlib.Core.Path.{subst}
use psx_xp_mover.Base.{
  All, ◌==◌, IsIn, ℕ, ◌≡◌, ◌≢◌, refl, sym, ap, ◌∙◌, arith, Bool, true, false, not, ◌&&◌, inl, inr,
  Option, some, List, [], ◌∷◌, if◌then◌else◌, ◌>>=◌,
}
use psx_xp_mover.Base.Int.{pos, ltb_ℤ}
use psx_xp_mover.Double.{Double, Math}
use psx_xp_mover.Plugin.Countdown.{override_plane_path, expire}
use psx_xp_mover.Plugin.TimeSource.{interpolation_time_source_sim_run}
use psx_xp_mover.Plugin.FlightLoop.{
  DataRef, Write, override_oxygen, override_pressurization, override_planepath, cabin_altitude,
  pilot_felt_altitude, psi_hdg, phi_roll, theta_pitch, local_x, local_y, local_z, local_vx,
  local_vy, local_vz, ground_speed, ground_speed2, ground_contact, total_running_time_sec, Flight,
  Answers, stop, call_on_next_frame,
}
use psx_xp_mover.Plugin.FlightLoop.Setup.{
  required, finds_all, find_datarefs, update_sim_time_diff, begin_cycle,
}
use psx_xp_mover.Plugin.FlightLoop.Frame.{has_debug_override, interpolate_frame, take_frame}
use psx_xp_mover.Plugin.FlightLoop.Callback.{Outcome, finish_cycle, flight_loop_callback}
use psx_xp_mover.Plugin.FlightLoop.Rule.{begun, written}
use psx_xp_mover.Plugin.FlightLoop.Untouched.{begun-IsUntouched}
use psx_xp_mover.Plugin.FlightLoop.Suspended.{target}

and_false : (b : Bool) → (b && false) ≡ false
and_false true = refl
and_false false = refl

unlocked_branch :
    {A : Type 0} (initialized locks : Bool) (a b c : A)
    → initialized ≡ true
    → c ≡ b
    → (if not initialized then a else if not locks then b else c) ≡ b
unlocked_branch true true a b c h e = e
unlocked_branch true false a b c h e = refl
unlocked_branch false locks a b c h e = cc

finds_all-missing :
    (finds : DataRef → Bool) (r : DataRef) (rs : List DataRef)
    → IsIn r rs
    → finds r ≡ false
    → finds_all finds rs ≡ false
unfolding finds_all
finds_all-missing finds r [] i h = elim i [ ]
finds_all-missing finds r (q ∷ qs) (inl e) h = rw (ap finds (sym e) ∙ h) refl
finds_all-missing finds r (q ∷ qs) (inr i) h =
    rw (finds_all-missing finds r qs i h) (and_false (finds q))

-- The plugin can do without the cabin altitude alone.
is_required : (r : DataRef) → r ≢ cabin_altitude → IsIn r required
is_required cabin_altitude h = absurd (h refl)
is_required override_oxygen h = ground arith
is_required override_pressurization h = ground arith
is_required override_planepath h = ground arith
is_required pilot_felt_altitude h = ground arith
is_required psi_hdg h = ground arith
is_required phi_roll h = ground arith
is_required theta_pitch h = ground arith
is_required local_x h = ground arith
is_required local_y h = ground arith
is_required local_z h = ground arith
is_required local_vx h = ground arith
is_required local_vy h = ground arith
is_required local_vz h = ground arith
is_required ground_speed h = ground arith
is_required ground_speed2 h = ground arith
is_required ground_contact h = ground arith
is_required total_running_time_sec h = ground arith

-- What a cycle counts at its start has changed: its countdowns, and what they renew. The frame and
-- whether it is applied, the history, the interpolators, the fractions, the speed, the position that is
-- exposed, the settings and all other variables are the same.
abbrev pub IsStill : {V : Type 0} → Flight V → Flight V → Type 0
IsStill s t = t ≡ record s {
  cycles_to_override_plane_path = t.cycles_to_override_plane_path;
  cycles_to_update_sim_time_diff = t.cycles_to_update_sim_time_diff;
  terrain = t.terrain;
  psx = record s.psx { average_psx_time_difference = t.psx.average_psx_time_difference };
}

module _ (d : Double) (m : Math d) where
  open d use {D}

  find_datarefs-missing :
      (x : Answers D) (s : Flight D)
      → s.datarefs_initialized ≡ false
      → finds_all x.finds required ≡ false
      → find_datarefs d x s
        ≡ record s { found = x.finds; has_dataref_cabin_altitude = x.finds cabin_altitude }
  unfolding find_datarefs
  find_datarefs-missing x s uninitialized h = rw (uninitialized, h) refl

  -- As long as any of X-Plane's data references but the cabin altitude is missing, a cycle writes nothing,
  -- keeps all variables but the pointers to these data references and the flag of the cabin altitude,
  -- and asks not to be called again.
  pub flight_loop_callback-missing :
      (fuel : ℕ) (x : Answers D) (s : Flight D) (r : DataRef)
      → s.datarefs_initialized ≡ false
      → r ≢ cabin_altitude
      → x.finds r ≡ false
      → flight_loop_callback d m fuel x s
        ≡ some (record {
          interval = stop;
          state = record s { found = x.finds; has_dataref_cabin_altitude = x.finds cabin_altitude };
          writes = [];
        })
  unfolding flight_loop_callback
  flight_loop_callback-missing fuel x s r uninitialized other h =
      rw
        (
          find_datarefs-missing x s uninitialized
              (finds_all-missing x.finds r required (is_required r other) h),
          uninitialized,
        )
        refl

  pub initialized_find :
      (x : Answers D) (s : Flight D)
      → s.datarefs_initialized ≡ true
      → (find_datarefs d x s).datarefs_initialized ≡ true
  unfolding find_datarefs
  initialized_find x s h = ground arith

  if-IsStill :
      (b : Bool) (s t u : Flight D) → IsStill s t → IsStill s u → IsStill s (if b then t else u)
  if-IsStill true s t u h k = h
  if-IsStill false s t u h k = k

  update-IsStill : (x : Answers D) (s : Flight D) → IsStill s (update_sim_time_diff d x s)
  unfolding update_sim_time_diff
  update-IsStill x s =
      if-IsStill (s.psx.interpolation_time_source == interpolation_time_source_sim_run) s _ s
        (if-IsStill (ltb_ℤ (pos 0) s.cycles_to_update_sim_time_diff) s _ _ refl refl) refl

  begin-IsStill : (x : Answers D) (s : Flight D) → IsStill s (begin_cycle d x s)
  unfolding begin_cycle
  begin-IsStill x s =
      let counted = record s {
        cycles_to_override_plane_path = (override_plane_path s.cycles_to_override_plane_path).1;
      } in
      let timed = update_sim_time_diff d x counted in
      ap {A = Flight D} (λ r. record r { terrain = expire timed.terrain })
        (update-IsStill x counted)

  find_datarefs-initialized :
      (x : Answers D) (s : Flight D) → s.datarefs_initialized ≡ true → find_datarefs d x s ≡ s
  unfolding find_datarefs
  find_datarefs-initialized x s h = rw h refl

  begun-IsStill :
      (x : Answers D) (s : Flight D) → s.datarefs_initialized ≡ true → IsStill s (begun d x s)
  begun-IsStill x s h =
      subst (λ t. IsStill s (begin_cycle d x t)) (sym (find_datarefs-initialized x s h))
        (begin-IsStill x s)

  written-override :
      (x : Answers D) (s : Flight D) → All (λ w. target w ≡ override_planepath) (written d m x s)
  written-override x s = ground arith

  interpolate_frame-off :
      (x : Answers D) (b : Flight D)
      → b.settings.interpolate ≡ false
      → interpolate_frame d 0 x (take_frame d b) ≡ some (take_frame d b)
  unfolding interpolate_frame
  interpolate_frame-off x b h = rw h refl

  finish_cycle-idle :
      (x : Answers D) (b : Flight D) (ws : List (Write D))
      → b.psx.boost_frame_applied ≡ true
      → has_debug_override d b ≡ false
      → finish_cycle d m x ws (take_frame d b)
        ≡ record { interval = call_on_next_frame; state = b; writes = ws }
  unfolding finish_cycle
  finish_cycle-idle x b ws applied off = rw (applied, off) refl

  idle_outcome :
      (x : Answers D) (s : Flight D)
      → s.datarefs_initialized ≡ true
      → s.psx.boost_frame_applied ≡ true
      → s.settings.interpolate ≡ false
      → has_debug_override d s ≡ false
      → flight_loop_callback d m 0 x s
        ≡ some (record {
          interval = call_on_next_frame;
          state = begun d x s;
          writes = written d m x s;
        })
  unfolding flight_loop_callback
  idle_outcome x s initialized applied off unspun =
      let b = begun d x s in
      let u = begun-IsUntouched d x s in
      let still_off : b.settings.interpolate ≡ false = rw u.same_settings off in
      let still_unspun : has_debug_override d b ≡ false = rw u.same_settings unspun in
      let idle : Outcome D = record {
        interval = call_on_next_frame;
        state = b;
        writes = written d m x s;
      } in
      let stopped : Outcome D = record {
        interval = stop;
        state = find_datarefs d x s;
        writes = [];
      } in
      let locked : Option (Outcome D) =
        interpolate_frame d 0 x (take_frame d b)
        >>= (λ taken. some (finish_cycle d m x (written d m x s) taken)) in
      let over : locked ≡ some idle = rw (interpolate_frame-off x b still_off) (
        ap some
          (finish_cycle-idle x b (written d m x s) (u.same_applied ∙ applied) still_unspun)) in
      unlocked_branch (find_datarefs d x s).datarefs_initialized x.locks (some stopped) (some idle)
        locked (initialized_find x s initialized) over

  -- A cycle with X-Plane's data references at hand, in which no frame is new, and neither interpolation
  -- nor spinning is asked for, ends without fuel and is to be called on the next frame. It writes to no
  -- data reference but the override of the plane path, and changes no variable but the countdowns of
  -- the override, of the time difference and of the terrain elevation, and the time difference and the
  -- elevation themselves.
  pub flight_loop_callback-idle :
      (x : Answers D) (s : Flight D)
      → s.datarefs_initialized ≡ true
      → s.psx.boost_frame_applied ≡ true
      → s.settings.interpolate ≡ false
      → has_debug_override d s ≡ false
      → (o : Outcome D) × (flight_loop_callback d m 0 x s ≡ some o)
        × (o.interval ≡ call_on_next_frame)
        × IsStill s o.state
        × All (λ w. target w ≡ override_planepath) o.writes
  flight_loop_callback-idle x s initialized applied off unspun = (
    record { interval = call_on_next_frame; state = begun d x s; writes = written d m x s },
    idle_outcome x s initialized applied off unspun,
    refl,
    begun-IsStill x s initialized,
    written-override x s,
  )
