-- ===== src/Plugin/FlightLoop/Rule.antt =====
-- When `flight_loop_callback` ends, and a rule for what holds of its outcome.
use mathlib.Core.Path.{subst}
use psx_xp_mover.Base.{
  ℕ, ◌≡◌, refl, Bool, true, false, not, ◌&&◌, ◌||◌, ◌⊎◌, Option-cases, Bool-cases, inl, inr, Option,
  none, some, List, [], if◌then◌else◌, ◌>>=◌,
}
use psx_xp_mover.Double.{Double, Math}
use psx_xp_mover.Plugin.QueryTime.{interpolation_timestamp}
use psx_xp_mover.Plugin.TimeSource.{get_millis}
use psx_xp_mover.Plugin.FlightLoop.{Write, Flight, Answers, call_on_next_frame, stop}
use psx_xp_mover.Plugin.FlightLoop.Setup.{
  rtc_millis, sim_run_millis, find_datarefs, override_writes, begin_cycle,
}
use psx_xp_mover.Plugin.FlightLoop.Frame.{
  Values, Taken, take_frame, has_debug_override, no_values, calculate_values, interpolate_frame,
}
use psx_xp_mover.Plugin.FlightLoop.Callback.{Outcome, finish_cycle, flight_loop_callback}

-- A predicate of the outcome, and a statement where there is none.
abbrev pub OnResult : {A : Type 0} → Type 0 → (A → Type 0) → Option A → Type 0
OnResult N P none = N
OnResult N P (some a) = P a

-- The call ends, with an outcome of which the predicate holds.
abbrev pub Returns : {A : Type 0} → (A → Type 0) → Option A → Type 0
Returns P r = OnResult ⊥ P r

OnResult-if :
    {A : Type 0} (N : Type 0) (P : A → Type 0) (b : Bool) (r r' : Option A)
    → OnResult N P r
    → OnResult N P r'
    → OnResult N P (if b then r else r')
OnResult-if N P true r r' h k = h
OnResult-if N P false r r' h k = k

module _ (d : Double) where
  open d use {D, is_nan}

  -- the state in which the time to query is calculated
  abbrev pub begun : Answers D → Flight D → Flight D
  begun x s = begin_cycle d x (find_datarefs d x s)

  -- the time that the source of a cycle tells
  abbrev pub present : Answers D → Flight D → D
  present x s =
      let b = begun x s in
      (get_millis d (rtc_millis d x) (sim_run_millis d x b) b.psx.interpolation_time_source).0

  -- the loops of the time to query end with the fuel
  abbrev pub query : ℕ → Answers D → Flight D → Option D
  query fuel x s =
      let b = begun x s in
      interpolation_timestamp d fuel
        (get_millis d (rtc_millis d x) (sim_run_millis d x b) b.psx.interpolation_time_source).0
        b.settings.interpolation_buffer_millis b.settings.interpolation_compensate_time_difference
        b.psx.average_psx_time_difference

  abbrev pub QueryEnds : ℕ → Answers D → Flight D → Type 0
  QueryEnds fuel x s = (t : D) × (query fuel x s ≡ some t)

  -- what is taken in a state: the source of the time, and the values, may be new
  abbrev pub taken_with : Flight D → ℕ → Bool → Values D → Taken D
  taken_with b source is_new v = record {
    frame = b.psx.boost_frame;
    is_new_boost_frame = not b.psx.boost_frame_applied;
    is_new = is_new;
    interpolated = v;
    state = record b {
      psx = record b.psx { boost_frame_applied = true; interpolation_time_source = source };
    };
  }

  -- a frame that is not applied yet counts as new
  abbrev pub IsFresh : Flight D → Bool → Type 0
  IsFresh b is_new = b.psx.boost_frame_applied ≡ false → is_new ≡ true

  fresh_or : (applied override : Bool) → applied ≡ false → (not applied || override) ≡ true
  fresh_or applied override h = rw h refl

  -- what can be taken, with the time to query known to end or not
  abbrev pub Takes : Answers D → Flight D → Option (Taken D) → Type 0
  Takes x s r =
      (source : ℕ) × (is_new : Bool) × (v : Values D) × IsFresh (begun x s) is_new
      × (r ≡ some (taken_with (begun x s) source is_new v))

  interpolate_frame_cases :
      (fuel : ℕ) (x : Answers D) (s : Flight D)
      → (Takes x s (interpolate_frame d fuel x (take_frame d (begun x s))))
        ⊎ ((query fuel x s ≡ none) × (interpolate_frame d fuel x (take_frame d (begun x s)) ≡ none))
  unfolding interpolate_frame
  interpolate_frame_cases fuel x s =
      let b = begun x s in
      let (now, source) =
        get_millis d (rtc_millis d x) (sim_run_millis d x b) b.psx.interpolation_time_source in
      let spun = has_debug_override d b in
      let fresh = not b.psx.boost_frame_applied || spun in
      let is_fresh = fresh_or b.psx.boost_frame_applied spun in
      elim (Bool-cases (b.settings.interpolate && not spun)) [
        | inr off ↦ inl (b.psx.interpolation_time_source, fresh, no_values d, is_fresh, rw off refl)
        | inl on ↦ elim (Bool-cases (is_nan now)) [
          | inl unknown ↦ inl (source, fresh, no_values d, is_fresh, rw (on, unknown) refl)
          | inr known ↦ elim (Option-cases (query fuel x s)) [
            | inl endless ↦ inr (endless, rw (on, known, endless) refl)
            | inr (t, e) ↦ inl (
              source,
              true,
              calculate_values d b.psx.channels t,
              λ _. refl,
              rw (on, known, e) refl,
            )
          ]
        ]
      ]

  module _ (m : Math d) where
    abbrev pub written : Answers D → Flight D → List (Write D)
    written x s = override_writes d (find_datarefs d x s).cycles_to_override_plane_path

    -- What holds of a cycle without X-Plane's data references, of one in which the mutex cannot be
    -- locked, and of one that takes the frame, holds of each cycle that ends.
    module _ (P : Outcome D → Type 0) (fuel : ℕ) (x : Answers D) (s : Flight D)
        (stopped : P (record { interval = stop; state = find_datarefs d x s; writes = [] }))
        (unlocked : P
          (record { interval = call_on_next_frame; state = begun x s; writes = written x s }))
        (finished : (source : ℕ) (is_new : Bool) (v : Values D)
          → IsFresh (begun x s) is_new
          → P (finish_cycle d m x (written x s) (taken_with (begun x s) source is_new v))) where
      rule :
          (N : Type 0)
          → (query fuel x s ≡ none → N)
          → OnResult N P (flight_loop_callback d m fuel x s)
      unfolding flight_loop_callback
      rule N endless =
          let found = find_datarefs d x s in
          let stop_outcome : Outcome D = record { interval = stop; state = found; writes = [] } in
          let unlocked_outcome : Outcome D = record {
            interval = call_on_next_frame;
            state = begun x s;
            writes = written x s;
          } in
          let locked : Option (Outcome D) =
            interpolate_frame d fuel x (take_frame d (begun x s))
            >>= (λ taken. some (finish_cycle d m x (written x s) taken)) in
          let ends : OnResult N P locked = elim (interpolate_frame_cases fuel x s) [
            | inl (source, is_new, v, is_fresh, e) ↦ rw e (finished source is_new v is_fresh)
            | inr (never, e) ↦ rw e (endless never)
          ] in
          OnResult-if N P (not found.datarefs_initialized) (some stop_outcome)
            (if not x.locks then some unlocked_outcome else locked) stopped
            (OnResult-if N P (not x.locks) (some unlocked_outcome) locked unlocked ends)

      pub flight_loop_callback-Returns :
          QueryEnds fuel x s → Returns P (flight_loop_callback d m fuel x s)
      flight_loop_callback-Returns ends = rule ⊥ (λ e. cc (ends.1))

      pub flight_loop_callback_outcome :
          {o : Outcome D} → flight_loop_callback d m fuel x s ≡ some o → P o
      flight_loop_callback_outcome e = subst (OnResult (Unit {0}) P) e (rule (Unit {0}) (λ _. tt))

    -- Where the loops of the time to query end, the flight loop ends.
    pub flight_loop_callback_ends :
        (fuel : ℕ) (x : Answers D) (s : Flight D)
        → QueryEnds fuel x s
        → (o : Outcome D) × (flight_loop_callback d m fuel x s ≡ some o)
    flight_loop_callback_ends fuel x s ends =
        let over =
          flight_loop_callback-Returns (λ _. Unit {0}) fuel x s tt tt (λ _ _ _ _. tt) ends in
        elim (Option-cases (flight_loop_callback d m fuel x s)) [
          | inl never ↦ absurd (subst (Returns (λ _. Unit {0})) never over)
          | inr found ↦ found
        ]
