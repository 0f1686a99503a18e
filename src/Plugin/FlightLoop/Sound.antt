-- ===== src/Plugin/FlightLoop/Sound.antt =====
-- In every state of the plugin that can be reached, the indices of all of its rings and records are in
-- range, and its counters are within their limits.
pub mod Cycle
use psx_xp_mover.Base.{
  ℕ, ◌≡◌, refl, not, ◌==◌, arith, Bool, true, false, Bool-cases, inl, inr, Option, none, some, List,
  if◌then◌else◌,
}
use psx_xp_mover.Base.Int.{ℤ, pos, negsuc, ◌≤ℤ◌, ◌-ℤ◌, ltb_ℤ}
use psx_xp_mover.Double.{Double, Math}
use psx_xp_mover.Psx.Frame.{BoostFrame}
use psx_xp_mover.Psx.Received.{psx_recalculate_boost_frame}
use psx_xp_mover.Plugin.History.{History, record_boost_frame}
use psx_xp_mover.Plugin.TimeSource.{interpolation_time_source_sim_run}
use psx_xp_mover.Plugin.Blending.{
  Fractions, update_ground_contact_cycles, record_raw_elevation_blending_fraction,
}
use psx_xp_mover.Plugin.Countdown.{Terrain, count_down, override_plane_path, expire}
use psx_xp_mover.Plugin.Receive.{PsxData}
use psx_xp_mover.Plugin.Receive.Sound.{
  IsSoundData, HasIndexedHistory, HasIndexedFractions, record_fraction-HasIndexedFractions,
  handle-IsSoundData,
}
use psx_xp_mover.Plugin.FlightLoop.{Settings, Flight, ProbeInfo, Answers, Write}
use psx_xp_mover.Plugin.FlightLoop.Setup.{find_datarefs, update_sim_time_diff, begin_cycle}
use psx_xp_mover.Plugin.FlightLoop.Frame.{Values, Taken, override_frame, values_to_apply}
use psx_xp_mover.Plugin.FlightLoop.Elevation.{
  update_fractions, probe_terrain, take_probe, place, adjust_elevation,
}
use psx_xp_mover.Plugin.FlightLoop.Callback.{
  Outcome, expose, exchange, read_back, move, apply_frame, finish_cycle, flight_loop_callback,
}
use psx_xp_mover.Plugin.FlightLoop.Rule.{begun, taken_with, written, flight_loop_callback_outcome}
use psx_xp_mover.Plugin.FlightLoop.Run.{
  Step, call_back, cycle, set_settings, set_time_source, Reach, here, next,
}

abbrev pub Within : ℤ → ℤ → ℤ → Type 0
Within low high a = (low ≤ℤ a) × (a ≤ℤ high)

pub record IsSound {V : Type 0} (s : Flight V) : Type 0 where
  pub received : IsSoundData s.psx
  pub contact_in : Within (pos 0) (pos 120) s.ground_contact_cycles
  pub override_in : Within (negsuc 0) (pos 10) s.cycles_to_override_plane_path
  pub sim_time_in : Within (pos 0) (pos 500) s.cycles_to_update_sim_time_diff
  pub terrain_in : Within (negsuc 0) (pos 1800) s.terrain.remaining_cycles

count_down-Within :
    (top : ℕ) (c : ℤ) → Within (negsuc 0) (pos top) c → Within (negsuc 0) (pos top) (count_down c)
unfolding count_down ◌-ℤ◌
count_down-Within top c w = ground arith

pub contact-Within :
    (b : Bool) (c : ℤ) → Within (pos 0) (pos 120) (update_ground_contact_cycles b c)
unfolding update_ground_contact_cycles
contact-Within b c = ground arith

pub history_if :
    {V : Type 0} (b : Bool) (h k : History V)
    → HasIndexedHistory h
    → HasIndexedHistory k
    → HasIndexedHistory (if b then h else k)
history_if true h k v w = v
history_if false h k v w = w

pub fractions_if :
    {V : Type 0} (b : Bool) (f g : Fractions V)
    → HasIndexedFractions f
    → HasIndexedFractions g
    → HasIndexedFractions (if b then f else g)
fractions_if true f g v w = v
fractions_if false f g v w = w

module _ (d : Double) where
  open d use {D}

  pub choice-IsSound :
      (b : Bool) (s t : Flight D) → IsSound s → IsSound t → IsSound (if b then s else t)
  choice-IsSound true s t v w = v
  choice-IsSound false s t v w = w

  guarded-IsSound :
      (b : Bool) (s t : Flight D)
      → (b ≡ true → IsSound s)
      → IsSound t
      → IsSound (if b then s else t)
  guarded-IsSound true s t v w = v refl
  guarded-IsSound false s t v w = w

  pub pair-IsSound :
      {W : Type 0} (b : Bool) (q r : Flight D × W)
      → IsSound q.0
      → IsSound r.0
      → IsSound (if b then q else r).0
  pair-IsSound true q r v w = v
  pair-IsSound false q r v w = w

  pub find-IsSound : (x : Answers D) (s : Flight D) → IsSound s → IsSound (find_datarefs d x s)
  unfolding find_datarefs
  find-IsSound x s w = choice-IsSound s.datarefs_initialized s _ w (record {
    received = w.received;
    contact_in = w.contact_in;
    override_in = w.override_in;
    sim_time_in = w.sim_time_in;
    terrain_in = w.terrain_in;
  })

  -- the source of the time and the time difference are of no account
  pub timed-IsSoundData :
      (p : PsxData D) (n : ℕ) (t : D) (b : Bool)
      → IsSoundData p
      → IsSoundData (record p {
        interpolation_time_source = n;
        average_psx_time_difference = t;
        boost_frame_applied = b;
      })
  timed-IsSoundData p n t b w = record {
    history = w.history;
    channels = w.channels;
    differences = w.differences;
    fractions = w.fractions;
  }

  -- the counter is above 0 before it is counted down
  counted-IsSound :
      (s : Flight D)
      → IsSound s
      → ltb_ℤ (pos 0) s.cycles_to_update_sim_time_diff ≡ true
      → IsSound
          (record s { cycles_to_update_sim_time_diff = s.cycles_to_update_sim_time_diff -ℤ pos 1 })
  unfolding ◌-ℤ◌
  counted-IsSound s w h = record {
    received = w.received;
    contact_in = w.contact_in;
    override_in = w.override_in;
    sim_time_in = ground arith;
    terrain_in = w.terrain_in;
  }

  update-IsSound : (x : Answers D) (s : Flight D) → IsSound s → IsSound (update_sim_time_diff d x s)
  unfolding update_sim_time_diff ◌-ℤ◌
  update-IsSound x s w =
      choice-IsSound (s.psx.interpolation_time_source == interpolation_time_source_sim_run) _ _
        (guarded-IsSound (ltb_ℤ (pos 0) s.cycles_to_update_sim_time_diff) _ _ (counted-IsSound s w)
          (record {
            received =
                timed-IsSoundData s.psx s.psx.interpolation_time_source _ s.psx.boost_frame_applied
                  w.received;
            contact_in = w.contact_in;
            override_in = w.override_in;
            sim_time_in = (omega arith, omega arith);
            terrain_in = w.terrain_in;
          }))
        w

  expire-IsSound : (s : Flight D) → IsSound s → IsSound (record s { terrain = expire s.terrain })
  unfolding expire
  expire-IsSound s w = record {
    received = w.received;
    contact_in = w.contact_in;
    override_in = w.override_in;
    sim_time_in = w.sim_time_in;
    terrain_in = count_down-Within 1800 s.terrain.remaining_cycles w.terrain_in;
  }

  pub begin-IsSound : (x : Answers D) (s : Flight D) → IsSound s → IsSound (begin_cycle d x s)
  unfolding begin_cycle override_plane_path
  begin-IsSound x s w =
      let counted : IsSound (record s {
        cycles_to_override_plane_path = (override_plane_path s.cycles_to_override_plane_path).1;
      }) =
        record {
          received = w.received;
          contact_in = w.contact_in;
          override_in = count_down-Within 10 s.cycles_to_override_plane_path w.override_in;
          sim_time_in = w.sim_time_in;
          terrain_in = w.terrain_in;
        } in
      expire-IsSound _ (update-IsSound x _ counted)

  pub take-IsSound :
      (b : Flight D) (source : ℕ) (is_new : Bool) (v : Values D)
      → IsSound b
      → IsSound (taken_with d b source is_new v).state
  take-IsSound b source is_new v w = record {
    received = timed-IsSoundData b.psx source b.psx.average_psx_time_difference true w.received;
    contact_in = w.contact_in;
    override_in = w.override_in;
    sim_time_in = w.sim_time_in;
    terrain_in = w.terrain_in;
  }

  pub settings-IsSound :
      (c : Settings D) (s : Flight D) → IsSound s → IsSound (record s { settings = c })
  settings-IsSound c s w = record {
    received = w.received;
    contact_in = w.contact_in;
    override_in = w.override_in;
    sim_time_in = w.sim_time_in;
    terrain_in = w.terrain_in;
  }

  pub source-IsSound :
      (n : ℕ) (s : Flight D)
      → IsSound s
      → IsSound (record s { psx = record s.psx { interpolation_time_source = n } })
  source-IsSound n s w = record {
    received =
        timed-IsSoundData s.psx n s.psx.average_psx_time_difference s.psx.boost_frame_applied
          w.received;
    contact_in = w.contact_in;
    override_in = w.override_in;
    sim_time_in = w.sim_time_in;
    terrain_in = w.terrain_in;
  }
