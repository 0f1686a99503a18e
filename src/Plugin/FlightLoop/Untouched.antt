-- ===== src/Plugin/FlightLoop/Untouched.antt =====
-- What the parts of a cycle leave alone: the frame, whether it is applied, the history and the settings.
use psx_xp_mover.Base.{◌≡◌, refl, ◌∙◌, arith, Bool}
use psx_xp_mover.Double.{Double, Math}
use psx_xp_mover.Psx.Frame.{BoostFrame}
use psx_xp_mover.Plugin.Countdown.{override_plane_path}
use psx_xp_mover.Plugin.FlightLoop.{Flight, Answers}
use psx_xp_mover.Plugin.FlightLoop.Setup.{find_datarefs, update_sim_time_diff, begin_cycle}
use psx_xp_mover.Plugin.FlightLoop.Frame.{Values, Taken, override_frame, values_to_apply}
use psx_xp_mover.Plugin.FlightLoop.Elevation.{
  update_fractions, probe_terrain, place, adjust_elevation,
}
use psx_xp_mover.Plugin.FlightLoop.Callback.{exchange, read_back, move, apply_frame}
use psx_xp_mover.Plugin.FlightLoop.Rule.{begun}

-- Nothing has become of the frame and the history.
pub record IsUntouched {V : Type 0} (s t : Flight V) : Type 0 where
  pub same_frame : t.psx.boost_frame ≡ s.psx.boost_frame
  pub same_applied : t.psx.boost_frame_applied ≡ s.psx.boost_frame_applied
  pub same_history : t.psx.history ≡ s.psx.history
  pub same_settings : t.settings ≡ s.settings

module _ {V : Type 0} where
  pub IsUntouched-trans : (s t u : Flight V) → IsUntouched s t → IsUntouched t u → IsUntouched s u
  IsUntouched-trans s t u v w = record {
    same_frame = w.same_frame ∙ v.same_frame;
    same_applied = w.same_applied ∙ v.same_applied;
    same_history = w.same_history ∙ v.same_history;
    same_settings = w.same_settings ∙ v.same_settings;
  }

module _ (d : Double) where
  open d use {D}

  pub find-IsUntouched : (x : Answers D) (s : Flight D) → IsUntouched s (find_datarefs d x s)
  unfolding find_datarefs
  find-IsUntouched x s = record {
    same_frame = ground arith;
    same_applied = ground arith;
    same_history = ground arith;
    same_settings = ground arith;
  }

  update-IsUntouched : (x : Answers D) (s : Flight D) → IsUntouched s (update_sim_time_diff d x s)
  unfolding update_sim_time_diff
  update-IsUntouched x s = record {
    same_frame = ground arith;
    same_applied = ground arith;
    same_history = ground arith;
    same_settings = ground arith;
  }

  pub begun-IsUntouched : (x : Answers D) (s : Flight D) → IsUntouched s (begun d x s)
  unfolding begin_cycle
  begun-IsUntouched x s =
      let found = find_datarefs d x s in
      let u = update-IsUntouched x (record found {
        cycles_to_override_plane_path = (override_plane_path found.cycles_to_override_plane_path).1;
      }) in
      IsUntouched-trans s found _ (find-IsUntouched x s) (record {
        same_frame = u.same_frame;
        same_applied = u.same_applied;
        same_history = u.same_history;
        same_settings = u.same_settings;
      })

  module _ (m : Math d) where
    -- what the parts of a cycle behind `move` leave alone
    exchange-IsUntouched :
        (x : Answers D) (frame : BoostFrame D) (is_new : Bool) (v : Values D) (p : D × (D × D × D))
        (s : Flight D)
        → IsUntouched s (exchange d m x frame is_new v p s).0
    unfolding exchange read_back
    exchange-IsUntouched x frame is_new v p s = record {
      same_frame = ground arith;
      same_applied = ground arith;
      same_history = ground arith;
      same_settings = ground arith;
    }

    probe-IsUntouched :
        (x : Answers D) (p : D × D × D) (s : Flight D) → IsUntouched s (probe_terrain d m x p s)
    unfolding probe_terrain
    probe-IsUntouched x p s = record {
      same_frame = ground arith;
      same_applied = ground arith;
      same_history = ground arith;
      same_settings = ground arith;
    }

    blend-IsUntouched :
        (has_contact is_new : Bool) (s : Flight D)
        → IsUntouched s (update_fractions d has_contact is_new s)
    unfolding update_fractions
    blend-IsUntouched has_contact is_new s = record {
      same_frame = refl;
      same_applied = refl;
      same_history = refl;
      same_settings = refl;
    }

    pub apply-IsUntouched :
        (x : Answers D) (taken : Taken D)
        → IsUntouched
            (move d m x
              (override_frame d m x taken.state taken.frame)
              taken.is_new_boost_frame
              taken.state).0
            (apply_frame d m x taken).0
    unfolding apply_frame
    apply-IsUntouched x taken =
        let frame = override_frame d m x taken.state taken.frame in
        let is_new = taken.is_new_boost_frame in
        let moved = (move d m x frame is_new taken.state).0 in
        let blended = update_fractions d frame.ground_contact is_new moved in
        let v = values_to_apply d frame taken.interpolated in
        let position = place d m x blended v in
        let probed = probe_terrain d m x position blended in
        IsUntouched-trans moved blended _ (blend-IsUntouched frame.ground_contact is_new moved) (
          IsUntouched-trans blended probed _ (probe-IsUntouched x position blended) (
            exchange-IsUntouched x frame is_new v (adjust_elevation d m x probed v position)
              probed))
