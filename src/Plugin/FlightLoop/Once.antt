-- ===== src/Plugin/FlightLoop/Once.antt =====
-- A received frame is taken into the history by one cycle of the flight loop, and by no other.
use psx_xp_mover.Base.{
  ℕ, ◌≡◌, refl, ap, ◌∙◌, arith, Bool, true, false, not, ◌&&◌, Bool-cases, inl, inr, some, List,
  if◌then◌else◌,
}
use psx_xp_mover.Double.{Double, Math}
use psx_xp_mover.Psx.Frame.{BoostFrame}
use psx_xp_mover.Plugin.History.{History, record_boost_frame}
use psx_xp_mover.Plugin.FlightLoop.{Write, Flight, Answers}
use psx_xp_mover.Plugin.FlightLoop.Frame.{Values, has_debug_override, override_frame}
use psx_xp_mover.Plugin.FlightLoop.Callback.{
  Outcome, move, apply_frame, finish_cycle, flight_loop_callback,
}
use psx_xp_mover.Plugin.FlightLoop.Rule.{
  IsFresh, begun, taken_with, written, flight_loop_callback_outcome,
}
use psx_xp_mover.Plugin.FlightLoop.Run.{Cycles, none_yet, one_more}
use psx_xp_mover.Plugin.FlightLoop.Untouched.{
  IsUntouched, find-IsUntouched, begun-IsUntouched, apply-IsUntouched,
}

-- The frame is recorded if it was not applied and is now; it stays applied.
pub record TakesOnce {V : Type 0} (s t : Flight V) : Type 0 where
  pub keeps_frame : t.psx.boost_frame ≡ s.psx.boost_frame
  pub keeps_settings : t.settings ≡ s.settings
  pub stays_applied : s.psx.boost_frame_applied ≡ true → t.psx.boost_frame_applied ≡ true
  pub history : t.psx.history ≡ (
      if not s.psx.boost_frame_applied && t.psx.boost_frame_applied
      then record_boost_frame s.psx.history s.psx.boost_frame
      else s.psx.history)

module _ {V : Type 0} where
  untouched-TakesOnce : (s t : Flight V) → IsUntouched s t → TakesOnce s t
  untouched-TakesOnce s t w = record {
    keeps_frame = w.same_frame;
    keeps_settings = w.same_settings;
    stays_applied = λ h. w.same_applied ∙ h;
    history = ground (arith, w.same_applied, w.same_history);
  }

  -- `a`, `b` and `c` say whether the frame is applied, before, between and after.
  history_trans :
      (a b c : Bool) (h i j : History V) (f g : BoostFrame V)
      → g ≡ f
      → (a ≡ true → b ≡ true)
      → (b ≡ true → c ≡ true)
      → i ≡ (if not a && b then record_boost_frame h f else h)
      → j ≡ (if not b && c then record_boost_frame i g else i)
      → j ≡ (if not a && c then record_boost_frame h f else h)
  history_trans true true true h i j f g e p q x y = y ∙ x
  history_trans true true false h i j f g e p q x y = y ∙ x
  history_trans true false c h i j f g e p q x y = cc (p refl)
  history_trans false true true h i j f g e p q x y = y ∙ x
  history_trans false true false h i j f g e p q x y = cc (q refl)
  history_trans false false true h i j f g e p q x y = cc
  history_trans false false false h i j f g e p q x y = y ∙ x

  TakesOnce-trans : (s t u : Flight V) → TakesOnce s t → TakesOnce t u → TakesOnce s u
  TakesOnce-trans s t u v w = record {
    keeps_frame = w.keeps_frame ∙ v.keeps_frame;
    keeps_settings = w.keeps_settings ∙ v.keeps_settings;
    stays_applied = λ h. w.stays_applied (v.stays_applied h);
    history =
        history_trans s.psx.boost_frame_applied t.psx.boost_frame_applied u.psx.boost_frame_applied
          s.psx.history t.psx.history u.psx.history s.psx.boost_frame t.psx.boost_frame
          v.keeps_frame v.stays_applied w.stays_applied v.history w.history;
  }

module _ (d : Double) where
  open d use {D}

  module _ (m : Math d) where
    override_off :
        (x : Answers D) (s : Flight D) (frame : BoostFrame D)
        → has_debug_override d s ≡ false
        → override_frame d m x s frame ≡ frame
    unfolding override_frame
    override_off x s frame h = rw h refl

    choice_and :
        {A : Type 0} (a c : Bool) (r h : A)
        → c ≡ true
        → (if a then r else h) ≡ (if a && c then r else h)
    choice_and true c r h e = rw e refl
    choice_and false c r h e = refl

    apply-TakesOnce :
        (x : Answers D) (b : Flight D) (source : ℕ) (is_new : Bool) (v : Values D)
        → has_debug_override d b ≡ false
        → TakesOnce b (apply_frame d m x (taken_with d b source is_new v)).0
    unfolding move
    apply-TakesOnce x b source is_new v off =
        let taken = taken_with d b source is_new v in
        let u = apply-IsUntouched d m x taken in
        let same_frame = override_off x taken.state b.psx.boost_frame off in
        record {
          keeps_frame = u.same_frame;
          keeps_settings = u.same_settings;
          stays_applied = λ _. u.same_applied;
          history =
              u.same_history
              ∙ ap
                  (λ f.
                    if not b.psx.boost_frame_applied
                    then record_boost_frame b.psx.history f
                    else b.psx.history)
                  same_frame
              ∙ choice_and (not b.psx.boost_frame_applied) _ _ _ u.same_applied;
        }

    -- a cycle that is over behind the unlocking, as nothing is new
    unchanged-TakesOnce :
        (b : Flight D) (source : ℕ) (is_new : Bool) (v : Values D)
        → IsFresh d b is_new
        → is_new ≡ false
        → TakesOnce b (taken_with d b source is_new v).state
    unchanged-TakesOnce b source is_new v fresh h = record {
      keeps_frame = refl;
      keeps_settings = refl;
      stays_applied = λ _. refl;
      history = elim (Bool-cases b.psx.boost_frame_applied) [
        | inl applied ↦ rw applied refl
        | inr waits ↦ cc (fresh waits)
      ];
    }

    choice-TakesOnce :
        (q : Bool) (b : Flight D) (o o' : Outcome D)
        → (q ≡ true → TakesOnce b o.state)
        → TakesOnce b o'.state
        → TakesOnce b (if q then o else o').state
    choice-TakesOnce true b o o' v w = v refl
    choice-TakesOnce false b o o' v w = w

    -- what is left of a cycle that takes the frame
    finish-TakesOnce :
        (x : Answers D) (ws : List (Write D)) (b : Flight D) (source : ℕ) (is_new : Bool)
        (v : Values D)
        → has_debug_override d b ≡ false
        → IsFresh d b is_new
        → TakesOnce b (finish_cycle d m x ws (taken_with d b source is_new v)).state
    unfolding finish_cycle
    finish-TakesOnce x ws b source is_new v off fresh =
        choice-TakesOnce (not is_new) b _ _
          (λ h. unchanged-TakesOnce b source is_new v fresh (ground arith))
          (apply-TakesOnce x b source is_new v off)

    cycle-TakesOnce :
        (fuel : ℕ) (x : Answers D) (s : Flight D) {o : Outcome D}
        → has_debug_override d s ≡ false
        → flight_loop_callback d m fuel x s ≡ some o
        → TakesOnce s o.state
    cycle-TakesOnce fuel x s off e =
        let b = begun d x s in
        let u = begun-IsUntouched d x s in
        let start = untouched-TakesOnce s b u in
        let still_off : has_debug_override d b ≡ false = rw u.same_settings off in
        flight_loop_callback_outcome d m (λ o. TakesOnce s o.state) fuel x s
          (untouched-TakesOnce s _ (find-IsUntouched d x s)) start
          (λ source is_new v fresh.
            TakesOnce-trans s b _ start
              (finish-TakesOnce x (written d m x s) b source is_new v still_off fresh))
          e

    -- However many cycles follow on a state in which no spinning is asked for, the history behind them
    -- is the one before with the received frame once more if the frame was not applied and is now, and
    -- else the same; a frame that is applied stays so.
    pub Cycles-TakesOnce :
        {s t : Flight D} → has_debug_override d s ≡ false → Cycles d m s t → TakesOnce s t
    Cycles-TakesOnce {s} off none_yet = untouched-TakesOnce s s (record {
      same_frame = refl;
      same_applied = refl;
      same_history = refl;
      same_settings = refl;
    })
    Cycles-TakesOnce {s} off (one_more {t} fuel x o c e) =
        let w = Cycles-TakesOnce off c in
        TakesOnce-trans s t o.state w (cycle-TakesOnce fuel x t (rw w.keeps_settings off) e)
