-- ===== src/Plugin/FlightLoop/Run.antt =====
-- What can happen to the plugin while it is enabled: the connection's thread calls back, X-Plane calls
-- the flight loop, and settings are written through the plugin's data references.
use psx_xp_mover.Base.{ℕ, ◌≡◌, some}
use psx_xp_mover.Double.{Double, Math}
use psx_xp_mover.Plugin.Receive.{PsxEvent, handle}
use psx_xp_mover.Plugin.FlightLoop.{Settings, Flight, Answers}
use psx_xp_mover.Plugin.FlightLoop.Callback.{Outcome, flight_loop_callback}

module _ (d : Double) (m : Math d) where
  open d use {D}

  -- Each stands for one call as a whole. The mutex is held around the shared frame and the
  -- interpolators alone: the flight loop uses the history and the fractions behind its end, and what a
  -- call of the connection's thread does to them in between is not modelled.
  pub data Step : Flight D → Flight D → Type 0 where
    call_back : (e : PsxEvent D) (s : Flight D) → Step s (record s { psx = handle d e s.psx })
    cycle :
        (fuel : ℕ) (x : Answers D) (s : Flight D) (o : Outcome D)
        → flight_loop_callback d m fuel x s ≡ some o
        → Step s o.state
    set_settings : (c : Settings D) (s : Flight D) → Step s (record s { settings = c })
    set_time_source :
        (n : ℕ) (s : Flight D)
        → Step s (record s { psx = record s.psx { interpolation_time_source = n } })

  pub data Reach (s : Flight D) : Flight D → Type 0 where
    here : Reach s s
    next : {t u : Flight D} → Reach s t → Step t u → Reach s u

  -- Cycles alone, with no call of the connection's thread between them.
  pub data Cycles (s : Flight D) : Flight D → Type 0 where
    none_yet : Cycles s s
    one_more :
        {t : Flight D} (fuel : ℕ) (x : Answers D) (o : Outcome D)
        → Cycles s t
        → flight_loop_callback d m fuel x t ≡ some o
        → Cycles s o.state
