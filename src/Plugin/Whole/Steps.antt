-- ===== src/Plugin/Whole/Steps.antt =====
-- What can happen to the plugin of src/plugin.c, one call after the other.
use psx_xp_mover.Base.{ℕ, ◌≡◌, Bool, true, Option, some, is_some}
use psx_xp_mover.Base.Int.{ℤ}
use psx_xp_mover.Double.{Double, Math}
use psx_xp_mover.Utils.{Bytes}
use psx_xp_mover.Plugin.Connection.{update_port_via_dataref, update_hostname_via_dataref}
use psx_xp_mover.Plugin.Receive.{PsxEvent, handle}
use psx_xp_mover.Plugin.Lifecycle.{Grants}
use psx_xp_mover.Plugin.FlightLoop.{Settings, Answers}
use psx_xp_mover.Plugin.FlightLoop.Callback.{Outcome, flight_loop_callback}
use psx_xp_mover.Plugin.Whole.{Whole, enable_whole, disable_whole, change_connection}

module _ (d : Double) (m : Math d) where
  open d use {D}

  -- X-Plane calls the flight loop only while it is registered; a client calls back while there is one.
  -- `creates` and `destroys` say which clients can be created, and whether the one there is can be
  -- destroyed.
  pub data Step : Whole D → Whole D → Type 0 where
    enables :
        (grants : Grants) (destroys locks : Bool) (w : Whole D)
        → Step w (enable_whole d grants destroys locks w)
    disables : (destroys : Bool) (w : Whole D) → Step w (disable_whole d destroys w)
    calls :
        (fuel : ℕ) (x : Answers D) (w : Whole D) (o : Outcome D)
        → w.plugin.flight_loop_registered ≡ true
        → flight_loop_callback d m fuel x w.flight ≡ some o
        → Step w (record w { flight = o.state })
    receives :
        (e : PsxEvent D) (w : Whole D)
        → is_some w.plugin.connection.psx_client ≡ true
        → Step w (record w { flight = record w.flight { psx = handle d e w.flight.psx } })
    changes_port :
        (creates : Bytes → ℤ → Bool) (destroys : Bool) (value : ℤ) (w : Whole D)
        → Step w (change_connection d (update_port_via_dataref creates destroys value) w)
    changes_hostname :
        (creates : Bytes → ℤ → Bool) (destroys : Bool) (value : Option Bytes) (offset len : ℤ)
        (w : Whole D)
        → Step w
            (change_connection d (update_hostname_via_dataref creates destroys value offset len) w)
    sets :
        (c : Settings D) (w : Whole D)
        → Step w (record w { flight = record w.flight { settings = c } })
    selects :
        (n : ℕ) (w : Whole D)
        → Step w (record w {
          flight = record w.flight { psx = record w.flight.psx { interpolation_time_source = n } };
        })

  pub data Reach (w : Whole D) : Whole D → Type 0 where
    here : Reach w w
    next : {u v : Whole D} → Reach w u → Step u v → Reach w v
