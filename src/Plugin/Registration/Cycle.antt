-- ===== src/Plugin/Registration/Cycle.antt =====
-- When src/plugin.c registers its data references, and when it ends their registration: in a cycle of
-- `flight_loop_callback`, and in `XPluginDisable`.
use psx_xp_mover.Base.{Bool, true, false, ◌&&◌, none, List, [], ◌∷◌, some, if◌then◌else◌}
use psx_xp_mover.Plugin.FlightLoop.{DataRef}
use psx_xp_mover.Plugin.FlightLoop.Setup.{required, finds_all}
use psx_xp_mover.Plugin.Registration.{Provided, Registrar, Registry, unregister_dataref}
use psx_xp_mover.Plugin.Registration.Table.{Row, exposure, provided, withdrawn}

-- A chain of `success &= expose(...)`: each of them is called, whatever the others return.
unfoldable pub expose_all : Registrar → List Row → Bool × Registry → Bool × Registry
expose_all x [] r = r
expose_all x (r ∷ rest) (success, s) =
    let exposed = exposure r.way x (some r.dest) (some r.name) (some r.value) s in
    expose_all x rest (success && exposed.0, exposed.1)

-- The start of a cycle, with the data references of X-Plane that can be found. That some are not
-- registered is logged, and no more.
unfoldable pub provide_datarefs : Registrar → (DataRef → Bool) → Registry → Registry
provide_datarefs x finds s =
    if s.datarefs_initialized
    then s
    else if finds_all finds required
    then (expose_all x provided (true, record s { datarefs_initialized = true })).1
    else s

unfoldable pub unregister_all : List Provided → Registry → Registry
unregister_all [] s = s
unregister_all (p ∷ rest) s = unregister_all rest (unregister_dataref (some p) s)

-- the part of `XPluginDisable`
unfoldable pub withdraw_datarefs : Registry → Registry
withdraw_datarefs s = unregister_all withdrawn (record s { datarefs_initialized = false })

-- as the plugin is loaded
abbrev pub no_registry : Registry
no_registry = record {
  refs = λ _. none;
  dataref_editor_plugin_id = none;
  datarefs_initialized = false;
  calls = [];
}

pub data Step : Registry → Registry → Type 0 where
  cycle :
      (x : Registrar) (finds : DataRef → Bool) (s : Registry) → Step s (provide_datarefs x finds s)
  disable : (s : Registry) → Step s (withdraw_datarefs s)

pub data Reach (s : Registry) : Registry → Type 0 where
  here : Reach s s
  next : {t u : Registry} → Reach s t → Step t u → Reach s u
