-- ===== src/Plugin/Registration/Tests.antt =====
-- The registration of data references with concrete answers of X-Plane.
use psx_xp_mover.Base.{ℕ, ◌≡◌, ◌↔◌, IsIn, is_some, refl, true, false, Option, none, some}
use psx_xp_mover.Plugin.Registration.{
  Provided, interpolate, suspend_injection, plugin_version, Registrar, Registry, unregister_dataref,
}
use psx_xp_mover.Plugin.Registration.Table.{provided}
use psx_xp_mover.Plugin.Registration.Cycle.{
  expose_all, provide_datarefs, unregister_all, withdraw_datarefs, no_registry, Reach, here, next,
  cycle, disable,
}
use psx_xp_mover.Plugin.Registration.Counts.{registrations, unregistrations}
use psx_xp_mover.Plugin.Registration.Documented.{meant}
use psx_xp_mover.Plugin.Registration.Documented.Registers.{expose_all-documented}
use psx_xp_mover.Plugin.Registration.Balance.{nulls, Reach-IsReturned, withdraw_datarefs-nulls}

-- X-Plane registers all but the version, with an accessor of its own for two of them.
abbrev accessors : Provided → Option ℕ
accessors interpolate = some 7
accessors suspend_injection = some 8
accessors plugin_version = none
accessors p = some 9

abbrev registrar : Registrar
registrar = record { accessors = accessors; editor = some 5 }

expose_all-documented_example :
    ((p : Provided)
      → ((expose_all registrar provided (true, no_registry)).1.refs p ≡ accessors p)
        × IsIn (meant registrar p) (expose_all registrar provided (true, no_registry)).1.calls)
    × (((expose_all registrar provided (true, no_registry)).0 ≡ true)
        ↔ ((p : Provided) → is_some (accessors p) ≡ true))
expose_all-documented_example = expose_all-documented registrar no_registry

-- A cycle, and the end.
abbrev ended : Registry
ended = withdraw_datarefs (provide_datarefs registrar (λ _. true) no_registry)

abbrev ended_reached : Reach no_registry ended
ended_reached =
    next (next here (cycle registrar (λ _. true) no_registry))
      (disable (provide_datarefs registrar (λ _. true) no_registry))

ended_stopped : ended.datarefs_initialized ≡ false
unfolding withdraw_datarefs unregister_all unregister_dataref
ended_stopped = refl

Reach-IsReturned_example : registrations 9 ended.calls ≡ unregistrations 9 ended.calls
Reach-IsReturned_example = Reach-IsReturned ended_reached ended_stopped 9

withdraw_datarefs-nulls_example : nulls (withdraw_datarefs no_registry).calls ≡ 36
withdraw_datarefs-nulls_example = withdraw_datarefs-nulls here refl
