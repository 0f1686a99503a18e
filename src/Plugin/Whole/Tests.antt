-- ===== src/Plugin/Whole/Tests.antt =====
-- A start of the plugin, a frame that is received then, another port, and the end.
use psx_xp_mover.Base.{◌≡◌, refl, true, is_some}
use psx_xp_mover.Base.Int.{pos}
use psx_xp_mover.Double.Fixed.{Fixed, num, fixed, fixed_math}
use psx_xp_mover.Psx.Received.{zero_frame}
use psx_xp_mover.Network.{is_valid_tcp_port, is_valid_hostname}
use psx_xp_mover.Plugin.Connection.{recreate_psx_client, create_or_revert, update_port_via_dataref}
use psx_xp_mover.Plugin.Receive.{received, handle}
use psx_xp_mover.Plugin.Lifecycle.{Grants, is_already_set, finish_enable, enable}
use psx_xp_mover.Plugin.Whole.{Whole, enable_whole, disable_whole, loaded, change_connection}
use psx_xp_mover.Plugin.Whole.Steps.{enables, disables, receives, changes_port, here, next}
use psx_xp_mover.Plugin.Whole.Safe.{IsSafe, Reach-IsSafe}

abbrev all_grants : Grants
all_grants = record {
  mutex = true;
  interpolators = record {
    latitude = true;
    longitude = true;
    elevation = true;
    heading = true;
    pitch = true;
    bank = true;
  };
  creates = λ _ _. true;
  probe_info = true;
  probe = true;
}

abbrev started : Whole Fixed
started = enable_whole fixed all_grants true true (loaded fixed fixed_math)

has_client : is_some started.plugin.connection.psx_client ≡ true
unfolding enable finish_enable is_already_set recreate_psx_client create_or_revert is_valid_tcp_port
    is_valid_hostname
has_client = refl

abbrev fed : Whole Fixed
fed = record started {
  flight = record started.flight {
    psx =
        handle fixed (received true (num (pos 20000)) (zero_frame fixed fixed_math))
          started.flight.psx;
  };
}

abbrev changed : Whole Fixed
changed = change_connection fixed (update_port_via_dataref (λ _ _. true) true (pos 10748)) fed

Reach-IsSafe_example : IsSafe (disable_whole fixed true changed)
Reach-IsSafe_example = Reach-IsSafe fixed fixed_math (
    next
      (next
        (next (next here (enables all_grants true true (loaded fixed fixed_math))) (
          receives (received true (num (pos 20000)) (zero_frame fixed fixed_math)) started
            has_client))
        (changes_port (λ _ _. true) true (pos 10748) fed))
      (disables true changed))
