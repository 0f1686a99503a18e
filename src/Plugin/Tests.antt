-- ===== src/Plugin/Tests.antt =====
-- The parts of src/plugin.c with concrete values.
use psx_xp_mover.Base.{
  ℕ, zero, suc, ◌≡◌, refl, arith, Bool, true, false, none, some, [], ◌∷◌, replicate,
  length-replicate, All, inr,
}
use psx_xp_mover.Base.Int.{ℤ, pos, negsuc, eqb_ℤ}
use psx_xp_mover.Utils.{Bytes}
use psx_xp_mover.Double.Fixed.{Fixed, num, fixed, fixed-IsExact, fixed-IsOrdered}
use psx_xp_mover.Network.{is_valid_tcp_port, is_valid_hostname}
use psx_xp_mover.Plugin.Connection.{
  Connection, recreate_psx_client, update_port_via_dataref, update_hostname_via_dataref,
}
use psx_xp_mover.Plugin.Connection.Coherent.{IsCoherent, connection-IsCoherent}
use psx_xp_mover.Plugin.Lifecycle.{
  Plugin, Grants, no_interpolators, default_hostname, is_already_set, disable, enable,
}
use psx_xp_mover.Plugin.Lifecycle.Restart.{
  IsDown, IsStarted, enable-IsStarted, disable_without_client,
}
use psx_xp_mover.Plugin.DataRefs.{dataref_get_string, copied_out_of_range}
use psx_xp_mover.Plugin.DataRefs.Text.{dataref_get_string_out_of_range}
use psx_xp_mover.Plugin.TimeDifference.{Differences, receive_difference}
use psx_xp_mover.Plugin.TimeDifference.Range.{
  InRange, IsValid, HasSmallSum, receive_difference-HasSmallSum,
}
use psx_xp_mover.Plugin.Blending.{
  Fractions, update_low_speed_fraction, ground_contact_fraction, raw_elevation_blending_fraction,
  get_average_elevation_blending_fraction,
}
use psx_xp_mover.Plugin.Blending.Unit.{InUnit, fractions-InUnit}

-- "sim"
abbrev other_hostname : Bytes
other_hostname = b's' ∷ b'i' ∷ b'm' ∷ []

abbrev connected : Connection
connected = record {
  connection_hostname = default_hostname;
  connection_port = pos 10749;
  connection_established = true;
  psx_client = some (default_hostname, pos 10749);
}

connected-IsCoherent : IsCoherent connected
unfolding is_valid_tcp_port is_valid_hostname
connected-IsCoherent = (refl, refl, refl, refl)

-- Clients can be created for this port only.
abbrev creates : Bytes → ℤ → Bool
creates hostname port = eqb_ℤ port (pos 10749)

connection-IsCoherent_example :
    IsCoherent (recreate_psx_client creates true other_hostname (pos 10750) connected).1
    × IsCoherent (update_port_via_dataref creates true (pos 10750) connected)
    × IsCoherent
        (update_hostname_via_dataref creates true (some other_hostname) (pos 0) (pos 3) connected)
connection-IsCoherent_example =
    connection-IsCoherent creates true other_hostname (pos 10750) (some other_hostname) (pos 0)
      (pos 3) connected connected-IsCoherent

abbrev fresh_plugin : Plugin
fresh_plugin = record {
  datarefs_initialized = false;
  has_dataref_cabin_altitude = false;
  flight_loop_registered = false;
  probe = false;
  probe_info = false;
  has_boost_frame_mutex = false;
  boost_frame_applied = true;
  cycles_to_override_plane_path = pos 10;
  interpolators = no_interpolators;
  connection = record {
    connection_hostname = [];
    connection_port = negsuc 0;
    connection_established = false;
    psx_client = none;
  };
}

fresh_plugin-IsDown : IsDown fresh_plugin
unfolding is_already_set
fresh_plugin-IsDown = record { not_set = refl; no_loop = refl; no_mutex = refl }

abbrev grants : Grants
grants = record {
  mutex = true;
  interpolators = record {
    latitude = true;
    longitude = true;
    elevation = true;
    heading = true;
    pitch = true;
    bank = true;
  };
  creates = creates;
  probe_info = true;
  probe = true;
}

enable-IsStarted_example : IsStarted (enable grants true fresh_plugin)
enable-IsStarted_example = enable-IsStarted grants fresh_plugin fresh_plugin-IsDown

-- as a failed change of the host and a failed return to the old one leave it
abbrev no_client : Plugin
no_client = record fresh_plugin { connection = record connected { psx_client = none } }

disable_without_client_example :
    enable grants true (disable true no_client) ≡ (false, disable true no_client)
disable_without_client_example =
    disable_without_client grants true no_client refl (λ e. ground arith)

dataref_get_string_out_of_range_example :
    dataref_get_string other_hostname (some (replicate 5 1)) (pos 1) (pos 5) ≡ copied_out_of_range
dataref_get_string_out_of_range_example =
    dataref_get_string_out_of_range other_hostname (replicate 5 1) 1 (omega arith) (omega arith)
      (omega arith) (omega arith)

abbrev no_differences : Differences
no_differences = record { diffs = replicate 770 (pos 0); num = 0; next = 0 }

All-replicate : (n : ℕ) (a : ℤ) → InRange a → All InRange (replicate n a)
All-replicate zero a h = tt
All-replicate (suc n) a h = (h, All-replicate n a h)

no_differences-IsValid : IsValid no_differences
no_differences-IsValid = record {
  storage = length-replicate 770 (pos 0);
  next_in = omega arith;
  num_in = omega arith;
  diffs_in = All-replicate 770 (pos 0) (omega arith, omega arith);
}

receive_difference-HasSmallSum_example :
    HasSmallSum (receive_difference fixed (num (pos 20000)) (pos 990) no_differences).1
receive_difference-HasSmallSum_example =
    receive_difference-HasSmallSum fixed (num (pos 20000)) 990 no_differences (omega arith)
      no_differences-IsValid

abbrev fractions : Fractions Fixed
fractions = record { raw = replicate 5 (num (pos 500)); next = 0; num = 5 }

fractions-InUnit_example :
    InUnit fixed fixed-IsExact fixed-IsOrdered (
      update_low_speed_fraction fixed
        (num (pos 90000))
        (num (pos 60000))
        (num (pos 160000))
        (num (pos 0)))
    × InUnit fixed fixed-IsExact fixed-IsOrdered (ground_contact_fraction fixed (pos 30))
    × InUnit fixed fixed-IsExact fixed-IsOrdered (
        raw_elevation_blending_fraction fixed
          (num (pos 0))
          (ground_contact_fraction fixed (pos 30))
          (num (pos 800))
          false)
    × InUnit fixed fixed-IsExact fixed-IsOrdered
        (get_average_elevation_blending_fraction fixed fractions)
fractions-InUnit_example =
    fractions-InUnit fixed fixed-IsExact fixed-IsOrdered (num (pos 90000)) (num (pos 60000))
      (num (pos 160000)) (num (pos 0)) (num (pos 800)) (pos 30) false fractions (inr (refl, refl))
