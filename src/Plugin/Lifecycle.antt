-- ===== src/Plugin/Lifecycle.antt =====
-- `XPluginEnable` and `XPluginDisable` of src/plugin.c. Of the pointers, and of the data references,
-- only the presence is kept.
pub mod Restart
use psx_xp_mover.Base.{
  ℕ, ◌+◌, Bool, true, false, not, ◌&&◌, ◌||◌, Option, none, some, List, [], ◌∷◌, length, ◌==◌,
  is_some, if◌then◌else◌,
}
use psx_xp_mover.Base.Int.{ℤ, pos, negsuc, leb_ℤ}
use psx_xp_mover.Utils.{Bytes}
use psx_xp_mover.Plugin.Connection.{Client, Connection, recreate_psx_client}

-- `DEFAULT_HOSTNAME`: "localhost"
abbrev pub default_hostname : Bytes
default_hostname = b'l' ∷ b'o' ∷ b'c' ∷ b'a' ∷ b'l' ∷ b'h' ∷ b'o' ∷ b's' ∷ b't' ∷ []

-- `DEFAULT_PORT`
abbrev pub default_port : ℕ
default_port = 10749

-- which of the six interpolators are there
pub record Interpolators : Type 0 where
  pub latitude : Bool
  pub longitude : Bool
  pub elevation : Bool
  pub heading : Bool
  pub pitch : Bool
  pub bank : Bool

abbrev pub any_interpolator : Interpolators → Bool
any_interpolator i = i.latitude || i.longitude || i.elevation || i.heading || i.pitch || i.bank

abbrev pub all_interpolators : Interpolators → Bool
all_interpolators i = i.latitude && i.longitude && i.elevation && i.heading && i.pitch && i.bank

abbrev pub no_interpolators : Interpolators
no_interpolators = record {
  latitude = false;
  longitude = false;
  elevation = false;
  heading = false;
  pitch = false;
  bank = false;
}

pub record Plugin : Type 0 where
  pub datarefs_initialized : Bool
  pub has_dataref_cabin_altitude : Bool
  pub flight_loop_registered : Bool
  pub probe : Bool
  pub probe_info : Bool
  pub has_boost_frame_mutex : Bool
  pub boost_frame_applied : Bool
  pub cycles_to_override_plane_path : ℤ
  pub interpolators : Interpolators
  pub connection : Connection

-- What the system grants on an attempt to enable the plugin: the mutex, memory, a client and a probe.
pub record Grants : Type 0 where
  pub mutex : Bool
  pub interpolators : Interpolators
  pub creates : Bytes → ℤ → Bool
  pub probe_info : Bool
  pub probe : Bool

-- the check that aborts the start
unfoldable pub is_already_set : Plugin → Bool
is_already_set p =
    p.datarefs_initialized
    || is_some p.connection.psx_client
    || p.probe
    || p.probe_info
    || any_interpolator p.interpolators
    || not (length p.connection.connection_hostname == 0)
    || leb_ℤ (pos 1) p.connection.connection_port
    || p.connection.connection_established

-- the client's part of `XPluginDisable`, with whether it can be destroyed
abbrev pub disconnect : Bool → Option Client → Connection → Connection
disconnect destroys none c = record c { connection_established = false }
disconnect destroys (some client) c =
    if destroys
    then record c {
      psx_client = none;
      connection_hostname = [];
      connection_port = negsuc 0;
      connection_established = false;
    }
    else record c { connection_established = false }

unfoldable pub disable : Bool → Plugin → Plugin
disable destroys p = record p {
  flight_loop_registered = false;
  datarefs_initialized = false;
  has_dataref_cabin_altitude = false;
  connection = disconnect destroys p.connection.psx_client p.connection;
  probe = false;
  probe_info = false;
  has_boost_frame_mutex = false;
  interpolators = no_interpolators;
}

-- the label `rollback`
abbrev pub rollback : Bool → Plugin → Bool × Plugin
rollback destroys p = (false, disable destroys p)

-- from the probe on, with whether there is a client
unfoldable pub finish_enable : Grants → Bool → Bool → Plugin → Bool × Plugin
finish_enable grants destroys has_client p =
    if not has_client
    then rollback destroys p
    else if not grants.probe_info
    then rollback destroys p
    else if not grants.probe
    then rollback destroys (record p { probe_info = true })
    else (
      true,
      record p {
        probe_info = true;
        probe = true;
        cycles_to_override_plane_path = pos 10;
        flight_loop_registered = true;
      },
    )

unfoldable pub enable : Grants → Bool → Plugin → Bool × Plugin
enable grants destroys p =
    let locked = record p {
      boost_frame_applied = true;
      has_boost_frame_mutex = true;
      interpolators = grants.interpolators;
    } in
    let cleared = record p.connection { connection_port = negsuc 0; connection_hostname = [] } in
    let client =
      recreate_psx_client grants.creates destroys default_hostname (pos default_port) cleared in
    if is_already_set p
    then (false, p)
    else if not grants.mutex
    then (false, record p { boost_frame_applied = true })
    else if not (all_interpolators grants.interpolators)
    then rollback destroys locked
    else finish_enable grants destroys client.0 (record locked { connection = client.1 })
