-- ===== src/Plugin/Lifecycle/Restart.antt =====
-- The plugin can be enabled, disabled and enabled again, and a failed start leaves nothing behind.
use psx_xp_mover.Base.{
  ◌≡◌, ◌≢◌, refl, arith, Bool, true, false, Bool-cases, inl, inr, none, some, [], is_some,
  if◌then◌else◌,
}
use psx_xp_mover.Base.Int.{pos, negsuc, leb_ℤ}
use psx_xp_mover.Plugin.Connection.{Connection, create_or_revert, recreate_psx_client}
use psx_xp_mover.Network.{is_valid_tcp_port, is_valid_hostname}
use psx_xp_mover.Plugin.Lifecycle.{
  Plugin, Grants, is_already_set, disable, finish_enable, enable, all_interpolators,
  default_hostname, default_port,
}

-- Nothing is held: the plugin can be enabled.
pub record IsDown (p : Plugin) : Type 0 where
  pub not_set : is_already_set p ≡ false
  pub no_loop : p.flight_loop_registered ≡ false
  pub no_mutex : p.has_boost_frame_mutex ≡ false

-- Everything is held, and the client is for the default host.
pub record IsUp (p : Plugin) : Type 0 where
  pub loop : p.flight_loop_registered ≡ true
  pub mutex : p.has_boost_frame_mutex ≡ true
  pub probes : (p.probe ≡ true) × (p.probe_info ≡ true)
  pub complete : all_interpolators p.interpolators ≡ true
  pub client : p.connection.psx_client ≡ some (default_hostname, pos default_port)

default_is_valid :
    (is_valid_tcp_port (pos default_port) ≡ true)
    × (is_valid_hostname (some default_hostname) ≡ true)
unfolding is_valid_tcp_port is_valid_hostname
default_is_valid = (refl, refl)

no_port_is_invalid : is_valid_tcp_port (negsuc 0) ≡ false
unfolding is_valid_tcp_port
no_port_is_invalid = refl

-- Disabling the plugin while there is a client, and destroying it, leaves nothing held.
pub disable-IsDown : (p : Plugin) → is_some p.connection.psx_client ≡ true → IsDown (disable true p)
unfolding disable is_already_set
disable-IsDown p h = record { not_set = ground arith; no_loop = refl; no_mutex = refl }

disable_empty-IsDown :
    (destroys : Bool) (p : Plugin)
    → p.connection.psx_client ≡ none
    → p.connection.connection_hostname ≡ []
    → leb_ℤ (pos 1) p.connection.connection_port ≡ false
    → IsDown (disable destroys p)
unfolding disable is_already_set
disable_empty-IsDown destroys p h k l = record {
  not_set = ground arith;
  no_loop = refl;
  no_mutex = refl;
}

disabled_is_set :
    (destroys : Bool) (p : Plugin)
    → p.connection.psx_client ≡ none
    → p.connection.connection_hostname ≢ []
    → is_already_set (disable destroys p) ≡ true
unfolding disable is_already_set
disabled_is_set destroys p h k = rw h (ground arith)

enable_refused :
    (grants : Grants) (destroys : Bool) (p : Plugin)
    → is_already_set p ≡ true
    → enable grants destroys p ≡ (false, p)
unfolding enable
enable_refused grants destroys p h = rw h refl

-- Without a client, but with a host still set, as a failed change of the host leaves it, the
-- plugin cannot be enabled after it was disabled, whatever the system grants.
pub disable_without_client :
    (grants : Grants) (destroys : Bool) (p : Plugin)
    → p.connection.psx_client ≡ none
    → p.connection.connection_hostname ≢ []
    → enable grants destroys (disable destroys p) ≡ (false, disable destroys p)
disable_without_client grants destroys p h k =
    enable_refused grants destroys (disable destroys p) (disabled_is_set destroys p h k)

-- the state that a start has reached before the client is created
abbrev pub cleared : Connection → Connection
cleared c = record c { connection_port = negsuc 0; connection_hostname = [] }

-- A fresh client, or none and no host.
abbrev IsFresh : Bool × Connection → Type 0
IsFresh r =
    if r.0
    then r.1.psx_client ≡ some (default_hostname, pos default_port)
    else (r.1.psx_client ≡ none) × (r.1.connection_hostname ≡ []) × (r.1.connection_port ≡ negsuc 0)

recreate_psx_client-IsFresh :
    (grants : Grants) (destroys : Bool) (c : Connection)
    → c.psx_client ≡ none
    → IsFresh (
        recreate_psx_client grants.creates destroys default_hostname (pos default_port) (cleared c))
unfolding recreate_psx_client create_or_revert
recreate_psx_client-IsFresh grants destroys c h =
    rw (h, default_is_valid.0, default_is_valid.1)
      (elim (Bool-cases (grants.creates default_hostname (pos default_port))) [
        | inl created ↦ rw created refl
        | inr refused ↦ rw (refused, no_port_is_invalid) (refl, refl, refl)
      ])

-- What a start leaves: all, or nothing.
abbrev pub IsStarted : Bool × Plugin → Type 0
IsStarted r = if r.0 then IsUp r.1 else IsDown r.1

finish-IsStarted :
    (grants : Grants) (r : Bool × Connection) (p : Plugin)
    → p.has_boost_frame_mutex ≡ true
    → all_interpolators p.interpolators ≡ true
    → IsFresh r
    → IsStarted (finish_enable grants true r.0 (record p { connection = r.1 }))
unfolding finish_enable
finish-IsStarted grants (false, c) p m i (f, g, h) = disable_empty-IsDown true _ f g (rw h refl)
finish-IsStarted grants (true, c) p m i f = elim (Bool-cases grants.probe_info) [
  | inr refused ↦ rw refused (disable-IsDown _ (rw f refl))
  | inl memory ↦ elim (Bool-cases grants.probe) [
    | inr refused ↦ rw (memory, refused) (disable-IsDown _ (rw f refl))
    | inl probed ↦
        rw (memory, probed)
          (record { loop = refl; mutex = m; probes = (refl, refl); complete = i; client = f })
  ]
]

not_set_parts :
    (p : Plugin)
    → is_already_set p ≡ false
    → (p.connection.psx_client ≡ none)
      × (p.connection.connection_hostname ≡ [])
      × (leb_ℤ (pos 1) p.connection.connection_port ≡ false)
unfolding is_already_set
not_set_parts p h = ground arith

applied-IsDown : (p : Plugin) → IsDown p → IsDown (record p { boost_frame_applied = true })
unfolding is_already_set
applied-IsDown p w = record { not_set = w.not_set; no_loop = w.no_loop; no_mutex = w.no_mutex }

abbrev default_client : Grants → Plugin → Bool × Connection
default_client grants p =
    recreate_psx_client grants.creates true default_hostname (pos default_port)
      (cleared p.connection)

-- An attempt to enable the plugin, when it is not set already and clients can be destroyed, leaves
-- everything held with a client for the default host if it succeeds, and nothing held if it fails,
-- whatever the system grants.
pub enable-IsStarted : (grants : Grants) (p : Plugin) → IsDown p → IsStarted (enable grants true p)
unfolding enable
enable-IsStarted grants p w =
    let (no_client, no_host, no_port) = not_set_parts p w.not_set in
    rw w.not_set (elim (Bool-cases grants.mutex) [
      | inr refused ↦ rw refused (applied-IsDown p w)
      | inl locked ↦ elim (Bool-cases (all_interpolators grants.interpolators)) [
        | inr refused ↦ rw (locked, refused) (disable_empty-IsDown true _ no_client no_host no_port)
        | inl memory ↦
            rw (locked, memory)
              (finish-IsStarted (record grants { mutex = true }) (default_client grants p)
                (record p {
                  boost_frame_applied = true;
                  has_boost_frame_mutex = true;
                  interpolators = grants.interpolators;
                })
                refl memory (recreate_psx_client-IsFresh grants true p.connection no_client))
      ]
    ])
