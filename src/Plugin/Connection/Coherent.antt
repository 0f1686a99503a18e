-- ===== src/Plugin/Connection/Coherent.antt =====
-- The host and port that X-Plane sees are those that the client was created for.
use psx_xp_mover.Base.{
  ◌≡◌, refl, arith, Bool, true, false, Bool-cases, inl, inr, Option, none, some, length, ltb,
  if◌then◌else◌,
}
use psx_xp_mover.Base.Int.{ℤ}
use psx_xp_mover.Utils.{Bytes}
use psx_xp_mover.Network.{is_valid_tcp_port, is_valid_hostname}
use psx_xp_mover.Plugin.Connection.{
  Client, Connection, destroy_client, create_or_revert, change_client, recreate_psx_client,
  update_port_via_dataref, apply_hostname, update_hostname_via_dataref,
}

-- A client is there for the host and port that are shown, and both are valid.
abbrev pub IsClientOf : Option Client → Bytes → ℤ → Type 0
IsClientOf none hostname port = Unit
IsClientOf (some client) hostname port =
    (client.0 ≡ hostname)
    × (client.1 ≡ port)
    × (is_valid_tcp_port port ≡ true)
    × (is_valid_hostname (some hostname) ≡ true)

abbrev pub IsCoherent : Connection → Type 0
IsCoherent c = IsClientOf c.psx_client c.connection_hostname c.connection_port

module _ (creates : Bytes → ℤ → Bool) (destroys : Bool) where
  create_or_revert-IsCoherent :
      (hostname : Bytes) (port : ℤ) (c : Connection)
      → is_valid_tcp_port port ≡ true
      → is_valid_hostname (some hostname) ≡ true
      → IsCoherent (create_or_revert creates destroys hostname port c).1
  unfolding create_or_revert
  create_or_revert-IsCoherent hostname port c p h = elim (Bool-cases (creates hostname port)) [
    | inl created ↦ rw created (refl, refl, p, h)
    | inr refused ↦ rw refused (ground arith)
  ]

  change_client-IsCoherent :
      (destroyed : Bool) (hostname : Bytes) (port : ℤ) (c : Connection)
      → is_valid_tcp_port port ≡ true
      → is_valid_hostname (some hostname) ≡ true
      → IsCoherent c
      → IsCoherent
          (change_client creates destroys hostname port c
            (if destroyed then some (record c { psx_client = none }) else none)).1
  change_client-IsCoherent true hostname port c p h w =
      create_or_revert-IsCoherent hostname port _ p h
  change_client-IsCoherent false hostname port c p h w = w

  change-IsCoherent :
      (hostname : Bytes) (port : ℤ) (c : Connection)
      → is_valid_tcp_port port ≡ true
      → is_valid_hostname (some hostname) ≡ true
      → (client : Option Client) → IsCoherent c
      → IsCoherent
          (change_client creates destroys hostname port c
            (destroy_client creates destroys client c)).1
  change-IsCoherent hostname port c p h none w = create_or_revert-IsCoherent hostname port _ p h
  change-IsCoherent hostname port c p h (some client) w =
      change_client-IsCoherent destroys hostname port c p h w

  recreate-IsCoherent :
      (hostname : Bytes) (port : ℤ) (c : Connection)
      → IsCoherent c
      → IsCoherent (recreate_psx_client creates destroys hostname port c).1
  unfolding recreate_psx_client
  recreate-IsCoherent hostname port c w = elim (Bool-cases (is_valid_tcp_port port)) [
    | inr bad ↦ rw bad w
    | inl p ↦ elim (Bool-cases (is_valid_hostname (some hostname))) [
      | inr bad ↦ rw (p, bad) w
      | inl h ↦ elim (Bool-cases (ltb 255 (length hostname))) [
        | inl long ↦ rw (p, h, long) w
        | inr short ↦ rw (p, h, short) (change-IsCoherent hostname port c p h c.psx_client w)
      ]
    ]
  ]

  apply_hostname-IsCoherent :
      (buffer : Bytes) (c : Connection)
      → IsCoherent c
      → IsCoherent (apply_hostname creates destroys buffer c)
  unfolding apply_hostname
  apply_hostname-IsCoherent buffer c w =
      ground (arith, recreate-IsCoherent buffer c.connection_port c w)

  port-IsCoherent :
      (value : ℤ) (c : Connection)
      → IsCoherent c
      → IsCoherent (update_port_via_dataref creates destroys value c)
  unfolding update_port_via_dataref
  port-IsCoherent value c w = ground (arith, recreate-IsCoherent c.connection_hostname value c w)

  hostname-IsCoherent :
      (value : Option Bytes) (offset len : ℤ) (c : Connection)
      → IsCoherent c
      → IsCoherent (update_hostname_via_dataref creates destroys value offset len c)
  unfolding update_hostname_via_dataref
  hostname-IsCoherent none offset len c w = w
  hostname-IsCoherent (some value) offset len c w = ground (arith, apply_hostname-IsCoherent _ c w)

  -- The connection stays coherent when it is created anew, when its port is changed and when bytes
  -- of its host name are overwritten, whether or not clients can be destroyed and created.
  pub connection-IsCoherent :
      (hostname : Bytes) (port : ℤ) (value : Option Bytes) (offset len : ℤ) (c : Connection)
      → IsCoherent c
      → IsCoherent (recreate_psx_client creates destroys hostname port c).1
        × IsCoherent (update_port_via_dataref creates destroys port c)
        × IsCoherent (update_hostname_via_dataref creates destroys value offset len c)
  connection-IsCoherent hostname port value offset len c w = (
    recreate-IsCoherent hostname port c w,
    port-IsCoherent port c w,
    hostname-IsCoherent value offset len c w,
  )

  -- `recreate_psx_client` succeeds only with a client for the new host and port, which are shown
  -- from then on; when it fails, the host and port that are shown stay.
  pub recreate_psx_client_lem :
      (hostname : Bytes) (port : ℤ) (c : Connection)
      → let r = recreate_psx_client creates destroys hostname port c in
        (r.1.connection_hostname ≡ (if r.0 then hostname else c.connection_hostname))
        × (r.1.connection_port ≡ (if r.0 then port else c.connection_port))
        × (r.1.psx_client ≡ (if r.0 then some (hostname, port) else r.1.psx_client))
  unfolding recreate_psx_client create_or_revert
  recreate_psx_client_lem hostname port c = ground arith
