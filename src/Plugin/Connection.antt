-- ===== src/Plugin/Connection.antt =====
-- src/plugin.c: the connection to the PSX boost server, and how it is changed from X-Plane.
pub mod Coherent
use psx_xp_mover.Base.{
  ℕ, ◌+◌, Bool, true, false, not, ◌&&◌, ◌||◌, Option, none, some, List, [], ◌∷◌, ◌++◌, length, take,
  drop, ltb, if◌then◌else◌,
}
use psx_xp_mover.Base.Int.{ℤ, pos, pos_part, ◌+ℤ◌, ◌-ℤ◌, ltb_ℤ, leb_ℤ, eqb_ℤ, int32}
use psx_xp_mover.Utils.{Bytes, c_string, same_text}
use psx_xp_mover.Network.{is_valid_tcp_port, is_valid_hostname}

-- `MAX_CONNECTION_HOSTNAME_LENGTH`
abbrev pub max_connection_hostname_length : ℕ
max_connection_hostname_length = 255

-- the host and port that a client was created for
abbrev pub Client : Type 0
Client = Bytes × ℤ

pub record Connection : Type 0 where
  pub connection_hostname : Bytes
  pub connection_port : ℤ
  pub connection_established : Bool
  pub psx_client : Option Client

-- Whether a client can be created for a host and port, by memory and threads, and whether the one
-- there is can be destroyed, are arguments.
module _ (creates : Bytes → ℤ → Bool) (destroys : Bool) where
  abbrev pub create_psx_client : Bytes → ℤ → Option Client
  create_psx_client hostname port = if creates hostname port then some (hostname, port) else none

  -- `none` if there is a client that is not destroyed
  abbrev pub destroy_client : Option Client → Connection → Option Connection
  destroy_client none c = some c
  destroy_client (some client) c = if destroys then some (record c { psx_client = none }) else none

  -- behind the old client's end: the new one, or the old host again
  unfoldable pub create_or_revert : Bytes → ℤ → Connection → Bool × Connection
  create_or_revert hostname port c =
      let can_revert =
        is_valid_tcp_port c.connection_port && is_valid_hostname (some c.connection_hostname) in
      if creates hostname port
      then (
        true,
        record c {
          psx_client = some (hostname, port);
          connection_hostname = hostname;
          connection_port = port;
        },
      )
      else if not can_revert
      then (false, record c { psx_client = none })
      else (
        false,
        record c { psx_client = create_psx_client c.connection_hostname c.connection_port },
      )

  -- with whether the old client was destroyed
  abbrev pub change_client : Bytes → ℤ → Connection → Option Connection → Bool × Connection
  change_client hostname port c none = (false, c)
  change_client hostname port c (some c') =
      create_or_revert hostname port (record c' { connection_established = false })

  unfoldable pub recreate_psx_client : Bytes → ℤ → Connection → Bool × Connection
  unfolding create_or_revert
  recreate_psx_client hostname port c =
      if not (is_valid_tcp_port port)
      then (false, c)
      else if not (is_valid_hostname (some hostname))
          || ltb max_connection_hostname_length (length hostname)
      then (false, c)
      else change_client hostname port c (destroy_client c.psx_client c)

  unfoldable pub update_port_via_dataref : ℤ → Connection → Connection
  unfolding recreate_psx_client
  update_port_via_dataref value c =
      if not (is_valid_tcp_port value)
      then c
      else (recreate_psx_client c.connection_hostname value c).1

  -- `buffer`: the old name with some bytes written over
  unfoldable pub overwrite : Bytes → ℕ → ℕ → Bytes → Bytes
  unfolding c_string
  overwrite old at write_length value =
      c_string (take at old ++ (take write_length value ++ drop (at + write_length) old))

  -- the buffer is made active, if it is another name and a valid one
  unfoldable pub apply_hostname : Bytes → Connection → Connection
  unfolding same_text recreate_psx_client
  apply_hostname buffer c =
      if same_text c.connection_hostname buffer
      then c
      else if not (is_valid_hostname (some buffer))
      then c
      else (recreate_psx_client buffer c.connection_port c).1

  -- The sum of offset and length is an `int`.
  unfoldable pub update_hostname_via_dataref : Option Bytes → ℤ → ℤ → Connection → Connection
  unfolding overwrite apply_hostname ◌+ℤ◌ ◌-ℤ◌
  update_hostname_via_dataref none offset len c = c
  update_hostname_via_dataref (some value) offset len c =
      let old = c.connection_hostname in
      let end = int32 (offset +ℤ len) in
      let end_offset_excl =
        if ltb_ℤ end (pos max_connection_hostname_length)
        then end
        else pos max_connection_hostname_length in
      let write_length = end_offset_excl -ℤ offset in
      if eqb_ℤ len (pos 0)
      then c
      else if ltb_ℤ offset (pos 0) || ltb_ℤ len (pos 1)
      then c
      else if ltb max_connection_hostname_length (length old)
      then c
      else if ltb_ℤ (pos (length old)) offset
      then c
      else if leb_ℤ write_length (pos 0)
      then c
      else apply_hostname (overwrite old (pos_part offset) (pos_part write_length) value) c
