-- ===== src/Network/Connect.antt =====
-- src/network.c: resolved addresses, and the connection to one of them. What `getaddrinfo`, `socket`
-- and `connect` answer are arguments; a list that `getaddrinfo` gives out has a number, so that
-- its release can be followed.
pub mod Leaks
use psx_xp_mover.Base.{
  ℕ, ◌+◌, ◌*◌, ◌/◌, ◌%◌, Bool, true, false, not, ◌&&◌, ◌||◌, Option, none, some, List, [], ◌∷◌,
  ◌++◌, ◌==◌, is_some, if◌then◌else◌,
}
use psx_xp_mover.Base.Int.{ℤ, pos_part}
use psx_xp_mover.Utils.{Bytes}
use psx_xp_mover.Network.{is_valid_tcp_port, is_valid_hostname}

pub data Family : Type 0 where
  inet inet6 other_family : Family

-- `struct addrinfo`: whether the socket type is `SOCK_STREAM`, the family, and the socket address
-- with its port in network byte order.
pub record Address : Type 0 where
  pub is_stream : Bool
  pub family : Family
  pub host : ℕ
  pub sin_port : ℕ

-- `ntohs` where the least significant byte is first
abbrev pub ntohs : ℕ → ℕ
ntohs port = port % 256 * 256 + port / 256 % 256

-- `*resolved_addresses`, which may be NULL, and what was allocated and released so far
pub record Resolver : Type 0 where
  pub current : Option (ℕ × List Address)
  pub allocated : List ℕ
  pub released : List ℕ

-- the answer of `getaddrinfo`; the list may be empty (NULL)
pub data Lookup : Type 0 where
  lookup_failed : Lookup
  lookup_result : ℕ → List Address → Lookup

abbrev pub release : Option (ℕ × List Address) → Resolver → Resolver
release none r = r
release (some list) r = record r { current = none; released = r.released ++ list.0 ∷ [] }

unfoldable pub free_addresses : Resolver → Resolver
free_addresses r = release r.current r

-- with whether it succeeds
unfoldable pub resolve_addresses : Option Bytes → Lookup → Resolver → Bool × Resolver
unfolding free_addresses
resolve_addresses none lookup r = (false, r)
resolve_addresses (some hostname) lookup_failed r = (false, r)
resolve_addresses (some hostname) (lookup_result list []) r = (false, r)
resolve_addresses (some hostname) (lookup_result list (a ∷ addresses)) r = (
  true,
  record (free_addresses r) {
    current = some (list, a ∷ addresses);
    allocated = r.allocated ++ list ∷ [];
  },
)

-- what the loop over the addresses does: the addresses as it leaves them, the sockets opened and
-- closed in their order, and the connected one
pub record Attempts : Type 0 where
  pub addresses : List Address
  pub opened : List ℕ
  pub closed : List ℕ
  pub out_sd : Option ℕ

abbrev pub is_ip : Family → Bool
is_ip other_family = false
is_ip _ = true

abbrev pub with_port : ℕ → Address → Address
with_port port a = record a { sin_port = ntohs port }

abbrev pub skip_address : Address → Attempts → Attempts
skip_address a rest = record rest { addresses = a ∷ rest.addresses }

module _ (socket : Address → Option ℕ) (connect : ℕ → Address → Bool) where
  unfoldable pub connect_addresses : ℕ → List Address → Attempts
  connect_addresses port [] = record { addresses = []; opened = []; closed = []; out_sd = none }
  connect_addresses port (a ∷ addresses) =
      let rest = connect_addresses port addresses in
      let target = with_port port a in
      if not a.is_stream
      then skip_address a rest
      else if not (is_ip a.family)
      then skip_address a rest
      else (elim (socket target) [
        | none ↦ skip_address target rest
        | some sd ↦
            if connect sd target
            then record {
              addresses = target ∷ addresses;
              opened = sd ∷ [];
              closed = [];
              out_sd = some sd;
            }
            else record (skip_address target rest) {
              opened = sd ∷ rest.opened;
              closed = sd ∷ rest.closed;
            }
      ])

  abbrev pub no_attempts : Attempts
  no_attempts = record { addresses = []; opened = []; closed = []; out_sd = none }

  -- the loop over the list that was resolved
  unfoldable pub connect_resolved : ℕ → Option (ℕ × List Address) → Resolver → Attempts × Resolver
  unfolding connect_addresses
  connect_resolved port none r = (no_attempts, r)
  connect_resolved port (some list) r =
      let attempts = connect_addresses port list.1 in
      (attempts, record r { current = some (list.0, attempts.addresses) })

  -- The pointers are not NULL, as the only caller has it, but for the host name.
  unfoldable pub connect_tcp_client : Option Bytes → ℤ → Lookup → Resolver → Attempts × Resolver
  unfolding is_valid_tcp_port is_valid_hostname resolve_addresses connect_resolved
  connect_tcp_client hostname port lookup r =
      let resolved = resolve_addresses hostname lookup r in
      if not (is_valid_tcp_port port)
      then (no_attempts, r)
      else if not (is_valid_hostname hostname)
      then (no_attempts, r)
      else if not resolved.0
      then (no_attempts, resolved.1)
      else connect_resolved (pos_part port) resolved.1.current resolved.1
