-- ===== src/Network/Tests.antt =====
-- Host names and addresses of src/network.c, with concrete values.
use psx_xp_mover.Base.{
  ℕ, ◌≡◌, ◌↔◌, ◌⊎◌, ◌≤◌, refl, Bool, true, false, not, ◌==◌, Option, some, List, [], ◌∷◌,
}
use psx_xp_mover.Base.Int.{pos}
use psx_xp_mover.Utils.{Bytes}
use psx_xp_mover.Network.{is_valid_tcp_port, is_valid_hostname, may_be_ipv6_address}
use psx_xp_mover.Network.Hostname.{IsName, is_valid_hostname_iff}
use psx_xp_mover.Network.Ipv6.{may_be_ipv6_address-zone}
use psx_xp_mover.Network.Connect.{
  Address, Family, inet, inet6, Resolver, lookup_result, connect_tcp_client,
}
use psx_xp_mover.Network.Connect.Leaks.{
  HasNoLeak, IsAccounted, connect_tcp_client-HasNoLeak, connect_tcp_client-first,
}

-- "a.b"
abbrev host_name : Bytes
host_name = b'a' ∷ b'.' ∷ b'b' ∷ []

is_valid_hostname_iff_example :
    (is_valid_hostname (some host_name) ≡ true)
    ↔ ((1 ≤ 3) × (3 ≤ 255) × ((may_be_ipv6_address host_name ≡ true) ⊎ IsName host_name))
is_valid_hostname_iff_example = is_valid_hostname_iff host_name

host_name_is_valid : is_valid_hostname (some host_name) ≡ true
unfolding is_valid_hostname
host_name_is_valid = refl

two_dots_are_refused : is_valid_hostname (some (b'a' ∷ b'.' ∷ b'.' ∷ b'b' ∷ [])) ≡ false
unfolding is_valid_hostname
two_dots_are_refused = refl

-- "::1" with a zone does not pass.
may_be_ipv6_address-zone_example :
    may_be_ipv6_address (b':' ∷ b':' ∷ b'1' ∷ b'%' ∷ b'l' ∷ b'o' ∷ []) ≡ false
may_be_ipv6_address-zone_example =
    may_be_ipv6_address-zone (b':' ∷ b':' ∷ b'1' ∷ []) (b'l' ∷ b'o' ∷ []) (refl, (refl, (refl, tt)))

abbrev address : Family → ℕ → Address
address family host = record { is_stream = true; family = family; host = host; sin_port = 0 }

abbrev two_addresses : List Address
two_addresses = address inet6 1 ∷ address inet 2 ∷ []

-- Each host has a socket of its number, and only the second answers.
abbrev socket : Address → Option ℕ
socket a = some a.host

abbrev connect : ℕ → Address → Bool
connect sd a = not (sd == 1)

abbrev resolver : Resolver
resolver = record { current = some (7, two_addresses); allocated = 7 ∷ []; released = [] }

connect_tcp_client-HasNoLeak_example :
    HasNoLeak socket connect
      (connect_tcp_client socket connect
        (some host_name)
        (pos 10747)
        (lookup_result 8 two_addresses)
        resolver).0
    × IsAccounted
        (connect_tcp_client socket connect
          (some host_name)
          (pos 10747)
          (lookup_result 8 two_addresses)
          resolver).1
connect_tcp_client-HasNoLeak_example =
    connect_tcp_client-HasNoLeak socket connect (some host_name) (pos 10747)
      (lookup_result 8 two_addresses) resolver refl

connect_tcp_client-first_example :
    (connect_tcp_client socket connect
      (some host_name)
      (pos 10747)
      (lookup_result 8 two_addresses)
      resolver).0.out_sd
    ≡ some 2
unfolding is_valid_hostname is_valid_tcp_port
connect_tcp_client-first_example =
    connect_tcp_client-first socket connect (some host_name) 10747 8 two_addresses resolver
