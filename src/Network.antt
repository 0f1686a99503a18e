-- ===== src/Network.antt =====
-- src/network.c: the checks of ports and host names.
pub mod Ipv6
pub mod Hostname
pub mod Connect
mod Tests
use psx_xp_mover.Base.{
  ℕ, zero, suc, ◌+◌, Bool, true, false, ◌&&◌, ◌||◌, Option, none, some, [], ◌∷◌, length, ltb, leb,
  ◌==◌, within, if◌then◌else◌,
}
use psx_xp_mover.Base.Int.{ℤ, pos, ltb_ℤ, leb_ℤ}
use psx_xp_mover.Utils.{Bytes}

abbrev pub max_tcp_port : ℕ
max_tcp_port = 65535

abbrev pub max_connection_hostname_length : ℕ
max_connection_hostname_length = 255

-- The shortest IPv6 address would be a single character and a placeholder.
abbrev pub ipv6_address_min_length : ℕ
ipv6_address_min_length = 3

unfoldable pub is_valid_tcp_port : ℤ → Bool
is_valid_tcp_port port = ltb_ℤ (pos 0) port && leb_ℤ port (pos max_tcp_port)

unfoldable pub is_valid_hostname_char : ℕ → Bool
is_valid_hostname_char ch =
    within b'0' b'9' ch || within b'a' b'z' ch || within b'A' b'Z' ch || ch == b'.' || ch == b'-'

abbrev pub is_ipv6_char : ℕ → Bool
is_ipv6_char ch = within b'0' b'9' ch || within b'a' b'f' ch || within b'A' b'F' ch || ch == b':'

-- the loop, from an index on
unfoldable pub ipv6_chars : ℕ → Bytes → Bool
ipv6_chars i [] = true
ipv6_chars i (ch ∷ s) =
    if ch == b'%'
    then ltb ipv6_address_min_length i
    else if is_ipv6_char ch
    then ipv6_chars (suc i) s
    else false

unfoldable pub may_be_ipv6_address : Bytes → Bool
unfolding ipv6_chars
may_be_ipv6_address s = if ltb (length s) ipv6_address_min_length then false else ipv6_chars 0 s

-- the loop over a host name, from an index on; the flag is `prev_dot`
unfoldable pub hostname_chars : ℕ → Bool → Bytes → Bool
unfolding is_valid_hostname_char
hostname_chars i prev_dot [] = true
hostname_chars i prev_dot (ch ∷ s) =
    let label = hostname_chars (suc i) false s in
    let dot = hostname_chars (suc i) true s in
    if is_valid_hostname_char ch
    then if ch == b'.' then if i == 0 then false else if prev_dot then false else dot else label
    else false

-- `none` stands for NULL.
unfoldable pub is_valid_hostname : Option Bytes → Bool
unfolding may_be_ipv6_address hostname_chars
is_valid_hostname none = false
is_valid_hostname (some s) =
    if ltb (length s) 1 || ltb max_connection_hostname_length (length s)
    then false
    else if may_be_ipv6_address s
    then true
    else hostname_chars 0 false s
