-- ===== src/Network/Ipv6.antt =====
-- Which texts pass as IPv6 addresses.
use psx_xp_mover.Base.{
  ℕ, suc, ◌+◌, ◌≡◌, arith, true, ◌∷◌, [], ◌++◌, All, length, length-append, ltb,
}
use psx_xp_mover.Utils.{Bytes}
use psx_xp_mover.Network.{is_ipv6_char, ipv6_chars, may_be_ipv6_address}

ipv6_chars-zone :
    (address zone : Bytes) (i : ℕ)
    → All (λ ch. is_ipv6_char ch ≡ true) address
    → ipv6_chars i (address ++ b'%' ∷ zone) ≡ ltb 3 (i + length address)
unfolding ipv6_chars
ipv6_chars-zone [] zone i h = ground arith
ipv6_chars-zone (ch ∷ address) zone i h = ground (arith, ipv6_chars-zone address zone (suc i) h.1)

-- Hexadecimal digits and colons with a zone behind `%` pass as an IPv6 address exactly if there
-- are more than three of them, whatever the zone: three, as in `::1`, do not pass with a zone.
pub may_be_ipv6_address-zone :
    (address zone : Bytes)
    → All (λ ch. is_ipv6_char ch ≡ true) address
    → may_be_ipv6_address (address ++ b'%' ∷ zone) ≡ ltb 3 (length address)
unfolding may_be_ipv6_address
may_be_ipv6_address-zone address zone h =
    ground (arith, ipv6_chars-zone address zone 0 h, length-append address (b'%' ∷ zone))
