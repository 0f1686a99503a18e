-- ===== src/Utils/Tests.antt =====
-- Texts of numbers, as src/utils.c reads them.
use psx_xp_mover.Base.{◌≡◌, ◌↔◌, refl, true, false, none, some, [], ◌∷◌}
use psx_xp_mover.Base.Int.{negsuc}
use psx_xp_mover.Utils.{Bytes, print_int, parse_int, parse_long}
use psx_xp_mover.Utils.Numbers.{IsInt, parse_int_iff}

-- "-12"
abbrev minus_twelve : Bytes
minus_twelve = b'-' ∷ b'1' ∷ b'2' ∷ []

parse_int_iff_example :
    (parse_int true minus_twelve ≡ some (negsuc 11))
    ↔ ((true ≡ true) × (minus_twelve ≡ print_int (negsuc 11)) × IsInt (negsuc 11))
parse_int_iff_example = parse_int_iff true minus_twelve (negsuc 11)

minus_twelve_is_long : parse_long true minus_twelve ≡ some (negsuc 11)
unfolding parse_long
minus_twelve_is_long = refl

minus_twelve_is_read : parse_int true minus_twelve ≡ some (negsuc 11)
unfolding parse_int
minus_twelve_is_read = refl

-- "012" is refused, though `atoi` reads it.
leading_zero_is_refused : parse_int true (b'0' ∷ b'1' ∷ b'2' ∷ []) ≡ none
unfolding parse_int
leading_zero_is_refused = refl

no_buffer_is_refused : parse_int false minus_twelve ≡ none
unfolding parse_int
no_buffer_is_refused = refl
