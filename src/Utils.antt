-- ===== src/Utils.antt =====
-- src/utils.c: the numbers read from text, and the C library's conversions that they use. A text of
-- a given length is the list of its bytes.
pub mod Decimal
pub mod Numbers
pub mod Conversions
pub mod Copies
mod Tests
use psx_xp_mover.Base.{
  ℕ, zero, suc, ◌+◌, ◌-◌, ◌*◌, ◌/◌, ◌%◌, ◌^◌, Bool, true, false, ◌&&◌, ◌||◌, Option, none, some,
  List, [], ◌∷◌, length, leb, ltb, ◌==◌, within, if◌then◌else◌,
}
use psx_xp_mover.Base.Int.{ℤ, pos, negsuc, sub_ℕ, ltb_ℤ, int32}

abbrev pub Bytes : Type 0
Bytes = List ℕ

-- A C string ends at its first NUL.
unfoldable pub c_string : Bytes → Bytes
c_string [] = []
c_string (c ∷ cs) = if c == 0 then [] else c ∷ c_string cs

-- `NUMBER_PARSING_BUFFER_SIZE`
abbrev pub number_parsing_buffer_size : ℕ
number_parsing_buffer_size = 256

-- `isspace`
abbrev pub is_space : ℕ → Bool
is_space c = c == 32 || within 9 13 c

abbrev pub is_digit : ℕ → Bool
is_digit c = within b'0' b'9' c

-- The digits in front, read on from a value.
unfoldable pub digits_value : ℕ → Bytes → ℕ
digits_value value [] = value
digits_value value (c ∷ cs) =
    if is_digit c then digits_value (value * 10 + (c - b'0')) cs else value

-- `strtol` behind the white space: a sign and digits, kept within `long` of 64 bits.
unfoldable pub signed_value : Bytes → ℤ
unfolding digits_value
signed_value [] = pos 0
signed_value (c ∷ cs) =
    if c == b'-'
    then sub_ℕ 0 (digits_value 0 cs)
    else if c == b'+'
    then pos (digits_value 0 cs)
    else pos (digits_value 0 (c ∷ cs))

unfoldable pub skip_spaces : Bytes → Bytes
skip_spaces [] = []
skip_spaces (c ∷ cs) = if is_space c then skip_spaces cs else c ∷ cs

abbrev pub long_min : ℤ
long_min = negsuc (2 ^ 63 - 1)

abbrev pub long_max : ℤ
long_max = pos (2 ^ 63 - 1)

abbrev pub clamp_long : ℤ → ℤ
clamp_long v = if ltb_ℤ v long_min then long_min else if ltb_ℤ long_max v then long_max else v

unfoldable pub atol : Bytes → ℤ
unfolding signed_value skip_spaces
atol s = clamp_long (signed_value (skip_spaces s))

-- `atoi` is `(int) strtol(...)`.
unfoldable pub atoi : Bytes → ℤ
unfolding atol
atoi s = int32 (atol s)

-- The digits of a number, in front of a text.
unfoldable pub print_digits : ℕ → ℕ → Bytes → Bytes
print_digits zero n rest = rest
print_digits (suc fuel) n rest =
    let more = print_digits fuel (n / 10) ((b'0' + n % 10) ∷ rest) in
    if n / 10 == 0 then (b'0' + n % 10) ∷ rest else more

-- `snprintf` with `%d` or `%ld`
unfoldable pub print_int : ℤ → Bytes
unfolding print_digits
print_int (pos n) = print_digits (suc n) n []
print_int (negsuc n) = b'-' ∷ print_digits (suc (suc n)) (suc n) []

-- `strncmp` over the whole of two texts of one length
unfoldable pub same_text : Bytes → Bytes → Bool
same_text [] [] = true
same_text [] (y ∷ t) = false
same_text (x ∷ s) [] = false
same_text (x ∷ s) (y ∷ t) = if x == y then same_text s t else false

-- The text fits the buffer with its terminator.
unfoldable pub apply_string_to_buffer : Bytes → Option Bytes
apply_string_to_buffer s = if leb number_parsing_buffer_size (length s) then none else some s

-- Turn the number back into a string to check that it was parsed correctly. The flag says whether the
-- buffer of that string is allocated.
abbrev pub checked : Bool → Bytes → ℤ → Option ℤ
checked granted s parsed =
    let back = print_int parsed in
    if length back == 0
    then none
    else if length back == length s
    then if granted then (if same_text s back then some parsed else none) else none
    else none

unfoldable pub parse_long : Bool → Bytes → Option ℤ
unfolding apply_string_to_buffer atol same_text print_int
parse_long granted s = elim (apply_string_to_buffer s) [
  | none ↦ none
  | some buffer ↦ checked granted s (atol buffer)
]

unfoldable pub parse_int : Bool → Bytes → Option ℤ
unfolding apply_string_to_buffer atoi same_text print_int
parse_int granted s = elim (apply_string_to_buffer s) [
  | none ↦ none
  | some buffer ↦ checked granted s (atoi buffer)
]

-- `atof` is a parameter: its value is not checked.
unfoldable pub parse_double : {D : Type 0} → (Bytes → D) → Bytes → Option D
unfolding apply_string_to_buffer
parse_double atof s = elim (apply_string_to_buffer s) [
  | none ↦ none
  | some buffer ↦ some (atof buffer)
]
