-- ===== src/Utils/Numbers.antt =====
-- `parse_int` and `parse_long` accept exactly the decimal texts of the numbers of their type.
use native.Mathlib.Nat.{pow-suc}
use mathlib.Core.Path.{subst}
use psx_xp_mover.Base.{
  ℕ, zero, suc, ◌+◌, ◌-◌, ◌*◌, ◌/◌, ◌%◌, ◌^◌, ◌≤◌, ◌<◌, ◌≡◌, ◌↔◌, arith, Bool, true, false,
  Bool-cases, inl, inr, [], ◌∷◌, none, some, length, leb, if◌then◌else◌,
}
use psx_xp_mover.Base.Int.{ℤ, pos, negsuc, ◌≤ℤ◌, int32}
use psx_xp_mover.Utils.{
  Bytes, print_digits, print_int, same_text, long_min, long_max, clamp_long, atol, atoi,
  apply_string_to_buffer, checked, parse_int, parse_long, signed_value, skip_spaces,
}
use psx_xp_mover.Utils.Decimal.{signed_value-print_int}

pub same_text_iff : (s t : Bytes) → (same_text s t ≡ true) ↔ (s ≡ t)
unfolding same_text
same_text_iff [] [] = ground arith
same_text_iff [] (y ∷ t) = ground arith
same_text_iff (x ∷ s) [] = ground arith
same_text_iff (x ∷ s) (y ∷ t) = ground (arith, same_text_iff s t)

length-print_digits :
    (k fuel n : ℕ) (rest : Bytes)
    → n < 10 ^ suc k
    → length (print_digits fuel n rest) ≤ suc k + length rest
unfolding print_digits
length-print_digits k zero n rest h = omega arith
length-print_digits zero (suc fuel) n rest h = let small : n / 10 ≡ 0 = omega arith in ground arith
length-print_digits (suc k) (suc fuel) n rest h =
    let h' : n < 10 ^ suc k * 10 = rw (← pow-suc) h in
    let rest' = (b'0' + n % 10) ∷ rest in
    ground (arith, length-print_digits k fuel (n / 10) rest' (omega arith))

length-le-print_digits :
    (fuel n : ℕ) (rest : Bytes) → length rest ≤ length (print_digits fuel n rest)
unfolding print_digits
length-le-print_digits zero n rest = omega arith
length-le-print_digits (suc fuel) n rest =
    ground (arith, length-le-print_digits fuel (n / 10) ((b'0' + n % 10) ∷ rest))

print_digits_pos : (fuel n : ℕ) (rest : Bytes) → 0 < length (print_digits (suc fuel) n rest)
unfolding print_digits
print_digits_pos fuel n rest =
    ground (arith, length-le-print_digits fuel (n / 10) ((b'0' + n % 10) ∷ rest))

abbrev pub IsLong : ℤ → Type 0
IsLong v = (long_min ≤ℤ v) × (v ≤ℤ long_max)

-- a 32-bit `int`
abbrev pub IsInt : ℤ → Type 0
IsInt v = (negsuc (2 ^ 31 - 1) ≤ℤ v) × (v ≤ℤ pos (2 ^ 31 - 1))

length-print_int : (v : ℤ) → IsLong v → length (print_int v) ≤ 20
unfolding print_int
length-print_int (pos n) h = omega (arith, length-print_digits 18 (suc n) n [] (omega arith))
length-print_int (negsuc n) h =
    omega (arith, length-print_digits 18 (suc (suc n)) (suc n) [] (omega arith))

length-print_int_pos : (v : ℤ) → 0 < length (print_int v)
unfolding print_int
length-print_int_pos (pos n) = print_digits_pos n n []
length-print_int_pos (negsuc n) = omega arith

-- The check of the reprinted number passes for the printed text alone.
checked_print : (v : ℤ) → checked true (print_int v) v ≡ some v
checked_print v = ground (arith, length-print_int_pos v, same_text_iff (print_int v) (print_int v))

checked_sound :
    (granted : Bool) (s : Bytes) (parsed : ℤ) {v : ℤ}
    → checked granted s parsed ≡ some v
    → (granted ≡ true) × (s ≡ print_int v) × (parsed ≡ v)
checked_sound granted s parsed h = ground (arith, same_text_iff s (print_int parsed))

fits_buffer : (v : ℤ) → IsLong v → apply_string_to_buffer (print_int v) ≡ some (print_int v)
unfolding apply_string_to_buffer
fits_buffer v h = ground (arith, length-print_int v h)

atol-print_int : (v : ℤ) → IsLong v → atol (print_int v) ≡ v
unfolding atol
atol-print_int v h = rw (signed_value-print_int v) (ground arith)

int32_of_IsInt : (v : ℤ) → IsInt v → int32 v ≡ v
int32_of_IsInt (pos n) h = ground arith
int32_of_IsInt (negsuc n) h = ground arith

atoi-print_int : (v : ℤ) → IsInt v → atoi (print_int v) ≡ v
unfolding atoi
atoi-print_int v h = rw (atol-print_int v (omega arith)) (int32_of_IsInt v h)

clamp_long-IsLong : (v : ℤ) → IsLong (clamp_long v)
clamp_long-IsLong v = ground arith

atol-IsLong : (s : Bytes) → IsLong (atol s)
unfolding atol
atol-IsLong s = clamp_long-IsLong (signed_value (skip_spaces s))

int32-IsInt : (v : ℤ) → IsInt (int32 v)
int32-IsInt (pos n) = ground arith
int32-IsInt (negsuc n) = ground arith

atoi-IsInt : (s : Bytes) → IsInt (atoi s)
unfolding atoi
atoi-IsInt s = int32-IsInt (atol s)

parse_long_lem :
    (granted : Bool) (s : Bytes)
    → parse_long granted s ≡ (if leb 256 (length s) then none else checked granted s (atol s))
unfolding parse_long
parse_long_lem granted s = ground arith

parse_int_lem :
    (granted : Bool) (s : Bytes)
    → parse_int granted s ≡ (if leb 256 (length s) then none else checked granted s (atoi s))
unfolding parse_int
parse_int_lem granted s = ground arith

-- What is accepted is the printed text of the number parsed.
guarded_sound :
    (granted : Bool) (s : Bytes) (parsed : ℤ) {v : ℤ}
    → (if leb 256 (length s) then none else checked granted s parsed) ≡ some v
    → (granted ≡ true) × (s ≡ print_int v) × (parsed ≡ v)
guarded_sound granted s parsed h = elim (Bool-cases (leb 256 (length s))) [
  | inl long ↦ let h' = rw long at h in cc
  | inr short ↦ let h' = rw short at h in checked_sound granted s parsed h'
]

guarded_print :
    (v : ℤ)
    → IsLong v
    → (if leb 256 (length (print_int v)) then none else checked true (print_int v) v) ≡ some v
guarded_print v h =
    let short : leb 256 (length (print_int v)) ≡ false = ground (arith, length-print_int v h) in
    rw short (checked_print v)

-- `parse_long` accepts a text as `v` exactly if its buffer is allocated and the text is what `%ld`
-- prints for `v`, a 64-bit `long`.
pub parse_long_iff :
    (granted : Bool) (s : Bytes) (v : ℤ)
    → (parse_long granted s ≡ some v) ↔ ((granted ≡ true) × (s ≡ print_int v) × IsLong v)
parse_long_iff granted s v = (sound, complete)
  where
    sound : parse_long granted s ≡ some v → (granted ≡ true) × (s ≡ print_int v) × IsLong v
    sound h =
        let (enough, printed, is) =
          guarded_sound granted s (atol s) (rw (parse_long_lem granted s) at h) in
        (enough, printed, subst IsLong is (atol-IsLong s))

    complete : (granted ≡ true) × (s ≡ print_int v) × IsLong v → parse_long granted s ≡ some v
    complete h =
        rw (h.0, h.1, parse_long_lem true (print_int v), atol-print_int v h.2) (guarded_print v h.2)

-- `parse_int` accepts a text as `v` exactly if the buffer that it asks for is allocated and the text is
-- what `%d` prints for `v`, a 32-bit `int`.
pub parse_int_iff :
    (granted : Bool) (s : Bytes) (v : ℤ)
    → (parse_int granted s ≡ some v) ↔ ((granted ≡ true) × (s ≡ print_int v) × IsInt v)
parse_int_iff granted s v = (sound, complete)
  where
    sound : parse_int granted s ≡ some v → (granted ≡ true) × (s ≡ print_int v) × IsInt v
    sound h =
        let (enough, printed, is) =
          guarded_sound granted s (atoi s) (rw (parse_int_lem granted s) at h) in
        (enough, printed, subst IsInt is (atoi-IsInt s))

    complete : (granted ≡ true) × (s ≡ print_int v) × IsInt v → parse_int granted s ≡ some v
    complete h =
        rw (h.0, h.1, parse_int_lem true (print_int v), atoi-print_int v h.2)
          (guarded_print v (omega (arith, h.2)))
