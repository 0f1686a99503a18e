-- ===== src/Utils/Decimal.antt =====
-- Decimal numbers: what `%d` prints, `atoi` reads back.
use psx_xp_mover.Base.{
  ℕ, zero, suc, ◌+◌, ◌*◌, ◌/◌, ◌%◌, ◌<◌, ◌≡◌, refl, ap, ◌∙◌, arith, true, Bool-cases, inl, inr, [],
  ◌∷◌, ◌==◌,
}
use psx_xp_mover.Base.Int.{ℤ, pos, negsuc}
use psx_xp_mover.Utils.{
  Bytes, is_digit, digits_value, signed_value, skip_spaces, print_digits, print_int,
}

digit_cons :
    (m d : ℕ) (rest : Bytes)
    → d < 10
    → digits_value m ((b'0' + d) ∷ rest) ≡ digits_value (m * 10 + d) rest
unfolding digits_value
digit_cons m d rest h =
    rw (is_digit_lem d h) (ap (λ k. digits_value (m * 10 + k) rest) (omega arith))
  where
    is_digit_lem : (d : ℕ) → d < 10 → is_digit (b'0' + d) ≡ true
    is_digit_lem d h = ground arith

digits_value-print_digits :
    (fuel n : ℕ) (rest : Bytes)
    → n < fuel
    → digits_value 0 (print_digits fuel n rest) ≡ digits_value n rest
unfolding print_digits
digits_value-print_digits zero n rest h = absurd (omega arith)
digits_value-print_digits (suc fuel) n rest h = elim (Bool-cases (n / 10 == 0)) [
  | inl last ↦
      rw last
        (digit_cons 0 (n % 10) rest (omega arith) ∙ ap (λ k. digits_value k rest) (ground arith))
  | inr more ↦ rw more (
      digits_value-print_digits fuel (n / 10) ((b'0' + n % 10) ∷ rest) (ground arith)
      ∙ digit_cons (n / 10) (n % 10) rest (omega arith)
      ∙ ap (λ k. digits_value k rest) (omega arith))
]

-- a text that begins with a digit
abbrev StartsWithDigit : Bytes → Type 0
StartsWithDigit [] = ⊥
StartsWithDigit (c ∷ cs) = is_digit c ≡ true

print_digits-StartsWithDigit :
    (fuel n : ℕ) (rest : Bytes) → n < fuel → StartsWithDigit (print_digits fuel n rest)
unfolding print_digits
print_digits-StartsWithDigit zero n rest h = absurd (omega arith)
print_digits-StartsWithDigit (suc fuel) n rest h = elim (Bool-cases (n / 10 == 0)) [
  | inl last ↦ rw last (ground arith)
  | inr more ↦
      rw more (print_digits-StartsWithDigit fuel (n / 10) ((b'0' + n % 10) ∷ rest) (ground arith))
]

signed_of_digits :
    (s : Bytes) → StartsWithDigit s → signed_value (skip_spaces s) ≡ pos (digits_value 0 s)
unfolding signed_value skip_spaces
signed_of_digits [] h = absurd h
signed_of_digits (c ∷ cs) h = ground arith

-- `strtol` reads back what `%ld` prints.
pub signed_value-print_int : (v : ℤ) → signed_value (skip_spaces (print_int v)) ≡ v
unfolding print_int
signed_value-print_int (pos n) =
    signed_of_digits (print_digits (suc n) n [])
      (print_digits-StartsWithDigit (suc n) n [] (omega arith))
    ∙ ap pos (digits_value-print_digits (suc n) n [] (omega arith) ∙ unfold digits_value in refl)
signed_value-print_int (negsuc n) =
    unfold signed_value skip_spaces digits_value in
    rw (digits_value-print_digits (suc (suc n)) (suc n) [] (omega arith)) (ground arith)
