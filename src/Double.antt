-- ===== src/Double.antt =====
-- C's `double`, as a parameter: the operations of the language and of its <math.h> that the sources
-- use, and the documented behaviour of IEEE 754 arithmetic that theorems rely on, as hypotheses.
pub mod Fixed
use psx_xp_mover.Base.{ℕ, ◌*◌, ◌≤◌, ◌<◌, ◌^◌, ◌≡◌, Bool, true, false, not}
use psx_xp_mover.Base.Int.{ℤ, pos, pos_part, neg_part, ◌+ℤ◌, ◌-ℤ◌, ltb_ℤ, leb_ℤ}

pub record Double : Type 1 where
  pub D : Type 0
  -- the conversion of an integer
  pub of_int : ℤ → D
  pub nan : D
  pub is_nan : D → Bool
  pub is_finite : D → Bool
  -- `a < b` and `a <= b`
  pub lt : D → D → Bool
  pub le : D → D → Bool
  pub add : D → D → D
  pub sub : D → D → D
  pub mul : D → D → D
  pub div : D → D → D
  pub floor : D → D
  pub round : D → D
  -- `lround`, and the cast to an integer, which cuts off a fraction
  pub lround : D → ℤ
  pub trunc : D → ℤ

-- The functions of <math.h> and the conversions that no theorem needs a law of.
pub record Math (d : Double) : Type 0 where
  pub pi : d.D
  pub neg : d.D → d.D
  pub fabs : d.D → d.D
  pub sqrt : d.D → d.D
  pub sin : d.D → d.D
  pub cos : d.D → d.D
  pub asin : d.D → d.D
  pub fmod : d.D → d.D → d.D
  -- the conversion to `float`
  pub to_float : d.D → d.D

-- Integers of 33 bits at most, signed: a double holds each of them exactly, and their sums.
abbrev pub Fits : ℤ → Type 0
Fits a = (pos_part a < 2 ^ 33) × (neg_part a < 2 ^ 33)

-- Arithmetic on such integers is exact.
pub record IsExact (d : Double) : Type 0 where
  pub lt-of_int : (a b : ℤ) → Fits a → Fits b → d.lt (d.of_int a) (d.of_int b) ≡ ltb_ℤ a b
  pub le-of_int : (a b : ℤ) → Fits a → Fits b → d.le (d.of_int a) (d.of_int b) ≡ leb_ℤ a b
  pub add-of_int : (a b : ℤ) → Fits a → Fits b → d.add (d.of_int a) (d.of_int b) ≡ d.of_int (a +ℤ b)
  pub sub-of_int : (a b : ℤ) → Fits a → Fits b → d.sub (d.of_int a) (d.of_int b) ≡ d.of_int (a -ℤ b)
  pub lround-floor : (a : ℤ) → Fits a → d.lround (d.floor (d.of_int a)) ≡ a
  pub is_nan-of_int : (a : ℤ) → Fits a → d.is_nan (d.of_int a) ≡ false

-- The product of two such integers is exact where it is one; a quotient is a number, and rounding
-- does not take it past an integer.
pub record IsScaled (d : Double) : Type 0 where
  pub mul-of_int :
      (a b : ℕ)
      → a * b < 2 ^ 33
      → d.mul (d.of_int (pos a)) (d.of_int (pos b)) ≡ d.of_int (pos (a * b))
  pub div-le :
      (a b c : ℕ)
      → 0 < b
      → a < 2 ^ 33
      → c < 2 ^ 33
      → a ≤ b * c
      → d.le (d.div (d.of_int (pos a)) (d.of_int (pos b))) (d.of_int (pos c)) ≡ true
  pub is_nan-div :
      (a b : ℕ) → 0 < b → d.is_nan (d.div (d.of_int (pos a)) (d.of_int (pos b))) ≡ false

-- A comparison with NaN fails; numbers are totally ordered.
pub record IsOrdered (d : Double) : Type 0 where
  pub is_nan-nan : d.is_nan d.nan ≡ true
  pub finite_zero : d.is_finite (d.of_int (pos 0)) ≡ true
  pub finite_number : (a : d.D) → d.is_finite a ≡ true → d.is_nan a ≡ false
  pub le_refl : (a : d.D) → d.is_nan a ≡ false → d.le a a ≡ true
  pub le_of_not_lt :
      (a b : d.D) → d.is_nan a ≡ false → d.is_nan b ≡ false → d.lt a b ≡ false → d.le b a ≡ true
  pub le_of_lt : (a b : d.D) → d.lt a b ≡ true → d.le a b ≡ true
  pub le_of_not_le :
      (a b : d.D) → d.is_nan a ≡ false → d.is_nan b ≡ false → d.le a b ≡ false → d.le b a ≡ true
