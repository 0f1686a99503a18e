-- ===== src/Double/Fixed.antt =====
-- A concrete `Double` at which the hypotheses hold: NaN, the infinities, and fixed-point numbers
-- with three decimals. The witnesses and tests run with it.
use native.Mathlib.Nat.{div-le_of_le-mul}
use psx_xp_mover.Base.{
  ℕ, ◌≤◌, ◌<◌, zero, suc, ◌+◌, ◌*◌, ◌/◌, ◌≡◌, refl, ap, Bool, true, false, arith,
}
use psx_xp_mover.Base.Int.{ℤ, pos, negsuc, pos_part, neg_part, sub_ℕ, ◌+ℤ◌, ◌-ℤ◌, ltb_ℤ, leb_ℤ}
use psx_xp_mover.Double.{Double, Math, IsExact, IsScaled, IsOrdered}

-- `num n` is n / 1000
pub data Fixed : Type 0 where
  not_a_number minus_infinity infinity : Fixed
  num : ℤ → Fixed

abbrev neg : ℤ → ℤ
neg a = sub_ℕ (neg_part a) (pos_part a)

abbrev times : ℤ → ℕ → ℤ
times (pos n) k = pos (n * k)
times (negsuc n) k = sub_ℕ 0 (suc n * k)

-- the quotient, its fraction cut off
abbrev quot : ℤ → ℕ → ℤ
quot (pos n) k = pos (n / k)
quot (negsuc n) k = sub_ℕ 0 (suc n / k)

abbrev floor_int : ℤ → ℤ
floor_int (pos n) = pos (n / 1000)
floor_int (negsuc n) = negsuc (n / 1000)

-- to the nearest, halves away from 0
abbrev round_int : ℤ → ℤ
round_int (pos n) = pos ((n + 500) / 1000)
round_int (negsuc n) = sub_ℕ 0 ((suc n + 500) / 1000)

abbrev scaled : ℤ → Fixed
scaled a = num (times a 1000)

abbrev on_num : (ℤ → Fixed) → Fixed → Fixed
on_num f (num a) = f a
on_num f x = x

abbrev to_int : (ℤ → ℤ) → Fixed → ℤ
to_int f (num a) = f a
to_int f _ = pos 0

abbrev lt : Fixed → Fixed → Bool
lt (num a) (num b) = ltb_ℤ a b
lt minus_infinity (num b) = true
lt minus_infinity infinity = true
lt (num a) infinity = true
lt _ _ = false

abbrev le : Fixed → Fixed → Bool
le (num a) (num b) = leb_ℤ a b
le minus_infinity not_a_number = false
le minus_infinity b = true
le (num a) infinity = true
le infinity infinity = true
le _ _ = false

abbrev add : Fixed → Fixed → Fixed
add (num a) (num b) = num (a +ℤ b)
add (num a) b = b
add infinity (num b) = infinity
add infinity infinity = infinity
add minus_infinity (num b) = minus_infinity
add minus_infinity minus_infinity = minus_infinity
add _ _ = not_a_number

abbrev minus : Fixed → Fixed
minus (num a) = num (neg a)
minus infinity = minus_infinity
minus minus_infinity = infinity
minus not_a_number = not_a_number

abbrev sub : Fixed → Fixed → Fixed
sub (num a) (num b) = num (a -ℤ b)
sub a b = add a (minus b)

-- Products and quotients of numbers; the sources take none of infinities.
abbrev mul : Fixed → Fixed → Fixed
mul (num (pos a)) (num b) = num (quot (times b a) 1000)
mul (num (negsuc a)) (num b) = num (neg (quot (times b (suc a)) 1000))
mul _ _ = not_a_number

abbrev div : Fixed → Fixed → Fixed
div (num a) (num (pos zero)) = not_a_number
div (num a) (num (pos (suc b))) = num (quot (times a 1000) (suc b))
div (num a) (num (negsuc b)) = num (neg (quot (times a 1000) (suc b)))
div _ _ = not_a_number

abbrev is_nan : Fixed → Bool
is_nan not_a_number = true
is_nan _ = false

abbrev is_finite : Fixed → Bool
is_finite (num a) = true
is_finite _ = false

abbrev pub fixed : Double
fixed = record {
  D = Fixed;
  of_int = scaled;
  nan = not_a_number;
  is_nan = is_nan;
  is_finite = is_finite;
  lt = lt;
  le = le;
  add = add;
  sub = sub;
  mul = mul;
  div = div;
  floor = on_num (λ a. scaled (floor_int a));
  round = on_num (λ a. scaled (round_int a));
  lround = to_int round_int;
  trunc = to_int (λ a. quot a 1000);
}

-- The sine is cut to the first term of its series, the cosine to the first.
abbrev pub fixed_math : Math fixed
fixed_math = record {
  pi = num (pos 3142);
  neg = minus;
  fabs = on_num (λ a. num (pos (pos_part a + neg_part a)));
  sqrt = λ x. x;
  sin = λ x. x;
  cos = λ x. num (pos 1000);
  asin = λ x. x;
  fmod = λ x y. x;
  to_float = λ x. x;
}

times_lt : (a b : ℤ) → ltb_ℤ (times a 1000) (times b 1000) ≡ ltb_ℤ a b
times_lt (pos a) (pos b) = ground arith
times_lt a b = ground arith

times_le : (a b : ℤ) → leb_ℤ (times a 1000) (times b 1000) ≡ leb_ℤ a b
times_le a b = ground arith

times_add : (a b : ℤ) → times a 1000 +ℤ times b 1000 ≡ times (a +ℤ b) 1000
unfolding ◌+ℤ◌
times_add a b = ground arith

times_sub : (a b : ℤ) → times a 1000 -ℤ times b 1000 ≡ times (a -ℤ b) 1000
unfolding ◌-ℤ◌
times_sub a b = ground arith

round_floor : (a : ℤ) → round_int (times (floor_int (times a 1000)) 1000) ≡ a
round_floor a = ground arith

pub fixed-IsExact : IsExact fixed
fixed-IsExact = record {
  lt-of_int = λ a b _ _. times_lt a b;
  le-of_int = λ a b _ _. times_le a b;
  add-of_int = λ a b _ _. ap num (times_add a b);
  sub-of_int = λ a b _ _. ap num (times_sub a b);
  lround-floor = λ a _. round_floor a;
  is_nan-of_int = λ a _. refl;
}

fixed_le_refl : (a : Fixed) → is_nan a ≡ false → le a a ≡ true
fixed_le_refl a h = ground arith

fixed_le_of_not_lt :
    (a b : Fixed) → is_nan a ≡ false → is_nan b ≡ false → lt a b ≡ false → le b a ≡ true
fixed_le_of_not_lt a b p q h = ground arith

fixed_le_of_lt : (a b : Fixed) → lt a b ≡ true → le a b ≡ true
fixed_le_of_lt a b h = ground arith

fixed_le_of_not_le :
    (a b : Fixed) → is_nan a ≡ false → is_nan b ≡ false → le a b ≡ false → le b a ≡ true
fixed_le_of_not_le a b p q h = ground arith

fixed_finite : (a : Fixed) → is_finite a ≡ true → is_nan a ≡ false
fixed_finite a h = ground arith

pub fixed-IsOrdered : IsOrdered fixed
fixed-IsOrdered = record {
  is_nan-nan = refl;
  finite_zero = refl;
  finite_number = fixed_finite;
  le_refl = fixed_le_refl;
  le_of_not_lt = fixed_le_of_not_lt;
  le_of_lt = fixed_le_of_lt;
  le_of_not_le = fixed_le_of_not_le;
}

product : (a b : ℕ) → b * 1000 * (a * 1000) / 1000 ≡ a * b * 1000
product a b =
    let e : b * 1000 * (a * 1000) ≡ a * b * 1000 * 1000 = grind arith in rw e (omega arith)

quotient_le : (a b c : ℕ) → 0 < b → a ≤ b * c → a * 1000 * 1000 / (b * 1000) ≤ c * 1000
quotient_le a b c p h =
    let e : b * 1000 * (c * 1000) ≡ b * c * 1000 * 1000 = grind arith in
    div-le_of_le-mul (b * 1000) (omega (arith, e, h))

fixed_div-le :
    (a b c : ℕ)
    → 0 < b
    → a ≤ b * c
    → le (div (scaled (pos a)) (scaled (pos b))) (scaled (pos c)) ≡ true
fixed_div-le a zero c p h = absurd (omega arith)
fixed_div-le a (suc b) c p h = ground (arith, quotient_le a (suc b) c p h)

fixed_is_nan-div : (a b : ℕ) → 0 < b → is_nan (div (scaled (pos a)) (scaled (pos b))) ≡ false
fixed_is_nan-div a zero p = absurd (omega arith)
fixed_is_nan-div a (suc b) p = ground arith

fixed_mul : (a b : ℕ) → mul (scaled (pos a)) (scaled (pos b)) ≡ scaled (pos (a * b))
fixed_mul a b = ap (λ n. num (pos n)) (product a b)

pub fixed-IsScaled : IsScaled fixed
fixed-IsScaled = record {
  mul-of_int = λ a b _. fixed_mul a b;
  div-le = λ a b c p _ _ h. fixed_div-le a b c p h;
  is_nan-div = fixed_is_nan-div;
}
