-- ===== src/Plugin/QueryTime/Second.antt =====
-- The loops of src/plugin.c that bring a time into a second: when they end, with what, and when they
-- do not.
use psx_xp_mover.Base.{
  ℕ, zero, suc, ◌+◌, ◌-◌, ◌*◌, ◌%◌, ◌≤◌, ◌<◌, ◌^◌, ◌≡◌, refl, ap, ◌∙◌, arith, dec_lt, Bool, true,
  false, none, some, if◌then◌else◌,
}
use psx_xp_mover.Base.Int.{ℤ, pos, negsuc, pos_part, neg_part, ◌+ℤ◌, ◌-ℤ◌}
use psx_xp_mover.Double.{Double, Fits, IsExact}
use psx_xp_mover.Plugin.QueryTime.{
  raise_to_second, lower_to_second, limit_to_second, into_second, time_to_query,
  interpolation_timestamp,
}

-- the millisecond within its second
abbrev pub residue : ℤ → ℕ
residue (pos n) = n % 1000
residue (negsuc n) = 999 - n % 1000

-- the first value from 0 on
abbrev raised : ℤ → ℕ
raised (pos n) = n
raised (negsuc n) = 999 - n % 1000

raised_next : (n : ℕ) → raised (negsuc n +ℤ pos 1000) ≡ 999 - n % 1000
unfolding ◌+ℤ◌
raised_next n = ground arith

neg_next : (n : ℕ) → neg_part (negsuc n +ℤ pos 1000) ≡ suc n - 1000
unfolding ◌+ℤ◌
neg_next n = ground arith

pos_next : (n : ℕ) → pos_part (negsuc n +ℤ pos 1000) ≤ 1000
unfolding ◌+ℤ◌
pos_next n = ground arith

lowered_next : (n : ℕ) → 1000 ≤ n → pos n -ℤ pos 1000 ≡ pos (n - 1000)
unfolding ◌-ℤ◌
lowered_next n h = ground arith

pos_part_diff : (a b : ℤ) → pos_part (a -ℤ b) ≤ pos_part a + neg_part b
unfolding ◌-ℤ◌
pos_part_diff a b = ground arith

neg_part_diff : (a b : ℤ) → neg_part (a -ℤ b) ≤ neg_part a + pos_part b
unfolding ◌-ℤ◌
neg_part_diff a b = ground arith

mod_small : (n : ℕ) → n < 1000 → n % 1000 ≡ n
mod_small n h = omega arith

mod_next : (n : ℕ) → 1000 ≤ n → (n - 1000) % 1000 ≡ n % 1000
mod_next n h = omega arith

module _ (d : Double) (exact : IsExact d) where
  open d use {D, of_int, lt, le, add, sub}

  not_below : (n : ℕ) → n < 2 ^ 33 → lt (of_int (pos n)) (of_int (pos 0)) ≡ false
  not_below n h =
      exact.lt-of_int (pos n) (pos 0) (h, omega arith) (omega arith, omega arith) ∙ ground arith

  below : (n : ℕ) → suc n < 2 ^ 33 → lt (of_int (negsuc n)) (of_int (pos 0)) ≡ true
  below n h =
      exact.lt-of_int (negsuc n) (pos 0) (omega arith, h) (omega arith, omega arith) ∙ ground arith

  not_above : (n : ℕ) → n < 1000 → le (of_int (pos 1000)) (of_int (pos n)) ≡ false
  not_above n h =
      exact.le-of_int (pos 1000) (pos n) (omega arith, omega arith) (omega arith, omega arith)
      ∙ ground arith

  above : (n : ℕ) → n < 2 ^ 33 → 1000 ≤ n → le (of_int (pos 1000)) (of_int (pos n)) ≡ true
  above n h l =
      exact.le-of_int (pos 1000) (pos n) (omega arith, omega arith) (h, omega arith) ∙ ground arith

  raise_to_second_lem :
      (fuel : ℕ) (x : ℤ)
      → Fits x
      → neg_part x ≤ 1000 * fuel
      → raise_to_second d fuel (of_int x) ≡ some (of_int (pos (raised x)))
  unfolding raise_to_second
  raise_to_second_lem zero (pos n) fits h = rw (not_below n fits.0) refl
  raise_to_second_lem (suc fuel) (pos n) fits h = rw (not_below n fits.0) refl
  raise_to_second_lem zero (negsuc n) fits h = ground arith
  raise_to_second_lem (suc fuel) (negsuc n) fits h =
      let next =
        raise_to_second_lem fuel (negsuc n +ℤ pos 1000)
          (ground (arith, pos_next n), ground (arith, neg_next n)) (ground (arith, neg_next n)) in
      rw
        (
          below n fits.1,
          exact.add-of_int (negsuc n) (pos 1000) fits (omega arith, omega arith),
          next,
          raised_next n,
        )
        refl

  lower_to_second_lem :
      (fuel n : ℕ)
      → n < 2 ^ 33
      → n < 1000 * fuel + 1000
      → lower_to_second d fuel (of_int (pos n)) ≡ some (of_int (pos (n % 1000)))
  unfolding lower_to_second
  lower_to_second_lem zero n fits h = rw (not_above n (omega arith), mod_small n (omega arith)) refl
  lower_to_second_lem (suc fuel) n fits h = elim (dec_lt n 1000) [
    | yes l ↦ rw (not_above n l, mod_small n l) refl
    | no g ↦
        let next = lower_to_second_lem fuel (n - 1000) (omega arith) (omega arith) in
        rw
          (
            above n fits (omega arith),
            exact.sub-of_int (pos n) (pos 1000) (fits, omega arith) (omega arith, omega arith),
            lowered_next n (omega arith),
            next,
          )
          (ap (λ r. some (of_int (pos r))) (mod_next n (omega arith)))
  ]

  limit_to_second_lem : (n : ℕ) → n < 1000 → limit_to_second d (of_int (pos n)) ≡ of_int (pos n)
  unfolding limit_to_second
  limit_to_second_lem n h = rw (not_below n (omega arith), not_above n h) refl

  residue_lem : (x : ℤ) → raised x % 1000 ≡ residue x
  residue_lem (pos n) = refl
  residue_lem (negsuc n) = mod_small (999 - n % 1000) (omega arith)

  residue_less : (x : ℤ) → residue x < 1000
  residue_less (pos n) = omega arith
  residue_less (negsuc n) = omega arith

  raised_bound : (x : ℤ) → raised x ≤ pos_part x + 999
  raised_bound (pos n) = omega arith
  raised_bound (negsuc n) = omega arith

  raised-Fits : (x : ℤ) → Fits x → raised x < 2 ^ 33
  raised-Fits (pos n) h = h.0
  raised-Fits (negsuc n) h = omega arith

  into_second_lem :
      (fuel : ℕ) (x : ℤ)
      → Fits x
      → pos_part x ≤ 1000 * fuel
      → neg_part x ≤ 1000 * fuel
      → into_second d fuel (of_int x) ≡ some (of_int (pos (residue x)))
  unfolding into_second
  into_second_lem fuel x fits h g =
      rw
        (
          raise_to_second_lem fuel x fits g,
          lower_to_second_lem fuel (raised x) (raised-Fits x fits) (omega (arith, raised_bound x)),
          residue_lem x,
          limit_to_second_lem (residue x) (residue_less x),
        )
        refl

  -- For a present within the second and a buffer and a difference that are whole numbers of less than
  -- 2 ^ 31, the loops end, after at most as many rounds as seconds are begun by what they start with,
  -- and the time to ask for is the millisecond part of the present less the buffer and, where it is
  -- to be compensated, less the difference.
  pub interpolation_timestamp_ends :
      (fuel now : ℕ) (buffer : ℤ) (compensate : Bool) (difference : ℤ)
      → now < 1000
      → (pos_part buffer < 2 ^ 31) × (neg_part buffer < 2 ^ 31)
      → (pos_part difference < 2 ^ 31) × (neg_part difference < 2 ^ 31)
      → pos_part buffer + pos_part difference ≤ 1000 * fuel
      → now + neg_part buffer + neg_part difference ≤ 1000 * fuel
      → interpolation_timestamp d fuel
          (of_int (pos now))
          (of_int buffer)
          compensate
          (of_int difference)
        ≡ some (
            of_int (
              pos (
                residue
                  (if compensate then pos now -ℤ buffer -ℤ difference else pos now -ℤ buffer))))
  unfolding interpolation_timestamp
  interpolation_timestamp_ends fuel now buffer false difference n b e f g =
      let p = pos_part_diff (pos now) buffer in
      let q = neg_part_diff (pos now) buffer in
      rw (exact.sub-of_int (pos now) buffer (omega arith, omega arith) (omega arith, omega arith)) (
        into_second_lem fuel (pos now -ℤ buffer) (omega arith, omega arith) (omega arith)
          (omega arith))
  interpolation_timestamp_ends fuel now buffer true difference n b e f g =
      let p = pos_part_diff (pos now) buffer in
      let q = neg_part_diff (pos now) buffer in
      let p' = pos_part_diff (pos now -ℤ buffer) difference in
      let q' = neg_part_diff (pos now -ℤ buffer) difference in
      rw
        (
          exact.sub-of_int (pos now) buffer (omega arith, omega arith) (omega arith, omega arith),
          exact.sub-of_int (pos now -ℤ buffer) difference (omega arith, omega arith)
              (omega arith, omega arith),
        )
        (into_second_lem fuel (pos now -ℤ buffer -ℤ difference) (omega arith, omega arith)
          (omega arith) (omega arith))

module _ (d : Double) where
  open d use {D, of_int, lt, le, add, sub}

  raise_to_second-never :
      (t : D)
      → lt t (of_int (pos 0)) ≡ true
      → add t (of_int (pos 1000)) ≡ t
      → (fuel : ℕ) → raise_to_second d fuel t ≡ none
  unfolding raise_to_second
  raise_to_second-never t h e zero = rw h refl
  raise_to_second-never t h e (suc fuel) = rw (h, e) (raise_to_second-never t h e fuel)

  -- Where the time that the loops start with is negative and so large that adding 1000 leaves it as it
  -- is, as with a buffer that is infinite, the first loop does not end, however many rounds it takes.
  pub interpolation_timestamp_never :
      (now buffer : D) (compensate : Bool) (difference : D)
      → lt (time_to_query d now buffer compensate difference) (of_int (pos 0)) ≡ true
      → add (time_to_query d now buffer compensate difference) (of_int (pos 1000))
        ≡ time_to_query d now buffer compensate difference
      → (fuel : ℕ) → interpolation_timestamp d fuel now buffer compensate difference ≡ none
  unfolding interpolation_timestamp into_second
  interpolation_timestamp_never now buffer compensate difference h e fuel =
      rw (raise_to_second-never (time_to_query d now buffer compensate difference) h e fuel) refl
