-- ===== src/Plugin/Blending/Unit.antt =====
-- Each fraction is between 0 and 1, or NaN.
use psx_xp_mover.Base.{
  ℕ, zero, suc, ◌+◌, ◌-◌, ◌≤◌, ◌≡◌, ◌⊎◌, ap, ◌∙◌, arith, Bool, true, false, Bool-cases, inl, inr,
  min, if◌then◌else◌,
}
use psx_xp_mover.Base.Int.{ℤ, pos, ◌+ℤ◌, ◌-ℤ◌}
use psx_xp_mover.Double.{Double, IsExact, IsOrdered}
use psx_xp_mover.Plugin.Blending.{
  update_ground_contact_cycles, Fractions, zero_d, one_d, clamp, update_low_speed_fraction,
  ground_contact_fraction, raw_elevation_blending_fraction, get_average_elevation_blending_fraction,
}

-- the counter after some cycles of ground contact, or of flight
abbrev pub cycles_after : Bool → ℕ → ℤ → ℤ
cycles_after contact zero cycles = cycles
cycles_after contact (suc n) cycles =
    cycles_after contact n (update_ground_contact_cycles contact cycles)

contact_step :
    (cycles : ℕ)
    → cycles ≤ 120
    → update_ground_contact_cycles true (pos cycles) ≡ pos (min (cycles + 1) 120)
unfolding update_ground_contact_cycles ◌+ℤ◌
contact_step cycles h = ground arith

flight_step :
    (cycles : ℕ) → cycles ≤ 120 → update_ground_contact_cycles false (pos cycles) ≡ pos (cycles - 1)
unfolding update_ground_contact_cycles ◌-ℤ◌
flight_step cycles h = ground arith

contact_cycles :
    (n cycles : ℕ) → cycles ≤ 120 → cycles_after true n (pos cycles) ≡ pos (min (cycles + n) 120)
contact_cycles zero cycles h = ap pos (omega arith)
contact_cycles (suc n) cycles h =
    rw (contact_step cycles h)
      (contact_cycles n (min (cycles + 1) 120) (omega arith) ∙ ap pos (omega arith))

flight_cycles : (n cycles : ℕ) → cycles ≤ 120 → cycles_after false n (pos cycles) ≡ pos (cycles - n)
flight_cycles zero cycles h = ap pos (omega arith)
flight_cycles (suc n) cycles h =
    rw (flight_step cycles h) (flight_cycles n (cycles - 1) (omega arith) ∙ ap pos (omega arith))

-- From any count up to 120, cycles of ground contact count up to 120 and stay there, and cycles of
-- flight count down to 0 and stay there.
pub cycles_after_lem :
    (n cycles : ℕ)
    → cycles ≤ 120
    → (cycles_after true n (pos cycles) ≡ pos (min (cycles + n) 120))
      × (cycles_after false n (pos cycles) ≡ pos (cycles - n))
cycles_after_lem n cycles h = (contact_cycles n cycles h, flight_cycles n cycles h)

module _ (d : Double) (exact : IsExact d) (ordered : IsOrdered d) where
  open d use {D, is_nan, lt, le, sub, div}

  -- NaN, or between 0 and 1
  abbrev pub InUnit : D → Type 0
  InUnit x = (is_nan x ≡ true) ⊎ ((le (zero_d d) x ≡ true) × (le x (one_d d) ≡ true))

  zero_number : is_nan (zero_d d) ≡ false
  zero_number = exact.is_nan-of_int (pos 0) (omega arith, omega arith)

  one_number : is_nan (one_d d) ≡ false
  one_number = exact.is_nan-of_int (pos 1) (omega arith, omega arith)

  zero_le_one : le (zero_d d) (one_d d) ≡ true
  zero_le_one =
      exact.le-of_int (pos 0) (pos 1) (omega arith, omega arith) (omega arith, omega arith)

  zero-InUnit : InUnit (zero_d d)
  zero-InUnit = inr (ordered.le_refl _ zero_number, zero_le_one)

  one-InUnit : InUnit (one_d d)
  one-InUnit = inr (zero_le_one, ordered.le_refl _ one_number)

  clamp-InUnit : (x : D) → InUnit (clamp d x)
  clamp-InUnit x = elim (Bool-cases (lt x (zero_d d))) [
    | inl below ↦ rw below zero-InUnit
    | inr at_least ↦ elim (Bool-cases (lt (one_d d) x)) [
      | inl above ↦ rw (at_least, above) one-InUnit
      | inr at_most ↦
          rw (at_least, at_most)
            (elim (Bool-cases (is_nan x)) [
              | inl undefined ↦ inl undefined
              | inr number ↦ inr (
                ordered.le_of_not_lt x (zero_d d) number zero_number at_least,
                ordered.le_of_not_lt (one_d d) x one_number number at_most,
              )
            ])
    ]
  ]

  choice-InUnit : (b : Bool) (x y : D) → InUnit x → InUnit y → InUnit (if b then x else y)
  choice-InUnit true x y h k = h
  choice-InUnit false x y h k = k

  -- The low speed fraction, if it was, the ground contact fraction, the blending fraction and their
  -- average are each between 0 and 1, or NaN, whatever the speeds and factors that are set.
  pub fractions-InUnit :
      (speed firm lift low factor : D) (cycles : ℤ) (suspend : Bool) (f : Fractions D)
      → InUnit low
      → InUnit (update_low_speed_fraction d speed firm lift low)
        × InUnit (ground_contact_fraction d cycles)
        × InUnit (
            raw_elevation_blending_fraction d low (ground_contact_fraction d cycles) factor suspend)
        × InUnit (get_average_elevation_blending_fraction d f)
  unfolding update_low_speed_fraction ground_contact_fraction raw_elevation_blending_fraction
      get_average_elevation_blending_fraction
  fractions-InUnit speed firm lift low factor cycles suspend f h = (
    choice-InUnit _ _ _ one-InUnit (
        choice-InUnit _ _ _ zero-InUnit (
          choice-InUnit (lt firm lift) _ _
            (clamp-InUnit (sub (one_d d) (div (sub speed firm) (sub lift firm)))) h)),
    clamp-InUnit _,
    choice-InUnit _ _ _ zero-InUnit (choice-InUnit _ _ _ one-InUnit (clamp-InUnit _)),
    choice-InUnit _ _ _ zero-InUnit (choice-InUnit _ _ _ (inl ordered.is_nan-nan) (clamp-InUnit _)),
  )
