-- ===== src/Plugin/Blending.antt =====
-- src/plugin.c: how much the elevation is taken from X-Plane's terrain, between 0 (PSX alone) and 1.
pub mod Unit
use psx_xp_mover.Base.{
  ℕ, zero, suc, ◌+◌, ◌%◌, Bool, true, false, not, ◌&&◌, ◌||◌, List, [], ◌∷◌, set, replicate, ltb,
  ◌==◌, if◌then◌else◌,
}
use psx_xp_mover.Base.Int.{ℤ, pos, ◌+ℤ◌, ◌-ℤ◌, ltb_ℤ}
use psx_xp_mover.Double.{Double}

-- `MAX_GROUND_CONTACT_CYCLES`
abbrev pub max_ground_contact_cycles : ℕ
max_ground_contact_cycles = 120

-- `MAX_NUM_RAW_ELEVATION_BLENDING_FRACTIONS`
abbrev pub max_raw_fractions : ℕ
max_raw_fractions = 5

unfoldable pub update_ground_contact_cycles : Bool → ℤ → ℤ
unfolding ◌+ℤ◌ ◌-ℤ◌
update_ground_contact_cycles ground_contact cycles =
    let moved = if ground_contact then cycles +ℤ pos 1 else cycles -ℤ pos 1 in
    if ltb_ℤ (pos max_ground_contact_cycles) moved
    then pos max_ground_contact_cycles
    else if ltb_ℤ moved (pos 0)
    then pos 0
    else moved

-- `raw_elevation_blending_fractions` with its next index and count
pub record Fractions (V : Type 0) : Type 0 where
  pub raw : List V
  pub next : ℕ
  pub num : ℕ

-- the variables of the loop over the fractions
pub record Sum (V : Type 0) : Type 0 where
  pub sum : V
  pub count : ℕ
  pub all_in_flight : Bool

module _ (d : Double) where
  open d use {D, of_int, nan, is_nan, lt, le, add, sub, mul, div}

  abbrev pub zero_d : D
  zero_d = of_int (pos 0)

  abbrev pub one_d : D
  one_d = of_int (pos 1)

  -- `a == b`
  abbrev pub eq : D → D → Bool
  eq a b = le a b && le b a

  -- the clamp to 0 and 1 that is written out at each fraction
  abbrev pub clamp : D → D
  clamp x = if lt x zero_d then zero_d else if lt one_d x then one_d else x

  -- `low_speed_fraction`, which may stay as it was
  unfoldable pub update_low_speed_fraction : D → D → D → D → D
  update_low_speed_fraction ground_speed firm lift low_speed_fraction =
      if le ground_speed firm
      then one_d
      else if le lift ground_speed
      then zero_d
      else if lt firm lift
      then clamp (sub one_d (div (sub ground_speed firm) (sub lift firm)))
      else low_speed_fraction

  unfoldable pub ground_contact_fraction : ℤ → D
  ground_contact_fraction cycles =
      clamp (div (of_int cycles) (of_int (pos max_ground_contact_cycles)))

  unfoldable pub raw_elevation_blending_fraction : D → D → D → Bool → D
  raw_elevation_blending_fraction low_speed contact low_speed_factor suspend_terrain_blending =
      if (eq low_speed zero_d && eq contact zero_d) || suspend_terrain_blending
      then zero_d
      else if eq low_speed one_d && eq contact one_d
      then one_d
      else clamp (sub contact (mul (sub one_d low_speed) low_speed_factor))

  abbrev pub clear_raw_elevation_blending_fractions : Fractions D → Fractions D
  clear_raw_elevation_blending_fractions f = record {
    raw = replicate max_raw_fractions nan;
    next = 0;
    num = 0;
  }

  unfoldable pub record_raw_elevation_blending_fraction : D → Fractions D → Fractions D
  record_raw_elevation_blending_fraction x f = record {
    raw = set f.raw f.next x;
    num = if ltb f.num max_raw_fractions then f.num + 1 else f.num;
    next = (f.next + 1) % max_raw_fractions;
  }

  abbrev pub add_fraction : D → Sum D → Sum D
  add_fraction fraction s = if is_nan fraction then s else record {
    sum = add s.sum fraction;
    count = s.count + 1;
    all_in_flight = if not (eq fraction zero_d) then false else s.all_in_flight;
  }

  unfoldable pub sum_fractions : List D → Sum D → Sum D
  sum_fractions [] s = s
  sum_fractions (fraction ∷ raw) s = sum_fractions raw (add_fraction fraction s)

  abbrev pub average_of : Sum D → D
  average_of s =
      if s.all_in_flight
      then zero_d
      else if s.count == 0
      then nan
      else clamp (div s.sum (of_int (pos s.count)))

  unfoldable pub get_average_elevation_blending_fraction : Fractions D → D
  unfolding sum_fractions
  get_average_elevation_blending_fraction f =
      average_of (sum_fractions f.raw (record { sum = zero_d; count = 0; all_in_flight = true }))
