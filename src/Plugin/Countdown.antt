-- ===== src/Plugin/Countdown.antt =====
-- The cycle counters of `flight_loop_callback` in src/plugin.c: the override of the plane path, and
-- the expiry of the terrain elevation.
pub mod Expiry
use psx_xp_mover.Base.{ℕ, zero, suc, ◌+◌, Bool, true, false, Option, none, some, if◌then◌else◌}
use psx_xp_mover.Base.Int.{ℤ, pos, ◌-ℤ◌, leb_ℤ, eqb_ℤ}

-- `TERRAIN_ELEVATION_MAX_AGE_CYCLES`
abbrev pub terrain_elevation_max_age_cycles : ℕ
terrain_elevation_max_age_cycles = 1800

-- `INIT_CYCLES_TO_OVERRIDE_PLANE_PATH`
abbrev pub init_cycles_to_override_plane_path : ℕ
init_cycles_to_override_plane_path = 10

-- A counter that stops at -1.
unfoldable pub count_down : ℤ → ℤ
unfolding ◌-ℤ◌
count_down cycles = if leb_ℤ (pos 0) cycles then cycles -ℤ pos 1 else cycles

-- one cycle: whether the plane path is overridden, and the counter behind it
unfoldable pub override_plane_path : ℤ → Bool × ℤ
unfolding count_down
override_plane_path cycles = (eqb_ℤ cycles (pos 0), count_down cycles)

-- `terrain_elevation_meters`, where `none` is NaN, with its remaining cycles
pub record Terrain (D : Type 0) : Type 0 where
  pub elevation_meters : Option D
  pub remaining_cycles : ℤ

module _ {D : Type 0} where
  -- the expiry at the start of a cycle
  unfoldable pub expire : Terrain D → Terrain D
  unfolding count_down
  expire t = record {
    elevation_meters = if eqb_ℤ t.remaining_cycles (pos 0) then none else t.elevation_meters;
    remaining_cycles = count_down t.remaining_cycles;
  }

  -- a probe that hits terrain which does not move
  abbrev pub probed : D → Terrain D
  probed elevation = record {
    elevation_meters = some elevation;
    remaining_cycles = pos terrain_elevation_max_age_cycles;
  }
