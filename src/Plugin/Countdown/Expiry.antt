-- ===== src/Plugin/Countdown/Expiry.antt =====
-- When the counters run out.
use psx_xp_mover.Base.{
  ℕ, zero, suc, ◌≡◌, refl, ◌∙◌, arith, Option, none, some, leb, ltb, if◌then◌else◌,
}
use psx_xp_mover.Base.Int.{ℤ, pos, negsuc, ◌-ℤ◌}
use psx_xp_mover.Plugin.Countdown.{count_down, override_plane_path, Terrain, expire, probed}

-- how often the plane path is overridden in a number of cycles
abbrev pub overrides : ℕ → ℤ → ℕ
overrides zero cycles = 0
overrides (suc n) cycles =
    let (now, next) = override_plane_path cycles in
    let rest = overrides n next in if now then suc rest else rest

overrides_behind : (n : ℕ) → overrides n (negsuc 0) ≡ 0
unfolding override_plane_path count_down
overrides_behind zero = refl
overrides_behind (suc n) = overrides_behind n

-- In any number of cycles from a count on, the plane path is overridden exactly once, in the cycle
-- that comes after as many others, or not yet.
overrides_once : (n start : ℕ) → overrides n (pos start) ≡ (if ltb start n then 1 else 0)
unfolding override_plane_path count_down ◌-ℤ◌
overrides_once zero start = ground arith
overrides_once (suc n) zero = ground (arith, overrides_behind n)
overrides_once (suc n) (suc start) = ground (arith, overrides_once n start)

module _ {D : Type 0} where
  abbrev pub after_cycles : ℕ → Terrain D → Terrain D
  after_cycles zero t = t
  after_cycles (suc n) t = after_cycles n (expire t)

  abbrev terrain : Option D → ℤ → Terrain D
  terrain elevation cycles = record { elevation_meters = elevation; remaining_cycles = cycles }

  expired : (n : ℕ) → after_cycles n (terrain none (negsuc 0)) ≡ terrain none (negsuc 0)
  unfolding expire count_down
  expired zero = refl
  expired (suc n) = expired n

  expire-suc :
      (left : ℕ) (e : Option D) → expire (terrain e (pos (suc left))) ≡ terrain e (pos left)
  unfolding expire count_down ◌-ℤ◌
  expire-suc left e = ground arith

  remaining :
      (n left : ℕ) (e : Option D)
      → (after_cycles n (terrain e (pos left))).elevation_meters ≡ (if leb n left then e else none)
  remaining zero left e = ground arith
  remaining (suc n) zero e = unfold expire count_down in rw (expired n) (ground arith)
  remaining (suc n) (suc left) e =
      rw (after_cycles, expire-suc left e) (remaining n left e ∙ ground arith)

  -- A probed terrain elevation lasts for 1800 cycles without another hit, and is NaN from the next
  -- cycle on.
  pub after_cycles-probed :
      (n : ℕ) (elevation : D)
      → (after_cycles n (probed elevation)).elevation_meters
        ≡ (if leb n 1800 then some elevation else none)
  after_cycles-probed n elevation = remaining n 1800 (some elevation)
