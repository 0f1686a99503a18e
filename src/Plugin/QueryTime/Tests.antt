-- ===== src/Plugin/QueryTime/Tests.antt =====
-- Times to ask the interpolators for, with concrete values.
use psx_xp_mover.Base.{◌≡◌, refl, false, none}
use psx_xp_mover.Base.Int.{pos}
use psx_xp_mover.Double.Fixed.{infinity, num, fixed}
use psx_xp_mover.Plugin.QueryTime.{interpolation_timestamp}
use psx_xp_mover.Plugin.QueryTime.Second.{interpolation_timestamp_never}

interpolation_timestamp_never_example :
    interpolation_timestamp fixed 100000 (num (pos 20000)) infinity false (num (pos 0)) ≡ none
interpolation_timestamp_never_example =
    interpolation_timestamp_never fixed (num (pos 20000)) infinity false (num (pos 0)) refl refl
      100000
