-- ===== src/Psx/Parse.antt =====
-- `psx_parse_boost_frame` of src/psx.c. The line is a C string: the list of the bytes in front of its
-- terminator. `none` stands for `false`; what was written into the frame by then is only logged.
pub mod Split
pub mod Print
use psx_xp_mover.Base.{
  ℕ, suc, ◌+◌, Bool, true, false, Option, none, some, List, [], ◌∷◌, ◌++◌, ◌==◌, ◌>>=◌,
  if◌then◌else◌,
}
use psx_xp_mover.Base.Int.{ℤ}
use psx_xp_mover.Utils.{Bytes, parse_long, parse_int, parse_double}
use psx_xp_mover.Psx.Frame.{BoostFrame}

abbrev pub boost_field_separator : ℕ
boost_field_separator = b';'

abbrev pub boost_flag_ground : ℕ
boost_flag_ground = b'G'

abbrev pub boost_flag_flight : ℕ
boost_flag_flight = b'F'

abbrev pub boost_num_fields : ℕ
boost_num_fields = 8

unfoldable pub parse_ground_flag : Bytes → Option Bool
parse_ground_flag (ch ∷ []) =
    if ch == boost_flag_ground
    then some true
    else if ch == boost_flag_flight
    then some false
    else none
parse_ground_flag _ = none

abbrev pub store {ℓ κ} : {A : Type ℓ} {B : Type κ} → Option A → (A → B) → Option B
store none f = none
store (some a) f = some (f a)

-- `grants` says of a field whether the buffer that its number asks for is allocated.
module _ {D : Type 0} (atof : Bytes → D) (grants : ℕ → Bool) where
  -- the `switch` over the fields
  unfoldable pub parse_field : ℕ → BoostFrame D → Bytes → Option (BoostFrame D)
  parse_field field frame s =
      if field == 0
      then store (parse_ground_flag s) (λ v. record frame { ground_contact = v })
      else if field == 1
      then store (parse_long (grants field) s)
          (λ v. record frame { flight_deck_altitude_msl_feet_hundreds = v })
      else if field == 2
      then store (parse_int (grants field) s)
          (λ v. record frame { heading_true_degrees_hundreds = v })
      else if field == 3
      then store (parse_int (grants field) s) (λ v. record frame { pitch_degrees_hundreds = v })
      else if field == 4
      then store (parse_int (grants field) s) (λ v. record frame { bank_degrees_hundreds = v })
      else if field == 5
      then store (parse_double atof s) (λ v. record frame { flight_deck_latitude = v })
      else if field == 6
      then store (parse_double atof s) (λ v. record frame { flight_deck_longitude = v })
      else if field == 7
      then store (parse_int (grants field) s) (λ v. record frame { timestamp_millis_part = v })
      else none

  -- The loop: the bytes from the cursor on, the number of the field, and what it has so far.
  unfoldable pub parse_fields : Bytes → ℕ → Bytes → BoostFrame D → Option (BoostFrame D)
  parse_fields [] field s frame = do
    frame' ← parse_field field frame s
    if field + 1 == boost_num_fields then some frame' else none
  parse_fields (ch ∷ line) field s frame =
      if ch == boost_field_separator
      then (do frame' ← parse_field field frame s; parse_fields line (field + 1) [] frame')
      else parse_fields line field (s ++ ch ∷ []) frame

  unfoldable pub psx_parse_boost_frame : BoostFrame D → Bytes → Option (BoostFrame D)
  unfolding parse_fields parse_field parse_ground_flag
  psx_parse_boost_frame frame line = parse_fields line 0 [] frame
