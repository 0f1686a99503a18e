-- ===== src/Psx/Parse/Split.antt =====
-- What a boost line is: eight texts between separators, each of its kind.
use mathlib.Core.Path.{fun_ext}
use psx_xp_mover.Base.{
  ℕ, ◌+◌, ◌≡◌, refl, ap, ◌∙◌, arith, Bool, Bool-cases, inl, inr, Option, none, some, List, [], ◌∷◌,
  ◌++◌, ◌==◌, if◌then◌else◌, ◌>>=◌,
}
use psx_xp_mover.Utils.{Bytes, parse_long, parse_int, parse_double}
use psx_xp_mover.Psx.Frame.{BoostFrame}
use psx_xp_mover.Psx.Parse.{parse_ground_flag, parse_field, parse_fields, psx_parse_boost_frame}

-- the texts between the separators, with `s` in front of the first
abbrev pub split_onto : Bytes → Bytes → List Bytes
split_onto s [] = s ∷ []
split_onto s (ch ∷ line) =
    if ch == b';' then s ∷ split_onto [] line else split_onto (s ++ ch ∷ []) line

abbrev pub split : Bytes → List Bytes
split line = split_onto [] line

module _ {D : Type 0} (atof : Bytes → D) (grants : ℕ → Bool) where
  -- Exactly eight texts, all of them good.
  unfoldable pub read_frame : BoostFrame D → List Bytes → Option (BoostFrame D)
  read_frame frame (flag ∷ altitude ∷ heading ∷ pitch ∷ bank ∷ latitude ∷ longitude ∷ millis ∷ []) =
      do
        ground_contact ← parse_ground_flag flag
        altitude_hundreds ← parse_long (grants 1) altitude
        heading_hundreds ← parse_int (grants 2) heading
        pitch_hundreds ← parse_int (grants 3) pitch
        bank_hundreds ← parse_int (grants 4) bank
        latitude_degrees ← parse_double atof latitude
        longitude_degrees ← parse_double atof longitude
        millis_part ← parse_int (grants 7) millis
        some (record frame {
          ground_contact = ground_contact;
          flight_deck_altitude_msl_feet_hundreds = altitude_hundreds;
          heading_true_degrees_hundreds = heading_hundreds;
          pitch_degrees_hundreds = pitch_hundreds;
          bank_degrees_hundreds = bank_hundreds;
          flight_deck_latitude = latitude_degrees;
          flight_deck_longitude = longitude_degrees;
          timestamp_millis_part = millis_part;
        })
  read_frame frame _ = none

  -- the fields one by one, from a number on
  abbrev fields_from : ℕ → List Bytes → BoostFrame D → Option (BoostFrame D)
  fields_from field [] frame = none
  fields_from field (s ∷ []) frame = do
    frame' ← parse_field atof grants field frame s
    if field + 1 == 8 then some frame' else none
  fields_from field (s ∷ t ∷ ss) frame = do
    frame' ← parse_field atof grants field frame s
    fields_from (field + 1) (t ∷ ss) frame'

  split_onto-cons :
      (line s : Bytes) → (t : Bytes) × (ts : List Bytes) × (split_onto s line ≡ t ∷ ts)
  split_onto-cons [] s = (s, [], refl)
  split_onto-cons (ch ∷ line) s = elim (Bool-cases (ch == b';')) [
    | inl yes_it_is ↦ (s, split_onto [] line, rw yes_it_is)
    | inr other ↦ let (t, ts, e) = split_onto-cons line (s ++ ch ∷ []) in (t, ts, rw other e)
  ]

  parse_fields-split :
      (line : Bytes) (field : ℕ) (s : Bytes) (frame : BoostFrame D)
      → parse_fields atof grants line field s frame ≡ fields_from field (split_onto s line) frame
  unfolding parse_fields
  parse_fields-split [] field s frame = ground arith
  parse_fields-split (ch ∷ line) field s frame = elim (Bool-cases (ch == b';')) [
    | inl separator ↦
        let (t, ts, e) = split_onto-cons line [] in
        rw separator
          (rw e (more t ts (λ frame'. parse_fields-split line (field + 1) [] frame' ∙ rw e)))
    | inr other ↦ rw other (parse_fields-split line field (s ++ ch ∷ []) frame)
  ]
    where
      more :
          (t : Bytes) (ts : List Bytes)
          → ((frame' : BoostFrame D)
              → parse_fields atof grants line (field + 1) [] frame'
                ≡ fields_from (field + 1) (t ∷ ts) frame')
          → (parse_field atof grants field frame s >>= parse_fields atof grants line (field + 1) [])
            ≡ fields_from field (s ∷ t ∷ ts) frame
      more t ts h = ap (◌>>=◌ (parse_field atof grants field frame s)) (fun_ext h)

  fields_from-read_frame :
      (ss : List Bytes) (frame : BoostFrame D) → fields_from 0 ss frame ≡ read_frame frame ss
  unfolding parse_field read_frame
  fields_from-read_frame [] frame = refl
  fields_from-read_frame (a ∷ []) frame = ground arith
  fields_from-read_frame (a ∷ b ∷ []) frame = ground arith
  fields_from-read_frame (a ∷ b ∷ c ∷ []) frame = ground arith
  fields_from-read_frame (a ∷ b ∷ c ∷ d ∷ []) frame = ground arith
  fields_from-read_frame (a ∷ b ∷ c ∷ d ∷ e ∷ []) frame = ground arith
  fields_from-read_frame (a ∷ b ∷ c ∷ d ∷ e ∷ f ∷ []) frame = ground arith
  fields_from-read_frame (a ∷ b ∷ c ∷ d ∷ e ∷ f ∷ g ∷ []) frame = ground arith
  fields_from-read_frame (a ∷ b ∷ c ∷ d ∷ e ∷ f ∷ g ∷ h ∷ []) frame = ground arith
  fields_from-read_frame (a ∷ b ∷ c ∷ d ∷ e ∷ f ∷ g ∷ h ∷ i ∷ []) frame = ground arith
  fields_from-read_frame (a ∷ b ∷ c ∷ d ∷ e ∷ f ∷ g ∷ h ∷ i ∷ j ∷ ss) frame = ground arith

  -- A boost line is read as its eight texts between separators, and any other line is refused,
  -- whichever of the buffers are allocated.
  pub psx_parse_boost_frame-split :
      (frame : BoostFrame D) (line : Bytes)
      → psx_parse_boost_frame atof grants frame line ≡ read_frame frame (split line)
  unfolding psx_parse_boost_frame
  psx_parse_boost_frame-split frame line =
      parse_fields-split line 0 [] frame ∙ fields_from-read_frame (split line) frame
