-- ===== src/Psx/Parse/Print.antt =====
-- A boost line as the server writes it, and that it is read back.
use mathlib.Core.List.{append-nil, append_assoc}
use psx_xp_mover.Base.{
  ℕ, zero, suc, ◌+◌, ◌/◌, ◌%◌, ◌<◌, ◌≡◌, ◌≢◌, refl, sym, ap, ◌∙◌, arith, Bool, true, false,
  Bool-cases, inl, inr, some, List, [], ◌∷◌, ◌++◌, All, length, ◌==◌, if◌then◌else◌,
}
use psx_xp_mover.Base.Int.{ℤ, pos, negsuc}
use psx_xp_mover.Utils.{
  Bytes, print_digits, print_int, parse_int, parse_double, apply_string_to_buffer,
}
use psx_xp_mover.Utils.Numbers.{IsLong, IsInt, parse_long_iff, parse_int_iff}
use psx_xp_mover.Psx.Frame.{BoostFrame}
use psx_xp_mover.Psx.Parse.{parse_ground_flag, psx_parse_boost_frame}
use psx_xp_mover.Psx.Parse.Split.{split_onto, split, read_frame, psx_parse_boost_frame-split}

abbrev pub IsField : Bytes → Type 0
IsField s = All (λ c. c ≢ b';') s

abbrev pub join : List Bytes → Bytes
join [] = []
join (s ∷ []) = s
join (s ∷ t ∷ ts) = s ++ b';' ∷ join (t ∷ ts)

split_onto-field :
    (s t rest : Bytes) → IsField t → split_onto s (t ++ rest) ≡ split_onto (s ++ t) rest
split_onto-field s [] rest h = rw (append-nil s) refl
split_onto-field s (c ∷ t) rest h =
    let other : (c == b';') ≡ false = ground (arith, h.0) in
    rw other (split_onto-field (s ++ c ∷ []) t rest h.1 ∙ rw (append_assoc s (c ∷ []) t) refl)

split_onto-separator : (s rest : Bytes) → split_onto s (b';' ∷ rest) ≡ s ∷ split_onto [] rest
split_onto-separator s rest = refl

split-join : (s : Bytes) (ts : List Bytes) → All IsField (s ∷ ts) → split (join (s ∷ ts)) ≡ s ∷ ts
split-join s [] h = ap (split_onto []) (sym (append-nil s)) ∙ split_onto-field [] s [] h.0
split-join s (t ∷ ts) h =
    split_onto-field [] s (b';' ∷ join (t ∷ ts)) h.0
    ∙ split_onto-separator s (join (t ∷ ts))
    ∙ ap (◌∷◌ s) (split-join t ts h.1)

print_digits-IsField :
    (fuel n : ℕ) (rest : Bytes) → IsField rest → IsField (print_digits fuel n rest)
unfolding print_digits
print_digits-IsField zero n rest h = h
print_digits-IsField (suc fuel) n rest h =
    let digit : IsField ((b'0' + n % 10) ∷ rest) = (λ e. omega arith, h) in
    elim (Bool-cases (n / 10 == 0)) [
      | inl last ↦ rw last digit
      | inr more ↦ rw more (print_digits-IsField fuel (n / 10) ((b'0' + n % 10) ∷ rest) digit)
    ]

print_int-IsField : (v : ℤ) → IsField (print_int v)
unfolding print_int
print_int-IsField (pos n) = print_digits-IsField (suc n) n [] tt
print_int-IsField (negsuc n) = (λ e. ground arith, print_digits-IsField (suc (suc n)) (suc n) [] tt)

-- the values of a line; the coordinates are texts, as their form is not checked
pub record Fields : Type 0 where
  pub ground_contact : Bool
  pub altitude_hundreds : ℤ
  pub heading_hundreds : ℤ
  pub pitch_hundreds : ℤ
  pub bank_hundreds : ℤ
  pub latitude : Bytes
  pub longitude : Bytes
  pub millis_part : ℤ

pub record IsPrintable (f : Fields) : Type 0 where
  pub altitude_in : IsLong f.altitude_hundreds
  pub heading_in : IsInt f.heading_hundreds
  pub pitch_in : IsInt f.pitch_hundreds
  pub bank_in : IsInt f.bank_hundreds
  pub latitude_in : IsField f.latitude × (length f.latitude < 256)
  pub longitude_in : IsField f.longitude × (length f.longitude < 256)
  pub millis_in : IsInt f.millis_part

abbrev pub print_flag : Bool → Bytes
print_flag ground_contact = if ground_contact then b'G' ∷ [] else b'F' ∷ []

abbrev pub texts : Fields → List Bytes
texts f =
    print_flag f.ground_contact
    ∷ print_int f.altitude_hundreds
    ∷ print_int f.heading_hundreds
    ∷ print_int f.pitch_hundreds
    ∷ print_int f.bank_hundreds
    ∷ f.latitude
    ∷ f.longitude
    ∷ print_int f.millis_part
    ∷ []

parse_ground_flag-print_flag : (b : Bool) → parse_ground_flag (print_flag b) ≡ some b
unfolding parse_ground_flag
parse_ground_flag-print_flag true = refl
parse_ground_flag-print_flag false = refl

print_flag-IsField : (b : Bool) → IsField (print_flag b)
print_flag-IsField true = (λ e. ground arith, tt)
print_flag-IsField false = (λ e. ground arith, tt)

texts-IsField : (f : Fields) → IsPrintable f → All IsField (texts f)
texts-IsField f w = (
  print_flag-IsField f.ground_contact,
  (
    print_int-IsField f.altitude_hundreds,
    (
      print_int-IsField f.heading_hundreds,
      (
        print_int-IsField f.pitch_hundreds,
        (
          print_int-IsField f.bank_hundreds,
          (w.latitude_in.0, (w.longitude_in.0, (print_int-IsField f.millis_part, tt))),
        ),
      ),
    ),
  ),
)

split-texts : (f : Fields) → IsPrintable f → split (join (texts f)) ≡ texts f
split-texts f w = split-join _ _ (texts-IsField f w)

parse_int-print : (v : ℤ) → IsInt v → parse_int true (print_int v) ≡ some v
parse_int-print v h = (parse_int_iff true (print_int v) v).1 (refl, refl, h)

-- every buffer is allocated
abbrev pub enough_memory : ℕ → Bool
enough_memory field = true

module _ {D : Type 0} (atof : Bytes → D) where
  parse_double_lem : (s : Bytes) → length s < 256 → parse_double atof s ≡ some (atof s)
  unfolding parse_double apply_string_to_buffer
  parse_double_lem s h = ground arith

  -- Where memory is granted, a line of eight printed values is read as these values: numbers that fit their types, and texts
  -- of coordinates that are shorter than the buffer and have no separator inside.
  pub psx_parse_boost_frame-join :
      (frame : BoostFrame D) (f : Fields)
      → IsPrintable f
      → psx_parse_boost_frame atof enough_memory frame (join (texts f))
        ≡ some (record frame {
          ground_contact = f.ground_contact;
          flight_deck_altitude_msl_feet_hundreds = f.altitude_hundreds;
          heading_true_degrees_hundreds = f.heading_hundreds;
          pitch_degrees_hundreds = f.pitch_hundreds;
          bank_degrees_hundreds = f.bank_hundreds;
          flight_deck_latitude = atof f.latitude;
          flight_deck_longitude = atof f.longitude;
          timestamp_millis_part = f.millis_part;
        })
  unfolding read_frame
  psx_parse_boost_frame-join frame f w =
      psx_parse_boost_frame-split atof enough_memory frame (join (texts f))
      ∙ rw
          (
            split-texts f w,
            parse_ground_flag-print_flag f.ground_contact,
            (parse_long_iff true (print_int f.altitude_hundreds) f.altitude_hundreds).1
                (refl, refl, w.altitude_in),
            parse_int-print f.heading_hundreds w.heading_in,
            parse_int-print f.pitch_hundreds w.pitch_in,
            parse_int-print f.bank_hundreds w.bank_in,
            parse_double_lem f.latitude w.latitude_in.1,
            parse_double_lem f.longitude w.longitude_in.1,
            parse_int-print f.millis_part w.millis_in,
          )
          refl
