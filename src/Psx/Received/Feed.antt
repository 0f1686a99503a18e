-- ===== src/Psx/Received/Feed.antt =====
-- Frames that are printed as lines, sent over the network and received are the frames.
use psx_xp_mover.Base.{
  ℕ, zero, suc, ◌+◌, ◌/◌, ◌%◌, ◌==◌, ◌<◌, Bool-cases, inl, inr, ◌≡◌, ◌≢◌, refl, ◌∙◌, ap, arith,
  Bool, true, false, some, List, [], ◌∷◌, ◌++◌, All, length,
}
use psx_xp_mover.Base.Int.{ℤ, pos, negsuc}
use psx_xp_mover.Double.{Double, Math}
use psx_xp_mover.Utils.{Bytes, print_int, print_digits}
use psx_xp_mover.Psx.Frame.{BoostFrame}
use psx_xp_mover.Psx.Parse.Print.{
  Fields, IsPrintable, texts, print_flag, join, enough_memory, psx_parse_boost_frame-join,
}
use psx_xp_mover.Psx.Lines.{running, receive_bytes}
use psx_xp_mover.Psx.Lines.Deliver.{
  LineEnd, Sent, stream, IsPlain, IsSendable, between_lines, last_flag, frames_of, receive_stream,
}
use psx_xp_mover.Psx.Received.{psx_recalculate_boost_frame, zero_frame, on_line_received}

append-IsPlain : (s t : Bytes) → All IsPlain s → All IsPlain t → All IsPlain (s ++ t)
append-IsPlain [] t h k = k
append-IsPlain (c ∷ s) t h k = (h.0, append-IsPlain s t h.1 k)

print_digits-IsPlain :
    (fuel n : ℕ) (rest : Bytes) → All IsPlain rest → All IsPlain (print_digits fuel n rest)
unfolding print_digits
print_digits-IsPlain zero n rest h = h
print_digits-IsPlain (suc fuel) n rest h =
    let digit : All IsPlain ((b'0' + n % 10) ∷ rest) =
      ((λ e. omega arith, λ e. omega arith, λ e. omega arith), h) in
    elim (Bool-cases (n / 10 == 0)) [
      | inl last ↦ rw last digit
      | inr more ↦ rw more (print_digits-IsPlain fuel (n / 10) ((b'0' + n % 10) ∷ rest) digit)
    ]

print_int-IsPlain : (v : ℤ) → All IsPlain (print_int v)
unfolding print_int
print_int-IsPlain (pos n) = print_digits-IsPlain (suc n) n [] tt
print_int-IsPlain (negsuc n) = (
  (λ e. ground arith, λ e. ground arith, λ e. ground arith),
  print_digits-IsPlain (suc (suc n)) (suc n) [] tt,
)

print_flag-IsPlain : (b : Bool) → All IsPlain (print_flag b)
print_flag-IsPlain true = ((λ e. ground arith, λ e. ground arith, λ e. ground arith), tt)
print_flag-IsPlain false = ((λ e. ground arith, λ e. ground arith, λ e. ground arith), tt)

join-IsPlain : (ts : List Bytes) → All (All IsPlain) ts → All IsPlain (join ts)
join-IsPlain [] h = tt
join-IsPlain (s ∷ []) h = h.0
join-IsPlain (s ∷ t ∷ ts) h =
    append-IsPlain s (b';' ∷ join (t ∷ ts)) h.0
      ((λ e. ground arith, λ e. ground arith, λ e. ground arith), join-IsPlain (t ∷ ts) h.1)

join_flag-ne-nil : (b : Bool) (ts : List Bytes) → join (print_flag b ∷ ts) ≢ []
join_flag-ne-nil true [] e = cc
join_flag-ne-nil true (t ∷ ts) e = cc
join_flag-ne-nil false [] e = cc
join_flag-ne-nil false (t ∷ ts) e = cc

-- The values can be printed, the texts of the coordinates have no line end or NUL inside, and the line
-- is shorter than the line buffer.
pub record IsTransmittable (f : Fields) : Type 0 where
  pub printable : IsPrintable f
  pub latitude_plain : All IsPlain f.latitude
  pub longitude_plain : All IsPlain f.longitude
  pub short : length (join (texts f)) < 1024

texts-IsPlain : (f : Fields) → IsTransmittable f → All (All IsPlain) (texts f)
texts-IsPlain f w = (
  print_flag-IsPlain f.ground_contact,
  (
    print_int-IsPlain f.altitude_hundreds,
    (
      print_int-IsPlain f.heading_hundreds,
      (
        print_int-IsPlain f.pitch_hundreds,
        (
          print_int-IsPlain f.bank_hundreds,
          (w.latitude_plain, (w.longitude_plain, (print_int-IsPlain f.millis_part, tt))),
        ),
      ),
    ),
  ),
)

module _ (d : Double) (m : Math d) (atof : Bytes → d.D) where
  -- the frame that is meant by printed values
  abbrev pub meant : Fields → BoostFrame d.D
  meant f = psx_recalculate_boost_frame d m (record (zero_frame d m) {
    ground_contact = f.ground_contact;
    flight_deck_altitude_msl_feet_hundreds = f.altitude_hundreds;
    heading_true_degrees_hundreds = f.heading_hundreds;
    pitch_degrees_hundreds = f.pitch_hundreds;
    bank_degrees_hundreds = f.bank_hundreds;
    flight_deck_latitude = atof f.latitude;
    flight_deck_longitude = atof f.longitude;
    timestamp_millis_part = f.millis_part;
  })

  abbrev pub transmitted : List (Fields × LineEnd) → List (Sent (BoostFrame d.D))
  transmitted [] = []
  transmitted ((f, e) ∷ fs) =
      record { text = join (texts f); line_end = e; frame = meant f } ∷ transmitted fs

  abbrev pub all_meant : List (Fields × LineEnd) → List (BoostFrame d.D)
  all_meant [] = []
  all_meant ((f, e) ∷ fs) = meant f ∷ all_meant fs

  on_line_received-join :
      (f : Fields)
      → IsTransmittable f
      → on_line_received d m atof enough_memory (join (texts f)) ≡ some (meant f)
  unfolding on_line_received
  on_line_received-join f w =
      rw (psx_parse_boost_frame-join atof (zero_frame d m) f w.printable) refl

  transmitted-IsSendable :
      (fs : List (Fields × LineEnd))
      → All (λ f. IsTransmittable f.0) fs
      → All (IsSendable (on_line_received d m atof enough_memory)) (transmitted fs)
  transmitted-IsSendable [] h = tt
  transmitted-IsSendable ((f, e) ∷ fs) h = (
    record {
      not_empty = join_flag-ne-nil f.ground_contact (
          print_int f.altitude_hundreds
          ∷ print_int f.heading_hundreds
          ∷ print_int f.pitch_hundreds
          ∷ print_int f.bank_hundreds
          ∷ f.latitude
          ∷ f.longitude
          ∷ print_int f.millis_part
          ∷ []);
      short = h.0.short;
      plain = join-IsPlain (texts f) (texts-IsPlain f h.0);
      understood = on_line_received-join f h.0;
    },
    transmitted-IsSendable fs h.1,
  )

  frames_of-transmitted : (fs : List (Fields × LineEnd)) → frames_of (transmitted fs) ≡ all_meant fs
  frames_of-transmitted [] = refl
  frames_of-transmitted ((f, e) ∷ fs) = ap (◌∷◌ (meant f)) (frames_of-transmitted fs)

  -- Where memory is granted, values that can be printed, each sent as a line with any of the three line ends, arrive at the
  -- callback as the recalculated frames that they mean, all and in order.
  pub receive_transmitted :
      (fs : List (Fields × LineEnd)) (flag : Bool) (delivered : List (BoostFrame d.D))
      → All (λ f. IsTransmittable f.0) fs
      → receive_bytes
          (on_line_received d m atof enough_memory)
          (stream (transmitted fs))
          (between_lines flag delivered)
        ≡ running (
            between_lines
              (last_flag (on_line_received d m atof enough_memory) flag (transmitted fs))
              (delivered ++ all_meant fs))
  receive_transmitted fs flag delivered h =
      receive_stream (on_line_received d m atof enough_memory) (transmitted fs) flag delivered
        (transmitted-IsSendable fs h)
      ∙ rw (frames_of-transmitted fs) refl
