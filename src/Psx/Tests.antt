-- ===== src/Psx/Tests.antt =====
-- Lines of a boost server, as src/psx.c receives and reads them.
use psx_xp_mover.Base.{
  ℕ, ◌*◌, ◌≤◌, ◌≡◌, refl, arith, true, false, Option, none, some, List, [], ◌∷◌, All, length,
}
use psx_xp_mover.Base.Int.{pos, negsuc}
use psx_xp_mover.Utils.{Bytes, parse_long, parse_int, parse_double, print_int}
use psx_xp_mover.Psx.Frame.{BoostFrame}
use psx_xp_mover.Psx.Parse.{psx_parse_boost_frame}
use psx_xp_mover.Psx.Parse.Split.{split, read_frame, psx_parse_boost_frame-split}
use psx_xp_mover.Psx.Parse.Print.{Fields, IsPrintable, enough_memory}
use psx_xp_mover.Psx.Client.{
  nothing_held, ClientGrants, create_psx_client, Round, run_connection_loop,
}
use psx_xp_mover.Psx.Client.Balance.{IsBalanced, create_psx_client-IsBalanced}
use psx_xp_mover.Psx.Client.Session.{Run, idle, run_connection_loop-Run}
use psx_xp_mover.Psx.Lines.{running, fresh_receiver, receive_bytes, receive_chunks}
use psx_xp_mover.Psx.Lines.Bounds.{StaysInBuffer, receive_chunks-StaysInBuffer}
use psx_xp_mover.Psx.Lines.Deliver.{
  Sent, LineEnd, lf, cr, cr_lf, IsSendable, stream, receive_stream, between_lines,
}
use psx_xp_mover.Double.Fixed.{Fixed, num, fixed, fixed_math}
use psx_xp_mover.Psx.Lines.Deliver.{last_flag}
use psx_xp_mover.Psx.Received.{on_line_received}
use psx_xp_mover.Psx.Received.Feed.{IsTransmittable, transmitted, all_meant, receive_transmitted}

abbrev no_frame : BoostFrame ℕ
no_frame = record {
  ground_contact = false;
  flight_deck_altitude_msl_feet_hundreds = pos 0;
  heading_true_degrees_hundreds = pos 0;
  pitch_degrees_hundreds = pos 0;
  bank_degrees_hundreds = pos 0;
  flight_deck_latitude = 0;
  flight_deck_longitude = 0;
  timestamp_millis_part = pos 0;
  elevation_msl_meters = 0;
  heading_true_degrees = 0;
  pitch_degrees = 0;
  bank_degrees = 0;
}

-- "G;5;9;-1;0;50;8;70"
abbrev line_text : Bytes
line_text =
    b'G' ∷ b';' ∷ b'5' ∷ b';' ∷ b'9' ∷ b';' ∷ b'-' ∷ b'1' ∷ b';' ∷ b'0' ∷ b';' ∷ b'5' ∷ b'0' ∷ b';'
    ∷ b'8' ∷ b';' ∷ b'7' ∷ b'0' ∷ []

psx_parse_boost_frame-split_example :
    psx_parse_boost_frame length enough_memory no_frame line_text
    ≡ read_frame length enough_memory no_frame (split line_text)
psx_parse_boost_frame-split_example =
    psx_parse_boost_frame-split length enough_memory no_frame line_text

line_is_read :
    psx_parse_boost_frame length enough_memory no_frame line_text
    ≡ some (record no_frame {
      ground_contact = true;
      flight_deck_altitude_msl_feet_hundreds = pos 5;
      heading_true_degrees_hundreds = pos 9;
      pitch_degrees_hundreds = negsuc 0;
      flight_deck_latitude = 2;
      flight_deck_longitude = 1;
      timestamp_millis_part = pos 70;
    })
unfolding psx_parse_boost_frame parse_long parse_int parse_double
line_is_read = refl

-- A callback that understands lines of two bytes.
abbrev on_line : Bytes → Option ℕ
on_line (a ∷ b ∷ []) = some a
on_line _ = none

abbrev sent_lines : List (Sent ℕ)
sent_lines =
    record { text = 65 ∷ 66 ∷ []; line_end = cr_lf; frame = 65 }
    ∷ record { text = 67 ∷ 68 ∷ []; line_end = lf; frame = 67 }
    ∷ record { text = 69 ∷ 70 ∷ []; line_end = cr; frame = 69 }
    ∷ []

pair-IsSendable :
    (a b : ℕ) (e : LineEnd)
    → 65 ≤ a
    → 65 ≤ b
    → IsSendable on_line (record { text = a ∷ b ∷ []; line_end = e; frame = a })
pair-IsSendable a b e h k = record {
  not_empty = λ p. ground arith;
  short = omega arith;
  plain = ground arith;
  understood = refl;
}

sent_lines-IsSendable : All (IsSendable on_line) sent_lines
sent_lines-IsSendable = (
  pair-IsSendable 65 66 cr_lf (omega arith) (omega arith),
  (
    pair-IsSendable 67 68 lf (omega arith) (omega arith),
    (pair-IsSendable 69 70 cr (omega arith) (omega arith), tt),
  ),
)

receive_stream_example :
    receive_bytes on_line (stream sent_lines) (between_lines false [])
    ≡ running (between_lines true (65 ∷ 67 ∷ 69 ∷ []))
receive_stream_example = receive_stream on_line sent_lines false [] sent_lines-IsSendable

abbrev two_chunks : List Bytes
two_chunks = (65 ∷ 66 ∷ b'\r' ∷ []) ∷ (b'\n' ∷ 67 ∷ []) ∷ []

receive_chunks-StaysInBuffer_example :
    StaysInBuffer (receive_chunks on_line two_chunks (fresh_receiver []))
receive_chunks-StaysInBuffer_example =
    receive_chunks-StaysInBuffer on_line two_chunks (fresh_receiver []) (omega arith)

abbrev fields : Fields
fields = record {
  ground_contact = true;
  altitude_hundreds = pos 5;
  heading_hundreds = pos 9;
  pitch_hundreds = negsuc 0;
  bank_hundreds = pos 0;
  latitude = b'5' ∷ b'0' ∷ [];
  longitude = b'8' ∷ [];
  millis_part = pos 70;
}

fields-IsPrintable : IsPrintable fields
fields-IsPrintable = record {
  altitude_in = (omega arith, omega arith);
  heading_in = (omega arith, omega arith);
  pitch_in = (omega arith, omega arith);
  bank_in = (omega arith, omega arith);
  latitude_in = (ground arith, omega arith);
  longitude_in = (ground arith, omega arith);
  millis_in = (omega arith, omega arith);
}

-- the text as the number of its bytes
abbrev byte_count : Bytes → Fixed
byte_count s = num (pos (length s * 1000))

fields-IsTransmittable : IsTransmittable fields
unfolding print_int
fields-IsTransmittable = record {
  printable = fields-IsPrintable;
  latitude_plain = ground arith;
  longitude_plain = ground arith;
  short = omega arith;
}

abbrev sent_fields : List (Fields × LineEnd)
sent_fields = (fields, cr_lf) ∷ (fields, lf) ∷ []

receive_transmitted_example :
    receive_bytes
      (on_line_received fixed fixed_math byte_count enough_memory)
      (stream (transmitted fixed fixed_math byte_count sent_fields))
      (between_lines false [])
    ≡ running (
        between_lines
          (last_flag
            (on_line_received fixed fixed_math byte_count enough_memory)
            false
            (transmitted fixed fixed_math byte_count sent_fields))
          (all_meant fixed fixed_math byte_count sent_fields))
receive_transmitted_example =
    receive_transmitted fixed fixed_math byte_count sent_fields false []
      (fields-IsTransmittable, (fields-IsTransmittable, tt))

abbrev full_grants : ClientGrants
full_grants = record { memory = true; copy = true; mutex = true; thread = false }

create_psx_client-IsBalanced_example :
    IsBalanced
      (create_psx_client full_grants (some (b'a' ∷ [])) (pos 10747) true nothing_held).0
      (create_psx_client full_grants (some (b'a' ∷ [])) (pos 10747) true nothing_held).1
create_psx_client-IsBalanced_example =
    create_psx_client-IsBalanced full_grants (some (b'a' ∷ [])) (pos 10747) true

abbrev rounds : List Round
rounds =
    record { sleeps = true; connects = true; chunks = two_chunks }
    ∷ record { sleeps = true; connects = false; chunks = [] }
    ∷ []

run_connection_loop-Run_example : Run idle (run_connection_loop on_line true rounds) idle
run_connection_loop-Run_example = run_connection_loop-Run on_line true rounds
