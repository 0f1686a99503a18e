-- ===== src/Psx/Lines/Deliver.antt =====
-- Every line that is sent is delivered, once and in order, whichever of the three line ends it has.
use mathlib.Core.List.{append-nil, append_assoc}
use psx_xp_mover.Base.{
  ℕ, ◌+◌, ◌<◌, ◌≡◌, ◌≢◌, refl, ◌∙◌, arith, Bool, true, false, Option, some, List, [], ◌∷◌, ◌++◌,
  All, length, length-append,
}
use psx_xp_mover.Utils.{Bytes, c_string}
use psx_xp_mover.Psx.Lines.{Receiver, running, receive_byte, receive_bytes}

pub data LineEnd : Type 0 where
  lf cr cr_lf : LineEnd

abbrev pub line_end_bytes : LineEnd → Bytes
line_end_bytes lf = b'\n' ∷ []
line_end_bytes cr = b'\r' ∷ []
line_end_bytes cr_lf = b'\r' ∷ b'\n' ∷ []

abbrev pub ends_with_cr : LineEnd → Bool
ends_with_cr cr = true
ends_with_cr _ = false

-- a line as it is sent, with the frame that it stands for
pub record Sent (A : Type 0) : Type 0 where
  pub text : Bytes
  pub line_end : LineEnd
  pub frame : A

abbrev pub IsPlain : ℕ → Type 0
IsPlain c = (c ≢ b'\n') × (c ≢ b'\r') × (c ≢ 0)

module _ {A : Type 0} where
  abbrev pub stream : List (Sent A) → Bytes
  stream [] = []
  stream (s ∷ ss) = s.text ++ (line_end_bytes s.line_end ++ stream ss)

  abbrev pub frames_of : List (Sent A) → List A
  frames_of [] = []
  frames_of (s ∷ ss) = s.frame ∷ frames_of ss

  abbrev pub between_lines : Bool → List A → Receiver A
  between_lines flag delivered = record {
    line = [];
    had_carriage_return = flag;
    delivered = delivered;
  }

  abbrev pub in_line : Bytes → List A → Receiver A
  in_line line delivered = record {
    line = line;
    had_carriage_return = false;
    delivered = delivered;
  }

  module _ (on_line_received : Bytes → Option A) where
    -- not empty, shorter than the buffer, no line end or NUL inside, and understood
    pub record IsSendable (s : Sent A) : Type 0 where
      pub not_empty : s.text ≢ []
      pub short : length s.text < 1024
      pub plain : All IsPlain s.text
      pub understood : on_line_received s.text ≡ some s.frame

    c_string-plain : (s : Bytes) → All IsPlain s → c_string s ≡ s
    unfolding c_string
    c_string-plain [] h = refl
    c_string-plain (c ∷ cs) h = ground (arith, c_string-plain cs h.1)

    receive_byte-plain :
        (r : Receiver A) (c : ℕ)
        → IsPlain c
        → length r.line + 1 < 1024
        → receive_byte on_line_received r c
          ≡ running (record r { line = r.line ++ c ∷ []; had_carriage_return = false })
    unfolding receive_byte
    receive_byte-plain r c h k = ground (arith, length-append r.line (c ∷ []))

    receive_text :
        (s rest : Bytes) (line : Bytes) (delivered : List A)
        → All IsPlain s
        → length line + length s < 1024
        → receive_bytes on_line_received (s ++ rest) (in_line line delivered)
          ≡ receive_bytes on_line_received rest (in_line (line ++ s) delivered)
    unfolding receive_bytes
    receive_text [] rest line delivered p h = rw append-nil
    receive_text (c ∷ s) rest line delivered p h =
        rw (receive_byte-plain (in_line line delivered) c p.0 (omega arith)) (
          receive_text s rest (line ++ c ∷ []) delivered p.1
            (omega (arith, length-append line (c ∷ [])))
          ∙ rw append_assoc)

    -- the first byte of a line, whatever the flag
    receive_first :
        (s rest : Bytes) (flag : Bool) (delivered : List A)
        → s ≢ []
        → All IsPlain s
        → length s < 1024
        → receive_bytes on_line_received (s ++ rest) (between_lines flag delivered)
          ≡ receive_bytes on_line_received rest (in_line s delivered)
    receive_first [] rest flag delivered ne p h = absurd (ne refl)
    receive_first (c ∷ s) rest flag delivered ne p h =
        unfold receive_bytes in
        rw (receive_byte-plain (between_lines flag delivered) c p.0 (omega arith))
          (receive_text s rest (c ∷ []) delivered p.1 (omega arith))

    receive_line_end :
        (e : LineEnd) (rest line : Bytes) (delivered : List A) (frame : A)
        → on_line_received (c_string line) ≡ some frame
        → receive_bytes on_line_received (line_end_bytes e ++ rest) (in_line line delivered)
          ≡ receive_bytes on_line_received rest
              (between_lines (ends_with_cr e) (delivered ++ frame ∷ []))
    unfolding receive_bytes receive_byte
    receive_line_end lf rest line delivered frame h = rw h refl
    receive_line_end cr rest line delivered frame h = rw h refl
    receive_line_end cr_lf rest line delivered frame h = rw h refl

    -- the flag behind the lines
    abbrev pub last_flag : Bool → List (Sent A) → Bool
    last_flag flag [] = flag
    last_flag flag (s ∷ ss) = last_flag (ends_with_cr s.line_end) ss

    -- A stream of sendable lines, each with any of the three line ends, is delivered frame by frame
    -- in order, and leaves no byte in the line buffer.
    pub receive_stream :
        (ss : List (Sent A)) (flag : Bool) (delivered : List A)
        → All IsSendable ss
        → receive_bytes on_line_received (stream ss) (between_lines flag delivered)
          ≡ running (between_lines (last_flag flag ss) (delivered ++ frames_of ss))
    receive_stream [] flag delivered h = unfold receive_bytes in rw append-nil
    receive_stream (s ∷ ss) flag delivered h =
        let g = h.0 in
        let good : on_line_received (c_string s.text) ≡ some s.frame =
          rw (c_string-plain s.text g.plain) g.understood in
        receive_first s.text (line_end_bytes s.line_end ++ stream ss) flag delivered g.not_empty
          g.plain g.short
        ∙ receive_line_end s.line_end (stream ss) s.text delivered s.frame good
        ∙ receive_stream ss (ends_with_cr s.line_end) (delivered ++ s.frame ∷ []) h.1
        ∙ rw append_assoc
