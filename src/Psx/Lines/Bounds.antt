-- ===== src/Psx/Lines/Bounds.antt =====
-- The line buffer is never written out of range, and how the stream is cut into chunks does not
-- matter.
use mathlib.Core.List.{flatten}
use mathlib.Core.Path.{fun_ext}
use psx_xp_mover.Base.{ℕ, ◌<◌, ◌≡◌, refl, sym, ap, ◌∙◌, arith, Option, List, [], ◌∷◌, ◌++◌, length}
use psx_xp_mover.Utils.{Bytes}
use psx_xp_mover.Psx.Lines.{
  Receiver, Outcome, running, failed, and_then, receive_byte, receive_bytes, receive_chunks,
}

module _ {A : Type 0} where
  -- The write cursor stands inside the buffer, with room for a byte or the terminator.
  abbrev pub InBuffer : Receiver A → Type 0
  InBuffer r = length r.line < 1024

  abbrev pub StaysInBuffer : Outcome A → Type 0
  StaysInBuffer (running r) = InBuffer r
  StaysInBuffer (failed delivered) = Unit

  and_then-StaysInBuffer :
      (o : Outcome A) (f : Receiver A → Outcome A)
      → StaysInBuffer o
      → ((r : Receiver A) → InBuffer r → StaysInBuffer (f r))
      → StaysInBuffer (and_then o f)
  and_then-StaysInBuffer (running r) f h k = k r h
  and_then-StaysInBuffer (failed delivered) f h k = tt

  and_then_assoc :
      (o : Outcome A) (f g : Receiver A → Outcome A)
      → and_then (and_then o f) g ≡ and_then o (λ r. and_then (f r) g)
  and_then_assoc (running r) f g = refl
  and_then_assoc (failed delivered) f g = refl

  module _ (on_line_received : Bytes → Option A) where
    receive_byte-StaysInBuffer :
        (r : Receiver A) (byte : ℕ)
        → InBuffer r
        → StaysInBuffer (receive_byte on_line_received r byte)
    unfolding receive_byte
    receive_byte-StaysInBuffer r byte h = ground arith

    receive_bytes-StaysInBuffer :
        (bytes : Bytes) (r : Receiver A)
        → InBuffer r
        → StaysInBuffer (receive_bytes on_line_received bytes r)
    unfolding receive_bytes
    receive_bytes-StaysInBuffer [] r h = h
    receive_bytes-StaysInBuffer (byte ∷ bytes) r h =
        and_then-StaysInBuffer (receive_byte on_line_received r byte)
          (receive_bytes on_line_received bytes) (receive_byte-StaysInBuffer r byte h)
          (receive_bytes-StaysInBuffer bytes)

    -- From a cursor inside the buffer, all bytes of all chunks are written inside it, and so is each
    -- terminator: between two bytes the cursor is at most at the last place.
    pub receive_chunks-StaysInBuffer :
        (chunks : List Bytes) (r : Receiver A)
        → InBuffer r
        → StaysInBuffer (receive_chunks on_line_received chunks r)
    unfolding receive_chunks
    receive_chunks-StaysInBuffer [] r h = h
    receive_chunks-StaysInBuffer (chunk ∷ chunks) r h =
        and_then-StaysInBuffer (receive_bytes on_line_received chunk r)
          (receive_chunks on_line_received chunks) (receive_bytes-StaysInBuffer chunk r h)
          (receive_chunks-StaysInBuffer chunks)

    pub receive_bytes-append :
        (xs ys : Bytes) (r : Receiver A)
        → receive_bytes on_line_received (xs ++ ys) r
          ≡ and_then (receive_bytes on_line_received xs r) (receive_bytes on_line_received ys)
    unfolding receive_bytes
    receive_bytes-append [] ys r = refl
    receive_bytes-append (byte ∷ xs) ys r =
        ap (and_then (receive_byte on_line_received r byte)) (fun_ext (receive_bytes-append xs ys))
        ∙ sym (
            and_then_assoc (receive_byte on_line_received r byte)
              (receive_bytes on_line_received xs) (receive_bytes on_line_received ys))

    -- What is received depends on the bytes alone, not on how `read_network` cuts them into chunks.
    pub receive_chunks-flatten :
        (chunks : List Bytes) (r : Receiver A)
        → receive_chunks on_line_received chunks r
          ≡ receive_bytes on_line_received (flatten chunks) r
    unfolding receive_chunks flatten
    receive_chunks-flatten [] r = unfold receive_bytes in refl
    receive_chunks-flatten (chunk ∷ chunks) r =
        ap (and_then (receive_bytes on_line_received chunk r))
          (fun_ext (receive_chunks-flatten chunks))
        ∙ sym (receive_bytes-append chunk (flatten chunks) r)
