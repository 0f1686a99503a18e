-- ===== src/Psx/Lines.antt =====
-- The byte loop of `run_connection_loop` in src/psx.c: lines are cut out of what the network
-- delivers, in chunks of any size.
pub mod Bounds
pub mod Deliver
use psx_xp_mover.Base.{
  ℕ, suc, ◌+◌, Bool, true, false, not, Option, none, some, List, [], ◌∷◌, ◌++◌, length, leb, ◌==◌,
  if◌then◌else◌,
}
use psx_xp_mover.Utils.{Bytes, c_string}

-- `LINE_BUFFER_SIZE`
abbrev pub line_buffer_size : ℕ
line_buffer_size = 1024

-- The line buffer up to its write cursor, the flag for a carriage return, and the frames that
-- were handed to the callback.
pub record Receiver (A : Type 0) : Type 0 where
  pub line : Bytes
  pub had_carriage_return : Bool
  pub delivered : List A

abbrev pub fresh_receiver : {A : Type 0} → List A → Receiver A
fresh_receiver delivered = record { line = []; had_carriage_return = false; delivered = delivered }

-- The receive loop goes on, or `success` became false and the connection is closed; the frames
-- delivered by then remain delivered.
pub data Outcome (A : Type 0) : Type 0 where
  running : Receiver A → Outcome A
  failed : List A → Outcome A

abbrev pub and_then : {A : Type 0} → Outcome A → (Receiver A → Outcome A) → Outcome A
and_then (running r) f = f r
and_then (failed delivered) f = failed delivered

module _ {A : Type 0} (on_line_received : Bytes → Option A) where
  -- a line is complete, or the second byte of a line end is skipped
  unfoldable pub end_line : Receiver A → Outcome A
  unfolding c_string
  end_line r =
      if r.had_carriage_return then running r else (elim (on_line_received (c_string r.line)) [
        | none ↦ failed r.delivered
        | some frame ↦ running (record r { line = []; delivered = r.delivered ++ frame ∷ [] })
      ])

  -- behind the two cases: the check for an excessive line, and the flag for the next byte
  unfoldable pub finish_byte : Bool → Receiver A → Outcome A
  finish_byte is_carriage_return r =
      if leb line_buffer_size (length r.line)
      then failed r.delivered
      else running (record r { had_carriage_return = is_carriage_return })

  unfoldable pub receive_byte : Receiver A → ℕ → Outcome A
  unfolding end_line finish_byte
  receive_byte r byte =
      let is_carriage_return = byte == b'\r' in
      let ch = if is_carriage_return then b'\n' else byte in
      and_then (if ch == b'\n' then end_line r else running (record r { line = r.line ++ ch ∷ [] }))
        (finish_byte is_carriage_return)

  -- the bytes of one call of `read_network`
  unfoldable pub receive_bytes : Bytes → Receiver A → Outcome A
  unfolding receive_byte
  receive_bytes [] r = running r
  receive_bytes (byte ∷ bytes) r = and_then (receive_byte r byte) (receive_bytes bytes)

  -- the calls of `read_network` until the connection ends
  unfoldable pub receive_chunks : List Bytes → Receiver A → Outcome A
  unfolding receive_bytes
  receive_chunks [] r = running r
  receive_chunks (chunk ∷ chunks) r = and_then (receive_bytes chunk r) (receive_chunks chunks)
