-- ===== src/Logger.antt =====
-- src/logger.c: the levels, the texts that are written, and the outputs that they go to.
-- The minimum level that is compiled in (`MVLOG_COMPILED_MIN_LOG_LEVEL`) is an argument.
pub mod Levels
pub mod Format
mod Tests
use psx_xp_mover.Base.{
  ℕ, zero, suc, ◌+◌, ◌-◌, ◌≤◌, Bool, true, false, not, ◌&&◌, ◌||◌, Option, none, some, List, [],
  ◌∷◌, ◌++◌, length, replicate, take, ltb, leb, ◌==◌, if◌then◌else◌, ◌>>=◌,
}
use psx_xp_mover.Utils.{Bytes, c_string}
use psx_xp_mover.Memory.{write_at}

-- the levels of src/logger.h, of type `uint8_t`
abbrev pub level_error : ℕ
level_error = 127

abbrev pub level_warn : ℕ
level_warn = 63

abbrev pub level_info : ℕ
level_info = 31

abbrev pub level_debug : ℕ
level_debug = 15

abbrev pub level_trace : ℕ
level_trace = 7

abbrev pub level_fine : ℕ
level_fine = 3

-- the static variables
pub record Logger : Type 0 where
  pub min_log_level_console : ℕ
  pub min_log_level_xplane : ℕ
  pub min_log_level : ℕ
  pub has_log_mutex : Bool

-- `DEFAULT_MIN_LOG_LEVEL_XPLANE`
abbrev pub default_min_log_level_xplane : ℕ → ℕ
default_min_log_level_xplane compiled = if leb compiled level_info then level_info else compiled

abbrev pub initial_logger : ℕ → Logger
initial_logger compiled = record {
  min_log_level_console = compiled;
  min_log_level_xplane = default_min_log_level_xplane compiled;
  min_log_level = compiled;
  has_log_mutex = false;
}

-- The argument says whether `mtx_init` succeeds.
unfoldable pub xpmover_log_init : Bool → Logger → Logger
xpmover_log_init succeeds g =
    if g.has_log_mutex then g else if succeeds then record g { has_log_mutex = true } else g

unfoldable pub xpmover_log_destroy : Logger → Logger
xpmover_log_destroy g = if not g.has_log_mutex then g else record g { has_log_mutex = false }

-- limit to compiled levels
abbrev pub limit_level : ℕ → ℕ → ℕ
limit_level compiled level = if ltb level compiled then compiled else level

-- update global minimum log level which is the lowest of all selected levels
abbrev pub update_global_minimum : Logger → Logger
update_global_minimum g = record g {
  min_log_level =
      if ltb g.min_log_level_xplane g.min_log_level_console
      then g.min_log_level_xplane
      else g.min_log_level_console;
}

unfoldable pub xpmover_set_min_log_level_console : ℕ → ℕ → Logger → Logger
xpmover_set_min_log_level_console compiled level g =
    update_global_minimum (record g { min_log_level_console = limit_level compiled level })

unfoldable pub xpmover_set_min_log_level_xplane : ℕ → ℕ → Logger → Logger
xpmover_set_min_log_level_xplane compiled level g =
    update_global_minimum (record g { min_log_level_xplane = limit_level compiled level })

unfoldable pub xpmover_is_log_level_enabled : ℕ → Logger → ℕ → Bool
xpmover_is_log_level_enabled compiled g level =
    leb compiled level && (leb g.min_log_level_xplane level || leb g.min_log_level_console level)

-- "[FINE]  ", "[TRACE] " and so on
unfoldable pub log_level_name_message_part : ℕ → Bytes
log_level_name_message_part level =
    if level == level_fine
    then b'[' ∷ b'F' ∷ b'I' ∷ b'N' ∷ b'E' ∷ b']' ∷ b' ' ∷ b' ' ∷ []
    else if level == level_trace
    then b'[' ∷ b'T' ∷ b'R' ∷ b'A' ∷ b'C' ∷ b'E' ∷ b']' ∷ b' ' ∷ []
    else if level == level_debug
    then b'[' ∷ b'D' ∷ b'E' ∷ b'B' ∷ b'U' ∷ b'G' ∷ b']' ∷ b' ' ∷ []
    else if level == level_info
    then b'[' ∷ b'I' ∷ b'N' ∷ b'F' ∷ b'O' ∷ b']' ∷ b' ' ∷ b' ' ∷ []
    else if level == level_warn
    then b'[' ∷ b'W' ∷ b'A' ∷ b'R' ∷ b'N' ∷ b']' ∷ b' ' ∷ b' ' ∷ []
    else if level == level_error
    then b'[' ∷ b'E' ∷ b'R' ∷ b'R' ∷ b'O' ∷ b'R' ∷ b']' ∷ b' ' ∷ []
    else b'[' ∷ b'U' ∷ b'N' ∷ b'K' ∷ b'N' ∷ b'W' ∷ b']' ∷ b' ' ∷ []

-- `MVLOG_MESSAGE_BUFFER_SIZE`
abbrev pub message_buffer_size : ℕ
message_buffer_size = 4096

-- `LINE_END` on Linux and macOS
abbrev pub line_end : Bytes
line_end = b'\n' ∷ []

-- `log_fallback_prefix`: "[Mover] [no time] "
abbrev pub log_fallback_prefix : Bytes
log_fallback_prefix =
    b'[' ∷ b'M' ∷ b'o' ∷ b'v' ∷ b'e' ∷ b'r' ∷ b']' ∷ b' ' ∷ b'[' ∷ b'n' ∷ b'o' ∷ b' ' ∷ b't' ∷ b'i'
    ∷ b'm' ∷ b'e' ∷ b']' ∷ b' ' ∷ []

-- `char buffer[MVLOG_MESSAGE_BUFFER_SIZE] = { 0 }`
unfoldable pub empty_buffer : Bytes
empty_buffer = replicate message_buffer_size 0

-- What `snprintf` writes when it is given a size: a part that fits, and the terminator.
abbrev pub print_within : ℕ → Bytes → Bytes
print_within zero text = []
print_within (suc size) text = take size text ++ 0 ∷ []

-- the result of `format_message`
pub data Formatted : Type 0 where
  message : Bytes → Formatted
  failure : Formatted
  -- a write behind the end of the buffer
  overrun : Formatted

-- the C string that is in the buffer at last
abbrev pub message_or_overrun : Option Bytes → Formatted
message_or_overrun none = overrun
message_or_overrun (some buffer) = message (c_string buffer)

abbrev pub or_fallback : Option Bytes → Bytes
or_fallback none = log_fallback_prefix
or_fallback (some text) = text

-- the time of the message, or the fallback
abbrev pub write_prefix : Option Bytes → ℕ → Bytes → Option Bytes
write_prefix none remaining buffer = write_at buffer 0 log_fallback_prefix
write_prefix (some text) remaining buffer = write_at buffer 0 (print_within remaining text)

-- add the actual log message, and terminate it
unfoldable pub write_text : ℕ → ℕ → Option Bytes → Bytes → Formatted
unfolding write_at c_string
write_text at remaining none buffer = failure
write_text at remaining (some text) buffer = message_or_overrun (do
  printed ← write_at buffer at (print_within remaining text)
  write_at printed (at + length text) (line_end ++ 0 ∷ []))

-- the prefix and the level
unfoldable pub write_head : Option Bytes → ℕ → Bytes → Option Bytes
unfolding write_at log_level_name_message_part
write_head time_prefix level buffer = do
  prefixed ← write_prefix time_prefix (message_buffer_size - length line_end - 1) buffer
  write_at prefixed (length (or_fallback time_prefix)) (log_level_name_message_part level)

abbrev pub write_rest : ℕ → ℕ → Option Bytes → Option Bytes → Formatted
write_rest at remaining formatted none = overrun
write_rest at remaining formatted (some buffer) = write_text at remaining formatted buffer

-- The prefix with the local time, where `timespec_get`, `localtime` and `snprintf` give one, and
-- what `vsnprintf` makes of the format, where it does not fail, are arguments. Both prefixes are
-- far shorter than the buffer, so that the remaining bytes do not fall below 0.
unfoldable pub format_message : Option Bytes → ℕ → Option Bytes → Bytes → Formatted
unfolding write_head write_text
format_message time_prefix level formatted buffer =
    let at = length (or_fallback time_prefix) + length (log_level_name_message_part level) in
    let remaining = message_buffer_size - length line_end - 1 - at in
    write_rest at remaining formatted (write_head time_prefix level buffer)

-- what `xpmover_log` does to the outputs and the mutex
pub data Output : Type 0 where
  report_format_failure report_lock_failure lock unlock : Output
  write_console : Bytes → Output
  write_xplane : Bytes → Output

abbrev pub when : Bool → List Output → List Output
when true os = os
when false os = []

-- The flags say whether the mutex is locked on request, and whether X-Plane's log is there.
abbrev pub console_output : Bool → Logger → Bytes → List Output
console_output locks g text =
    if g.has_log_mutex
    then if locks
      then lock ∷ write_console text ∷ unlock ∷ []
      else report_lock_failure ∷ write_console text ∷ []
    else write_console text ∷ []

unfoldable pub log_outputs : Bool → Bool → Logger → ℕ → Formatted → Option (List Output)
log_outputs has_xplm locks g level failure = some (report_format_failure ∷ [])
log_outputs has_xplm locks g level overrun = none
log_outputs has_xplm locks g level (message m) = some (
    when (leb g.min_log_level_console level) (console_output locks g m)
    ++ when (has_xplm && leb g.min_log_level_xplane level) (write_xplane m ∷ []))

-- `xpmover_log`, for a format that is not NULL: `none` if the buffer is overrun.
unfoldable pub xpmover_log :
    Bool → Bool → Option Bytes → Logger → ℕ → Option Bytes → Option (List Output)
unfolding format_message log_outputs empty_buffer
xpmover_log has_xplm locks time_prefix g level formatted =
    if ltb level g.min_log_level
    then some []
    else log_outputs has_xplm locks g level
        (format_message time_prefix level formatted empty_buffer)
