-- ===== src/Logger/Tests.antt =====
-- Levels and messages of src/logger.c, with concrete values.
use psx_xp_mover.Base.{◌≡◌, arith, replicate, none, some, [], ◌∷◌, ◌++◌}
use psx_xp_mover.Utils.{Bytes}
use psx_xp_mover.Logger.{
  Logger, initial_logger, xpmover_set_min_log_level_console, xpmover_set_min_log_level_xplane,
  log_fallback_prefix, log_level_name_message_part, format_message, empty_buffer, message, overrun,
  level_debug, level_error,
}
use psx_xp_mover.Logger.Levels.{
  IsConsistent, initial_logger-IsConsistent, set_min_log_level-IsConsistent,
}
use psx_xp_mover.Logger.Format.{format_message_fits, format_message_overruns}

abbrev logger : Logger
logger = initial_logger level_debug

set_min_log_level-IsConsistent_example :
    IsConsistent level_debug (xpmover_set_min_log_level_console level_debug 3 logger)
    × IsConsistent level_debug (xpmover_set_min_log_level_xplane level_debug 3 logger)
set_min_log_level-IsConsistent_example =
    set_min_log_level-IsConsistent level_debug 3 logger (initial_logger-IsConsistent level_debug)

-- "hi"
abbrev greeting : Bytes
greeting = b'h' ∷ b'i' ∷ []

abbrev greeting_line : Bytes
greeting_line =
    ((log_fallback_prefix ++ log_level_name_message_part level_debug) ++ greeting) ++ b'\n' ∷ []

format_message_fits_example :
    format_message none level_debug (some greeting) empty_buffer ≡ message greeting_line
format_message_fits_example =
    format_message_fits none level_debug greeting (omega arith) (ground arith) (ground arith)

format_message_overruns_example :
    format_message none level_error (some (replicate 4100 b'a')) empty_buffer ≡ overrun
format_message_overruns_example =
    format_message_overruns none level_error (replicate 4100 b'a') (omega arith) (omega arith)
