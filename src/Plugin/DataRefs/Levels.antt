-- ===== src/Plugin/DataRefs/Levels.antt =====
-- Log levels as characters, in both directions.
use psx_xp_mover.Base.{
  ℕ, refl, ◌≤◌, ◌≡◌, arith, Bool, true, false, ◌||◌, none, some, ◌==◌, if◌then◌else◌,
}
use psx_xp_mover.Base.Int.{pos}
use psx_xp_mover.Logger.{
  Logger, limit_level, xpmover_set_min_log_level_console, level_error, level_warn, level_info,
  level_debug, level_trace, level_fine,
}
use psx_xp_mover.Plugin.DataRefs.{
  log_level_to_char, char_to_log_level, dataref_get_log_level, dataref_set_log_level,
}

-- one of the six levels
abbrev pub is_level : ℕ → Bool
is_level level =
    level == level_error
    || level == level_warn
    || level == level_info
    || level == level_debug
    || level == level_trace
    || level == level_fine

-- Each of the six levels comes back from its character, and any other level comes back as the
-- invalid one.
pub char_to_log_level-log_level_to_char :
    (level : ℕ)
    → char_to_log_level (log_level_to_char level) ≡ (if is_level level then level else 0)
unfolding char_to_log_level log_level_to_char
char_to_log_level-log_level_to_char level = ground arith

log_level_to_char-char_to_log_level :
    (ch : ℕ) → (char_to_log_level ch == 0) ≡ false → log_level_to_char (char_to_log_level ch) ≡ ch
unfolding char_to_log_level log_level_to_char
log_level_to_char-char_to_log_level ch h = ground arith

level_of_char :
    (ch level : ℕ) {set : ℕ}
    → (if level == 0 then none else some level) ≡ some set
    → (level ≡ set) × ((level == 0) ≡ false)
level_of_char ch level h = ground arith

-- A character of a level, not below the compiled minimum, that is written for the console is read
-- back from the logger.
pub get-set_log_level :
    (compiled ch : ℕ) (g : Logger) {level : ℕ}
    → dataref_set_log_level (some ch) (pos 0) (pos 1) ≡ some level
    → compiled ≤ level
    → dataref_get_log_level
        (xpmover_set_min_log_level_console compiled level g).min_log_level_console
        true
        (pos 0)
        (pos 1)
      ≡ (1, some ch)
unfolding dataref_set_log_level dataref_get_log_level xpmover_set_min_log_level_console
get-set_log_level compiled ch g {level} h k =
    let limited : limit_level compiled level ≡ level = ground arith in
    let (is, valid) = level_of_char ch (char_to_log_level ch) h in
    rw (limited, ← is, log_level_to_char-char_to_log_level ch valid) refl
