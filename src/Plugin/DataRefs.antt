-- ===== src/Plugin/DataRefs.antt =====
-- src/plugin.c: the functions by which X-Plane reads and writes the plugin's variables.
pub mod Levels
pub mod Text
use psx_xp_mover.Base.{
  ℕ, ◌+◌, ◌-◌, ◌≤◌, Bool, true, false, not, ◌&&◌, ◌||◌, Option, none, some, [], ◌∷◌, length, take,
  drop, replicate, min, ltb, leb, ◌==◌, if◌then◌else◌, ◌>>=◌,
}
use psx_xp_mover.Base.Int.{ℤ, pos, pos_part, ltb_ℤ, eqb_ℤ}
use psx_xp_mover.Utils.{Bytes}
use psx_xp_mover.Memory.{write_at}
use psx_xp_mover.Logger.{level_error, level_warn, level_info, level_debug, level_trace, level_fine}

abbrev pub invalid_log_level : ℕ
invalid_log_level = 0

abbrev pub get_bool : Bool → ℤ
get_bool b = if b then pos 1 else pos 0

abbrev pub set_bool : ℤ → Bool
set_bool value = not (eqb_ℤ value (pos 0))

unfoldable pub log_level_to_char : ℕ → ℕ
log_level_to_char level =
    if level == level_error
    then b'E'
    else if level == level_warn
    then b'W'
    else if level == level_info
    then b'I'
    else if level == level_debug
    then b'D'
    else if level == level_trace
    then b'T'
    else if level == level_fine
    then b'F'
    else b'?'

unfoldable pub char_to_log_level : ℕ → ℕ
char_to_log_level ch =
    if ch == b'E'
    then level_error
    else if ch == b'W'
    then level_warn
    else if ch == b'I'
    then level_info
    else if ch == b'D'
    then level_debug
    else if ch == b'T'
    then level_trace
    else if ch == b'F'
    then level_fine
    else invalid_log_level

-- The number returned, and the byte copied if there is one. The flag says whether `outValue` is
-- not NULL; the level is what the getter returns.
unfoldable pub dataref_get_log_level : ℕ → Bool → ℤ → ℤ → ℕ × Option ℕ
unfolding log_level_to_char
dataref_get_log_level level has_out in_offset in_max_length =
    if not has_out
    then (1, none)
    else if ltb_ℤ in_max_length (pos 1)
    then (0, none)
    else if not (eqb_ℤ in_offset (pos 0))
    then (0, none)
    else (1, some (log_level_to_char level))

-- The level that is set, if any; `in_value` is the first byte, where it is not NULL.
unfoldable pub dataref_set_log_level : Option ℕ → ℤ → ℤ → Option ℕ
unfolding char_to_log_level
dataref_set_log_level none in_offset in_length = none
dataref_set_log_level (some ch) in_offset in_length =
    if not (eqb_ℤ in_offset (pos 0)) || not (eqb_ℤ in_length (pos 1))
    then none
    else if char_to_log_level ch == invalid_log_level
    then none
    else some (char_to_log_level ch)

-- `DATAREF_EXPOSED_STRING_LENGTH`
abbrev pub dataref_exposed_string_length : ℕ
dataref_exposed_string_length = 256

-- what `dataref_get_string` does: the number returned and the caller's memory, or a write behind
-- the end of it
pub data Copied : Type 0 where
  copied : ℕ → Bytes → Copied
  copied_out_of_range : Copied

abbrev pub copied_or_out_of_range : ℕ → Option Bytes → Copied
copied_or_out_of_range n none = copied_out_of_range
copied_or_out_of_range n (some out) = copied n out

-- from the `memset` on
unfoldable pub copy_string : Bytes → ℕ → ℕ → Bytes → Copied
unfolding write_at
copy_string s offset max_copy out = copied_or_out_of_range max_copy (do
  blank ← write_at out offset (replicate max_copy 0)
  write_at blank offset (take (min (length s) max_copy - offset) (drop offset s)))

-- The memory of `outValue` is the list `out`; `none` stands for NULL.
unfoldable pub dataref_get_string : Bytes → Option Bytes → ℤ → ℤ → Copied
unfolding copy_string
dataref_get_string s none in_offset in_max_length = copied dataref_exposed_string_length []
dataref_get_string s (some out) in_offset in_max_length =
    if ltb_ℤ in_max_length (pos 1)
    then copied 0 out
    else if ltb_ℤ in_offset (pos 0) || ltb_ℤ (pos (dataref_exposed_string_length - 1)) in_offset
    then copied 0 out
    else copy_string s (pos_part in_offset)
        (min (pos_part in_max_length) dataref_exposed_string_length) out
