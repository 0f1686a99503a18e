-- ===== src/Logger/Levels.antt =====
-- The levels stay consistent, and the early return of `xpmover_log` loses no message.
use psx_xp_mover.Base.{
  ℕ, refl, ◌≤◌, ◌≡◌, arith, min, Bool, false, leb, ltb, [], Option, some, Bool-cases, inl, inr, ◌∷◌,
  ◌++◌, ◌&&◌,
}
use psx_xp_mover.Utils.{Bytes}
use psx_xp_mover.Logger.{
  Logger, initial_logger, xpmover_set_min_log_level_console, xpmover_set_min_log_level_xplane,
  xpmover_is_log_level_enabled, message, format_message, empty_buffer, xpmover_log, log_outputs,
  console_output, when, write_xplane,
}

-- No output asks for less than is compiled in, and the global minimum is the lower of the two.
pub record IsConsistent (compiled : ℕ) (g : Logger) : Type 0 where
  pub console_compiled : compiled ≤ g.min_log_level_console
  pub xplane_compiled : compiled ≤ g.min_log_level_xplane
  pub lowest : g.min_log_level ≡ min g.min_log_level_console g.min_log_level_xplane

pub initial_logger-IsConsistent : (compiled : ℕ) → IsConsistent compiled (initial_logger compiled)
initial_logger-IsConsistent compiled = record {
  console_compiled = ground arith;
  xplane_compiled = ground arith;
  lowest = ground arith;
}

-- Both setters keep the levels consistent, whatever level they are given.
pub set_min_log_level-IsConsistent :
    (compiled level : ℕ) (g : Logger)
    → IsConsistent compiled g
    → IsConsistent compiled (xpmover_set_min_log_level_console compiled level g)
      × IsConsistent compiled (xpmover_set_min_log_level_xplane compiled level g)
unfolding xpmover_set_min_log_level_console xpmover_set_min_log_level_xplane
set_min_log_level-IsConsistent compiled level g w = (
  record {
    console_compiled = ground arith;
    xplane_compiled = w.xplane_compiled;
    lowest = ground arith;
  },
  record {
    console_compiled = w.console_compiled;
    xplane_compiled = ground arith;
    lowest = ground arith;
  },
)

-- `xpmover_is_log_level_enabled` says of a consistent logger exactly whether the early return of
-- `xpmover_log` lets the level pass.
pub enabled_iff :
    (compiled level : ℕ) (g : Logger)
    → IsConsistent compiled g
    → xpmover_is_log_level_enabled compiled g level ≡ leb g.min_log_level level
unfolding xpmover_is_log_level_enabled
enabled_iff compiled level g w = ground (arith, w.console_compiled, w.xplane_compiled, w.lowest)

-- A message that is formatted reaches each output whose level admits it, and no other: the early
-- return of `xpmover_log` on the global minimum drops nothing, if the levels are consistent.
pub xpmover_log_lem :
    (has_xplm locks : Bool) (time_prefix : Option Bytes) {compiled : ℕ} (g : Logger) (level : ℕ)
    → (formatted : Option Bytes) {text : Bytes} → IsConsistent compiled g
    → format_message time_prefix level formatted empty_buffer ≡ message text
    → xpmover_log has_xplm locks time_prefix g level formatted
      ≡ some (
          when (leb g.min_log_level_console level) (console_output locks g text)
          ++ when (has_xplm && leb g.min_log_level_xplane level) (write_xplane text ∷ []))
unfolding xpmover_log log_outputs
xpmover_log_lem has_xplm locks time_prefix g level formatted w h =
    rw h (elim (Bool-cases (ltb level g.min_log_level)) [
      | inl early ↦
          let console : leb g.min_log_level_console level ≡ false = ground (arith, w.lowest) in
          let xplane : leb g.min_log_level_xplane level ≡ false = ground (arith, w.lowest) in
          rw (early, console, xplane) (ground arith)
      | inr late ↦ rw late refl
    ])
