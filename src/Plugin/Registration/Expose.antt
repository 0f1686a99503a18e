-- ===== src/Plugin/Registration/Expose.antt =====
-- The functions of src/plugin.c that expose a variable as a data reference, each with the functions
-- that X-Plane gets for it. The argument behind the name is the address of the variable, or, for a log
-- level, the two functions of the logger.
use psx_xp_mover.Base.{Bool, false, Option, none, some}
use psx_xp_mover.Plugin.Registration.{
  Provided, Reader, reads_double, reads_int, reads_bool, reads_log_level, reads_string, Writer,
  writes_double, writes_int, writes_bool, writes_log_level, Reading, Writing, Registrar, Registry,
  register_double_dataref, register_int_dataref, register_blob_dataref,
}

abbrev pub read_by : Reader → Provided → Reading
read_by reader value = record { in_read = some reader; read_refcon = some value }

abbrev pub written_by : Writer → Provided → Writing
written_by writer value = record { in_write = some writer; write_refcon = some value }

abbrev pub read_only : Writing
read_only = record { in_write = none; write_refcon = none }

-- how a data reference is exposed, with X-Plane's answers, the variable and the name
abbrev pub Exposure : Type 0
Exposure =
    Registrar → Option Provided → Option Provided → Option Provided → Registry → Bool × Registry

unfoldable pub expose_double_as_dataref_writable : Exposure
expose_double_as_dataref_writable x dest name none s = (false, s)
expose_double_as_dataref_writable x dest name (some value) s =
    register_double_dataref x dest name (read_by reads_double value)
      (written_by writes_double value) s

unfoldable pub expose_double_as_dataref_readonly : Exposure
expose_double_as_dataref_readonly x dest name none s = (false, s)
expose_double_as_dataref_readonly x dest name (some value) s =
    register_double_dataref x dest name (read_by reads_double value) read_only s

unfoldable pub expose_int_as_dataref_writable : Exposure
expose_int_as_dataref_writable x dest name none s = (false, s)
expose_int_as_dataref_writable x dest name (some value) s =
    register_int_dataref x dest name (read_by reads_int value) (written_by writes_int value) s

unfoldable pub expose_int_as_dataref_readonly : Exposure
expose_int_as_dataref_readonly x dest name none s = (false, s)
expose_int_as_dataref_readonly x dest name (some value) s =
    register_int_dataref x dest name (read_by reads_int value) read_only s

unfoldable pub expose_int_as_dataref_delegated : Writer → Exposure
expose_int_as_dataref_delegated setter x dest name none s = (false, s)
expose_int_as_dataref_delegated setter x dest name (some value) s =
    register_int_dataref x dest name (read_by reads_int value) (written_by setter value) s

unfoldable pub expose_bool_as_dataref_writable : Exposure
expose_bool_as_dataref_writable x dest name none s = (false, s)
expose_bool_as_dataref_writable x dest name (some value) s =
    register_int_dataref x dest name (read_by reads_bool value) (written_by writes_bool value) s

unfoldable pub expose_bool_as_dataref_readonly : Exposure
expose_bool_as_dataref_readonly x dest name none s = (false, s)
expose_bool_as_dataref_readonly x dest name (some value) s =
    register_int_dataref x dest name (read_by reads_bool value) read_only s

-- The first argument is the log level whose setter is given, the last one that whose getter is given.
unfoldable pub expose_log_level_as_dataref_writable : Option Provided → Exposure
expose_log_level_as_dataref_writable none x dest name value s = (false, s)
expose_log_level_as_dataref_writable (some set) x dest name none s = (false, s)
expose_log_level_as_dataref_writable (some set) x dest name (some get) s =
    register_blob_dataref x dest name (read_by reads_log_level get)
      (written_by writes_log_level set) s

unfoldable pub expose_string_as_dataref_readonly : Exposure
expose_string_as_dataref_readonly x dest name none s = (false, s)
expose_string_as_dataref_readonly x dest name (some text) s =
    register_blob_dataref x dest name (read_by reads_string text) read_only s

unfoldable pub expose_string_as_dataref_delegated : Writer → Exposure
expose_string_as_dataref_delegated setter x dest name none s = (false, s)
expose_string_as_dataref_delegated setter x dest name (some text) s =
    register_blob_dataref x dest name (read_by reads_string text) (written_by setter text) s
