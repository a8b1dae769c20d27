-- ===== src/Logger.antt =====
-- pkg/logger: levels and their conversions (log.types.go, log.utils.go). A logger is what the rest of the
-- program sees of `loggerImpl`: the handler's level, which is fixed when the shared core is made, and the
-- two request identifiers.
pub mod Levels
use boilerplate_go_be.Base.{ℤ, pos, negsuc, String, Bool, leb_ℤ, upper_is, if◌then◌else◌}

pub data Level : Type 0 where
  debug info warn error fatal : Level

-- `slog.LevelDebug` is -4, info 0, warn 4, error 8.
unfoldable pub to_slog : Level → ℤ
to_slog debug = negsuc 3
to_slog info = pos 0
to_slog warn = pos 4
to_slog error = pos 8
to_slog fatal = pos 12

unfoldable pub label_from_slog : ℤ → String
label_from_slog l =
    if leb_ℤ (pos 12) l
    then "FATAL"
    else if leb_ℤ (pos 8) l
    then "ERROR"
    else if leb_ℤ (pos 4) l
    then "WARN"
    else if leb_ℤ (pos 0) l
    then "INFO"
    else "DEBUG"

unfoldable pub parse_log_level : String → Level
unfolding upper_is
parse_log_level level =
    if upper_is level "DEBUG"
    then debug
    else if upper_is level "INFO"
    then info
    else if upper_is level "WARN"
    then warn
    else if upper_is level "ERROR"
    then error
    else if upper_is level "FATAL"
    then fatal
    else info

-- `pipeHandler.Enabled`.
unfoldable pub enabled : ℤ → ℤ → Bool
enabled handler_level level = leb_ℤ handler_level level

pub record Log : Type 0 where
  pub level : ℤ
  pub parent_id : String
  pub child_id : String
