-- ===== src/Schema/Level.antt =====
-- The log levels of pkg/schema/event.go.
pub mod Normal
use apexio.Base.{Bool, ◌||◌, if◌then◌else◌}
use apexio.Base.Text.{Text, codes, text_eq, is_empty, trim_space, Unicode, to_upper}

abbrev pub level_debug : Text
level_debug = codes "DEBUG"

abbrev pub level_info : Text
level_info = codes "INFO"

abbrev pub level_warn : Text
level_warn = codes "WARN"

abbrev pub level_error : Text
level_error = codes "ERROR"

abbrev pub level_fatal : Text
level_fatal = codes "FATAL"

-- The `case` of the switch in `ValidLogLevel`.
unfoldable pub known_level : Text → Bool
unfolding text_eq
known_level l =
    text_eq l level_debug
    || text_eq l level_info
    || text_eq l level_warn
    || text_eq l level_error
    || text_eq l level_fatal

module _ ⦃u : Unicode⦄ where
  unfoldable pub valid_log_level : Text → Bool
  valid_log_level level = known_level (to_upper (trim_space level))

  -- `if level == "" { return LevelInfo }`
  abbrev or_info : Text → Text
  or_info level = if is_empty level then level_info else level

  unfoldable pub normalize_log_level : Text → Text
  normalize_log_level level = or_info (to_upper (trim_space level))
