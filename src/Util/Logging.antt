-- ===== src/Util/Logging.antt =====
-- The log: src/util/Logging.h and Logging.cpp. The time stamp is an argument.
pub mod Filter
use code_tribunal.Prelude.{
  ℕ, Bool, true, false, ltb, Option, none, some, ◌∷◌, ◌++◌, Text, text, if◌then◌else◌,
}

pub data LogLevel : Type 0 where
  debug : LogLevel
  info : LogLevel
  warning : LogLevel
  error : LogLevel
  silent : LogLevel

-- The order of the enumeration.
abbrev pub rank : LogLevel → ℕ
rank LogLevel.debug = 0
rank LogLevel.info = 1
rank LogLevel.warning = 2
rank LogLevel.error = 3
rank LogLevel.silent = 4

unfoldable pub level_name : LogLevel → Text
level_name LogLevel.debug = text "DEBUG"
level_name LogLevel.info = text "INFO"
level_name LogLevel.warning = text "WARN"
level_name LogLevel.error = text "ERROR"
level_name LogLevel.silent = text "NONE"

pub data Stream : Type 0 where
  standard_output : Stream
  standard_error : Stream

abbrev stream_of : LogLevel → Stream
stream_of LogLevel.error = standard_error
stream_of _ = standard_output

-- Where a message goes, and its line. `none`: it is below the least level.
unfoldable pub log : LogLevel → Text → LogLevel → Text → Option (Stream × Text)
unfolding level_name
log min_level timestamp level msg =
    if ltb (rank level) (rank min_level)
    then none
    else some (
      stream_of level,
      text "[" ++ (timestamp ++ (text "] [" ++ (level_name level ++ (text "] " ++ msg)))),
    )

-- The logger of the program; its mutex makes a call one step.
pub record Logger : Type 0 where
  pub min_level : LogLevel

unfoldable pub set_level : LogLevel → Logger → Logger
set_level level l = record l { min_level = level }

-- What one call writes, if anything.
abbrev pub Line : Type 0
Line = Option (Stream × Text)

module _ (l : Logger) (timestamp msg : Text) where
  unfoldable pub log_debug : Line
  unfolding log
  log_debug = log l.min_level timestamp LogLevel.debug msg

  unfoldable pub log_info : Line
  unfolding log
  log_info = log l.min_level timestamp LogLevel.info msg

  unfoldable pub log_warn : Line
  unfolding log
  log_warn = log l.min_level timestamp LogLevel.warning msg

  unfoldable pub log_err : Line
  unfolding log
  log_err = log l.min_level timestamp LogLevel.error msg
