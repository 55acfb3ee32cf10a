-- ===== src/Logger/Level.antt =====
-- internal/logger/level.go and logger.go: which logger starts a message, and at which level.
use sec_dns.Prelude.{
  ℤ, pos, negsuc, Bool, true, false, ◌&&◌, Option, none, some, ltb, leb, if◌then◌else◌,
}

-- The levels of zerolog as zerolog.Level, an int8.
pub record Levels : Type 0 where
  pub debug : ℤ
  pub info : ℤ
  pub warn : ℤ
  pub error : ℤ
  pub fatal : ℤ
  pub panic : ℤ
  pub no_level : ℤ
  pub disabled : ℤ
  pub trace : ℤ

-- The standard and the error output.
pub data Output : Type 0 where
  stdout stderr : Output

-- One zerolog.Logger: its level, and whether its messages have the time.
pub record Logger : Type 0 where
  pub level : ℤ
  pub timestamp : Bool

-- The variables stdoutLogger and stderrLogger.
pub record Loggers : Type 0 where
  pub stdout_logger : Logger
  pub stderr_logger : Logger

-- What zerolog is asked for: a message of this logger at this level. `ends` says that it ends the
-- program or the goroutine, as the methods Fatal and Panic do.
pub record Event : Type 0 where
  pub output : Output
  pub logger : Logger
  pub at_level : ℤ
  pub ends : Bool

-- a < b and a <= b
abbrev pub less : ℤ → ℤ → Bool
less (pos a) (pos b) = ltb a b
less (pos a) (negsuc b) = false
less (negsuc a) (pos b) = true
less (negsuc a) (negsuc b) = ltb b a

abbrev pub less_or_equal : ℤ → ℤ → Bool
less_or_equal (pos a) (pos b) = leb a b
less_or_equal (pos a) (negsuc b) = false
less_or_equal (negsuc a) (pos b) = true
less_or_equal (negsuc a) (negsuc b) = leb b a

unfoldable pub default_log_level : Levels → ℤ
default_log_level levels = levels.warn

-- The two loggers at the start.
unfoldable pub initial_loggers : Levels → Loggers
unfolding default_log_level
initial_loggers levels = record {
  stdout_logger = record { level = default_log_level levels; timestamp = true };
  stderr_logger = record { level = default_log_level levels; timestamp = true };
}

-- SetTimestamp: new loggers at the old levels
unfoldable pub set_timestamp : Bool → Loggers → Loggers
set_timestamp enabled ls = record {
  stdout_logger = record { level = ls.stdout_logger.level; timestamp = enabled };
  stderr_logger = record { level = ls.stderr_logger.level; timestamp = enabled };
}

unfoldable pub log_level : Loggers → ℤ
log_level ls =
    if less ls.stdout_logger.level ls.stderr_logger.level
    then ls.stdout_logger.level
    else ls.stderr_logger.level

unfoldable pub set_log_level : ℤ → Loggers → Loggers
set_log_level level ls = record {
  stdout_logger = record ls.stdout_logger { level = level };
  stderr_logger = record ls.stderr_logger { level = level };
}

abbrev pub from_stdout : Loggers → ℤ → Bool → Event
from_stdout ls level ends = record {
  output = stdout;
  logger = ls.stdout_logger;
  at_level = level;
  ends = ends;
}

abbrev pub from_stderr : Loggers → ℤ → Bool → Event
from_stderr ls level ends = record {
  output = stderr;
  logger = ls.stderr_logger;
  at_level = level;
  ends = ends;
}

module _ (levels : Levels) (ls : Loggers) where
  unfoldable pub start_trace : Event
  start_trace = from_stdout ls levels.trace false

  unfoldable pub start_debug : Event
  start_debug = from_stdout ls levels.debug false

  unfoldable pub start_info : Event
  start_info = from_stdout ls levels.info false

  unfoldable pub start_warning : Event
  start_warning = from_stdout ls levels.warn false

  unfoldable pub start_error : Event
  start_error = from_stderr ls levels.error false

  unfoldable pub start_fatal : Event
  start_fatal = from_stderr ls levels.fatal true

  unfoldable pub start_panic : Event
  start_panic = from_stderr ls levels.panic true

  unfoldable pub start_log : Event
  start_log = from_stdout ls levels.no_level false

  -- Err: info for a nil error, whose logger is that of the error output all the same.
  unfoldable pub start_err : {E : Type 0} → Option E → Event
  start_err none = from_stderr ls levels.info false
  start_err (some e) = from_stderr ls levels.error false

  -- WithLevel
  unfoldable pub with_level : ℤ → Event
  with_level level =
      if less_or_equal levels.error level && less_or_equal level levels.panic
      then from_stderr ls level false
      else from_stdout ls level false
