-- ===== src/Logger.antt =====
-- include/rpp_cpp/logger.hpp and src/logger.cpp, with standard output for the backend; the ROS and
-- spdlog backends are not modelled. What snprintf makes of a format is a parameter.
pub mod Once
use rpp_cpp.Base.{ℕ, Bool, true, false, String, ◌<>◌, List, [], ◌∷◌, ◌++◌, Option, none, some}
use rpp_cpp.Base.Result.{Result, ok, err, runtime_error, ◌>>=◌}

pub data LogLevel : Type 0 where
  debug info warn error : LogLevel

pub record LoggerOptions : Type 0 where
  pub level : LogLevel
  pub name : String

abbrev pub default_options : LoggerOptions
default_options = record { level = debug; name = "rpp_logger" }

pub record RppLogger : Type 0 where
  pub options : LoggerOptions
  pub logger_name : String

-- RppLogger(options), RppLogger(name)
unfoldable pub logger : LoggerOptions → RppLogger
logger options = record { options = options; logger_name = options.name }

unfoldable pub logger_named : String → RppLogger
logger_named name = record { options = record { level = info; name = name }; logger_name = name }

pub data Stream : Type 0 where
  cout cerr : Stream

abbrev pub level_text : LogLevel → String
level_text debug = "[DEBUG]"
level_text info = "[INFO]"
level_text warn = "[WARN]"
level_text error = "[ERROR]"

abbrev pub stream_of : LogLevel → Stream
stream_of error = cerr
stream_of debug = cout
stream_of info = cout
stream_of warn = cout

-- What a call writes, and where.
abbrev pub Line : Type 0
Line = Stream × String

module _ (to_string : ℕ → String) where
  -- RppLogger::log
  unfoldable pub log : RppLogger → LogLevel → String → ℕ → String → Line
  log l level file line msg = (
    stream_of level,
    level_text level
        <> " ["
        <> l.logger_name
        <> "] ["
        <> file
        <> ":"
        <> to_string line
        <> "] "
        <> msg
        <> "\n",
  )

  -- LogMessageBuilder::format: `none` where snprintf returns a negative number.
  unfoldable pub format : Option String → Result String
  format none = err (runtime_error "Error during formatting.")
  format (some text) = ok text

  -- LogMessageBuilder::operator(), with the text of its arguments, or of the message alone
  unfoldable pub log_formatted : RppLogger → LogLevel → String → ℕ → Option String → Result Line
  unfolding log format
  log_formatted l level file line rendered = do
    msg ← format rendered
    ok (log l level file line msg)

-- RPP_LOG_…_ONCE: std::call_once on the flag of the place. A call that throws leaves the flag as it
-- was.
unfoldable pub log_once : Bool → Result Line → Bool × Result (Option Line)
log_once true logging = (true, ok none)
log_once false (ok line) = (true, ok (some line))
log_once false (err e) = (false, err e)
