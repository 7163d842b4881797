-- ===== src/Util/Log.antt =====
-- common/util.hpp: the logging templates, with spdlog and its registered logger as parameters.
use csnd.Prelude.{Option, none, some, List, Text}

pub data LogLevel : Type 0 where
  trace debug info warn error critical : LogLevel

-- spdlog: the call of a logger of type `L` that is named for the level, and the text that a format
-- and its arguments make.
pub record Spdlog (L : Type 0) : Type 0 where
  pub write : LogLevel → Text → L → L
  pub format : Text → List Text → Text

module _ {L : Type 0} (spdlog : Spdlog L) where
  -- `log_trace(msg)` and the five others, on what `spdlog::get("default")` returns.
  unfoldable pub log : LogLevel → Text → Option L → Option L
  log level msg none = none
  log level msg (some logger) = some (spdlog.write level msg logger)

  -- `log_trace(fmt, arg, args...)` and the others.
  unfoldable pub log_format : LogLevel → Text → List Text → Option L → Option L
  unfolding log
  log_format level fmt args logger = log level (spdlog.format fmt args) logger
