-- ===== src/Iothub/Tests.antt =====
-- Messages of the hub's library in a list of lines.
use csnd.Prelude.{◌≡◌, refl, none, some, List, [], ◌∷◌, Text, codes}
use csnd.Util.Log
use csnd.Util.Log.{LogLevel, Spdlog, log, log_format}
use csnd.Iothub.{debug, error, log_message}

abbrev lines : Spdlog (List (LogLevel × Text))
lines = record { write = λ level msg ls. (level, msg) ∷ ls; format = λ fmt args. fmt }

-- A message goes to the logger at the level of its name, or nowhere without a logger.
messages :
    (log_message lines error (codes "lost") (log_message lines debug (codes "try") (some []))
      ≡ some ((Log.error, codes "lost") ∷ (Log.debug, codes "try") ∷ []))
    × (log_message lines error (codes "lost") none ≡ none)
    × (log_format lines Log.warn (codes "full") [] (some []) ≡ some ((Log.warn, codes "full") ∷ []))
unfolding log_message log_format log
messages = (refl, refl, refl)
