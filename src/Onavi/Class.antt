-- ===== src/Onavi/Class.antt =====
-- `sensor_onavi` as an implementation of the class `sensor`.
use csnd.Prelude.{ℕ, Option, none, some, List, [], ◌∷◌, Result}
use csnd.Float.{Float}
use csnd.Accel.{AccelRecord}
use csnd.Sensor.{Sensor}
use csnd.Onavi.{SensorOnavi, Exchange, Error, sample}

-- What one call of `sample` meets: the time of its start, and its rounds.
abbrev pub Call : Type 0
Call = ℕ × List (Exchange × ℕ)

-- The sensor, and what its coming calls meet.
abbrev pub State : Type 0 → Type 0
State F = SensorOnavi F × List Call

module _ {F : Type 0} ⦃float : Float F⦄ where
  abbrev pub with_calls :
      List Call
      → Option (Result Error (AccelRecord F) × SensorOnavi F)
      → Option (Result Error (AccelRecord F) × State F)
  with_calls calls none = none
  with_calls calls (some (r, s)) = some (r, (s, calls))

  unfoldable pub sample_next : State F → Option (Result Error (AccelRecord F) × State F)
  sample_next (s, []) = none
  sample_next (s, (start_time, rounds) ∷ calls) = with_calls calls (sample s start_time rounds)

  abbrev pub onavi : Sensor F (State F) Error
  onavi = record { sample = sample_next }
