-- ===== src/Sensor.antt =====
-- sensor/sensor.hpp: the abstract class `sensor`.
use csnd.Prelude.{Option, Result}
use csnd.Accel.{AccelRecord}

-- `sample`, on the state `S` of the implementation and of what it reads from, which may throw an
-- `E`. `none` means that the state does not say what the call would read.
pub record Sensor (F S E : Type 0) : Type 0 where
  pub sample : S → Option (Result E (AccelRecord F) × S)
