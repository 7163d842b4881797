-- ===== src/Accel.antt =====
-- common/accel.hpp: one sample of acceleration. Times are counted in nanoseconds since the epoch, as
-- `high_resolution_clock::time_point` counts them.
use csnd.Prelude.{ℕ, ◌/◌}

pub record AccelRecord (F : Type 0) : Type 0 where
  pub x : F
  pub y : F
  pub z : F
  pub sample_count : ℕ
  pub start_time : ℕ
  pub end_time : ℕ

-- `duration_cast<milliseconds>(t.time_since_epoch()).count()`
abbrev pub millis : ℕ → ℕ
millis t = t / 1000000
