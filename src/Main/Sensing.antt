-- ===== src/Main/Sensing.antt =====
-- src/main.cpp, `sampler->sample` on the sampling thread of src/sampler.cpp with the sensor that it
-- calls. The other calls of the handler, of `push`, do not throw.
pub mod Pace
mod Tests
use csnd.Prelude.{Bool, true, false, Option, none, some, List, [], ◌∷◌, Result, ok, err, ℕ}
use csnd.Accel.{AccelRecord}
use csnd.Sensor.{Sensor}
use csnd.Sampler.{Round, Trace, sample1}

module _ {F S E : Type 0} (sensor : Sensor F S E) where
  -- `ar`, in each round that goes on to the two `push`.
  pub samples_of : S → List Bool → List (AccelRecord F)
  samples_of s [] = []
  samples_of s (true ∷ stops) = []
  samples_of s (false ∷ stops) = elim (sensor.sample s) [
    | none ↦ []
    | some (err e, s') ↦ []
    | some (ok ar, s') ↦ ar ∷ samples_of s' stops
  ]

-- `pace` is how long the round from a state takes, and how late it wakes up.
module _ {F S E : Type 0} (sensor : Sensor F S E) (pace : S → ℕ × ℕ) where
  abbrev pub round : Bool → Bool → S → Round
  round stop throws s = record {
    stop = stop;
    throws = throws;
    took = (pace s).0;
    late = (pace s).1;
  }

  -- The rounds of the loop, from what `_stop` reads at their heads.
  pub rounds_of : S → List Bool → List Round
  rounds_of s [] = []
  rounds_of s (true ∷ stops) = round true false s ∷ []
  rounds_of s (false ∷ stops) = elim (sensor.sample s) [
    | none ↦ []
    | some (err e, s') ↦ round false true s ∷ []
    | some (ok ar, s') ↦ round false false s ∷ rounds_of s' stops
  ]

  -- The thread, started at the time `now`.
  pub thread : S → ℕ → List Bool → Trace
  unfolding rounds_of
  thread s now stops = sample1 true now (rounds_of s stops)
