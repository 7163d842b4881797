-- ===== src/Main/Sensing/Pace.antt =====
-- The sampling thread with the sensor of the program: what the samples say, and how the thread ends.
use csnd.Prelude.{
  ℕ, suc, ◌+◌, ◌≤◌, ◌≡◌, refl, ap, ◌⊎◌, inl, inr, Bool, true, false, Option, none, some, List, [],
  ◌∷◌, length, take, get_elem?, All, arith, Result, ok, err,
}
use csnd.Float.{Float}
use csnd.Accel.{AccelRecord}
use csnd.Onavi.{SensorOnavi, Exchange, Error, sample}
use csnd.Sensor.{Sensor}
use csnd.Onavi.Class.{Call, State, with_calls, sample_next, onavi}
use csnd.Onavi.Sampling.{Ticks, Sampled, sample-Sampled}
use csnd.Sampler.{End, stopped, terminated, running, duration, woken, sample_loop, sample1}
use csnd.Main.Sensing.{round, rounds_of, samples_of, thread}

-- The thread ends in the round after `n` samples, or it still runs after all rounds.
abbrev pub Ended : List Bool → ℕ → ℕ → End → Type 0
Ended stops n calls stopped = (get_elem? stops n ≡ some true) × (calls ≡ n)
Ended stops n calls terminated = (get_elem? stops n ≡ some false) × (calls ≡ suc n)
Ended stops n calls running = (n ≡ length stops) × (calls ≡ n)

-- A round with a sample in front.
Ended-sampled :
    (stops : List Bool) (n calls : ℕ) (end : End)
    → Ended stops n calls end
    → Ended (false ∷ stops) (suc n) (suc calls) end
Ended-sampled stops n calls stopped h = (h.0, ap suc h.1)
Ended-sampled stops n calls terminated h = (h.0, ap suc h.1)
Ended-sampled stops n calls running h = (ap suc h.0, ap suc h.1)

module _ {F : Type 0} where
  -- The samples come one after the other: each spans 17 ms at least, and has 1 to 9 readings.
  abbrev pub Spaced : ℕ → List (AccelRecord F) → Type 0
  Spaced t [] = Unit
  Spaced t (ar ∷ ars) =
      (t ≤ ar.start_time)
      × (ar.start_time + 17000000 ≤ ar.end_time)
      × (1 ≤ ar.sample_count)
      × (ar.sample_count ≤ 9)
      × Spaced ar.end_time ars

module _ {F S E : Type 0} (sensor : Sensor F S E) (pace : S → ℕ × ℕ) where
  -- The rounds and the samples when the sensor answers, and when it throws.
  round-sampled :
      (s s' : S) (ar : AccelRecord F) (stops : List Bool)
      → sensor.sample s ≡ some (ok ar, s')
      → (samples_of sensor s (false ∷ stops) ≡ ar ∷ samples_of sensor s' stops)
        × (rounds_of sensor pace s (false ∷ stops)
            ≡ round sensor pace false false s ∷ rounds_of sensor pace s' stops)
  unfolding samples_of rounds_of
  round-sampled s s' ar stops e = (rw (e, samples_of) refl, rw (e, rounds_of) refl)

  round-thrown :
      (s s' : S) (er : E) (stops : List Bool)
      → sensor.sample s ≡ some (err er, s')
      → (samples_of sensor s (false ∷ stops) ≡ [])
        × (rounds_of sensor pace s (false ∷ stops) ≡ round sensor pace false true s ∷ [])
  unfolding samples_of rounds_of
  round-thrown s s' er stops e = (rw (e, samples_of) refl, rw (e, rounds_of) refl)

module _ {F : Type 0} ⦃float : Float F⦄ where
  -- The clock does not go back between the samples, and goes on within them by the interval for
  -- which the sensor sleeps; each call meets 9 rounds, which are enough.
  unfoldable pub Clock : SensorOnavi F → ℕ → List Call → Type 0
  Clock s t [] = Unit
  Clock s t ((start_time, rounds) ∷ calls) =
      (t ≤ start_time)
      × (9 ≤ length rounds)
      × Ticks start_time rounds
      × ((s' : SensorOnavi F) (ar : AccelRecord F)
          → sample s start_time rounds ≡ some (ok ar, s')
          → Clock s' ar.end_time calls)

  abbrev Answers : SensorOnavi F → ℕ → List (Exchange × ℕ) → Type 0
  Answers s start_time rounds =
      ((e : Error) × (s' : SensorOnavi F) × (sample s start_time rounds ≡ some (err e, s')))
      ⊎ ((ar : AccelRecord F) × (s' : SensorOnavi F) × (sample s start_time rounds
            ≡ some (ok ar, s'))
          × Sampled s start_time rounds (some (ok ar, s')))

  answers :
      (s : SensorOnavi F) (start_time : ℕ) (rounds : List (Exchange × ℕ))
      (r : Option (Result Error (AccelRecord F) × SensorOnavi F))
      → sample s start_time rounds ≡ r
      → Sampled s start_time rounds r
      → Answers s start_time rounds
  answers s start_time rounds none e h = absurd h
  answers s start_time rounds (some (err er, s')) e h = inl (er, s', e)
  answers s start_time rounds (some (ok ar, s')) e h = inr (ar, s', e, h)

module _ {F : Type 0} ⦃float : Float F⦄ (pace : State F → ℕ × ℕ) where
  -- `samples` and the loop over `stops`, from the clock's `t` on.
  abbrev Sensed : SensorOnavi F → ℕ → ℕ → ℕ → List Bool → List Call → Type 0
  Sensed s t now next_time stops calls =
      let samples = samples_of onavi (s, calls) stops in
      let whole = sample_loop true now next_time (rounds_of onavi pace (s, calls) stops) in
      Spaced t samples
      × All (λ stop. stop ≡ false) (take (length samples) stops)
      × Ended stops (length samples) whole.calls whole.end

  loop-Sensed :
      (s : SensorOnavi F) (t now next_time : ℕ) (stops : List Bool) (calls : List Call)
      → length stops ≤ length calls
      → Clock s t calls
      → Sensed s t now next_time stops calls
  unfolding samples_of rounds_of sample_loop sample_next Clock
  loop-Sensed s t now next_time [] calls enough clock = (tt, tt, (refl, refl))
  loop-Sensed s t now next_time (true ∷ stops) calls enough clock = (tt, tt, (refl, refl))
  loop-Sensed s t now next_time (false ∷ stops) [] enough clock = absurd (omega (arith, enough))
  loop-Sensed s t now next_time (false ∷ stops) ((start_time, rounds) ∷ calls) enough clock =
      let (later, many, ticks, after) = clock in
      elim (answers s start_time rounds (sample s start_time rounds) refl
        (sample-Sampled s start_time rounds many ticks)) [
          | inl (e, s', is) ↦
              let (no_sample, last) =
                round-thrown onavi pace (s, (start_time, rounds) ∷ calls) (s', calls) e stops
                  (ap (with_calls calls) is) in
              rw (no_sample, last) (tt, tt, (refl, refl))
          | inr (ar, s', is, sampled) ↦
              let rest =
                loop-Sensed s' ar.end_time
                  (woken true now next_time
                    (round onavi pace false false (s, (start_time, rounds) ∷ calls)))
                  (next_time + duration) stops calls (omega (arith, enough)) (after s' ar is) in
              let (one_sample, one_round) =
                round-sampled onavi pace (s, (start_time, rounds) ∷ calls) (s', calls) ar stops
                  (ap (with_calls calls) is) in
              rw (one_sample, one_round)
                (
                  (
                    omega (arith, later, sampled),
                    omega (arith, sampled),
                    sampled.0,
                    sampled.1,
                    rest.0,
                  ),
                  (refl, rest.1),
                  Ended-sampled stops _ _ _ rest.2,
                )
        ]

  -- Every round is accounted for. If there is a call of `sensor->sample()` for each round, which
  -- meets 9 exchanges with the device, and the clock does not go back and counts the sleeps of the
  -- sensor, the thread samples once in each round, as long as `_stop` reads false, however long the
  -- rounds take; a sample spans
  -- 17 ms at least, has 1 to 9 readings, and starts after the one before has ended. The thread ends
  -- in the round in which `_stop` reads true, without a further call, or by the exception of the one
  -- call that gives no sample; else it still runs after the last round.
  pub thread-samples :
      (s : SensorOnavi F) (now : ℕ) (stops : List Bool) (calls : List Call)
      → length stops ≤ length calls
      → Clock s now calls
      → let samples = samples_of onavi (s, calls) stops in
        let whole = thread onavi pace (s, calls) now stops in
        Spaced now samples
        × All (λ stop. stop ≡ false) (take (length samples) stops)
        × Ended stops (length samples) whole.calls whole.end
  unfolding thread sample1
  thread-samples s now stops calls enough clock =
      loop-Sensed s now now (now + duration) stops calls enough clock
