-- ===== src/Main/Sensing/Tests.antt =====
-- Two samples of the sampling thread, and the theorem applied to them.
use csnd.Prelude.{
  ℕ, ◌+◌, ◌≡◌, refl, sym, ap, ◌∙◌, true, false, Option, none, some, List, [], ◌∷◌, codes, arith,
  length, take, All, Result, ok, err,
}
use csnd.Prelude.Int.{ℤ}
use csnd.Float.Whole.{whole}
use csnd.Accel.{AccelRecord}
use csnd.Onavi.{
  SensorOnavi, Exchange, Error, is_frame, accept, read_xyz, made, sample_loop, mean_record, finish,
  sample,
}
use csnd.Onavi.Class.{Call, State, sample_next, onavi}
use csnd.Onavi.Sampling.{Ticks}
use csnd.Sampler.{terminated, sample1}
use csnd.Main.Sensing.{rounds_of, samples_of, thread}
use csnd.Main.Sensing.Pace.{Clock, Spaced, Ended, thread-samples}

abbrev sensor : SensorOnavi ℤ
sensor = made (codes "/dev/ttyACM0") (some 5)

abbrev frame : Exchange
frame = record {
  wrote = true;
  received = some (0x23 ∷ 0x23 ∷ 128 ∷ 255 ∷ 129 ∷ 0 ∷ 140 ∷ 7 ∷ 1 ∷ []);
}

abbrev silent : Exchange
silent = record { wrote = true; received = none }

-- 9 rounds of the exchange, 2 ms after each other.
abbrev nine : Exchange → ℕ → Call
nine io t = (
  t,
  (io, t + 2000000)
      ∷ (io, t + 4000000)
      ∷ (io, t + 6000000)
      ∷ (io, t + 8000000)
      ∷ (io, t + 10000000)
      ∷ (io, t + 12000000)
      ∷ (io, t + 14000000)
      ∷ (io, t + 16000000)
      ∷ (io, t + 18000000)
      ∷ [],
)

-- Every round takes 19 ms and wakes up in time.
abbrev pace : State ℤ → ℕ × ℕ
pace s = (19000000, 0)

abbrev calls : List Call
calls = nine frame 0 ∷ nine silent 20000000 ∷ []

abbrev end_of : Option (Result Error (AccelRecord ℤ) × SensorOnavi ℤ) → ℕ
end_of none = 0
end_of (some (err e, s)) = 0
end_of (some (ok ar, s)) = ar.end_time

first_end : end_of (sample sensor 0 (nine frame 0).1) ≡ 18000000
unfolding sample sample_loop finish mean_record read_xyz is_frame accept
first_end = refl

ticks : (io : Exchange) (t : ℕ) → Ticks t (nine io t).1
ticks io t = (
  omega arith,
  (
    omega arith,
    (
      omega arith,
      (omega arith, (omega arith, (omega arith, (omega arith, (omega arith, (omega arith, tt)))))),
    ),
  ),
)

goes_on : Clock sensor 0 calls
unfolding Clock
goes_on = (
  omega arith,
  omega arith,
  ticks frame 0,
  λ s' ar e.
      let ends : 18000000 ≡ ar.end_time = sym first_end ∙ ap end_of e in
      (omega (arith, ends), omega arith, ticks silent 20000000, (λ s'' ar' e'. tt)),
)

-- The second call throws.
ends_terminated : (thread onavi pace (sensor, calls) 0 (false ∷ false ∷ true ∷ [])).end ≡ terminated
unfolding thread rounds_of sample_next sample sample_loop finish read_xyz is_frame accept sample1
ends_terminated = refl

thread-samples_example :
    let samples = samples_of onavi (sensor, calls) (false ∷ false ∷ []) in
    let whole = thread onavi pace (sensor, calls) 0 (false ∷ false ∷ []) in
    Spaced 0 samples
    × All (λ stop. stop ≡ false) (take (length samples) (false ∷ false ∷ []))
    × Ended (false ∷ false ∷ []) (length samples) whole.calls whole.end
thread-samples_example =
    thread-samples pace sensor 0 (false ∷ false ∷ []) calls (omega arith) goes_on
