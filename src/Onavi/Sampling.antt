-- ===== src/Onavi/Sampling.antt =====
-- `sample`: how long the loop runs, and what it averages.
use mathlib.Core.List.{foldl}
use csnd.Prelude.{
  ℕ, zero, suc, ◌+◌, ◌-◌, ◌*◌, ◌<◌, ◌≤◌, ◌≡◌, refl, sym, ap, ◌∙◌, subst, inl, inr, Option, none,
  some, List, [], ◌∷◌, length, take, arith, Result, ok, err, dec_lt, lt→ltb, le→ltb, Bool-cases,
}
use csnd.Float.{Float}
use csnd.Accel.{AccelRecord}
use csnd.Onavi.{
  SensorOnavi, Exchange, Triple, Error, plus, read_sensor_error, sampling_interval,
  sampling_duration, read_xyz, sample_loop, mean_record, finish, sample,
}

-- Each reading of the clock comes at least the sampling interval after the one before, as the sleep
-- between them promises.
abbrev pub Ticks : ℕ → List (Exchange × ℕ) → Type 0
Ticks t [] = Unit
Ticks t ((io, now) ∷ rounds) = (t + sampling_interval ≤ now) × Ticks now rounds

module _ {F : Type 0} ⦃float : Float F⦄ where
  abbrev zeros : Triple F
  zeros = (float.of_nat 0, float.of_nat 0, float.of_nat 0)

  -- The values that successive exchanges give.
  pub values : SensorOnavi F → List (Exchange × ℕ) → List (Triple F)
  values s [] = []
  values s ((io, now) ∷ rounds) = let (_, xyz, s') = read_xyz s io zeros in xyz ∷ values s' rounds

  -- The loop ends: it throws, or it stops at the limit after `n` to `n + k` rounds in all, with the
  -- values of its rounds added up.
  abbrev Ends :
      SensorOnavi F
      → ℕ
      → ℕ
      → Triple F
      → ℕ
      → ℕ
      → List (Exchange × ℕ)
      → Option (Result Error (Triple F × ℕ × ℕ) × SensorOnavi F)
      → Type 0
  Ends s limit began acc n k rounds none = ⊥
  Ends s limit began acc n k rounds (some (err e, s')) = e ≡ read_sensor_error
  Ends s limit began acc n k rounds (some (ok (acc', n', end_time), s')) =
      (n ≤ n')
      × (began < limit → n < n')
      × (n' ≤ n + k)
      × (limit ≤ end_time)
      × (acc' ≡ foldl plus acc (take (n' - n) (values s rounds)))

  -- One round in front of a loop that ends.
  Ends-round :
      (s s' : SensorOnavi F) (limit began : ℕ) (acc xyz : Triple F) (n k : ℕ)
      (rounds : List (Exchange × ℕ)) (r : Option (Result Error (Triple F × ℕ × ℕ) × SensorOnavi F))
      (io : Exchange) (now : ℕ)
      → values s ((io, now) ∷ rounds) ≡ xyz ∷ values s' rounds
      → Ends s' limit now (plus acc xyz) (n + 1) k rounds r
      → Ends s limit began acc n (suc k) ((io, now) ∷ rounds) r
  Ends-round s s' limit began acc xyz n k rounds none io now e h = h
  Ends-round s s' limit began acc xyz n k rounds (some (err er, t)) io now e h = h
  Ends-round s s' limit began acc xyz n k rounds (some (ok (acc', n', end_time), t)) io now e h = (
    omega (arith, h.0),
    (λ _. omega (arith, h.0)),
    omega (arith, h.2),
    h.3,
    h.4
        ∙ ap (foldl plus acc)
            (sym (ap (take (n' - n)) e ∙ ap (λ m. take m (xyz ∷ values s' rounds)) one)),
  )
    where
      one : n' - n ≡ suc (n' - (n + 1))
      one = omega (arith, h.0)

  Ends-here :
      (s : SensorOnavi F) (limit end_time : ℕ) (acc : Triple F) (n k : ℕ)
      (rounds : List (Exchange × ℕ))
      → limit ≤ end_time
      → Ends s limit end_time acc n k rounds (some (ok (acc, n, end_time), s))
  Ends-here s limit end_time acc n k rounds late =
      let none_yet : 0 ≡ n - n = omega arith in
      (
        omega arith,
        (λ early. absurd (omega arith)),
        omega arith,
        late,
        ap (λ m. foldl plus acc (take m (values s rounds))) none_yet,
      )

  values-cons :
      (s : SensorOnavi F) (io : Exchange) (now : ℕ) (rounds : List (Exchange × ℕ))
      → let r = read_xyz s io zeros in values s ((io, now) ∷ rounds) ≡ r.1 ∷ values r.2 rounds
  unfolding values
  values-cons s io now rounds = refl

  sample_loop-Ends :
      (s : SensorOnavi F) (limit end_time : ℕ) (acc : Triple F) (n k : ℕ)
      (rounds : List (Exchange × ℕ))
      → limit ≤ end_time + k * sampling_interval
      → k ≤ length rounds
      → Ticks end_time rounds
      → Ends s limit end_time acc n k rounds (sample_loop s limit end_time acc n rounds)
  unfolding sample_loop
  sample_loop-Ends s limit end_time acc n k [] bound enough ticks =
      rw (le→ltb end_time limit (omega arith)) (Ends-here s limit end_time acc n k [] (omega arith))
  sample_loop-Ends s limit end_time acc n zero (round ∷ rounds) bound enough ticks =
      rw (le→ltb end_time limit (omega arith))
        (Ends-here s limit end_time acc n zero (round ∷ rounds) (omega arith))
  sample_loop-Ends s limit end_time acc n (suc k) ((io, now) ∷ rounds) bound enough ticks =
      let r = read_xyz s io zeros in
      let rest =
        sample_loop-Ends r.2 limit now (plus acc r.1) (n + 1) k rounds (omega arith) (omega arith)
          ticks.1 in
      elim (dec_lt end_time limit) [
        | yes early ↦ elim (Bool-cases r.0) [
          | inl done ↦
              rw (lt→ltb end_time limit early, done)
                (Ends-round s r.2 limit end_time acc r.1 n k rounds
                  (sample_loop r.2 limit now (plus acc r.1) (n + 1) rounds) io now
                  (values-cons s io now rounds) rest)
          | inr failed ↦ rw (lt→ltb end_time limit early, failed) refl
        ]
        | no late ↦
            rw (le→ltb end_time limit (omega arith))
              (Ends-here s limit end_time acc n (suc k) ((io, now) ∷ rounds) (omega arith))
      ]

  -- What `sample` may come to.
  abbrev pub Sampled :
      SensorOnavi F
      → ℕ
      → List (Exchange × ℕ)
      → Option (Result Error (AccelRecord F) × SensorOnavi F)
      → Type 0
  Sampled s start_time rounds none = ⊥
  Sampled s start_time rounds (some (err e, s')) = e ≡ read_sensor_error
  Sampled s start_time rounds (some (ok ar, s')) =
      (1 ≤ ar.sample_count)
      × (ar.sample_count ≤ 9)
      × (ar.start_time ≡ start_time)
      × (start_time + 17000000 ≤ ar.end_time)
      × (ar
          ≡ mean_record start_time (foldl plus zeros (take ar.sample_count (values s rounds)))
              ar.sample_count ar.end_time)

  finish-Sampled :
      (s : SensorOnavi F) (start_time : ℕ) (rounds : List (Exchange × ℕ))
      (r : Option (Result Error (Triple F × ℕ × ℕ) × SensorOnavi F))
      → Ends s (start_time + 17000000) start_time zeros 0 9 rounds r
      → Sampled s start_time rounds (finish start_time r)
  unfolding finish mean_record
  finish-Sampled s start_time rounds none h = h
  finish-Sampled s start_time rounds (some (err e, t)) h = h
  finish-Sampled s start_time rounds (some (ok (acc, n, end_time), t)) h = (
    h.1 (omega arith),
    h.2,
    refl,
    h.3,
    ap (λ a. mean_record start_time a n end_time)
        (h.4 ∙ ap (λ m. foldl plus zeros (take m (values s rounds))) whole),
  )
    where
      whole : n - 0 ≡ n
      whole = omega arith

  -- If the clock goes on by the sampling interval at least between two readings, 9 rounds are enough
  -- for `sample` to end. It throws, or it returns the means of 1 to 9 readings, the first ones made,
  -- and the clock has then reached 17 ms after the start.
  pub sample-Sampled :
      (s : SensorOnavi F) (start_time : ℕ) (rounds : List (Exchange × ℕ))
      → 9 ≤ length rounds
      → Ticks start_time rounds
      → Sampled s start_time rounds (sample s start_time rounds)
  unfolding sample
  sample-Sampled s start_time rounds enough ticks =
      let limit = start_time + sampling_duration - (sampling_interval + 1000000) in
      let same : limit ≡ start_time + 17000000 = omega arith in
      finish-Sampled s start_time rounds (sample_loop s limit start_time zeros 0 rounds) (
        subst
          (λ l.
            Ends s l start_time zeros 0 9 rounds (sample_loop s limit start_time zeros 0 rounds))
          same (sample_loop-Ends s limit start_time zeros 0 9 rounds (omega arith) enough ticks))
