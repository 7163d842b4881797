-- ===== src/Recorder/Wakeup.antt =====
-- The notifications of `push`: the thread of the recorder does not sleep on a full bucket.
use csnd.Prelude.{
  ℕ, ◌<◌, ◌≡◌, ◌≢◌, subst, ◌⊎◌, Bool, true, false, some, List, length, arith, some-inj,
}
use csnd.Prelude.Int.{pos}
use csnd.Recorder.{
  Recorder, Runner, dozing, asleep, Pusher, appended, Action, run_check, run_test, run_block,
  run_wake, run_enqueue, push_begin, push_append, push_notify, stop_set, stop_notify, step, exec,
  init,
}
use csnd.Recorder.Runs.{exec-invariant}

module _ {A : Type 0} where
  abbrev is_asleep : Runner A → Bool
  is_asleep asleep = true
  is_asleep _ = false

  abbrev is_dozing : Runner A → Bool
  is_dozing dozing = true
  is_dozing _ = false

  abbrev is_appended : Pusher A → Bool
  is_appended appended = true
  is_appended _ = false

  -- Before `_stop` is set: a thread about to sleep has a bucket that is not full, and so has one that
  -- sleeps, unless `push` is about to notify it.
  record IsAwake (r : Recorder A) : Type 0 where
    doze : r.stop ≡ false → is_dozing r.runner ≡ true → length r.bucket < r.bucket_size
    sleep :
        r.stop ≡ false
        → is_asleep r.runner ≡ true
        → (length r.bucket < r.bucket_size) ⊎ (is_appended r.pusher ≡ true)

  step-IsAwake :
      (r : Recorder A) (a : Action A) (r' : Recorder A)
      → step r a ≡ some r'
      → IsAwake r
      → IsAwake r'
  unfolding step
  step-IsAwake r run_check r' e h = ground (arith, h)
  step-IsAwake r run_test r' e h = ground (arith, h)
  step-IsAwake r run_block r' e h = ground (arith, h)
  step-IsAwake r run_wake r' e h = ground (arith, h)
  step-IsAwake r run_enqueue r' e h = ground (arith, h)
  step-IsAwake r (push_begin ar) r' e h = ground (arith, h)
  step-IsAwake r push_append r' e h = ground (arith, h)
  step-IsAwake r push_notify r' e h = ground (arith, h)
  step-IsAwake r stop_set r' e h = ground (arith, h)
  step-IsAwake r stop_notify r' e h = ground (arith, h)

  -- Whatever the threads do before `_stop` is set: while the thread of the recorder sleeps and no
  -- call of `push` is between its critical section and its notification, the bucket is not full. So
  -- no wake-up by `push` is lost.
  pub exec-init-awake :
      (n : ℕ) (acts : List (Action A)) (r r' : Recorder A)
      → init A (pos n) ≡ some r
      → exec r acts ≡ some r'
      → r'.stop ≡ false
      → r'.runner ≡ asleep
      → r'.pusher ≢ appended
      → length r'.bucket < r'.bucket_size
  unfolding init
  exec-init-awake n acts r r' made e running sleeps away =
      let start : IsAwake r =
        subst IsAwake (some-inj made)
          (record { doze = λ _ h. absurd (cc); sleep = λ _ h. absurd (cc) }) in
      let h = exec-invariant IsAwake step-IsAwake r acts r' e start in
      ground (arith, h.sleep running)
