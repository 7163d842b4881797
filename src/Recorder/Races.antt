-- ===== src/Recorder/Races.antt =====
-- The second test of `push` reads `_bucket` outside `_mtx`, while the thread of the recorder
-- replaces it under `_mtx`.
use csnd.Prelude.{
  ℕ, zero, suc, ◌≡◌, refl, ap, subst, true, false, some, some-inj, List, [], ◌∷◌, ◌++◌, leb,
  if◌then◌else◌, length, replicate, length-replicate, arith,
}
use csnd.Prelude.Int.{pos}
use csnd.Recorder.{
  Recorder, waiting, dozing, flushing, idle, appended, entered, Action, run_check, run_test,
  push_begin, push_append, push_notify, step, exec, init,
}
use csnd.Recorder.Runs.{exec-snoc}

replicate-snoc : {A : Type 0} (k : ℕ) (a : A) → replicate k a ++ a ∷ [] ≡ a ∷ replicate k a
replicate-snoc zero a = refl
replicate-snoc (suc k) a = ap (λ l. a ∷ l) (replicate-snoc k a)

is_full : {A : Type 0} (n : ℕ) (a : A) → leb (suc n) (suc (length (replicate n a))) ≡ true
is_full n a = ground (arith, length-replicate n a)

module _ {A : Type 0} (size : ℕ) (a : A) where
  -- The thread of the recorder is in `wait`, with the test ahead, and `k` records have come.
  abbrev filled : ℕ → Recorder A
  filled k = record {
    bucket_size = size;
    stop = false;
    bucket = replicate k a;
    runner = waiting;
    pusher = idle;
    notifying = false;
    queued = [];
  }

  abbrev appending : ℕ → Recorder A
  appending k = record (filled (suc k)) { pusher = appended }

  push-filled :
      (k : ℕ) (r : Recorder A) (acts : List (Action A))
      → exec r acts ≡ some (filled k)
      → (acts' : List (Action A)) × (exec r acts' ≡ some (appending k))
  unfolding step
  push-filled k r acts e = (
    (acts ++ push_begin a ∷ []) ++ push_append ∷ [],
    exec-snoc r (acts ++ push_begin a ∷ []) (record (filled k) { pusher = entered a }) push_append
        (appending k) (exec-snoc r acts (filled k) (push_begin a) _ e refl)
        (ap (λ l. some (record (appending k) { bucket = l })) (replicate-snoc k a)),
  )

  notify-appending : (k : ℕ) → step (appending k) push_notify ≡ some (filled (suc k))
  unfolding step
  notify-appending k = ground arith

  reach-filled :
      (r : Recorder A) (k : ℕ)
      → init A (pos size) ≡ some r
      → (acts : List (Action A)) × (exec r acts ≡ some (filled k))
  unfolding init exec step
  reach-filled r zero made =
      (run_check ∷ [], subst (λ r. exec r (run_check ∷ []) ≡ some (filled 0)) (some-inj made) refl)
  reach-filled r (suc k) made =
      let (acts, reached) = reach-filled r k made in
      let (acts', reached') = push-filled k r acts reached in
      (
        acts' ++ push_notify ∷ [],
        exec-snoc r acts' (appending k) push_notify (filled (suc k)) reached' (notify-appending k),
      )

-- For every bucket size above 0 the threads can come to a state in which both are about to use
-- `_bucket`: the second test of `push` reads it, without `_mtx`, since `_stop` is not set, and the
-- test of `wait`, which holds, replaces it. Either step can be the next one.
pub bucket_race :
    {A : Type 0} (n : ℕ) (a : A) (r : Recorder A)
    → init A (pos (suc n)) ≡ some r
    → (acts : List (Action A)) × (r' r1 r2 : Recorder A) × (exec r acts ≡ some r')
      × (r'.stop ≡ false)
      × (r'.pusher ≡ appended)
      × (step r' push_notify ≡ some r1)
      × (step r' run_test ≡ some r2)
      × (r1.bucket ≡ a ∷ replicate n a)
      × (r2.bucket ≡ [])
      × (r2.runner ≡ flushing (a ∷ replicate n a))
unfolding step
bucket_race n a r made =
    let (acts, reached) = reach-filled (suc n) a r n made in
    let (acts', reached') = push-filled (suc n) a n r acts reached in
    (
      acts',
      appending (suc n) a n,
      filled (suc n) a (suc n),
      record (appending (suc n) a n) { runner = flushing (a ∷ replicate n a); bucket = [] },
      reached',
      refl,
      refl,
      notify-appending (suc n) a n,
      ap
          (λ b. some (
            if b
            then record (appending (suc n) a n) {
              runner = flushing (a ∷ replicate n a);
              bucket = [];
            }
            else record (appending (suc n) a n) { runner = dozing }))
          (is_full n a),
      refl,
      refl,
      refl,
    )
