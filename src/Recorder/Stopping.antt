-- ===== src/Recorder/Stopping.antt =====
-- What `stop` does to the thread of the recorder: three ways in which it goes wrong.
use csnd.Prelude.{
  ℕ, ◌<◌, ◌≡◌, ◌≢◌, refl, ap, ◌∙◌, subst, inl, inr, Bool, true, false, some, List, [], ◌∷◌, ◌++◌,
  length, concat, All, arith,
}
use csnd.Prelude.Int.{pos}
use csnd.Recorder.{
  Recorder, asleep, finished, flushing, idle, Action, run_check, run_test, run_block, run_wake,
  run_enqueue, push_begin, push_append, push_notify, stop_set, stop_notify, enqueue, step,
  step_check, step_test, step_block, step_wake, step_enqueue, step_begin, step_append, step_notify,
  step_stop, step_stop_notify, exec, init, undefined, join,
}
use csnd.Recorder.Runs.{exec-invariant, exec-cons, exec-nil}
use csnd.Recorder.Conserve.{accepted_all, arriving, exec-init-held}
use csnd.Recorder.Places.{FullButLast}
use csnd.Recorder.Batches.{exec-init-batches}

module _ {A : Type 0} where
  -- `_stop` is never taken back.
  pub step-stop :
      (r : Recorder A) (a : Action A) (r' : Recorder A)
      → step r a ≡ some r'
      → r'.stop ≡ false
      → r.stop ≡ false
  unfolding step step_check step_test step_block step_wake step_enqueue step_begin step_append
      step_notify step_stop step_stop_notify
  step-stop r run_check r' e = ground arith
  step-stop r run_test r' e = ground arith
  step-stop r run_block r' e = ground arith
  step-stop r run_wake r' e = ground arith
  step-stop r run_enqueue r' e = ground arith
  step-stop r (push_begin ar) r' e = ground arith
  step-stop r push_append r' e = ground arith
  step-stop r push_notify r' e = ground arith
  step-stop r stop_set r' e = ground arith
  step-stop r stop_notify r' e = ground arith

  -- The steps of a call of `stop` that falls between the test of `wait` and its blocking.
  abbrev pub early_stop : List (Action A)
  early_stop = run_check ∷ run_test ∷ stop_set ∷ stop_notify ∷ run_block ∷ []

  -- `_stop` is set, its notification is over, and the thread sleeps.
  pub record IsStuck (r : Recorder A) : Type 0 where
    pub stopped : r.stop ≡ true
    pub notified : r.notifying ≡ false
    pub sleeps : r.runner ≡ asleep
    pub quiet : r.pusher ≡ idle

  step-IsStuck :
      (r : Recorder A) (a : Action A) (r' : Recorder A)
      → a ≢ run_wake
      → a ≢ stop_set
      → step r a ≡ some r'
      → IsStuck r
      → IsStuck r'
  unfolding step
  step-IsStuck r run_check r' w s e h = ground arith
  step-IsStuck r run_test r' w s e h = ground arith
  step-IsStuck r run_block r' w s e h = ground arith
  step-IsStuck r run_wake r' w s e h = absurd (w refl)
  step-IsStuck r run_enqueue r' w s e h = ground arith
  step-IsStuck r (push_begin ar) r' w s e h = ground arith
  step-IsStuck r push_append r' w s e h = ground arith
  step-IsStuck r push_notify r' w s e h = ground arith
  step-IsStuck r stop_set r' w s e h = absurd (s refl)
  step-IsStuck r stop_notify r' w s e h = ground arith

  -- Everything but a spurious wake-up and another call of `stop`.
  abbrev pub is_regular : Action A → Bool
  is_regular run_wake = false
  is_regular stop_set = false
  is_regular _ = true

  regular-ne : (a : Action A) → is_regular a ≡ true → (a ≢ run_wake) × (a ≢ stop_set)
  regular-ne run_wake h = absurd (cc)
  regular-ne stop_set h = absurd (cc)
  regular-ne a h = ((λ e. cc), (λ e. cc))

  exec-IsStuck :
      (r : Recorder A) (acts : List (Action A)) (r' : Recorder A)
      → All (λ a. is_regular a ≡ true) acts
      → exec r acts ≡ some r'
      → IsStuck r
      → IsStuck r'
  exec-IsStuck r [] r' regular e h = subst IsStuck (exec-nil r r' e) h
  exec-IsStuck r (a ∷ rest) r' regular e h =
      let (r1, is, more) = exec-cons r a rest r' e in
      let (w, s) = regular-ne a regular.0 in
      exec-IsStuck r1 rest r' regular.1 more (step-IsStuck r a r1 w s is h)

  early_stop-IsStuck :
      (n : ℕ) (r r' : Recorder A)
      → 0 < n
      → init A (pos n) ≡ some r
      → exec r early_stop ≡ some r'
      → IsStuck r'
  unfolding init exec step
  early_stop-IsStuck n r r' h made e = ground arith

  -- A call of `stop` can be lost: with a bucket size above 0, if it falls between the first test of
  -- `wait` and its blocking, then whatever `push` and the thread do afterwards, the thread sleeps
  -- with `_stop` set, until a spurious wake-up or another call of `stop`.
  pub early_stop_is_lost :
      (n : ℕ) (acts : List (Action A)) (r r1 r2 : Recorder A)
      → 0 < n
      → init A (pos n) ≡ some r
      → exec r early_stop ≡ some r1
      → All (λ a. is_regular a ≡ true) acts
      → exec r1 acts ≡ some r2
      → (r2.runner ≡ asleep) × (r2.stop ≡ true)
  early_stop_is_lost n acts r r1 r2 h made early regular e =
      let stuck = exec-IsStuck r1 acts r2 regular e (early_stop-IsStuck n r r1 h made early) in
      (stuck.sleeps, stuck.stopped)

  -- The thread has ended, and what is in the bucket stays there.
  record IsOver (bucket : List A) (queued : List (List A)) (r : Recorder A) : Type 0 where
    ended : r.runner ≡ finished
    stopped : r.stop ≡ true
    left : r.bucket ≡ bucket
    sent : r.queued ≡ queued
    away : arriving r.pusher ≡ []

  step-IsOver :
      (bucket : List A) (queued : List (List A)) (r : Recorder A) (a : Action A) (r' : Recorder A)
      → step r a ≡ some r'
      → IsOver bucket queued r
      → IsOver bucket queued r'
  unfolding step
  step-IsOver bucket queued r run_check r' e h = ground arith
  step-IsOver bucket queued r run_test r' e h = ground arith
  step-IsOver bucket queued r run_block r' e h = ground arith
  step-IsOver bucket queued r run_wake r' e h = ground arith
  step-IsOver bucket queued r run_enqueue r' e h = ground arith
  step-IsOver bucket queued r (push_begin ar) r' e h = ground arith
  step-IsOver bucket queued r push_append r' e h = ground arith
  step-IsOver bucket queued r push_notify r' e h = ground arith
  step-IsOver bucket queued r stop_set r' e h = ground arith
  step-IsOver bucket queued r stop_notify r' e h = ground arith

  -- A record that is pushed while a batch is being taken away, with `stop` right behind it.
  abbrev pub late_record : A → List (Action A)
  late_record ar = push_begin ar ∷ push_append ∷ stop_set ∷ run_enqueue ∷ run_check ∷ []

  late_record-IsOver :
      (ar : A) (b : List A) (r r' : Recorder A)
      → r.runner ≡ flushing b
      → r.stop ≡ false
      → exec r (late_record ar) ≡ some r'
      → IsOver (r.bucket ++ ar ∷ []) (enqueue r.queued b) r'
  unfolding exec step
  late_record-IsOver ar b r r' taking running e = ground arith

  -- Records can be left behind: a record that `push` lets in while the thread takes a batch away,
  -- with `stop` right behind it, stays in the bucket when the thread has ended, together with
  -- whatever else is there; whatever is done afterwards, nothing more is queued than that batch.
  pub late_record_is_left :
      (ar : A) (b : List A) (acts : List (Action A)) (r r1 r2 : Recorder A)
      → r.runner ≡ flushing b
      → r.stop ≡ false
      → exec r (late_record ar) ≡ some r1
      → exec r1 acts ≡ some r2
      → (r2.runner ≡ finished)
        × (r2.bucket ≡ r.bucket ++ ar ∷ [])
        × (r2.queued ≡ enqueue r.queued b)
  late_record_is_left ar b acts r r1 r2 taking running late e =
      let over =
        exec-invariant (IsOver (r.bucket ++ ar ∷ []) (enqueue r.queued b))
          (step-IsOver (r.bucket ++ ar ∷ []) (enqueue r.queued b)) r1 acts r2 e
          (late_record-IsOver ar b r r1 taking running late) in
      (over.ended, over.left, over.sent)

  append-eq-nil : (xs ys : List A) → xs ++ ys ≡ [] → xs ≡ []
  append-eq-nil [] ys e = refl
  append-eq-nil (x ∷ xs) ys e = absurd (cc)

  no_batches : (n : ℕ) (q : List (List A)) → FullButLast n q → concat q ≡ [] → q ≡ []
  no_batches n [] h e = refl
  no_batches n ([] ∷ q) (inl full) e = absurd (omega (arith, full.0))
  no_batches n ([] ∷ q) (inr ([], b, same, full, some_left)) e =
      let hollow : b ≡ [] = cc in absurd (omega (arith, ap length hollow))
  no_batches n ([] ∷ q) (inr (a ∷ front, b, same, full, some_left)) e =
      let hollow : a ≡ [] = cc in absurd (omega (arith, full.0, ap length hollow))
  no_batches n ((x ∷ b) ∷ q) h e = absurd (cc)

  -- `join` is undefined behaviour if the recorder is stopped before it has let in any record: then no
  -- batch was queued and `_last_ftr` was never assigned.
  pub join-undefined :
      (n : ℕ) (acts : List (Action A)) (r r' : Recorder A)
      → init A (pos n) ≡ some r
      → exec r acts ≡ some r'
      → accepted_all r acts ≡ []
      → r'.runner ≡ finished
      → join r' ≡ undefined
  unfolding join
  join-undefined n acts r r' made e empty ended =
      let none_queued =
        no_batches r'.bucket_size r'.queued (exec-init-batches n acts r r' made e).0
          (append-eq-nil (concat r'.queued) _ (exec-init-held n acts r r' made e ∙ empty)) in
      rw (ended, none_queued)
