-- ===== src/Recorder/Ending.antt =====
-- After a call of `stop` that is not lost the thread of the recorder comes to its end.
use csnd.Prelude.{
  ℕ, zero, suc, All, ◌+◌, ◌≤◌, ◌≡◌, ◌≢◌, refl, sym, ap, ◌∙◌, subst, ◌⊎◌, inl, inr, true, some, List,
  [], ◌∷◌, arith,
}
use csnd.Recorder.{
  Recorder, Runner, checking, waiting, dozing, asleep, finished, flushing, Action, run_check,
  run_test, run_block, run_wake, run_enqueue, push_begin, push_append, push_notify, stop_set,
  stop_notify, woken, step, exec, step_check, step_test, step_block, step_wake, step_enqueue,
  step_begin, step_append, step_notify, step_stop, step_stop_notify,
}
use csnd.Recorder.Runs.{exec-cons, exec-nil}

module _ {A : Type 0} where
  -- How many steps the thread has left once `_stop` is set, if it is not in `wait`'s blocking.
  abbrev pub left : Runner A → ℕ
  left finished = 0
  left checking = 1
  left (flushing b) = 2
  left waiting = 3
  left dozing = 0
  left asleep = 0

  abbrev IsAwake : Runner A → Type 0
  IsAwake dozing = ⊥
  IsAwake asleep = ⊥
  IsAwake other = Unit

  -- The steps of the thread itself.
  abbrev pub own : Action A → ℕ
  own run_check = 1
  own run_test = 1
  own run_block = 1
  own run_wake = 1
  own run_enqueue = 1
  own other = 0

  abbrev pub count_own : List (Action A) → ℕ
  count_own [] = 0
  count_own (a ∷ acts) = own a + count_own acts

  record IsEnding (r : Recorder A) : Type 0 where
    stopped : r.stop ≡ true
    awake : IsAwake r.runner

  step-IsEnding :
      (r : Recorder A) (a : Action A) (r' : Recorder A)
      → step r a ≡ some r'
      → IsEnding r
      → IsEnding r' × (left r'.runner + own a ≤ left r.runner)
  unfolding step step_check step_test step_block step_wake step_enqueue step_begin step_append
      step_notify step_stop step_stop_notify
  step-IsEnding r run_check r' e h = ground arith
  step-IsEnding r run_test r' e h = ground arith
  step-IsEnding r run_block r' e h = ground arith
  step-IsEnding r run_wake r' e h = ground arith
  step-IsEnding r run_enqueue r' e h = ground arith
  step-IsEnding r (push_begin ar) r' e h = ground arith
  step-IsEnding r push_append r' e h = ground arith
  step-IsEnding r push_notify r' e h = ground arith
  step-IsEnding r stop_set r' e h = ground arith
  step-IsEnding r stop_notify r' e h = ground arith

  exec-IsEnding :
      (r : Recorder A) (acts : List (Action A)) (r' : Recorder A)
      → exec r acts ≡ some r'
      → IsEnding r
      → IsEnding r' × (left r'.runner + count_own acts ≤ left r.runner)
  exec-IsEnding r [] r' e h =
      subst (λ r'. IsEnding r' × (left r'.runner + 0 ≤ left r.runner)) (exec-nil r r' e)
        (h, omega arith)
  exec-IsEnding r (a ∷ acts) r' e h =
      let (r1, is, more) = exec-cons r a acts r' e in
      let (h1, one) = step-IsEnding r a r1 is h in
      let (h', rest) = exec-IsEnding r1 acts r' more h1 in (h', omega (arith, one, rest))

  -- The steps of the thread that do not leave it asleep and do not need a wake-up, a spurious one
  -- neither.
  abbrev pub IsUnprompted : Action A → Type 0
  IsUnprompted run_check = Unit
  IsUnprompted run_test = Unit
  IsUnprompted run_enqueue = Unit
  IsUnprompted other = ⊥

  own-IsUnprompted : (a : Action A) → IsUnprompted a → own a ≡ 1
  own-IsUnprompted run_check h = refl
  own-IsUnprompted run_test h = refl
  own-IsUnprompted run_enqueue h = refl
  own-IsUnprompted run_block h = absurd h
  own-IsUnprompted run_wake h = absurd h
  own-IsUnprompted (push_begin ar) h = absurd h
  own-IsUnprompted push_append h = absurd h
  own-IsUnprompted push_notify h = absurd h
  own-IsUnprompted stop_set h = absurd h
  own-IsUnprompted stop_notify h = absurd h

  -- The thread can take a step of its own, without being woken up.
  abbrev pub CanGo : Recorder A → Type 0
  CanGo r = (a : Action A) × (r' : Recorder A) × IsUnprompted a × (step r a ≡ some r')

  IsEnding-goes :
      (s : Runner A) (r : Recorder A) → r.runner ≡ s → IsAwake s → (s ≡ finished) ⊎ CanGo r
  unfolding step step_check step_test step_enqueue
  IsEnding-goes finished r is h = inl refl
  IsEnding-goes checking r is h = inr (run_check, _, tt, ap (λ s. step_check s r) is)
  IsEnding-goes waiting r is h = inr (run_test, _, tt, ap (λ s. step_test s r) is)
  IsEnding-goes (flushing b) r is h = inr (run_enqueue, _, tt, ap (λ s. step_enqueue s r) is)
  IsEnding-goes dozing r is h = elim h [ ]
  IsEnding-goes asleep r is h = elim h [ ]

  IsAwake-woken : (s : Runner A) → s ≢ dozing → IsAwake (woken s)
  IsAwake-woken dozing h = absurd (h refl)
  IsAwake-woken _ h = tt

  left-le : (s : Runner A) → left s ≤ 3
  left-le checking = omega arith
  left-le _ = omega arith

  set-runner :
      (r r' : Recorder A) → step r stop_set ≡ some r' → (r'.stop ≡ true) × (r'.runner ≡ r.runner)
  unfolding step step_stop
  set-runner r r' e = ground arith

  notify-runner :
      (r r' : Recorder A)
      → step r stop_notify ≡ some r'
      → (r'.stop ≡ r.stop) × (r'.runner ≡ woken r.runner)
  unfolding step step_stop_notify
  notify-runner r r' e = ground arith

  called-IsEnding :
      (r r1 : Recorder A)
      → r.runner ≢ dozing
      → exec r (stop_set ∷ stop_notify ∷ []) ≡ some r1
      → IsEnding r1
  called-IsEnding r r1 apart e =
      let (r2, set, more) = exec-cons r stop_set (stop_notify ∷ []) r1 e in
      let (r3, told, nil) = exec-cons r2 stop_notify [] r1 more in
      subst IsEnding (exec-nil r3 r1 nil) (record {
        stopped = (notify-runner r2 r3 told).0 ∙ (set-runner r r2 set).0;
        awake =
            subst IsAwake (sym ((notify-runner r2 r3 told).1 ∙ ap woken (set-runner r r2 set).1))
              (IsAwake-woken r.runner apart);
      })

  -- The thread comes to its end by its own steps.
  ends_within :
      (k : ℕ) (r : Recorder A)
      → left r.runner ≤ k
      → IsEnding r
      → (acts : List (Action A)) × (r' : Recorder A) × (exec r acts ≡ some r')
        × (r'.runner ≡ finished)
        × All IsUnprompted acts
  unfolding exec
  ends_within zero r short h = elim (IsEnding-goes r.runner r refl h.awake) [
    | inl end ↦ ([], r, refl, end, tt)
    | inr (a, r', mine, is) ↦
        absurd (omega (arith, (step-IsEnding r a r' is h).1, own-IsUnprompted a mine, short))
  ]
  ends_within (suc k) r short h = elim (IsEnding-goes r.runner r refl h.awake) [
    | inl end ↦ ([], r, refl, end, tt)
    | inr (a, r1, mine, is) ↦
        let (h1, less) = step-IsEnding r a r1 is h in
        let (acts, r', ran, end, all) =
          ends_within k r1 (omega (arith, less, own-IsUnprompted a mine, short)) h1 in
        (a ∷ acts, r', rw (exec, is) ran, end, (mine, all))
  ]

  pub stopped-ends :
      (r r1 : Recorder A)
      → r.runner ≢ dozing
      → exec r (stop_set ∷ stop_notify ∷ []) ≡ some r1
      → (acts : List (Action A)) × (r' : Recorder A) × (exec r1 acts ≡ some r')
        × (r'.runner ≡ finished)
        × All IsUnprompted acts
  stopped-ends r r1 apart called =
      ends_within 3 r1 (left-le r1.runner) (called-IsEnding r r1 apart called)

  -- A call of `stop` that does not fall between the test of `wait` and its blocking is not lost:
  -- whatever steps follow, of `push`, of further calls of `stop` and of the thread of the recorder,
  -- the thread takes three at most, and until it has ended it can take one, without a wake-up.
  pub stop-ends :
      (r r1 : Recorder A) (acts : List (Action A)) (r' : Recorder A)
      → r.runner ≢ dozing
      → exec r (stop_set ∷ stop_notify ∷ []) ≡ some r1
      → exec r1 acts ≡ some r'
      → (count_own acts ≤ 3) × ((r'.runner ≡ finished) ⊎ CanGo r')
  stop-ends r r1 acts r' apart called e =
      let (h, spent) = exec-IsEnding r1 acts r' e (called-IsEnding r r1 apart called) in
      (omega (arith, spent, left-le r1.runner), IsEnding-goes r'.runner r' refl h.awake)
