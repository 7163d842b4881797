-- ===== src/Recorder/Conserve.antt =====
-- No record is lost, repeated or reordered between `push` and the pool.
use csnd.Prelude.Int.{pos}
use csnd.Prelude.{
  ℕ, some-inj, ◌≡◌, refl, sym, ap, ◌∙◌, none, some, List, [], ◌∷◌, ◌++◌, append_assoc, append-nil,
  concat, arith, if◌then◌else◌,
}
use csnd.Recorder.{
  Recorder, Runner, checking, dozing, flushing, Pusher, idle, entered, Action, run_check, run_test,
  run_block, run_wake, run_enqueue, push_begin, push_append, push_notify, stop_set, stop_notify,
  woken, enqueue, step_enqueue, step_begin, step_append, step, exec, init,
}
use csnd.Recorder.Runs.{exec-cons, exec-nil}

module _ {A : Type 0} where
  -- The batch that has been taken out, and the record that `push` has let in.
  abbrev pub in_flight : Runner A → List A
  in_flight (flushing b) = b
  in_flight other = []

  abbrev pub arriving : Pusher A → List A
  arriving (entered ar) = ar ∷ []
  arriving other = []

  -- All that the recorder holds, the oldest first.
  abbrev pub held : Recorder A → List A
  held r = concat r.queued ++ (in_flight r.runner ++ (r.bucket ++ arriving r.pusher))

  -- The record that a step lets in: `push` was called and read `_stop` as false.
  abbrev pub accepted : Recorder A → Action A → List A
  accepted r (push_begin ar) = if r.stop then [] else ar ∷ []
  accepted r other = []

  -- Those of a run, in order.
  unfoldable pub accepted_all : Recorder A → List (Action A) → List A
  accepted_all r [] = []
  accepted_all r (a ∷ rest) =
      accepted r a ++ (elim (step r a) [ none ↦ [] | some r' ↦ accepted_all r' rest ])

  in_flight-woken : (s : Runner A) → in_flight (woken s) ≡ in_flight s
  in_flight-woken checking = refl
  in_flight-woken _ = refl

  concat-append : (xss yss : List (List A)) → concat (xss ++ yss) ≡ concat xss ++ concat yss
  concat-append [] yss = refl
  concat-append (xs ∷ xss) yss =
      ap (◌++◌ xs) (concat-append xss yss) ∙ sym (append_assoc xs (concat xss) (concat yss))

  concat-enqueue : (q : List (List A)) (b : List A) → concat (enqueue q b) ≡ concat q ++ b
  concat-enqueue q [] = sym (append-nil (concat q))
  concat-enqueue q (a ∷ b) =
      concat-append q ((a ∷ b) ∷ []) ∙ ap (◌++◌ (concat q)) (append-nil (a ∷ b))

  enqueue-held :
      (s : Runner A) (r r' : Recorder A)
      → r.runner ≡ s
      → step_enqueue s r ≡ some r'
      → held r' ≡ held r ++ []
  unfolding step_enqueue
  enqueue-held (flushing b) r r' is e = ground (
    arith,
    append-nil (held r),
    concat-enqueue r.queued b,
    append_assoc (concat r.queued) b (r.bucket ++ arriving r.pusher),
  )
  enqueue-held _ r r' is e = absurd (cc)

  begin-held :
      (p : Pusher A) (ar : A) (r r' : Recorder A)
      → r.pusher ≡ p
      → step_begin p ar r ≡ some r'
      → held r' ≡ held r ++ (if r.stop then [] else ar ∷ [])
  unfolding step_begin
  begin-held idle ar r r' is e = ground (
    arith,
    append-nil (held r),
    append-nil r.bucket,
    append_assoc (concat r.queued) (in_flight r.runner ++ r.bucket) (ar ∷ []),
    append_assoc (in_flight r.runner) r.bucket (ar ∷ []),
  )
  begin-held _ ar r r' is e = absurd (cc)

  append-held :
      (p : Pusher A) (s : Runner A) (r r' : Recorder A)
      → r.pusher ≡ p
      → r.runner ≡ s
      → step_append p s r ≡ some r'
      → held r' ≡ held r ++ []
  unfolding step_append
  append-held (entered ar) dozing r r' is at e = absurd (cc)
  append-held (entered ar) _ r r' is at e =
      ground (arith, append-nil (held r), append-nil (r.bucket ++ ar ∷ []))
  append-held _ s r r' is at e = absurd (cc)

  pub step-held :
      (r : Recorder A) (a : Action A) (r' : Recorder A)
      → step r a ≡ some r'
      → held r' ≡ held r ++ accepted r a
  unfolding step
  step-held r run_check r' e = ground (arith, append-nil (held r))
  step-held r run_test r' e = ground (arith, append-nil (held r))
  step-held r run_block r' e = ground (arith, append-nil (held r))
  step-held r run_wake r' e = ground (arith, append-nil (held r))
  step-held r run_enqueue r' e = enqueue-held r.runner r r' refl e
  step-held r (push_begin ar) r' e = begin-held r.pusher ar r r' refl e
  step-held r push_append r' e = append-held r.pusher r.runner r r' refl refl e
  step-held r push_notify r' e = ground (arith, append-nil (held r), in_flight-woken r.runner)
  step-held r stop_set r' e = ground (arith, append-nil (held r))
  step-held r stop_notify r' e = ground (arith, append-nil (held r), in_flight-woken r.runner)

  exec-held :
      (r : Recorder A) (acts : List (Action A)) (r' : Recorder A)
      → exec r acts ≡ some r'
      → held r' ≡ held r ++ accepted_all r acts
  unfolding accepted_all
  exec-held r [] r' e = ap held (sym (exec-nil r r' e)) ∙ sym (append-nil (held r))
  exec-held r (a ∷ rest) r' e =
      let (r1, is, more) = exec-cons r a rest r' e in
      rw (is, accepted_all)
        (exec-held r1 rest r' more
          ∙ ap (λ h. h ++ accepted_all r1 rest) (step-held r a r1 is)
          ∙ append_assoc (held r) (accepted r a) (accepted_all r1 rest))

  -- Whatever the threads do, in any order: what has been queued, then the batch taken out, then the
  -- bucket, then the record in `push`, are together exactly the records that were let in, in order.
  pub exec-init-held :
      (n : ℕ) (acts : List (Action A)) (r r' : Recorder A)
      → init A (pos n) ≡ some r
      → exec r acts ≡ some r'
      → held r' ≡ accepted_all r acts
  unfolding init
  exec-init-held n acts r r' made e =
      exec-held r acts r' e ∙ ap (λ h. h ++ accepted_all r acts) (ap held (sym (some-inj made)))
