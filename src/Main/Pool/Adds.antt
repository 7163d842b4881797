-- ===== src/Main/Pool/Adds.antt =====
-- The tasks that a turn of the program adds to the recorder's pool in offline mode: they hold the
-- batch and the event that the turn adds to the program.
use csnd.Prelude.{
  ◌≡◌, refl, sym, ap, subst, ◌∙◌, arith, suc, true, Option, none, some, some-inj, List, [], ◌∷◌,
  ◌++◌, append-nil, append_assoc, All, Text, codes,
}
use csnd.Float.{Float}
use csnd.Accel.{AccelRecord}
use csnd.Detector.{task}
use csnd.Recorder
use csnd.Recorder.{
  Recorder, Runner, checking, waiting, dozing, asleep, finished, flushing, Action, run_check,
  run_test, run_block, run_wake, run_enqueue, push_begin, push_append, push_notify, stop_set,
  stop_notify, idle, Pusher,
}
use csnd.Iothub.{Hub}
use csnd.Main.{callback}
use csnd.Main.Sampling.{
  Program, Turn, begin_sample, recorder_step, end_sample, run_task, set_recorder, begin, end,
  run_pending, turn,
}
use csnd.Main.Sampling.Turns.{set_recorder-some, own_step-accepted, ran-some}
use csnd.Main.Pool.{Task, write_str, Pool, submit, batch_task, event_of, next_event, report}
use csnd.Main.Pool.Tasks.{batches_of, files_of, strs_of, IsNamed}

module _ {F : Type 0} where
  -- What a step of the recorder queues.
  abbrev pub queued_by : Action (AccelRecord F) → Runner (AccelRecord F) → List (Task F)
  queued_by run_enqueue s = batch_task s
  queued_by other s = []

  step-queued :
      (r r' : Recorder (AccelRecord F)) (a : Action (AccelRecord F))
      → Recorder.step r a ≡ some r'
      → r'.queued ≡ r.queued ++ batches_of (queued_by a r.runner)
  unfolding Recorder.step batch_task
  step-queued r r' run_check e = ground (arith, append-nil r.queued)
  step-queued r r' run_test e = ground (arith, append-nil r.queued)
  step-queued r r' run_block e = ground (arith, append-nil r.queued)
  step-queued r r' run_wake e = ground (arith, append-nil r.queued)
  step-queued r r' run_enqueue e = ground (arith, append-nil r.queued)
  step-queued r r' (push_begin ar) e = ground (arith, append-nil r.queued)
  step-queued r r' push_append e = ground (arith, append-nil r.queued)
  step-queued r r' push_notify e = ground (arith, append-nil r.queued)
  step-queued r r' stop_set e = ground (arith, append-nil r.queued)
  step-queued r r' stop_notify e = ground (arith, append-nil r.queued)

  batch_task-strs : (s : Runner (AccelRecord F)) → strs_of (batch_task s) ≡ []
  unfolding batch_task
  batch_task-strs (flushing []) = refl
  batch_task-strs (flushing (a ∷ b)) = refl
  batch_task-strs _ = refl

  batch_task-files : (s : Runner (AccelRecord F)) → files_of (batch_task s) ≡ []
  unfolding batch_task
  batch_task-files (flushing []) = refl
  batch_task-files (flushing (a ∷ b)) = refl
  batch_task-files _ = refl

  batch_task-IsNamed : (s : Runner (AccelRecord F)) → All IsNamed (batch_task s)
  unfolding batch_task
  batch_task-IsNamed (flushing []) = tt
  batch_task-IsNamed (flushing (a ∷ b)) = (tt, tt)
  batch_task-IsNamed _ = tt

  queued_by-strs :
      (a : Action (AccelRecord F)) (s : Runner (AccelRecord F)) → strs_of (queued_by a s) ≡ []
  queued_by-strs run_enqueue s = batch_task-strs s
  queued_by-strs _ s = refl

  pub queued_by-files :
      (a : Action (AccelRecord F)) (s : Runner (AccelRecord F)) → files_of (queued_by a s) ≡ []
  queued_by-files run_enqueue s = batch_task-files s
  queued_by-files _ s = refl

  pub queued_by-IsNamed :
      (a : Action (AccelRecord F)) (s : Runner (AccelRecord F)) → All IsNamed (queued_by a s)
  queued_by-IsNamed run_enqueue s = batch_task-IsNamed s
  queued_by-IsNamed _ s = tt

-- The writers of events.
abbrev pub quake_tasks : {F : Type 0} → List Text → List (Task F)
quake_tasks [] = []
quake_tasks (s ∷ events) = write_str s (codes "_quake.json") ∷ quake_tasks events

module _ (F : Type 0) where
  pub quake_tasks-strs : (events : List Text) → strs_of (quake_tasks {F = F} events) ≡ events
  quake_tasks-strs [] = refl
  quake_tasks-strs (s ∷ events) = ap (λ l. s ∷ l) (quake_tasks-strs events)

  pub quake_tasks-none :
      (events : List Text)
      → (batches_of (quake_tasks {F = F} events) ≡ [])
        × (files_of (quake_tasks {F = F} events) ≡ [])
        × All IsNamed (quake_tasks {F = F} events)
  quake_tasks-none [] = (refl, refl, tt)
  quake_tasks-none (s ∷ events) =
      let (no_batch, no_file, named) = quake_tasks-none events in (no_batch, no_file, (refl, named))

module _ {F S D : Type 0} (hub : Hub D) where
  pub report-tasks :
      (events : List Text) (p : Pool F S D)
      → report hub true events p ≡ record p { tasks = p.tasks ++ quake_tasks events }
  unfolding report callback submit
  report-tasks [] p = ap (λ l. record p { tasks = l }) (sym (append-nil p.tasks))
  report-tasks (s ∷ events) p =
      report-tasks events (record p { tasks = p.tasks ++ write_str s (codes "_quake.json") ∷ [] })
      ∙ ap (λ l. record p { tasks = l })
          (append_assoc p.tasks (write_str s (codes "_quake.json") ∷ []) (quake_tasks events))

module _ {F : Type 0} ⦃float : Float F⦄ where
  -- The tasks that a turn adds in offline mode.
  abbrev pub added_by : Turn F → Program F → List (Task F)
  added_by (recorder_step a) p = queued_by a p.recorder.runner
  added_by run_task p = quake_tasks (next_event p.pending p.detector)
  added_by other p = []

  -- The batches and the events go on as the tasks say.
  abbrev pub Adds : List (Task F) → Program F → Program F → Type 0
  Adds new p p' =
      (p'.recorder.queued ≡ p.recorder.queued ++ batches_of new)
      × (p'.events ≡ p.events ++ strs_of new)

  same-Adds :
      (p p' : Program F)
      → p'.recorder.queued ≡ p.recorder.queued
      → p'.events ≡ p.events
      → Adds [] p p'
  same-Adds p p' queued events =
      (queued ∙ sym (append-nil p.recorder.queued), events ∙ sym (append-nil p.events))

  step-Adds :
      (a : Action (AccelRecord F)) (p q p' : Program F)
      → q.recorder ≡ p.recorder
      → q.events ≡ p.events
      → set_recorder q (Recorder.step p.recorder a) ≡ some p'
      → Adds (queued_by a p.recorder.runner) p p'
  step-Adds a p q p' same events e =
      let (r', stepped, is) = set_recorder-some q p' (Recorder.step p.recorder a) e in
      (
        ap (λ (p : Program F). p.recorder.queued) (sym is) ∙ step-queued p.recorder r' a stepped,
        ap (λ (p : Program F). p.events) (sym is)
            ∙ events
            ∙ sym (append-nil p.events)
            ∙ ap (λ l. p.events ++ l) (sym (queued_by-strs a p.recorder.runner)),
      )

  pub turn-Adds : (t : Turn F) (p p' : Program F) → turn p t ≡ some p' → Adds (added_by t p) p p'
  unfolding turn next_event
  turn-Adds (begin_sample ar) p p' e = begin-Adds p.sampling e
    where
      begin-Adds : (s : Option (AccelRecord F)) → begin s ar p ≡ some p' → Adds [] p p'
      begin-Adds none e =
          step-Adds (push_begin ar) p (record p { sampling = some ar }) p' refl refl e
      begin-Adds (some other) e = absurd (cc)
  turn-Adds (recorder_step a) p p' e = step-Adds a p p p' refl refl (own_step-accepted a p p' e).1
  turn-Adds end_sample p p' e = end-Adds p.sampling p.recorder.pusher e
    where
      end-Adds :
          (s : Option (AccelRecord F)) (q : Pusher (AccelRecord F))
          → end s q p ≡ some p'
          → Adds [] p p'
      end-Adds (some ar) idle e = subst (Adds [] p) (some-inj e) (
          same-Adds p
            (record p { sampling = none; pending = p.pending ++ ar ∷ []; pushed = suc p.pushed })
            refl refl)
      end-Adds _ q e = absurd (cc)
  turn-Adds run_task p p' e = run-Adds p.pending e
    where
      run-Adds :
          (pending : List (AccelRecord F))
          → run_pending pending p ≡ some p'
          → Adds (quake_tasks (next_event pending p.detector)) p p'
      run-Adds [] e = absurd (cc)
      run-Adds (ar ∷ rest) e =
          let (event, d, done, is) = ran-some (record p { pending = rest }) p' _ e in
          let (no_batch, _, _) = quake_tasks-none F (event_of (task p.detector ar)) in
          (
            ap (λ (p : Program F). p.recorder.queued) (sym is)
                ∙ sym (append-nil p.recorder.queued)
                ∙ ap (λ l. p.recorder.queued ++ l) (sym no_batch),
            ap (λ (p : Program F). p.events) (sym is)
                ∙ ap (λ r. p.events ++ event_of r) (sym done)
                ∙ ap (λ l. p.events ++ l)
                    (sym (quake_tasks-strs F (event_of (task p.detector ar)))),
          )
