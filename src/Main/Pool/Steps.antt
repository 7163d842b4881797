-- ===== src/Main/Pool/Steps.antt =====
-- What every step of the program with the pool keeps, in offline mode: all batches and all events are
-- in the tasks of the pool.
use csnd.Prelude.{◌≡◌, refl, sym, ap, ap₂, subst, true, some, List, [], ◌++◌, append-nil, All, Text}
use csnd.Float.{Float}
use csnd.Accel.{AccelRecord}
use csnd.Recorder.{run_enqueue}
use csnd.OutputFile.{Os}
use csnd.Iothub.{Hub}
use csnd.Serializer.{Serializer}
use csnd.Main.Sampling.{Program, Turn, begin_sample, recorder_step, end_sample, run_task, turn}
use csnd.Main.Pool.{Pool, Daemon, Step, next_event, after_turn, steps}
use csnd.Main.Pool.Tasks.{batches_of, files_of, strs_of, IsNamed}
use csnd.Main.Pool.Adds.{
  added_by, turn-Adds, queued_by-files, queued_by-IsNamed, quake_tasks-none, report-tasks,
}
use csnd.Main.Pool.Runs.{steps-invariant}
use csnd.Main.Pool.Order.{Kept, queued-Kept, first-Kept}

module _ {F S E D : Type 0} ⦃float : Float F⦄ (serializer : Serializer F S E) (os : Os D)
    (hub : Hub D) (out_dir : Text) (s0 : S) (world0 : D) where
  abbrev AllKept : Daemon F S D → Type 0
  AllKept d =
      Kept serializer os hub out_dir s0 world0 d.program.recorder.queued d.program.events d.pool

  after_turn-tasks :
      (t : Turn F) (p : Program F) (pool : Pool F S D)
      → after_turn hub true t p pool ≡ record pool { tasks = pool.tasks ++ added_by t p }
  unfolding after_turn
  after_turn-tasks (recorder_step run_enqueue) p pool = refl
  after_turn-tasks run_task p pool = report-tasks hub (next_event p.pending p.detector) pool
  after_turn-tasks (begin_sample ar) p pool =
      ap (λ l. record pool { tasks = l }) (sym (append-nil pool.tasks))
  after_turn-tasks end_sample p pool =
      ap (λ l. record pool { tasks = l }) (sym (append-nil pool.tasks))
  after_turn-tasks (recorder_step _) p pool =
      ap (λ l. record pool { tasks = l }) (sym (append-nil pool.tasks))

  added_by-no_file : (t : Turn F) (p : Program F) → files_of (added_by t p) ≡ []
  added_by-no_file (recorder_step a) p = queued_by-files a p.recorder.runner
  added_by-no_file run_task p = (quake_tasks-none F (next_event p.pending p.detector)).1
  added_by-no_file _ p = refl

  added_by-IsNamed : (t : Turn F) (p : Program F) → All IsNamed (added_by t p)
  added_by-IsNamed (recorder_step a) p = queued_by-IsNamed a p.recorder.runner
  added_by-IsNamed run_task p = (quake_tasks-none F (next_event p.pending p.detector)).2
  added_by-IsNamed _ p = tt

  turn-AllKept :
      (t : Turn F) (p p' : Program F) (pool : Pool F S D)
      → turn p t ≡ some p'
      → AllKept (record { program = p; pool = pool })
      → AllKept (record { program = p'; pool = after_turn hub true t p pool })
  turn-AllKept t p p' pool e k =
      let (batches, events) = turn-Adds t p p' e in
      let new = added_by t p in
      subst (Kept serializer os hub out_dir s0 world0 p'.recorder.queued p'.events)
        (sym (after_turn-tasks t p pool))
        (subst
          (λ (l : List (List (AccelRecord F)) × List Text).
            Kept serializer os hub out_dir s0 world0 l.0 l.1
              (record pool { tasks = pool.tasks ++ new }))
          (ap₂ (λ a b. (a, b)) (sym batches) (sym events))
          (queued-Kept serializer os hub out_dir s0 world0 p.recorder.queued (batches_of new)
            p.events (strs_of new) pool new refl refl (added_by-no_file t p) (added_by-IsNamed t p)
            k))

  pub steps-AllKept :
      (l : List (Step F)) (d d' : Daemon F S D)
      → steps serializer os hub true out_dir d l ≡ some d'
      → AllKept d
      → AllKept d'
  steps-AllKept =
      steps-invariant serializer os hub true out_dir
        (λ p pool. Kept serializer os hub out_dir s0 world0 p.recorder.queued p.events pool)
        turn-AllKept
        (λ p pool pool'.
          first-Kept serializer os hub out_dir s0 world0 p.recorder.queued p.events pool pool'
            pool.tasks refl)
