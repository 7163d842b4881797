-- ===== src/Main/Pool.antt =====
-- recorder/recorder.cpp and recorder_local_posix.cpp: the pool of the recorder, and src/main.cpp:
-- what the handlers queue on it. Its one thread runs the flush handler on each batch, and the
-- writers that `record` queues; since the flush handler runs on that thread itself, the writer of
-- its file goes behind the tasks that wait. `step` runs the pool with the program of Sampling: the
-- threads take turns in any order.
pub mod Tasks
pub mod Order
pub mod Adds
pub mod Runs
pub mod Steps
pub mod Saved
pub mod Delivery
pub mod Drain
pub mod Ending
pub mod Shutdown
pub mod Offers
pub mod Online
pub mod Flushed
pub mod Sent
mod Tests
use csnd.Prelude.{
  ℕ, zero, suc, Bool, true, false, Option, none, some, List, [], ◌∷◌, ◌++◌, Text, Result, ok, err,
}
use csnd.Float.{Float}
use csnd.Accel.{AccelRecord}
use csnd.CircularBuffer.{Error}
use csnd.Detector.{Detector, task}
use csnd.Detector.Trigger.{sent}
use csnd.Recorder
use csnd.Recorder.{Runner, flushing, Action, run_enqueue, Join, waits}
use csnd.OutputFile.{Os, record_bytes, record_text}
use csnd.Iothub.{Hub, send}
use csnd.Serializer.{Serializer}
use csnd.Main.{Request, record_data, record_str, send_data, send_str, flush, callback}
use csnd.Main.Sampling.{
  Program, Turn, recorder_step, run_task, turn, Wait, undefined, blocks, returns,
}

-- The task that `run` queues for a batch, and those of the two overloads of `record`: the content and
-- the suffix.
pub data Task (F : Type 0) : Type 0 where
  flush_batch : List (AccelRecord F) → Task F
  write_data : List ℕ → Text → Task F
  write_str : Text → Text → Task F

-- The tasks that have not run, the state of the serializer, and the world outside: the file system
-- and the hub.
pub record Pool (F S D : Type 0) : Type 0 where
  pub tasks : List (Task F)
  pub serializer : S
  pub world : D

pub record Daemon (F S D : Type 0) : Type 0 where
  pub program : Program F
  pub pool : Pool F S D

-- A turn of the threads of `Sampling`, or the thread of the pool runs its next task.
pub data Step (F : Type 0) : Type 0 where
  program_turn : Turn F → Step F
  run_next : Step F

module _ {F S D : Type 0} where
  -- `_pool.enqueue`
  pub enqueue : Task F → Pool F S D → Pool F S D
  enqueue t p = record p { tasks = p.tasks ++ t ∷ [] }

  -- What `send` comes to: its fallback, if it was called, has queued the task. An exception stays in
  -- the future of the task that runs the handler; in the detector's task the call of the handler is
  -- the last statement.
  pub sent_or_queued : Task F → Result Text Bool × D → Pool F S D → Pool F S D
  unfolding enqueue
  sent_or_queued t (err what, world) p = record p { world = world }
  sent_or_queued t (ok false, world) p = record p { world = world }
  sent_or_queued t (ok true, world) p = enqueue t (record p { world = world })

  -- What a handler asks for: `record` queues a writer, and so does the fallback of `send`, which does
  -- nothing else to the world.
  pub submit : Hub D → Request → Pool F S D → Pool F S D
  unfolding enqueue sent_or_queued
  submit hub (record_data content suffix) p = enqueue (write_data content suffix) p
  submit hub (record_str str suffix) p = enqueue (write_str str suffix) p
  submit hub (send_data prop content suffix) p =
      sent_or_queued (write_data content suffix) (send hub p.world prop content (λ world. world)) p
  submit hub (send_str prop str suffix) p =
      sent_or_queued (write_str str suffix) (send hub p.world prop str (λ world. world)) p

  -- An exception of the serializer stays in the future of the task.
  pub flushed : {E : Type 0} → Hub D → Result E Request × S → Pool F S D → Pool F S D
  unfolding submit
  flushed hub (ok request, s) p = submit hub request (record p { serializer = s })
  flushed hub (err e, s) p = record p { serializer = s }

module _ {F S E D : Type 0} (serializer : Serializer F S E) (os : Os D) (hub : Hub D)
    (offline_mode : Bool) (out_dir : Text) where
  -- One task, which has been taken from the queue.
  pub perform_task : Task F → Pool F S D → Pool F S D
  unfolding flushed
  perform_task (flush_batch b) p = flushed hub (flush serializer offline_mode p.serializer b) p
  perform_task (write_data content suffix) p =
      let (done, failure, world) = record_bytes os p.world out_dir content suffix in
      record p { world = world }
  perform_task (write_str str suffix) p =
      let (done, failure, world) = record_text os p.world out_dir str suffix in
      record p { world = world }

  pub run_first : List (Task F) → Pool F S D → Option (Pool F S D)
  unfolding perform_task
  run_first [] p = none
  run_first (t ∷ rest) p = some (perform_task t (record p { tasks = rest }))

module _ {F : Type 0} where
  -- What `run` queues when the thread of the recorder has taken a batch out.
  pub batch_task : Runner (AccelRecord F) → List (Task F)
  batch_task (flushing (a ∷ b)) = flush_batch (a ∷ b) ∷ []
  batch_task other = []

module _ {F : Type 0} ⦃float : Float F⦄ where
  abbrev pub event_of : Result Error (Option Text × Detector F) → List Text
  event_of (ok (event, d)) = sent event
  event_of (err e) = []

  -- The event of the detector's next task, if it sends one.
  pub next_event : List (AccelRecord F) → Detector F → List Text
  next_event [] d = []
  next_event (ar ∷ rest) d = event_of (task d ar)

module _ {F S D : Type 0} (hub : Hub D) (offline_mode : Bool) where
  -- `detector->callback` on each event.
  pub report : List Text → Pool F S D → Pool F S D
  report [] p = p
  report (s ∷ events) p = report events (submit hub (callback offline_mode s) p)

module _ {F S D : Type 0} ⦃float : Float F⦄ (hub : Hub D) (offline_mode : Bool) where
  -- What a turn from the state `p` adds to the pool.
  pub after_turn : Turn F → Program F → Pool F S D → Pool F S D
  unfolding report batch_task next_event
  after_turn (recorder_step run_enqueue) p pool = record pool {
    tasks = pool.tasks ++ batch_task p.recorder.runner;
  }
  after_turn run_task p pool = report hub offline_mode (next_event p.pending p.detector) pool
  after_turn other p pool = pool

module _ {F S D : Type 0} where
  abbrev pub set_program : Option (Program F) → Pool F S D → Option (Daemon F S D)
  set_program none pool = none
  set_program (some p) pool = some (record { program = p; pool = pool })

  abbrev pub set_pool : Program F → Option (Pool F S D) → Option (Daemon F S D)
  set_pool p none = none
  set_pool p (some pool) = some (record { program = p; pool = pool })

module _ {F S E D : Type 0} ⦃float : Float F⦄ (serializer : Serializer F S E) (os : Os D)
    (hub : Hub D) (offline_mode : Bool) (out_dir : Text) where
  pub step : Daemon F S D → Step F → Option (Daemon F S D)
  unfolding after_turn run_first
  step d (program_turn t) =
      set_program (turn d.program t) (after_turn hub offline_mode t d.program d.pool)
  step d run_next =
      set_pool d.program (run_first serializer os hub offline_mode out_dir d.pool.tasks d.pool)

  pub steps : Daemon F S D → List (Step F) → Option (Daemon F S D)
  unfolding step
  steps d [] = some d
  steps d (a ∷ rest) = elim (step d a) [ none ↦ none | some d' ↦ steps d' rest ]

module _ {F : Type 0} where
  -- `_last_ftr` is the future of the last batch: it is ready once no task of a batch is left.
  pub wait_last_batch : List (Task F) → Wait
  wait_last_batch [] = returns
  wait_last_batch (flush_batch b ∷ tasks) = blocks
  wait_last_batch (other ∷ tasks) = wait_last_batch tasks

  -- `recorder->join()`
  pub join_from : Join (AccelRecord F) → List (Task F) → Wait
  unfolding wait_last_batch
  join_from Join.blocks tasks = blocks
  join_from Join.undefined tasks = undefined
  join_from (waits b) tasks = wait_last_batch tasks

  -- The destructor of the recorder, after `main` has returned: `_last_ftr`, then `_out_dir`, and then
  -- `_pool`, whose destructor runs the tasks that are left. Each of them is undefined behaviour: a
  -- writer reads `_out_dir`, and the flush handler refers to local variables of `main`.
  pub destroy_tasks : List (Task F) → Wait
  destroy_tasks [] = returns
  destroy_tasks (t ∷ tasks) = undefined

module _ {F S D : Type 0} where
  unfoldable pub join : Daemon F S D → Wait
  unfolding join_from
  join d = join_from (Recorder.join d.program.recorder) d.pool.tasks

  unfoldable pub destroy_recorder : Daemon F S D → Wait
  unfolding destroy_tasks
  destroy_recorder d = destroy_tasks d.pool.tasks
