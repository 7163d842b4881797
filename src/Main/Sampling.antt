-- ===== src/Main/Sampling.antt =====
-- src/main.cpp, the handler `sampler->sample` with the recorder and the detector that it feeds, and
-- from detector/sta_lta_ratio/slr.cpp the queue of the detector's pool. The sampling thread, the
-- thread of the recorder, that of the pool, and any caller of `stop` take turns in any order: a
-- step is a step of the recorder, the reading of a sample, the call of `detector->push`, or the run
-- of a task. (A `sample` that throws ends the program: see Sampler.)
mod Tests
pub mod Turns
pub mod Delivery
pub mod Files
pub mod Samples
use csnd.Prelude.{
  ℕ, zero, suc, ◌+◌, ◌≡◌, refl, Option, none, some, List, [], ◌∷◌, ◌++◌, Text, Result, ok, err,
}
use csnd.Float.{Float}
use csnd.Accel.{AccelRecord}
use csnd.CircularBuffer.{Error}
use csnd.Detector.{Detector, task}
use csnd.Detector.Trigger.{sent}
use csnd.Recorder.{Recorder, Pusher, idle, appended, entered, Action, push_begin, step}

-- `sampling`: the sample that the handler has read and not yet given to the detector. `pending`: the
-- tasks of the detector that have not run, `pushed` the number of all. `events` is what the detector
-- passed to its callback.
pub record Program (F : Type 0) : Type 0 where
  pub recorder : Recorder (AccelRecord F)
  pub sampling : Option (AccelRecord F)
  pub pending : List (AccelRecord F)
  pub pushed : ℕ
  pub detector : Detector F
  pub events : List Text

pub data Turn (F : Type 0) : Type 0 where
  begin_sample : AccelRecord F → Turn F
  recorder_step : Action (AccelRecord F) → Turn F
  end_sample run_task : Turn F

-- What waiting for `_last_ftr` comes to.
pub data Wait : Type 0 where
  undefined blocks returns : Wait

module _ {F : Type 0} ⦃float : Float F⦄ where
  abbrev pub set_recorder : Program F → Option (Recorder (AccelRecord F)) → Option (Program F)
  set_recorder p none = none
  set_recorder p (some r) = some (record p { recorder = r })

  -- `ar = sensor->sample()`, and the start of `recorder->push(ar)`.
  pub begin : Option (AccelRecord F) → AccelRecord F → Program F → Option (Program F)
  begin none ar p = set_recorder (record p { sampling = some ar }) (step p.recorder (push_begin ar))
  begin (some other) ar p = none

  -- The steps of the recorder, but not the call of `push`, which is the handler's.
  pub recorder_turn : Action (AccelRecord F) → Program F → Option (Program F)
  recorder_turn (push_begin ar) p = none
  recorder_turn a p = set_recorder p (step p.recorder a)

  -- `detector->push(ar)`, when `recorder->push` has returned: `_pool.enqueue`.
  pub end : Option (AccelRecord F) → Pusher (AccelRecord F) → Program F → Option (Program F)
  end (some ar) idle p =
      some (record p { sampling = none; pending = p.pending ++ ar ∷ []; pushed = suc p.pushed })
  end sampling pusher p = none

  abbrev pub ran : Program F → Result Error (Option Text × Detector F) → Option (Program F)
  ran p (err e) = none
  ran p (ok (event, d)) = some (record p { detector = d; events = p.events ++ sent event })

  -- The thread of the pool. An exception would stay in the future of the task; there is none.
  pub run_pending : List (AccelRecord F) → Program F → Option (Program F)
  run_pending [] p = none
  run_pending (ar ∷ rest) p = ran (record p { pending = rest }) (task p.detector ar)

  unfoldable pub turn : Program F → Turn F → Option (Program F)
  unfolding begin recorder_turn end run_pending
  turn p (begin_sample ar) = begin p.sampling ar p
  turn p (recorder_step a) = recorder_turn a p
  turn p end_sample = end p.sampling p.recorder.pusher p
  turn p run_task = run_pending p.pending p

  unfoldable pub turns : Program F → List (Turn F) → Option (Program F)
  unfolding turn
  turns p [] = some p
  turns p (t ∷ rest) = elim (turn p t) [ none ↦ none | some p' ↦ turns p' rest ]

  -- The components as `main` constructs them.
  unfoldable pub start_with : Recorder (AccelRecord F) → Detector F → Program F
  start_with r d = record {
    recorder = r;
    sampling = none;
    pending = [];
    pushed = 0;
    detector = d;
    events = [];
  }

  -- The destructor of the detector waits for the future of the last task. The pool runs them in
  -- order, so it is ready when no task is left.
  pub wait_last : ℕ → List (AccelRecord F) → Wait
  wait_last zero pending = undefined
  wait_last (suc n) [] = returns
  wait_last (suc n) (ar ∷ rest) = blocks

  unfoldable pub destroy_detector : Program F → Wait
  unfolding wait_last
  destroy_detector p = wait_last p.pushed p.pending
