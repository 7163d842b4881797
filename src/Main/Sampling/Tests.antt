-- ===== src/Main/Sampling/Tests.antt =====
-- Turns of the threads on concrete samples, and the theorems applied to them.
use csnd.Prelude.{
  ◌+◌, ◌-◌, ◌*◌, ◌/◌, ltb, ◌==◌, not, to_string, map, ◌++◌, none, ℕ, ◌≡◌, refl, ◌⊎◌, inr, Bool,
  true, false, Option, some, List, [], ◌∷◌, Text, codes, Result, ok, err,
}
use mathlib.Core.Logic.{◌↔◌}
use csnd.Prelude.Int.{ℤ, pos}
use csnd.Recorder
use csnd.Recorder.{
  run_check, run_test, run_enqueue, appended, Recorder, asleep, checking, waiting, idle,
  push_append, push_notify, stop_set,
}
use csnd.Detector
use csnd.CircularBuffer
use csnd.Accel.{AccelRecord}
use csnd.Float.Whole.{whole}
use csnd.Float.Naturals.{naturals}
use csnd.Main.Sampling.{
  Program, Turn, begin_sample, recorder_step, end_sample, run_task, turn, turns, begin,
  recorder_turn, end, run_pending, start_with, undefined, destroy_detector,
}
use csnd.Main.Sampling.Turns.{taken, in_handler, Delivered}
use csnd.Main.Sampling.Delivery.{made_detector, turns-deliver, destroy_undefined_iff}

abbrev sample_of : ℤ → AccelRecord ℤ
sample_of z = record {
  x = pos 0;
  y = pos 0;
  z = z;
  sample_count = 8;
  start_time = 1500000000;
  end_time = 1520000000;
}

-- Two samples are read; the recorder stops before the second; the pool has run the first task.
abbrev first_turns : List (Turn ℤ)
first_turns =
    begin_sample (sample_of (pos 5))
    ∷ recorder_step push_append
    ∷ recorder_step push_notify
    ∷ end_sample
    ∷ run_task
    ∷ recorder_step stop_set
    ∷ begin_sample (sample_of (pos 6))
    ∷ []

abbrev new_recorder : Recorder (AccelRecord ℤ)
new_recorder = record {
  bucket_size = 3;
  stop = false;
  bucket = [];
  runner = checking;
  pusher = idle;
  notifying = false;
  queued = [];
}

abbrev after_turns : Program ℤ
after_turns = record {
  recorder = record new_recorder { stop = true; bucket = sample_of (pos 5) ∷ []; notifying = true };
  sampling = some (sample_of (pos 6));
  pending = [];
  pushed = 1;
  detector = record (made_detector (codes "dev")) {
    lt_acc = pos 5;
    lt_buf = record { buf = sample_of (pos 5) ∷ []; idx_zero = 0; capacity = 500 };
  };
  events = [];
}

first_turns-run :
    turns (start_with new_recorder (made_detector (codes "dev"))) first_turns ≡ some after_turns
unfolding turns turn begin recorder_turn end run_pending start_with csnd.Recorder.step
    csnd.Detector.task csnd.Detector.after_push csnd.CircularBuffer.push csnd.Detector.init
    csnd.CircularBuffer.init csnd.Prelude.Int.◌+ℤ◌
first_turns-run = refl

turns-deliver_example :
    Delivered (made_detector (codes "dev")) (taken first_turns) after_turns
    × ((after_turns.pending ≡ []) ⊎ ((p' : Program ℤ) × (turn after_turns run_task ≡ some p')))
unfolding csnd.Recorder.init
turns-deliver_example =
    turns-deliver 3 (codes "dev") first_turns new_recorder after_turns refl first_turns-run

destroy_undefined_iff_example :
    (destroy_detector after_turns ≡ undefined)
    ↔ (taken first_turns ≡ in_handler after_turns.sampling)
unfolding csnd.Recorder.init
destroy_undefined_iff_example =
    destroy_undefined_iff 3 (codes "dev") first_turns new_recorder after_turns refl first_turns-run
