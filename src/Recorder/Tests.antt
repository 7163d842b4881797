-- ===== src/Recorder/Tests.antt =====
-- Interleavings of the recorder's threads, and the theorems applied to them.
use csnd.Prelude.{ℕ, ◌<◌, ◌≤◌, ◌≡◌, ◌⊎◌, refl, true, false, some, List, [], ◌∷◌, length, All, arith}
use csnd.Prelude.Int.{pos}
use csnd.Recorder.{
  Recorder, checking, asleep, finished, flushing, idle, appended, Action, run_check, run_test,
  run_block, run_enqueue, waiting, push_begin, push_append, push_notify, stop_set, stop_notify,
  step, exec, init, undefined, join,
}
use csnd.Recorder.Conserve.{accepted_all, exec-init-held}
use csnd.Recorder.Places.{FullButLast, IsFull}
use csnd.Recorder.Batches.{exec-init-batches}
use csnd.Recorder.Wakeup.{exec-init-awake}
use csnd.Recorder.Ending.{count_own, CanGo, stop-ends}
use csnd.Recorder.Races.{bucket_race}
use csnd.Recorder.Stopping.{
  early_stop, late_record, early_stop_is_lost, late_record_is_left, join-undefined,
}

abbrev fresh : Recorder ℕ
fresh = record {
  bucket_size = 2;
  stop = false;
  bucket = [];
  runner = checking;
  pusher = idle;
  notifying = false;
  queued = [];
}

made : init ℕ (pos 2) ≡ some fresh
unfolding init
made = refl

-- The thread goes to sleep, and two records arrive; the second one wakes it.
abbrev busy : List (Action ℕ)
busy =
    run_check
    ∷ run_test
    ∷ run_block
    ∷ push_begin 7
    ∷ push_append
    ∷ push_notify
    ∷ push_begin 8
    ∷ push_append
    ∷ push_notify
    ∷ run_test
    ∷ []

abbrev taken : Recorder ℕ
taken = record fresh { runner = flushing (7 ∷ 8 ∷ []) }

run_busy : exec fresh busy ≡ some taken
unfolding exec step
run_busy = refl

exec-init-held_example : (7 ∷ 8 ∷ []) ≡ accepted_all fresh busy
exec-init-held_example = exec-init-held 2 busy fresh taken made run_busy

exec-init-batches_example :
    FullButLast 2 (taken.queued) × ((taken.stop ≡ true) ⊎ All (IsFull 2) taken.queued)
exec-init-batches_example = exec-init-batches 2 busy fresh taken made run_busy

abbrev one_record : List (Action ℕ)
one_record = run_check ∷ run_test ∷ run_block ∷ push_begin 7 ∷ push_append ∷ push_notify ∷ []

abbrev waiting_for_more : Recorder ℕ
waiting_for_more = record fresh { runner = asleep; bucket = 7 ∷ [] }

run_one_record : exec fresh one_record ≡ some waiting_for_more
unfolding exec step
run_one_record = refl

exec-init-awake_example : length (waiting_for_more.bucket) < 2
exec-init-awake_example =
    exec-init-awake 2 one_record fresh waiting_for_more made run_one_record refl refl (λ e. cc)

abbrev stuck : Recorder ℕ
stuck = record fresh { runner = asleep; stop = true }

run_early_stop : exec fresh early_stop ≡ some stuck
unfolding exec step
run_early_stop = refl

run_stuck : exec stuck (push_begin 9 ∷ []) ≡ some stuck
unfolding exec step
run_stuck = refl

early_stop_is_lost_example : (stuck.runner ≡ asleep) × (stuck.stop ≡ true)
early_stop_is_lost_example =
    early_stop_is_lost 2 (push_begin 9 ∷ []) fresh stuck stuck (omega arith) made run_early_stop
      (refl, tt) run_stuck

abbrev ended : Recorder ℕ
ended = record fresh {
  stop = true;
  bucket = 9 ∷ [];
  runner = finished;
  pusher = appended;
  notifying = true;
  queued = (7 ∷ 8 ∷ []) ∷ [];
}

run_late : exec taken (late_record 9) ≡ some ended
unfolding exec step
run_late = refl

run_ended : exec ended (stop_notify ∷ []) ≡ some (record ended { notifying = false })
unfolding exec step
run_ended = refl

late_record_is_left_example :
    (ended.runner ≡ finished) × (ended.bucket ≡ 9 ∷ []) × (ended.queued ≡ (7 ∷ 8 ∷ []) ∷ [])
late_record_is_left_example =
    late_record_is_left 9 (7 ∷ 8 ∷ []) (stop_notify ∷ []) taken ended
      (record ended { notifying = false }) refl refl run_late run_ended

-- Stopped before any record.
abbrev quick : List (Action ℕ)
quick = stop_set ∷ run_check ∷ []

abbrev unused : Recorder ℕ
unused = record fresh { stop = true; runner = finished; notifying = true }

run_quick : exec fresh quick ≡ some unused
unfolding exec step
run_quick = refl

nothing_accepted : accepted_all fresh quick ≡ []
unfolding accepted_all step
nothing_accepted = refl

-- The thread sleeps over a record when `stop` is called.
abbrev sleeper : Recorder ℕ
sleeper = record fresh { runner = asleep; bucket = 7 ∷ [] }

abbrev called : Recorder ℕ
called = record sleeper { runner = waiting; stop = true }

abbrev closing : List (Action ℕ)
closing = run_test ∷ push_begin 9 ∷ run_enqueue ∷ run_check ∷ []

abbrev closed : Recorder ℕ
closed = record called { runner = finished; bucket = []; queued = (7 ∷ []) ∷ [] }

run_called : exec sleeper (stop_set ∷ stop_notify ∷ []) ≡ some called
unfolding exec step
run_called = refl

run_closing : exec called closing ≡ some closed
unfolding exec step
run_closing = refl

stop-ends_example : (count_own closing ≤ 3) × ((closed.runner ≡ finished) ⊎ CanGo closed)
stop-ends_example = stop-ends sleeper called closing closed (λ e. cc) run_called run_closing

bucket_race_example :
    (acts : List (Action ℕ)) × (r' r1 r2 : Recorder ℕ) × (exec fresh acts ≡ some r')
    × (r'.stop ≡ false)
    × (r'.pusher ≡ appended)
    × (step r' push_notify ≡ some r1)
    × (step r' run_test ≡ some r2)
    × (r1.bucket ≡ 7 ∷ 7 ∷ [])
    × (r2.bucket ≡ [])
    × (r2.runner ≡ flushing (7 ∷ 7 ∷ []))
bucket_race_example = bucket_race 1 7 fresh made

join-undefined_example : join unused ≡ undefined
join-undefined_example = join-undefined 2 quick fresh unused made run_quick nothing_accepted refl
