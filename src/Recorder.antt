-- ===== src/Recorder.antt =====
-- recorder/recorder.hpp and recorder.cpp: the class `recorder`, with its threads as explicit steps.
-- The records come from one thread, `push`; `stop` runs on any thread at any time; `run` is the
-- thread of the recorder. A step is what a thread does between two points at which another thread can
-- be seen: a read or write of `_stop`, a critical section of `_mtx`, a notification. The thread pool
-- is the list of the batches that were queued, in order.
pub mod Runs
pub mod Conserve
pub mod Places
pub mod Batches
pub mod Wakeup
pub mod Stopping
pub mod Ending
pub mod Races
mod Tests
use csnd.Prelude.{
  ℕ, ◌≡◌, Bool, true, false, ◌||◌, Option, none, some, List, [], ◌∷◌, ◌++◌, length, ltb, leb,
  if◌then◌else◌,
}
use csnd.Prelude.Int.{ℤ, pos, negsuc}

-- Where the thread in `run` is: at the head of the loop; in `wait` with the test ahead; in `wait`
-- with the test failed and `_mtx` still held; asleep in `wait`; with a batch taken out; at the end.
pub data Runner (A : Type 0) : Type 0 where
  checking waiting dozing asleep finished : Runner A
  flushing : List A → Runner A

-- Where the thread in `push` is: outside; past the first test of `_stop`; behind the critical
-- section.
pub data Pusher (A : Type 0) : Type 0 where
  idle appended : Pusher A
  entered : A → Pusher A

-- `notifying`: a call of `stop` has set `_stop` and has not yet notified. `queued`: the batches given
-- to the pool; the future `_last_ftr` is that of the last one.
pub record Recorder (A : Type 0) : Type 0 where
  pub bucket_size : ℕ
  pub stop : Bool
  pub bucket : List A
  pub runner : Runner A
  pub pusher : Pusher A
  pub notifying : Bool
  pub queued : List (List A)

pub data Action (A : Type 0) : Type 0 where
  run_check run_test run_block run_wake run_enqueue : Action A
  push_begin : A → Action A
  push_append push_notify stop_set stop_notify : Action A

module _ {A : Type 0} where
  -- `_stop || _bucket->size() >= bucket_size`
  abbrev pub is_due : Recorder A → Bool
  is_due r = r.stop || leb r.bucket_size (length r.bucket)

  -- `_cond.notify_one()`: it wakes the one thread that waits, if it is asleep.
  abbrev pub woken : Runner A → Runner A
  woken asleep = waiting
  woken other = other

  abbrev pub enqueue : List (List A) → List A → List (List A)
  enqueue queued [] = queued
  enqueue queued (a ∷ b) = queued ++ (a ∷ b) ∷ []

  -- `while (!_stop)`
  pub step_check : Runner A → Recorder A → Option (Recorder A)
  step_check checking r = some (record r { runner = if r.stop then finished else waiting })
  step_check other r = none

  -- The test of `wait` under `_mtx`, and the exchange of the bucket if it holds.
  pub step_test : Runner A → Recorder A → Option (Recorder A)
  step_test waiting r = some (
      if is_due r
      then record r { runner = flushing r.bucket; bucket = [] }
      else record r { runner = dozing })
  step_test other r = none

  -- `wait` blocks, and leaves `_mtx`.
  pub step_block : Runner A → Recorder A → Option (Recorder A)
  step_block dozing r = some (record r { runner = asleep })
  step_block other r = none

  -- A spurious wake-up, which `wait` allows.
  pub step_wake : Runner A → Recorder A → Option (Recorder A)
  step_wake asleep r = some (record r { runner = waiting })
  step_wake other r = none

  -- `if (b->size() > 0) _last_ftr = _pool.enqueue(...)`
  pub step_enqueue : Runner A → Recorder A → Option (Recorder A)
  step_enqueue (flushing b) r = some (record r { runner = checking; queued = enqueue r.queued b })
  step_enqueue other r = none

  -- The first test of `push`.
  pub step_begin : Pusher A → A → Recorder A → Option (Recorder A)
  step_begin idle ar r = some (if r.stop then r else record r { pusher = entered ar })
  step_begin other ar r = none

  -- The critical section of `push`: not while the other thread holds `_mtx`.
  pub step_append : Pusher A → Runner A → Recorder A → Option (Recorder A)
  step_append (entered ar) dozing r = none
  step_append (entered ar) other r =
      some (record r { bucket = r.bucket ++ ar ∷ []; pusher = appended })
  step_append other runner r = none

  -- The second test of `push`, and its notification.
  pub step_notify : Pusher A → Recorder A → Option (Recorder A)
  step_notify appended r =
      some (record r { pusher = idle; runner = if is_due r then woken r.runner else r.runner })
  step_notify other r = none

  -- The two statements of `stop`.
  pub step_stop : Bool → Recorder A → Option (Recorder A)
  step_stop false r = some (record r { stop = true; notifying = true })
  step_stop true r = none

  pub step_stop_notify : Bool → Recorder A → Option (Recorder A)
  step_stop_notify true r = some (record r { notifying = false; runner = woken r.runner })
  step_stop_notify false r = none

  -- One step of a thread; `none` where the thread cannot take it now.
  unfoldable pub step : Recorder A → Action A → Option (Recorder A)
  unfolding step_check step_test step_block step_wake step_enqueue step_begin step_append
      step_notify step_stop step_stop_notify
  step r run_check = step_check r.runner r
  step r run_test = step_test r.runner r
  step r run_block = step_block r.runner r
  step r run_wake = step_wake r.runner r
  step r run_enqueue = step_enqueue r.runner r
  step r (push_begin ar) = step_begin r.pusher ar r
  step r push_append = step_append r.pusher r.runner r
  step r push_notify = step_notify r.pusher r
  step r stop_set = step_stop r.notifying r
  step r stop_notify = step_stop_notify r.notifying r

  unfoldable pub exec : Recorder A → List (Action A) → Option (Recorder A)
  exec r [] = some r
  exec r (a ∷ rest) = elim (step r a) [ none ↦ none | some r' ↦ exec r' rest ]

-- The constructor. `reserve` throws `length_error` for a negative size, which `size_t` makes huge.
unfoldable pub init : (A : Type 0) → ℤ → Option (Recorder A)
init A (negsuc n) = none
init A (pos n) = some (record {
  bucket_size = n;
  stop = false;
  bucket = [];
  runner = checking;
  pusher = idle;
  notifying = false;
  queued = [];
})

-- What `join` comes to: the thread has not ended; `_last_ftr` was never assigned, so that `wait` is
-- undefined; or it waits for the last batch.
pub data Join (A : Type 0) : Type 0 where
  blocks undefined : Join A
  waits : List A → Join A

module _ {A : Type 0} where
  unfoldable pub last_future : List (List A) → Join A
  last_future [] = undefined
  last_future (b ∷ []) = waits b
  last_future (b ∷ c ∷ bs) = last_future (c ∷ bs)

  unfoldable pub join_from : Runner A → List (List A) → Join A
  unfolding last_future
  join_from finished queued = last_future queued
  join_from other queued = blocks

  unfoldable pub join : Recorder A → Join A
  unfolding join_from
  join r = join_from r.runner r.queued
