-- ===== src/Sampler.antt =====
-- src/sampler.hpp and sampler.cpp: the class `sampler`. Times are in nanoseconds. What the other
-- threads do shows in the values of `_stop` that the loop reads.
pub mod Rounds
mod Tests
use csnd.Prelude.{
  ℕ, suc, ◌+◌, Bool, true, false, ◌&&◌, ltb, List, [], ◌∷◌, if◌then◌else◌, Result, ok, err,
}

-- DURATION, 20000 microseconds.
abbrev pub duration : ℕ
duration = 20000000

-- `joinable`: a thread has been started and not yet joined.
pub record Sampler : Type 0 where
  pub stop : Bool
  pub joinable : Bool

pub data Error : Type 0 where
  thread_is_busy thread_is_not_joinable : Error

pub init : Sampler
init = record { stop = false; joinable = false }

unfoldable pub stop : Sampler → Sampler
stop s = record s { stop = true }

pub run : Sampler → Result Error Sampler
run s = if s.joinable then err thread_is_busy else ok (record s { joinable = true })

-- `join`, once the thread has ended.
pub join : Sampler → Result Error Sampler
join s = if s.joinable then ok (record s { joinable = false }) else err thread_is_not_joinable

-- One round of the loop: what `_stop` reads at its head, whether the call of `sample` throws, how
-- long it takes, and by how much `sleep_until` comes back later than the time it is given or, if
-- that has passed, than the call.
pub record Round : Type 0 where
  pub stop : Bool
  pub throws : Bool
  pub took : ℕ
  pub late : ℕ

-- How the thread ends: it sees `_stop`; an exception leaves its function, which is `std::terminate`
-- for the whole program; or, after the rounds given, not yet.
pub data End : Type 0 where
  stopped terminated running : End

-- The calls of `sample`, the times at which the rounds with a call began, and the times up to which
-- the thread was to sleep.
pub record Trace : Type 0 where
  pub end : End
  pub calls : ℕ
  pub starts : List ℕ
  pub sleeps : List ℕ

-- The time at which `sample` has returned, and that at which the thread has slept.
abbrev pub called : Bool → ℕ → Round → ℕ
called has_sample now r = if has_sample then now + r.took else now

abbrev pub woken : Bool → ℕ → ℕ → Round → ℕ
woken has_sample now next_time r =
    let done = called has_sample now r in (if ltb done next_time then next_time else done) + r.late

-- `while (!_stop)`, at the time `now`, with `has_sample` for a `sample` that is set.
unfoldable pub sample_loop : Bool → ℕ → ℕ → List Round → Trace
sample_loop has_sample now next_time [] = record {
  end = running;
  calls = 0;
  starts = [];
  sleeps = [];
}
sample_loop has_sample now next_time (r ∷ rounds) =
    let rest =
      sample_loop has_sample (woken has_sample now next_time r) (next_time + duration) rounds in
    let calls = (if has_sample then suc rest.calls else rest.calls) in
    if r.stop
    then record { end = stopped; calls = 0; starts = []; sleeps = [] }
    else if has_sample && r.throws
    then record { end = terminated; calls = 1; starts = now ∷ []; sleeps = [] }
    else record {
      end = rest.end;
      calls = calls;
      starts = now ∷ rest.starts;
      sleeps = next_time ∷ rest.sleeps;
    }

-- The function of the thread, started at the time `now`.
unfoldable pub sample1 : Bool → ℕ → List Round → Trace
unfolding sample_loop
sample1 has_sample now rounds = sample_loop has_sample now (now + duration) rounds
