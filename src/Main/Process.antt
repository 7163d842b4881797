-- ===== src/Main/Process.antt =====
-- src/main.cpp from its arguments to the end of the process: what is destroyed when `main` fails
-- halfway, and the end of the run. What the threads have come to is a state of `Main.Pool`.
pub mod Waits
pub mod Ends
mod Tests
use csnd.Prelude.{Bool, Option, none, some, Text, Result, ok, err}
use csnd.Float.{Float}
use csnd.Config.{Config}
use csnd.Main.{Args, Exit, exit_success, exit_failure, start, Attempts, Message, prepared, equipped}
use csnd.Main.Sampling.{Wait, undefined, blocks, returns, destroy_detector}
use csnd.Main.Pool.{Daemon, join, destroy_recorder}

-- How the process ends: with what `main` returns; by `std::terminate`; in undefined behaviour; or
-- not, since `main` waits for good.
pub data Ending : Type 0 where
  exits : Exit → Ending
  aborts undefined_behaviour waits_on : Ending

-- What the run comes to after `sampler->run()`: the sensor throws on the sampling thread; or the
-- sampler has been joined, and the state is the first one when `recorder->join()` has been waited
-- for, and the second one when the detector's destructor has.
pub data Run (F S D : Type 0) : Type 0 where
  sensor_throws : Run F S D
  joined : Daemon F S D → Daemon F S D → Run F S D

-- A wait, and what follows it.
pub and_then : Wait → Ending → Ending
and_then undefined end = undefined_behaviour
and_then blocks end = waits_on
and_then returns end = end

module _ {F S D : Type 0} ⦃float : Float F⦄ where
  -- An exception of the sensor leaves the function of its thread. Else the recorder is joined; the
  -- detector, a local variable, is destroyed; and, after `main` has returned, so is the recorder.
  pub end_of : Run F S D → Ending
  unfolding and_then
  end_of sensor_throws = aborts
  end_of (joined d d') =
      and_then (join d) (
        and_then (destroy_detector d'.program)
          (and_then (destroy_recorder d') (exits exit_success)))

-- The `try` block. An exception before the detector is there gives a failure. One behind it destroys
-- the detector, whose `_last_ftr` has no state yet: its `wait` is undefined behaviour.
pub begun : Result Message (Unit {0}) → Result Message (Unit {0}) → Ending → Ending
begun (err m) equipment end = exits exit_failure
begun (ok u) (err m) end = undefined_behaviour
begun (ok u) (ok v) end = end

module _ {F S D : Type 0} ⦃float : Float F⦄ (load : Text → Result Text Config) (try_to : Attempts)
    (run : Run F S D) where
  pub process_body : Result Text Config → Ending
  unfolding begun end_of
  process_body (err what) = exits exit_failure
  process_body (ok cfg) = begun (prepared try_to cfg) (equipped try_to cfg) (end_of run)

  pub process_from : Result Exit Text → Ending
  unfolding process_body
  process_from (err exit) = exits exit
  process_from (ok config_file) = process_body (load config_file)

  -- `main`, with the constructor of the configuration in `load`.
  pub process : Result Text Args → Bool → Ending
  unfolding process_from
  process args daemon_fails = process_from (start args daemon_fails)
