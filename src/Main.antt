-- ===== src/Main.antt =====
-- src/main.cpp: the handlers that join the components, the signal handler, and the ways in which
-- `main` ends. The handlers are functions to the request that they make of the recorder or of the
-- sender. The client library of the hub is a parameter.
pub mod Flush
pub mod Exits
pub mod Process
pub mod Sensing
pub mod Sampling
pub mod Pool
mod Tests
use csnd.Prelude.{
  ℕ, ◌+◌, Bool, true, false, not, Option, none, some, List, [], ◌∷◌, ◌++◌, length, Text, codes,
  if◌then◌else◌, Result, ok, err, ◌>>=◌, ◌>>◌,
}
use csnd.Accel.{AccelRecord}
use csnd.OutputFile.{Os, record_bytes, record_text}
use csnd.Serializer.{Serializer}
use csnd.Iothub.{Properties, Hub, send}
use csnd.Config.{Config, Logger, console_logger, file_logger}
use csnd.Sampler.{Sampler, stop}
use csnd.Recorder.{Recorder, init, exec, stop_set, stop_notify}
use csnd.Prelude.Int.{ℤ, pos, negsuc}

-- What a handler asks for. A call of `send` has the properties, the payload and the fallback; both
-- fallbacks of main.cpp call `record` with the payload, under the suffix given here.
pub data Request : Type 0 where
  record_data : List ℕ → Text → Request
  record_str : Text → Text → Request
  send_data : Properties → List ℕ → Text → Request
  send_str : Properties → Text → Text → Request

-- `recorder->flush`, with either serializer.
pub flush :
    {F S E : Type 0} → Serializer F S E → Bool → S → List (AccelRecord F) → Result E Request × S
flush serializer offline_mode s records =
    let (outcome, s') = serializer.serialize (some records) s in
    (
      outcome >>= λ data_bytes. ok (
          if offline_mode
          then record_data data_bytes (codes ".avro")
          else send_data ((codes "batch", codes "false") ∷ []) data_bytes (codes "avro")),
      s',
    )

-- `detector->callback`
pub callback : Bool → Text → Request
callback offline_mode s =
    if offline_mode
    then record_str s (codes "_quake.json")
    else send_str ((codes "batch", codes "false") ∷ (codes "kind", codes "quake") ∷ []) s
        (codes "_quake.json")

-- What the handler gets: the future of `record`, which it drops, or what `send` comes to.
pub data Performed : Type 0 where
  recorded : Bool → Performed
  answered : Result Text Bool → Performed

module _ {S : Type 0} (os : Os S) (hub : Hub S) where
  abbrev pub sent_off : Result Text Bool × S → Performed × S
  sent_off (answer, s) = (answered answer, s)

  -- A request carried out. The future of the fallback's `record` is dropped.
  pub perform : S → Text → Request → Performed × S
  perform s out_dir (record_data content suffix) =
      let (done, failure, s') = record_bytes os s out_dir content suffix in (recorded done, s')
  perform s out_dir (record_str str suffix) =
      let (done, failure, s') = record_text os s out_dir str suffix in (recorded done, s')
  perform s out_dir (send_data prop content suffix) =
      sent_off (send hub s prop content (λ s'. (record_bytes os s' out_dir content suffix).2))
  perform s out_dir (send_str prop str suffix) =
      sent_off (send hub s prop str (λ s'. (record_text os s' out_dir str suffix).2))

-- `signal_handler`, on the global pointers `sampler` and `recorder`.
pub stop_sampler : Option Sampler → Option Sampler
stop_sampler none = none
stop_sampler (some s) = some (stop s)

-- The two statements of `recorder->stop()`, with no step of another thread between them.
pub stop_recorder : {A : Type 0} → Option (Recorder A) → Option (Recorder A)
stop_recorder none = none
stop_recorder (some r) = exec r (stop_set ∷ stop_notify ∷ [])

-- The parsed arguments of `main`.
pub record Args : Type 0 where
  pub help : Bool
  pub config : Option Text
  pub daemon : Bool

pub data Exit : Type 0 where
  exit_success exit_failure : Exit

-- What `main` does up to the reading of the configuration file: it ends, or goes on with the file's
-- name. The parser may throw; `daemon_fails` is what `daemon(0, 0)` returns.
pub start : Result Text Args → Bool → Result Exit Text
start (err what) daemon_fails = err exit_failure
start (ok args) daemon_fails = if args.help then err exit_success else elim args.config [
  | none ↦ err exit_failure
  | some config_file ↦
      if args.daemon
      then (if daemon_fails then err exit_failure else ok config_file)
      else ok config_file
]

-- What the constructors that `main` calls may throw, by the step: the logger, the serializer, the
-- sender, the sensor, the handlers of the two signals. (The file of the process id is written
-- through a stream that does not throw, and the detector and the sampler are only constructed.)
pub record Attempts : Type 0 where
  pub make_logger : Logger → Result Text (Unit {0})
  pub make_serializer : Result Text (Unit {0})
  pub make_sender : Text → Result Text (Unit {0})
  pub make_sensor : Text → Result Text (Unit {0})
  pub handle_sigterm : Result Text (Unit {0})
  pub handle_sigint : Result Text (Unit {0})

-- Where the message of an exception goes: to the logger if there is one, else to the standard output.
pub data Message : Type 0 where
  logged printed : Text → Message

abbrev pub catch : (Text → Message) → Result Text (Unit {0}) → Result Message (Unit {0})
catch where_to (ok u) = ok u
catch where_to (err what) = err (where_to what)

-- `reserve` throws for a negative size.
abbrev pub made_recorder : {A : Type 0} → Option (Recorder A) → Result Text (Unit {0})
made_recorder none = err (codes "vector::reserve")
made_recorder (some r) = ok tt

-- What `main` constructs from the configuration before the detector, in this order.
pub prepared : Attempts → Config → Result Message (Unit {0})
prepared try_to cfg = do
  catch printed (try_to.make_logger cfg.logging_logger)
  catch logged try_to.make_serializer
  (if cfg.offline_mode then ok tt else catch logged (try_to.make_sender cfg.iothub_conn_string))
  catch logged (try_to.make_sensor cfg.sensor_device_file)

-- What may fail once the detector is there: the recorder, and the handlers of the signals.
pub equipped : Attempts → Config → Result Message (Unit {0})
equipped try_to cfg = do
  catch logged (made_recorder (init (Unit {0}) cfg.iothub_bucket_size))
  catch logged try_to.handle_sigterm
  catch logged try_to.handle_sigint
