-- ===== src/Main/Process/Tests.antt =====
-- Endings of the process, and the theorem on them.
use csnd.Prelude.{ℕ, ◌≡◌, refl, true, false, some, [], ◌∷◌, Text, codes, Result, ok, err}
use csnd.Prelude.Int.{pos}
use csnd.OutputFile.Disk.{Disk, empty_disk}
use csnd.AvroCpp.Plain.{sample}
use csnd.Config.{Config, trace, console_logger}
use csnd.Recorder.{finished}
use csnd.Float.Naturals.{naturals}
use csnd.Main.{Args, exit_success, exit_failure, Attempts}
use csnd.Main.Sampling.Samples.{small_recorder}
use csnd.Main.Pool.{Daemon}
use csnd.Main.Pool.Delivery.{start_daemon}
use csnd.Main.Process.{
  Ending, exits, aborts, undefined_behaviour, Run, sensor_throws, joined, and_then, end_of, begun,
  process,
}

abbrev cfg : Config
cfg = record {
  offline_mode = true;
  pid_file = codes "csnd.pid";
  out_dir = codes "out";
  logging_level = trace;
  logging_logger = console_logger;
  logging_file_settings_filename = codes "csnd.log";
  logging_file_settings_max_file_size = 1000;
  logging_file_settings_max_files = 4;
  sensor_device_file = codes "/dev/tty";
  iothub_conn_string = codes "c";
  device_id = codes "dev7";
  iothub_bucket_size = pos 500;
}

-- Only the sender fails, which offline mode does not make.
abbrev try_to : Attempts
try_to = record {
  make_logger = λ logger. ok tt;
  make_serializer = ok tt;
  make_sender = λ conn_string. err (codes "no hub");
  make_sensor = λ device_file. ok tt;
  handle_sigterm = ok tt;
  handle_sigint = ok tt;
}

abbrev load : Text → Result Text Config
load config_file = ok cfg

abbrev args : Args
args = record { help = false; config = some (codes "csnd.yml"); daemon = false }

-- The recorder's thread has ended, its one batch is in a file, and the detector has run its task.
abbrev at_end : Daemon ℕ (Unit {0}) Disk
at_end =
    let d = start_daemon small_recorder (codes "dev") tt empty_disk in
    record d {
      program = record d.program {
        recorder = record small_recorder {
          stop = true;
          runner = finished;
          queued = (sample ∷ []) ∷ [];
        };
        pushed = 1;
      };
    }

-- With no sample at all.
abbrev at_once : Daemon ℕ (Unit {0}) Disk
at_once = record at_end {
  program = record at_end.program {
    recorder = record small_recorder { stop = true; runner = finished };
    pushed = 0;
  };
}

abbrev process_of : Attempts → Run ℕ (Unit {0}) Disk → Ending
process_of attempts run = process load attempts run (ok args) true

endings :
    (process_of try_to (joined at_end at_end) ≡ exits exit_success)
    × (process_of try_to sensor_throws ≡ aborts)
    × (process_of try_to (joined at_once at_once) ≡ undefined_behaviour)
    × (process_of (record try_to { handle_sigint = err (codes "no") }) (joined at_end at_end)
        ≡ undefined_behaviour)
    × (process_of (record try_to { make_sensor = λ file. err (codes "no") }) (joined at_end at_end)
        ≡ exits exit_failure)
unfolding process csnd.Main.start csnd.Main.prepared csnd.Main.equipped csnd.Recorder.init end_of
    begun and_then csnd.Main.Pool.join csnd.Main.Pool.destroy_recorder
    csnd.Main.Sampling.destroy_detector csnd.Main.Sampling.start_with csnd.Recorder.join
endings = (refl, refl, refl, refl, refl)
