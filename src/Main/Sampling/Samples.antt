-- ===== src/Main/Sampling/Samples.antt =====
-- What the tests of the whole program start from.
use csnd.Prelude.{ℕ, false, []}
use csnd.Accel.{AccelRecord}
use csnd.AvroCpp.{AvroRecord}
use csnd.Recorder.{Recorder, checking, idle}

abbrev pub blank : AvroRecord ℕ
blank = record { x = 0; y = 0; z = 0; sample_count = 0; start_time = 0; end_time = 0 }

abbrev pub small_recorder : Recorder (AccelRecord ℕ)
small_recorder = record {
  bucket_size = 1;
  stop = false;
  bucket = [];
  runner = checking;
  pusher = idle;
  notifying = false;
  queued = [];
}
