-- ===== src/Main/Pool/Tests.antt =====
-- A sample on its way to the disk, and the theorems on the pool applied to it.
use csnd.Prelude.{
  ℕ, ◌≤◌, ◌≡◌, refl, true, false, none, some, List, [], ◌∷◌, ◌++◌, concat, map, Text, codes,
  to_string, ok, err, ◌⊎◌, replicate, All,
}
use csnd.Accel.{AccelRecord}
use csnd.AvroCpp.{Error, Impl, to_avro, deflate_codec, init, serialize}
use csnd.AvroCpp.Calls
use csnd.AvroCpp.Calls.{init-IsMade}
use csnd.AvroCpp.Plain.{sample, sample-Fits, plain, plain-IsInverse}
use csnd.Float.Naturals.{naturals}
use csnd.Serializer.Both.{avrocpp, IsInUse, avrocpp-IsSerializer}
use csnd.OutputFile.Disk.{Disk, disk, empty_disk, find, disk-IsFileSystem, IsUsable, disk-IsWorking}
use csnd.Iothub.{IsPrompt, Hub}
use csnd.Recorder.{
  Recorder, finished, run_check, run_test, run_enqueue, push_append, push_notify, checking, idle,
}
use csnd.Main.Sampling.{Program, undefined, returns, begin_sample, recorder_step, end_sample}
use csnd.Detector.Reference.{watch_all, first_watch, text_of}
use csnd.Main.Sampling.Delivery.{made_detector}
use csnd.Main.Sampling.Files.{serialize_all, read_all}
use csnd.Main.Sampling.Samples.{blank, small_recorder}
use csnd.Main.Pool.{
  Task, write_data, Daemon, Step, program_turn, run_next, steps, step, flush_batch, join,
  destroy_recorder,
}
use csnd.Main.Pool.Tasks.{oks, store_all}
use csnd.Main.Pool.Saved.{contents_with, IsElsewhere, IsFound, saved}
use csnd.Main.Pool.Drain.{steps-drain}
use csnd.Main.Pool.Shutdown.{IsBackground, with_recorder, stop-joins}
use csnd.Main.Pool.Ending.{join-unwritten}
use csnd.Main.Pool.Delivery.{start_daemon, steps-disk}

abbrev quiet : Hub Disk
quiet = record { hub_send = λ s prop payload fallback. (ok false, s) }

-- One sample becomes a batch, which is flushed and written.
abbrev one_batch : List (Step ℕ)
one_batch =
    program_turn (begin_sample sample)
    ∷ program_turn (recorder_step push_append)
    ∷ program_turn (recorder_step push_notify)
    ∷ program_turn (recorder_step run_check)
    ∷ program_turn (recorder_step run_test)
    ∷ program_turn end_sample
    ∷ program_turn (recorder_step run_enqueue)
    ∷ run_next
    ∷ run_next
    ∷ []

abbrev content : List ℕ
content =
    concat (oks (serialize_all (avrocpp plain) ((sample ∷ []) ∷ []) (init plain deflate_codec 5)).0)

abbrev after_batch : Daemon ℕ (Impl ℕ) Disk
after_batch = record {
  program = record {
    recorder = record small_recorder { queued = (sample ∷ []) ∷ [] };
    sampling = none;
    pending = sample ∷ [];
    pushed = 1;
    detector = made_detector (codes "dev");
    events = [];
  };
  pool = record {
    tasks = [];
    serializer =
        (serialize_all (avrocpp plain) ((sample ∷ []) ∷ []) (init plain deflate_codec 5)).1;
    world = (true, true, 43, (codes "out/42.avro", content) ∷ []);
  };
}

one_batch-run :
    steps
      (avrocpp plain)
      disk
      quiet
      true
      (codes "out")
      (start_daemon small_recorder (codes "dev") (init plain deflate_codec 5) empty_disk)
      one_batch
    ≡ some after_batch
unfolding steps csnd.Main.Sampling.turn csnd.Main.Sampling.start_with csnd.Recorder.step
    serialize_all csnd.Main.flush csnd.OutputFile.record_bytes to_string csnd.AvroCpp.init
    csnd.AvroCpp.serialize
one_batch-run = refl

steps-disk_example :
    (tasks : List (Task ℕ)) × (archived late seen : List (AccelRecord ℕ)) × (after_batch.pool.world
      ≡ store_all disk (codes "out") tasks empty_disk)
    × IsFound (codes "out") find after_batch.pool.world (saved disk (codes "out") tasks empty_disk)
    × ((name : Text)
        → IsElsewhere (codes "out") name (saved disk (codes "out") tasks empty_disk)
        → find after_batch.pool.world name ≡ find empty_disk name)
    × (read_all plain blank
          (contents_with (codes ".avro") (saved disk (codes "out") tasks empty_disk))
        ≡ ok (map to_avro archived))
    × (archived ++ late ≡ sample ∷ [])
    × (late ≡ [])
    × (seen ++ sample ∷ [] ≡ sample ∷ [])
    × (contents_with (codes "_quake.json") (saved disk (codes "out") tasks empty_disk)
        ≡ map (text_of (codes "dev")) (watch_all first_watch seen).0)
unfolding csnd.Recorder.init
steps-disk_example =
    steps-disk plain deflate_codec (avrocpp plain) (IsInUse plain deflate_codec)
      (Calls.Fits plain deflate_codec) (avrocpp-IsSerializer plain plain-IsInverse deflate_codec)
      disk find disk-IsFileSystem (codes "out") IsUsable (disk-IsWorking (codes "out")) quiet 1
      (codes "dev") one_batch small_recorder after_batch (init plain deflate_codec 5) empty_disk
      blank refl one_batch-run refl (0, init-IsMade plain deflate_codec 5) (sample-Fits, tt) refl

-- The recorder has stopped, and its last batch waits to be flushed.
abbrev stopped : Daemon ℕ (Impl ℕ) Disk
stopped = record {
  program = record after_batch.program {
    recorder = record small_recorder {
      stop = true;
      runner = finished;
      queued = (sample ∷ []) ∷ [];
    };
  };
  pool = record {
    tasks = flush_batch (sample ∷ []) ∷ [];
    serializer = init plain deflate_codec 5;
    world = empty_disk;
  };
}

abbrev flushed_last : Daemon ℕ (Impl ℕ) Disk
flushed_last = record stopped {
  pool = record {
    tasks = write_data content (codes ".avro") ∷ [];
    serializer = after_batch.pool.serializer;
    world = empty_disk;
  };
}

steps-drain_example :
    (k : ℕ) × (d' : Daemon ℕ (Impl ℕ) Disk) × (k ≤ 2)
    × (steps (avrocpp plain) disk quiet true (codes "out") stopped (replicate k run_next) ≡ some d')
    × (d'.pool.tasks ≡ [])
    × (d'.program ≡ stopped.program)
steps-drain_example = steps-drain (avrocpp plain) disk quiet true (codes "out") stopped

join-unwritten_example :
    (b : List (AccelRecord ℕ)) × (rest : List (Task ℕ)) × (stopped.pool.tasks
      ≡ flush_batch b ∷ rest)
    × (((e : Error) × ((serialize plain stopped.pool.serializer (some b)).0 ≡ err e))
        ⊎ ((made : List ℕ) × ((serialize plain stopped.pool.serializer (some b)).0 ≡ ok made)
            × (flushed_last.pool.tasks ≡ rest ++ write_data made (codes ".avro") ∷ [])
            × (flushed_last.pool.world ≡ stopped.pool.world)
            × (destroy_recorder flushed_last ≡ undefined)))
unfolding step join csnd.Recorder.join serialize_all csnd.Main.flush csnd.AvroCpp.init serialize
join-unwritten_example =
    join-unwritten (avrocpp plain) disk quiet (codes "out") stopped flushed_last refl refl refl

-- A hub that delivers nothing: the batch goes to a file.
abbrev deaf : Hub Disk
deaf = record { hub_send = λ s prop payload fallback. (ok true, fallback s) }

abbrev deaf-IsPrompt : IsPrompt deaf
deaf-IsPrompt = record {
  deliver = λ s prop payload. (false, s);
  send-settled = λ s prop payload fallback. refl;
}

abbrev after_fallback : Daemon ℕ (Impl ℕ) Disk
after_fallback = record after_batch {
  pool = record after_batch.pool { world = (true, true, 43, (codes "out/42avro", content) ∷ []) };
}

abbrev stopping : Recorder (AccelRecord ℕ)
stopping = record small_recorder { stop = true; queued = (sample ∷ []) ∷ [] }

stop-joins_example :
    (l : List (Step ℕ)) × (d' : Daemon ℕ (Impl ℕ) Disk) × All IsBackground l
    × (steps
          (avrocpp plain)
          disk
          quiet
          true
          (codes "out")
          (with_recorder after_batch.program stopping after_batch.pool)
          l
        ≡ some d')
    × (d'.program.recorder.runner ≡ finished)
    × (d'.pool.tasks ≡ [])
    × (((d'.program.recorder.queued ≡ []) × (join d' ≡ undefined)) ⊎ (join d' ≡ returns))
    × (destroy_recorder d' ≡ returns)
unfolding csnd.Recorder.exec csnd.Recorder.step
stop-joins_example =
    stop-joins (avrocpp plain) disk quiet true (codes "out") after_batch stopping (λ e. cc) refl
