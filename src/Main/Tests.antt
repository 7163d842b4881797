-- ===== src/Main/Tests.antt =====
-- The handlers and the ends of `main` on concrete parameters, and the theorems applied to them.
use csnd.Prelude.{none, ℕ, ◌≡◌, refl, inr, Bool, true, false, some, List, [], ◌∷◌, Text, codes, ok}
use csnd.OutputFile.Record.{with_dir, file_name, written}
use csnd.OutputFile.Disk.{Disk, disk, empty_disk}
use csnd.AvroCpp.{AvroRecord, deflate_codec, init}
use csnd.AvroCpp.Roundtrip.{read_file}
use csnd.AvroCpp.Calls.{file_of}
use csnd.AvroCpp.Plain.{sample, sample-Fits, plain, plain-IsInverse}
use csnd.Recorder
use csnd.Recorder.{
  run_check, run_test, run_enqueue, appended, finished, Recorder, asleep, checking, waiting, idle,
  push_append, push_notify, stop_set,
}
use csnd.Float.Whole.{whole}
use csnd.Iothub.{Hub, IsPrompt}
use csnd.Main.{stop_sampler, stop_recorder, Request, flush, perform, Performed, recorded}
use csnd.Serializer.Both.{avrocpp}
use csnd.Main.Flush.{flush-offline}

-- A hub that delivers nothing.
abbrev hub : Hub Disk
hub = record { hub_send = λ s prop payload fallback. (ok true, fallback s) }

abbrev hub-IsPrompt : IsPrompt hub
hub-IsPrompt = record {
  deliver = λ s prop payload. (false, s);
  send-settled = λ s prop payload fallback. refl;
}

abbrev blank : AvroRecord ℕ
blank = record { x = 0; y = 0; z = 0; sample_count = 0; start_time = 0; end_time = 0 }

abbrev disk_after : Performed → Text → Bool → List ℕ → Performed × Disk
disk_after outcome suffix binary content =
    let s1 = with_dir disk empty_disk (codes "out") in
    (outcome, written disk (disk.now s1).1 (file_name disk s1 (codes "out") suffix) binary content)

flush-offline_example :
    (request : Request) × (content : List ℕ) × ((flush
        (avrocpp plain)
        true
        (init plain deflate_codec 5)
        (sample ∷ [])).0
      ≡ ok request)
    × (perform disk hub empty_disk (codes "out") request
        ≡ disk_after (recorded true) (codes ".avro") true content)
    × (read_file plain blank content ≡ ok (file_of plain deflate_codec 0 (sample ∷ [])))
flush-offline_example =
    flush-offline plain plain-IsInverse disk hub 5 [] sample [] blank empty_disk (codes "out")
      sample-Fits (inr refl)

abbrev sleeping : Recorder ℕ
sleeping = record {
  bucket_size = 2;
  stop = false;
  bucket = 7 ∷ [];
  runner = asleep;
  pusher = idle;
  notifying = false;
  queued = [];
}

-- A signal stops what is there: before `run` there is no recorder and no sampler.
signals :
    (stop_sampler none ≡ none)
    × (stop_sampler (some (record { stop = false; joinable = true }))
        ≡ some (record { stop = true; joinable = true }))
    × (stop_recorder (some sleeping) ≡ some (record sleeping { stop = true; runner = waiting }))
unfolding stop_sampler csnd.Sampler.stop stop_recorder csnd.Recorder.exec csnd.Recorder.step
signals = (refl, refl, refl)
