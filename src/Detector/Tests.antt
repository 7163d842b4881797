-- ===== src/Detector/Tests.antt =====
-- Runs of the detector on whole numbers, and its theorems applied to them.
use csnd.Prelude.{
  map, ◌*◌, ◌≤◌, ◌≡◌, refl, inl, true, List, [], ◌∷◌, ◌++◌, length, arith, drop, replicate,
  length-replicate, codes, to_string, Text, ok,
}
use csnd.Prelude.Int.{ℤ, pos}
use csnd.Float.Whole.{whole}
use csnd.Accel.{AccelRecord}
use csnd.CircularBuffer.{Buffer}
use csnd.CircularBuffer.Contents.{contents}
use csnd.CircularBuffer.Invariant
use csnd.Detector.{event, Detector, init, trigger, task}
use csnd.Detector.Window.{IsValid, Holds, turned, sta, lta, task_turns}
use csnd.Detector.Reference.{watch_all, first_watch, text_of}
use csnd.Detector.Refine.{IsAt, run_refines}
use csnd.Detector.Run.{run, run-init, listening}

abbrev sample_of : ℤ → AccelRecord ℤ
sample_of z = record {
  x = pos 0;
  y = pos 0;
  z = z;
  sample_count = 8;
  start_time = 1500000000;
  end_time = 1520000000;
}

-- A full window, and the detector on it.
abbrev window : List (AccelRecord ℤ)
window = sample_of (pos 9) ∷ replicate 499 (sample_of (pos 10))

length-window : length window ≡ 500
length-window = omega (arith, length-replicate 499 (sample_of (pos 10)))

abbrev full_buffer : Buffer (AccelRecord ℤ)
full_buffer = record { buf = window; idx_zero = 0; capacity = 500 }

full_buffer-IsValid : Invariant.IsValid full_buffer
full_buffer-IsValid = record {
  in_range = omega arith;
  fits = omega arith;
  unmoved = inl refl;
  small = omega arith;
}

abbrev ready : Detector ℤ
ready = record {
  device_id = codes "dev";
  lt_buf = full_buffer;
  lt_acc = pos 4999;
  trigger_count = 2;
  callback = true;
}

ready-IsValid : IsValid ready
ready-IsValid = record { buffer = full_buffer-IsValid; sized = refl; count = omega arith }

run-init_example :
    (es : List Text) × (d : Detector ℤ) × (out : List (AccelRecord ℤ)) × (run
        (listening (codes "dev"))
        (sample_of (pos 9) ∷ [])
      ≡ ok (es, d))
    × IsValid d
    × (out ++ contents d.lt_buf ≡ sample_of (pos 9) ∷ [])
    × (length (contents d.lt_buf) ≡ 1)
    × (4 * length es ≤ 0)
run-init_example = run-init (codes "dev") (sample_of (pos 9) ∷ [])

task_turns_example :
    let ar = sample_of (pos 40) in
    let ws = replicate 499 (sample_of (pos 10)) ++ ar ∷ [] in
    (b : Buffer (AccelRecord ℤ)) × Holds b ws
    × (task ready ar
        ≡ ok (
            trigger
              (turned ready ar (sample_of (pos 9)) b)
              ar
              (sta (turned ready ar (sample_of (pos 9)) b).lt_acc ws)
              (lta (turned ready ar (sample_of (pos 9)) b).lt_acc ws)))
    × (length (drop 150 ws) ≡ 350)
task_turns_example =
    task_turns ready (sample_of (pos 40)) (sample_of (pos 9)) (replicate 499 (sample_of (pos 10)))
      ready-IsValid refl refl

event_text :
    event (codes "dev7") (sample_of (pos 3)) (pos 9) (pos 2)
    ≡ codes
        "{\"type\":\"quake\",\"method\":\"sta-lta-ratio\",\"deviceId\":\"dev7\",\"time\":1500,\"data\":{\"sta\":9,\"lta\":2}}"
unfolding event to_string
event_text = refl

run_refines_example :
    let (alarms, w) = watch_all first_watch (sample_of (pos 9) ∷ sample_of (pos 7) ∷ []) in
    (d : Detector ℤ) × (run
        (record (init (codes "dev")) { callback = true })
        (sample_of (pos 9) ∷ sample_of (pos 7) ∷ [])
      ≡ ok (map (text_of (codes "dev")) alarms, d))
    × IsAt (codes "dev") d w
run_refines_example = run_refines (codes "dev") (sample_of (pos 9) ∷ sample_of (pos 7) ∷ [])
