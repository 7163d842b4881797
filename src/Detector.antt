-- ===== src/Detector.antt =====
-- detector/sta_lta_ratio/slr.hpp and slr.cpp: the class `detector_slr`. `push` queues a task on a
-- thread pool of one thread, so the tasks run one after the other in the order of the calls:
-- `task` is the body of one.
pub mod Reference
pub mod Refine
pub mod Trigger
pub mod Loop
pub mod Window
pub mod Run
pub mod Next
mod Tests
use csnd.Prelude.{
  ℕ, zero, suc, ◌+◌, ◌∷◌, ◌++◌, Bool, false, ◌&&◌, Option, none, some, Text, codes, to_string, ltb,
  ◌==◌, if◌then◌else◌, Result, ok, ◌>>=◌,
}
use csnd.Float.{Float}
use csnd.Accel.{AccelRecord, millis}
use csnd.CircularBuffer
use csnd.CircularBuffer.{Buffer, Error}

abbrev pub lta_bucket_size : ℕ
lta_bucket_size = 500

abbrev pub sta_bucket_size : ℕ
sta_bucket_size = 150

abbrev pub sta_lta_ratio : ℕ
sta_lta_ratio = 3

abbrev pub trigger_threshold : ℕ
trigger_threshold = 3

-- `callback` says whether the callback has been set.
pub record Detector (F : Type 0) : Type 0 where
  pub device_id : Text
  pub lt_buf : Buffer (AccelRecord F)
  pub lt_acc : F
  pub trigger_count : ℕ
  pub callback : Bool

module _ {F : Type 0} ⦃float : Float F⦄ where
  -- The constructor: no callback is set yet.
  unfoldable pub init : Text → Detector F
  init device_id = record {
    device_id = device_id;
    lt_buf = CircularBuffer.init (AccelRecord F) lta_bucket_size;
    lt_acc = float.of_nat 0;
    trigger_count = 0;
    callback = false;
  }

  -- The JSON text of an event.
  pub event : Text → AccelRecord F → F → F → Text
  event device_id ar sta lta =
      codes "{\"type\":\"quake\",\"method\":\"sta-lta-ratio\","
      ++ (codes "\"deviceId\":\"" ++ (device_id ++ codes "\","))
      ++ (codes "\"time\":" ++ (to_string (millis ar.start_time) ++ codes ","))
      ++ (codes "\"data\":{\"sta\":"
          ++ (float.show sta ++ (codes ",\"lta\":" ++ (float.show lta ++ codes "}}"))))

  -- `fabs(_lt_buf[i]->z - offset)` for one sample.
  abbrev pub deviation : F → AccelRecord F → F
  deviation offset ar = float.fabs (float.sub ar.z offset)

  -- `for (int i = n - 1; i >= 0; i--)` over the buffer; the result is `st_sum` and `lt_sum`.
  pub sum_loop : Buffer (AccelRecord F) → F → ℕ → F → F → Result Error (F × F)
  sum_loop b offset zero st_sum lt_sum = ok (st_sum, lt_sum)
  sum_loop b offset (suc i) st_sum lt_sum = CircularBuffer.get b i >>= λ ar.
      let lt_sum' = float.add lt_sum (deviation offset ar) in
      sum_loop b offset i (if i == sta_bucket_size then lt_sum' else st_sum) lt_sum'

  -- The tests on `sta` and `lta`, and what is passed to the callback.
  pub trigger : Detector F → AccelRecord F → F → F → Option Text × Detector F
  trigger d ar sta lta =
      if float.ne sta (float.of_nat 0) && float.ne lta (float.of_nat 0)
      then (if float.gt sta (float.mul lta (float.of_nat sta_lta_ratio))
          then (if ltb trigger_threshold (d.trigger_count + 1)
              then (
                (if d.callback then some (event d.device_id ar sta lta) else none),
                record d { trigger_count = 0 },
              )
              else (none, record d { trigger_count = d.trigger_count + 1 }))
          else (none, record d { trigger_count = 0 }))
      else (none, d)

  -- What follows once the buffer spills.
  pub evaluate : Detector F → AccelRecord F → Result Error (Option Text × Detector F)
  evaluate d ar =
      sum_loop d.lt_buf (float.div d.lt_acc (float.of_nat lta_bucket_size)) lta_bucket_size
        (float.of_nat 0) (float.of_nat 0)
      >>= λ s. ok (
          trigger d ar (float.div s.0 (float.of_nat sta_bucket_size))
            (float.div s.1 (float.of_nat lta_bucket_size)))

  -- `olar` is null until the buffer is full.
  unfoldable pub after_push :
      Detector F → AccelRecord F → Option (AccelRecord F) → Result Error (Option Text × Detector F)
  after_push d ar none = ok (none, d)
  after_push d ar (some olar) = evaluate (record d { lt_acc = float.sub d.lt_acc olar.z }) ar

  unfoldable pub task : Detector F → AccelRecord F → Result Error (Option Text × Detector F)
  task d ar = CircularBuffer.push d.lt_buf ar >>= λ r.
      after_push (record d { lt_acc = float.add d.lt_acc ar.z; lt_buf = r.1 }) ar r.0
