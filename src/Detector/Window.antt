-- ===== src/Detector/Window.antt =====
-- One task of the detector, by the window of samples that its buffer holds.
use csnd.Prelude.{
  ◌≤◌, ◌<◌, ◌≡◌, ap, ◌∙◌, none, List, [], ◌∷◌, ◌++◌, length, drop, arith, length-append,
  length-drop, ok, Text,
}
use csnd.Float.{Float}
use csnd.Accel.{AccelRecord}
use csnd.CircularBuffer.{Buffer, Error}
use csnd.CircularBuffer
use csnd.CircularBuffer.Contents.{contents}
use csnd.CircularBuffer.Invariant
use csnd.CircularBuffer.Refine.{push_room, push_full}
use csnd.Detector.{
  Detector, lta_bucket_size, sta_bucket_size, init, trigger, evaluate, after_push, task,
}
use csnd.Detector.Loop.{deviations, sum_loop_lem}

module _ {F : Type 0} ⦃float : Float F⦄ where
  pub record IsValid (d : Detector F) : Type 0 where
    pub buffer : Invariant.IsValid d.lt_buf
    pub sized : d.lt_buf.capacity ≡ lta_bucket_size
    pub count : d.trigger_count ≤ 3

  pub init-IsValid : (device_id : Text) → IsValid (init device_id)
  unfolding init CircularBuffer.init
  init-IsValid device_id = ground arith

  -- The mean that is taken off every sample, and the two averages over a window.
  abbrev pub mean : F → F
  mean acc = float.div acc (float.of_nat lta_bucket_size)

  abbrev pub sta : F → List (AccelRecord F) → F
  sta acc ws =
      float.div (deviations (mean acc) (float.of_nat 0) (drop sta_bucket_size ws))
        (float.of_nat sta_bucket_size)

  abbrev pub lta : F → List (AccelRecord F) → F
  lta acc ws = float.div (deviations (mean acc) (float.of_nat 0) ws) (float.of_nat lta_bucket_size)

  evaluate_lem :
      (d : Detector F) (ar : AccelRecord F) (ws : List (AccelRecord F))
      → Invariant.IsValid d.lt_buf
      → contents d.lt_buf ≡ ws
      → length ws ≡ lta_bucket_size
      → evaluate d ar ≡ ok (trigger d ar (sta d.lt_acc ws) (lta d.lt_acc ws))
  unfolding evaluate
  evaluate_lem d ar ws valid held full =
      rw
        (sum_loop_lem d.lt_buf valid (mean d.lt_acc) lta_bucket_size (omega (arith, ap length held))
          (omega arith))
        (ap (λ xs. ok (trigger d ar (sta d.lt_acc xs) (lta d.lt_acc xs))) held)

  -- The state when the new sample is in the buffer and in the sum, before anything is taken out.
  abbrev pub filled : Detector F → AccelRecord F → Buffer (AccelRecord F) → Detector F
  filled d ar b = record d { lt_acc = float.add d.lt_acc ar.z; lt_buf = b }

  -- The state when the oldest sample has been taken out of the sum.
  abbrev pub turned :
      Detector F → AccelRecord F → AccelRecord F → Buffer (AccelRecord F) → Detector F
  turned d ar old b = record d { lt_acc = float.sub (float.add d.lt_acc ar.z) old.z; lt_buf = b }

  -- A valid buffer of the detector's size that holds these samples.
  pub record Holds (b : Buffer (AccelRecord F)) (ws : List (AccelRecord F)) : Type 0 where
    pub valid : Invariant.IsValid b
    pub sized : b.capacity ≡ lta_bucket_size
    pub held : contents b ≡ ws

  -- With fewer than 500 samples in the buffer a task throws nothing and sends no event: it adds the
  -- sample to the window and its `z` to the sum, and changes nothing else.
  pub task_fills :
      (d : Detector F) (ar : AccelRecord F)
      → IsValid d
      → length (contents d.lt_buf) < lta_bucket_size
      → (b : Buffer (AccelRecord F)) × Holds b (contents d.lt_buf ++ ar ∷ [])
        × (task d ar ≡ ok (none, filled d ar b))
  unfolding task after_push
  task_fills d ar v room =
      let (b, pushed, valid, same, held) =
        push_room d.lt_buf ar v.buffer (omega (arith, v.sized)) in
      (b, record { valid = valid; sized = same ∙ v.sized; held = held }, rw pushed)

  -- With 500 samples in the buffer a task throws nothing: the window loses its oldest sample and
  -- gains the new one, the sum follows, and the trigger sees the two averages over the new window,
  -- of which the short one is 1/150 of the sum over the 350 newest samples.
  pub task_turns :
      (d : Detector F) (ar old : AccelRecord F) (rest : List (AccelRecord F))
      → IsValid d
      → contents d.lt_buf ≡ old ∷ rest
      → length (contents d.lt_buf) ≡ lta_bucket_size
      → (b : Buffer (AccelRecord F)) × Holds b (rest ++ ar ∷ [])
        × (task d ar
            ≡ ok (
                trigger
                  (turned d ar old b)
                  ar
                  (sta (turned d ar old b).lt_acc (rest ++ ar ∷ []))
                  (lta (turned d ar old b).lt_acc (rest ++ ar ∷ []))))
        × (length (drop sta_bucket_size (rest ++ ar ∷ [])) ≡ 350)
  unfolding task after_push
  task_turns d ar old rest v window full =
      let (b, pushed, valid, same, held) =
        push_full d.lt_buf ar old rest v.buffer window (omega (arith, v.sized)) in
      let size : length (rest ++ ar ∷ []) ≡ lta_bucket_size =
        omega (arith, length-append rest (ar ∷ []), ap length window) in
      (
        b,
        record { valid = valid; sized = same ∙ v.sized; held = held },
        rw pushed (evaluate_lem (turned d ar old b) ar (rest ++ ar ∷ []) valid held size),
        omega (arith, length-drop sta_bucket_size (rest ++ ar ∷ []), size),
      )
