-- ===== src/Detector/Refine.antt =====
-- The detector refines its reference, over any history of samples.
use csnd.Prelude.{
  ◌%◌, ◌≡◌, refl, sym, ap, subst, ◌∙◌, Bool, true, false, Option, none, some, List, [], ◌∷◌, ◌++◌,
  length, arith, dec_lt, ltb, if◌then◌else◌, lt→ltb, le→ltb, map, ok, ok-inj, Text,
}
use csnd.Float.{Float}
use csnd.Accel.{AccelRecord}
use csnd.CircularBuffer
use csnd.CircularBuffer.{Buffer}
use csnd.CircularBuffer.Contents.{contents, length-contents}
use csnd.Detector.{Detector, lta_bucket_size, trigger, task, init}
use csnd.Detector.Trigger.{sent, trigger-bounds}
use csnd.Detector.Window.{IsValid, filled, turned, sta, lta, task_fills, task_turns, init-IsValid}
use csnd.Detector.Run.{list-cases, run}
use csnd.Detector.Reference.{
  Watch, Alarm, judge, slide, watch, alarms_of, watch_all, text_of, first_watch,
}

module _ {F : Type 0} ⦃float : Float F⦄ where
  -- The detector, with its callback set, is at the state of the reference.
  pub record IsAt (device_id : Text) (d : Detector F) (w : Watch F) : Type 0 where
    pub valid : IsValid d
    pub window : contents d.lt_buf ≡ w.window
    pub sum : d.lt_acc ≡ w.sum
    pub streak : d.trigger_count ≡ w.streak % 4
    pub callback : d.callback ≡ true
    pub device : d.device_id ≡ device_id

  abbrev reported : Text → Option (Alarm F) → Option Text
  reported device_id none = none
  reported device_id (some a) = some (text_of device_id a)

  trigger-judge :
      (d : Detector F) (w : Watch F) (ar : AccelRecord F) (short long : F)
      → d.trigger_count ≡ w.streak % 4
      → d.callback ≡ true
      → let (e, d') = trigger d ar short long in
        let (alarm, w') = judge w ar short long in
        (e ≡ reported d.device_id alarm)
        × (d'.trigger_count ≡ w'.streak % 4)
        × (d'.callback ≡ true)
        × (d'.device_id ≡ d.device_id)
        × (d'.lt_buf ≡ d.lt_buf)
        × (d'.lt_acc ≡ d.lt_acc)
        × (w'.window ≡ w.window)
        × (w'.sum ≡ w.sum)
  unfolding trigger
  trigger-judge d w ar short long count callback = ground arith

  abbrev AtEnd : Text → Option (Alarm F) × Watch F → Option Text × Detector F → Type 0
  AtEnd device_id (alarm, w) (e, d) = (e ≡ reported device_id alarm) × IsAt device_id d w

  judge-IsAt :
      (device_id : Text) (d : Detector F) (w : Watch F) (ar : AccelRecord F) (short long : F)
      → IsAt device_id d w
      → AtEnd device_id (judge w ar short long) (trigger d ar short long)
  judge-IsAt device_id d w ar short long at =
      let (e, count, callback, device, buf, acc, window, sum) =
        trigger-judge d w ar short long at.streak at.callback in
      let (_, _, counted_on) = trigger-bounds d ar short long at.valid.count in
      (
        e ∙ ap (λ id. reported id (judge w ar short long).0) at.device,
        record {
          valid = record {
            buffer = rw buf at.valid.buffer;
            sized = ap (λ (b : Buffer (AccelRecord F)). b.capacity) buf ∙ at.valid.sized;
            count = counted_on;
          };
          window = ap contents buf ∙ at.window ∙ sym window;
          sum = acc ∙ at.sum ∙ sym sum;
          streak = count;
          callback = callback;
          device = device ∙ at.device;
        },
      )

  -- `watch` by what its test says.
  abbrev late_watch : Watch F → AccelRecord F → Bool → Option (Alarm F) × Watch F
  late_watch w ar early =
      if early
      then (none, record w { window = w.window ++ ar ∷ []; sum = float.add w.sum ar.z })
      else slide w.window w ar

  sent-reported :
      (device_id : Text) (alarm : Option (Alarm F)) (alarms : List (Alarm F))
      → sent (reported device_id alarm) ++ map (text_of device_id) alarms
        ≡ map (text_of device_id) (alarms_of alarm ++ alarms)
  sent-reported device_id none alarms = refl
  sent-reported device_id (some a) alarms = refl

  -- One task is one step of the reference.
  task-IsAt :
      (device_id : Text) (d : Detector F) (w : Watch F) (ar : AccelRecord F)
      → IsAt device_id d w
      → (e : Option Text) × (d' : Detector F) × (task d ar ≡ ok (e, d'))
        × AtEnd device_id (watch w ar) (e, d')
  unfolding watch
  task-IsAt device_id d w ar at = elim (dec_lt (length (contents d.lt_buf)) lta_bucket_size) [
    | yes room ↦
        let (b, h, ran) = task_fills d ar at.valid room in
        let early : ltb (length w.window) lta_bucket_size ≡ true =
          lt→ltb (length w.window) lta_bucket_size (omega (arith, ap length at.window)) in
        (
          none,
          filled d ar b,
          ran,
          rw early (
            refl,
            record {
              valid = record { buffer = h.valid; sized = h.sized; count = at.valid.count };
              window = h.held ∙ ap (λ l. l ++ ar ∷ []) at.window;
              sum = ap (λ s. float.add s ar.z) at.sum;
              streak = at.streak;
              callback = at.callback;
              device = at.device;
            },
          ),
        )
    | no enough ↦
        let full : length (contents d.lt_buf) ≡ lta_bucket_size =
          omega (arith, length-contents d.lt_buf, at.valid.sized) in
        let late : ltb (length w.window) lta_bucket_size ≡ false =
          le→ltb (length w.window) lta_bucket_size (omega (arith, ap length at.window)) in
        let (old, rest, window) = list-cases (contents d.lt_buf) (omega arith) in
        let (b, h, ran, _) = task_turns d ar old rest at.valid window full in
        let t = turned d ar old b in
        let ws = rest ++ ar ∷ [] in
        let w' : Watch F = record w { window = ws; sum = float.sub (float.add w.sum ar.z) old.z } in
        let acc : t.lt_acc ≡ w'.sum = ap (λ s. float.sub (float.add s ar.z) old.z) at.sum in
        let at' : IsAt device_id t w' = record {
          valid = record { buffer = h.valid; sized = h.sized; count = at.valid.count };
          window = h.held;
          sum = acc;
          streak = at.streak;
          callback = at.callback;
          device = at.device;
        } in
        let same : watch w ar ≡ judge w' ar (sta t.lt_acc ws) (lta t.lt_acc ws) =
          ap (late_watch w ar) late
          ∙ ap (λ l. slide l w ar) (sym at.window ∙ window)
          ∙ ap (λ s. judge w' ar (sta s ws) (lta s ws)) (sym acc) in
        let r = trigger t ar (sta t.lt_acc ws) (lta t.lt_acc ws) in
        (
          r.0,
          r.1,
          ran,
          subst (λ a. AtEnd device_id a r) (sym same)
              (judge-IsAt device_id t w' ar (sta t.lt_acc ws) (lta t.lt_acc ws) at'),
        )
  ]

  -- The detector, from a state that is that of the reference: no task throws, the events are the
  -- texts of the alarms of the reference, in order, and the state is again that of the reference.
  pub run-IsAt :
      (device_id : Text) (xs : List (AccelRecord F)) (d : Detector F) (w : Watch F)
      → IsAt device_id d w
      → let (alarms, w') = watch_all w xs in
        (d' : Detector F) × (run d xs ≡ ok (map (text_of device_id) alarms, d'))
        × IsAt device_id d' w'
  unfolding run watch_all
  run-IsAt device_id [] d w at = (d, refl, at)
  run-IsAt device_id (ar ∷ xs) d w at =
      let (e, d1, ran, (says, at1)) = task-IsAt device_id d w ar at in
      let (d', rest, at') = run-IsAt device_id xs d1 (watch w ar).1 at1 in
      (
        d',
        rw (ran, rest)
            (ap (λ l. ok (l, d'))
              (ap (λ e. sent e ++ map (text_of device_id) (watch_all (watch w ar).1 xs).0) says
                ∙ sent-reported device_id (watch w ar).0 (watch_all (watch w ar).1 xs).0)),
        at',
      )

  -- The detector as it is constructed, with its callback set, on any samples: no task throws; the
  -- events are those of the alarms of the reference, in order, which are given at every fourth
  -- evaluation in a row that is over the ratio, with the averages over the window; and the buffer
  -- holds the window, `_lt_acc` the sum, and the count is the rest of the streak by 4.
  pub run_refines :
      (device_id : Text) (xs : List (AccelRecord F))
      → let (alarms, w) = watch_all first_watch xs in
        (d : Detector F) × (run (record (init device_id) { callback = true }) xs
          ≡ ok (map (text_of device_id) alarms, d))
        × IsAt device_id d w
  unfolding init CircularBuffer.init
  run_refines device_id xs =
      let v = init-IsValid device_id in
      run-IsAt device_id xs (record (init device_id) { callback = true }) first_watch
        (record {
          valid = record { buffer = v.buffer; sized = v.sized; count = v.count };
          window = refl;
          sum = refl;
          streak = refl;
          callback = refl;
          device = refl;
        })

  -- So the events of a run are those of the reference.
  pub run-events :
      (device_id : Text) (xs : List (AccelRecord F)) (es : List Text) (d : Detector F)
      → run (record (init device_id) { callback = true }) xs ≡ ok (es, d)
      → es ≡ map (text_of device_id) (watch_all first_watch xs).0
  run-events device_id xs es d ran =
      let (d', ran', at) = run_refines device_id xs in
      ap (λ (r : List Text × Detector F). r.0) (ok-inj (sym ran ∙ ran'))
