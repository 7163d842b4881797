-- ===== src/Detector/Reference.antt =====
-- What the detector is for, without its buffer and its counter: a window of at most 500 samples,
-- their sum, and an alarm at every fourth evaluation in a row that is over the ratio.
use csnd.Prelude.{
  ℕ, ◌+◌, ◌%◌, Option, none, some, List, [], ◌∷◌, ◌++◌, length, ltb, ◌==◌, if◌then◌else◌, Text,
}
use csnd.Float.{Float}
use csnd.Accel.{AccelRecord}
use csnd.Detector.{lta_bucket_size, event}
use csnd.Detector.Trigger.{counted, over}
use csnd.Detector.Window.{sta, lta}

-- `streak`: the evaluations that were over the ratio since the last one that was not, those with a
-- zero average left out.
pub record Watch (F : Type 0) : Type 0 where
  pub window : List (AccelRecord F)
  pub sum : F
  pub streak : ℕ

-- The sample at which an alarm is given, with the two averages.
pub record Alarm (F : Type 0) : Type 0 where
  pub sample : AccelRecord F
  pub short : F
  pub long : F

module _ {F : Type 0} ⦃float : Float F⦄ where
  -- An evaluation with the averages over the window.
  abbrev pub judge : Watch F → AccelRecord F → F → F → Option (Alarm F) × Watch F
  judge w ar short long =
      if counted short long
      then (if over short long
          then (
            (if (w.streak + 1) % 4 == 0
                then some (record { sample = ar; short = short; long = long })
                else none),
            record w { streak = w.streak + 1 },
          )
          else (none, record w { streak = 0 }))
      else (none, w)

  -- With a full window: the oldest sample leaves it.
  abbrev pub slide : List (AccelRecord F) → Watch F → AccelRecord F → Option (Alarm F) × Watch F
  slide [] w ar = (none, w)
  slide (old ∷ rest) w ar =
      let window = rest ++ ar ∷ [] in
      let sum = float.sub (float.add w.sum ar.z) old.z in
      judge (record w { window = window; sum = sum }) ar (sta sum window) (lta sum window)

  unfoldable pub watch : Watch F → AccelRecord F → Option (Alarm F) × Watch F
  watch w ar =
      if ltb (length w.window) lta_bucket_size
      then (none, record w { window = w.window ++ ar ∷ []; sum = float.add w.sum ar.z })
      else slide w.window w ar

  abbrev pub alarms_of : Option (Alarm F) → List (Alarm F)
  alarms_of none = []
  alarms_of (some a) = a ∷ []

  unfoldable pub watch_all : Watch F → List (AccelRecord F) → List (Alarm F) × Watch F
  watch_all w [] = ([], w)
  watch_all w (ar ∷ rest) =
      let (alarm, w') = watch w ar in
      let (alarms, w'') = watch_all w' rest in (alarms_of alarm ++ alarms, w'')

  -- The text that the callback gets for an alarm.
  abbrev pub text_of : Text → Alarm F → Text
  text_of device_id a = event device_id a.sample a.short a.long

  -- The reference before the first sample.
  abbrev pub first_watch : Watch F
  first_watch = record { window = []; sum = float.of_nat 0; streak = 0 }
