-- ===== src/Main/Pool/Sent.antt =====
-- From the sensor to the hub, in online mode.
use csnd.Prelude.{List, Text}
use csnd.Float.{Float}
use csnd.Accel.{AccelRecord}
use csnd.Serializer.{Serializer}
use csnd.Recorder
use csnd.Recorder.{Recorder, Action}
use csnd.OutputFile.{Os}
use csnd.Iothub.{Hub, IsPrompt}
use csnd.Main.Pool.{Pool, Daemon}
use csnd.Main.Pool.Flushed.{Online}

module _ {F S E D : Type 0} ⦃float : Float F⦄ (serializer : Serializer F S E) (os : Os D)
    (hub : Hub D) (prompt : IsPrompt hub) (out_dir : Text) (s0 : S) (world0 : D) where
  abbrev Kept : List (List (AccelRecord F)) → List Text → Pool F S D → Type 0
  Kept batches events p = Online serializer os hub prompt out_dir s0 world0 batches events p

  abbrev AllKept : Daemon F S D → Type 0
  AllKept d = Kept d.program.recorder.queued d.program.events d.pool
