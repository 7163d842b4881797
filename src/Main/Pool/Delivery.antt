-- ===== src/Main/Pool/Delivery.antt =====
-- From the sensor to the disk, in offline mode.
use csnd.Prelude.{
  ℕ, ◌≡◌, refl, sym, ap, subst, ◌∙◌, Bool, true, Option, Option-cases, some, some-inj, inl, inr,
  List, [], ◌∷◌, ◌++◌, append-nil, map, All, Text, codes, ok, if◌then◌else◌,
}
use csnd.Prelude.Int.{pos}
use csnd.Float.{Float}
use csnd.Accel.{AccelRecord}
use csnd.AvroCpp.{Avro, AvroRecord, AvroCodec, to_avro}
use csnd.Serializer.{Serializer, IsSerializer}
use csnd.Recorder
use csnd.Recorder.{Recorder}
use csnd.Recorder.Conserve.{in_flight, arriving}
use csnd.OutputFile.{Os}
use csnd.OutputFile.FileSystem.{IsFileSystem, IsWorking}
use csnd.Iothub.{Hub}
use csnd.Main.Sampling.{Turn, turn, turns, start_with}
use csnd.Detector.Reference.{watch_all, first_watch, text_of}
use csnd.Detector.Refine.{run-events}
use csnd.Main.Sampling.Turns.{taken, in_handler}
use csnd.Main.Sampling.Delivery.{made_detector, turns-deliver}
use csnd.Main.Sampling.Files.{serialize_all, read_all, turns-files}
use csnd.Main.Pool.{Task, Daemon, Step, program_turn, run_next, run_first, step, steps}
use csnd.Main.Pool.Tasks.{batches_of, files_of, strs_of, IsNamed, oks, store_all}
use csnd.Main.Pool.Steps.{steps-AllKept}
use csnd.Main.Pool.Saved.{
  contents_with, IsElsewhere, IsFound, saved, saved-files, saved-strs, saved-others, saved-IsFound,
}

-- The turns of the other threads among the steps.
abbrev pub turns_of : {F : Type 0} → List (Step F) → List (Turn F)
turns_of [] = []
turns_of (program_turn t ∷ l) = t ∷ turns_of l
turns_of (run_next ∷ l) = turns_of l

pub oks-map : (E : Type 0) (files : List (List ℕ)) → oks {E = E} (map ok files) ≡ files
oks-map E [] = refl
oks-map E (content ∷ files) = ap (λ l. content ∷ l) (oks-map E files)

module _ {F S D : Type 0} ⦃float : Float F⦄ where
  -- The components as `main` constructs them.
  abbrev pub start_daemon : Recorder (AccelRecord F) → Text → S → D → Daemon F S D
  start_daemon r device_id s world = record {
    program = start_with r (made_detector device_id);
    pool = record { tasks = []; serializer = s; world = world };
  }

module _ {F S E D : Type 0} ⦃float : Float F⦄ (serializer : Serializer F S E) (os : Os D)
    (hub : Hub D) (offline_mode : Bool) (out_dir : Text) where
  -- To the other threads the pool is not there.
  pub steps-turns :
      (l : List (Step F)) (d d' : Daemon F S D)
      → steps serializer os hub offline_mode out_dir d l ≡ some d'
      → turns d.program (turns_of l) ≡ some d'.program
  unfolding steps step turns
  steps-turns [] d d' e = ap (λ (d : Daemon F S D). some d.program) (some-inj e)
  steps-turns (program_turn t ∷ l) d d' e = elim (Option-cases (turn d.program t)) [
    | inl stuck ↦ let e' = rw (stuck, steps) at e in absurd (cc)
    | inr (p', is) ↦ rw (turns, is) (steps-turns l _ d' (rw (is, steps) at e))
  ]
  steps-turns (run_next ∷ l) d d' e =
      elim (Option-cases (run_first serializer os hub offline_mode out_dir d.pool.tasks d.pool)) [
        | inl stuck ↦ let e' = rw (stuck, steps) at e in absurd (cc)
        | inr (pool, is) ↦ steps-turns l _ d' (rw (is, steps) at e)
      ]

module _ {F M S E D : Type 0} ⦃float : Float F⦄ (avro : Avro F M) (c : AvroCodec)
    (serializer : Serializer F S E) (IsReady : S → Type 0) (HasRoom : List (AccelRecord F) → Type 0)
    (promise : IsSerializer avro c serializer IsReady HasRoom) (os : Os D)
    (find : D → Text → Option (List ℕ)) (fs : IsFileSystem os find) (out_dir : Text)
    (P : D → Type 0) (works : IsWorking os out_dir P) (hub : Hub D) where
  -- From the sensor to the disk, in offline mode, with any serializer that keeps its promise and
  -- has room for each batch, where the output directory is there or can be made and files can be
  -- opened: in whatever order the threads take turns, once the pool has no task left the state of
  -- the disk is that of a list of tasks that have run one after the other, and each writer among
  -- them has written a file, under the time that the clock gave it. Each of these files is found,
  -- unless the clock gave the time of its name again and a later one was written over it; and what
  -- has none of their names is as it was at the start. Who reads those of the suffix `.avro` in the
  -- order in which they were written gets the samples that the handler read, from the first one on,
  -- each once and in order, with the times in milliseconds. What is missing is what the recorder
  -- still holds outside its queue and, only once `_stop` is set, some last samples that it did not
  -- take. Those of the suffix `_quake.json` are the texts of the alarms that the reference of the
  -- detector gives on the first of these samples, in order, while the rest is in the detector's
  -- queue or still in the handler.
  pub steps-disk :
      (n : ℕ) (device_id : Text) (l : List (Step F)) (r : Recorder (AccelRecord F))
      (d : Daemon F S D) (s : S) (world : D) (blank : AvroRecord F)
      → Recorder.init (AccelRecord F) (pos n) ≡ some r
      → steps serializer os hub true out_dir (start_daemon r device_id s world) l ≡ some d
      → d.pool.tasks ≡ []
      → IsReady s
      → All HasRoom d.program.recorder.queued
      → P world
      → (tasks : List (Task F)) × (archived late seen : List (AccelRecord F)) × (d.pool.world
          ≡ store_all os out_dir tasks world)
        × IsFound out_dir find d.pool.world (saved os out_dir tasks world)
        × ((name : Text)
            → IsElsewhere out_dir name (saved os out_dir tasks world)
            → find d.pool.world name ≡ find world name)
        × (read_all avro blank (contents_with (codes ".avro") (saved os out_dir tasks world))
            ≡ ok (map to_avro archived))
        × (archived
              ++ ((in_flight d.program.recorder.runner
                    ++ (d.program.recorder.bucket ++ arriving d.program.recorder.pusher))
                  ++ late)
            ≡ taken (turns_of l))
        × (late ≡ (if d.program.recorder.stop then late else []))
        × (seen ++ (d.program.pending ++ in_handler d.program.sampling) ≡ taken (turns_of l))
        × (contents_with (codes "_quake.json") (saved os out_dir tasks world)
            ≡ map (text_of device_id) (watch_all first_watch seen).0)
  unfolding start_with serialize_all Recorder.init
  steps-disk n device_id l r d s world blank made e drained ready room p =
      let start : Daemon F S D = start_daemon r device_id s world in
      let k = steps-AllKept serializer os hub out_dir s world l start d e (record {
        ran = [];
        in_order = ap (λ (r : Recorder (AccelRecord F)). r.queued) (some-inj made);
        state = refl;
        files = refl;
        strs = refl;
        named = tt;
        stored = refl;
      }) in
      let whole : k.ran ++ d.pool.tasks ≡ k.ran = ap (λ l. k.ran ++ l) drained ∙ append-nil k.ran in
      let all = sym (ap batches_of whole) ∙ k.in_order in
      let named = subst (All IsNamed) whole k.named in
      let in_turns = steps-turns serializer os hub true out_dir l start d e in
      let (delivered, _) = turns-deliver n device_id (turns_of l) r d.program made in_turns in
      let (contents, archived, late, written, read, kept, before_stop) =
        turns-files avro c serializer IsReady HasRoom promise n device_id (turns_of l) r d.program s
          blank made in_turns ready room in
      let files = saved os out_dir k.ran world in
      let same : contents_with (codes ".avro") files ≡ contents =
        saved-files os out_dir k.ran world named
        ∙ sym (ap files_of whole)
        ∙ sym k.files
        ∙ ap (λ l. oks (serialize_all serializer l s).0) all
        ∙ ap oks written
        ∙ oks-map E contents in
      (
        k.ran,
        archived,
        late,
        delivered.seen,
        k.stored,
        subst (λ w. IsFound out_dir find w files) (sym k.stored)
            (saved-IsFound os find fs out_dir P works k.ran world p),
        λ name apart.
            ap (λ w. find w name) k.stored
            ∙ saved-others os find fs out_dir P works k.ran world name p apart,
        ap (read_all avro blank) same ∙ read,
        kept,
        before_stop,
        delivered.all_seen,
        saved-strs os out_dir k.ran world named
            ∙ sym (ap strs_of whole)
            ∙ k.strs
            ∙ run-events device_id delivered.seen d.program.events d.program.detector
                delivered.ran_seen,
      )
