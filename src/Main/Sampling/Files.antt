-- ===== src/Main/Sampling/Files.antt =====
-- From the sensor to the files: the tasks of the recorder's pool, which serialize the batches in the
-- order in which they were queued, and what a reader of all the files gets.
use csnd.Prelude.{
  ℕ, ◌<◌, ◌≡◌, refl, sym, ap, ap₂, subst, ◌∙◌, inl, inr, Option, Option-cases, none, some, some-inj,
  List, [], ◌∷◌, ◌++◌, append_assoc, arith, length, map, concat, All, All-append, if◌then◌else◌,
  Result, ok, ◌>>=◌, Text,
}
use csnd.Prelude.Int.{pos}
use csnd.Float.{Float}
use csnd.Accel.{AccelRecord}
use csnd.AvroCpp
use csnd.AvroCpp.{Avro, AvroRecord, AvroCodec, to_avro}
use csnd.AvroCpp.Roundtrip.{read_file}
use csnd.Serializer.{Serializer, IsSerializer}
use csnd.Recorder
use csnd.Recorder.{Recorder, Pusher, idle, Action, push_begin, step, exec}
use csnd.Recorder.Runs.{exec-snoc}
use csnd.Recorder.Conserve.{in_flight, arriving}
use csnd.Recorder.Places.{IsFull, FullButLast}
use csnd.Recorder.Batches.{exec-init-batches}
use csnd.Main.Sampling.{
  Program, Turn, begin_sample, recorder_step, end_sample, run_task, begin, end, run_pending, turn,
  turns, start_with, set_recorder,
}
use csnd.Main.Sampling.Turns.{taken, set_recorder-some, own_step-accepted, ran-some}
use csnd.Main.Sampling.Delivery.{made_detector, turns-deliver}

module _ {F S E : Type 0} (serializer : Serializer F S E) where
  -- `flush` on one batch after the other, up to the file that it makes.
  unfoldable pub serialize_all : List (List (AccelRecord F)) → S → List (Result E (List ℕ)) × S
  serialize_all [] s = ([], s)
  serialize_all (b ∷ batches) s =
      let (data_file, s') = serializer.serialize (some b) s in
      let (rest, s'') = serialize_all batches s' in (data_file ∷ rest, s'')

module _ {F M : Type 0} (avro : Avro F M) (blank : AvroRecord F) where
  -- The records of all the files, in order.
  abbrev pub read_all : List (List ℕ) → Result AvroCpp.Error (List (AvroRecord F))
  read_all [] = ok []
  read_all (data_file ∷ rest) =
      read_file avro blank data_file >>= λ c. read_all rest >>= λ vs. ok (c.records ++ vs)

map-append : {A B : Type 0} (f : A → B) (xs ys : List A) → map f (xs ++ ys) ≡ map f xs ++ map f ys
map-append f [] ys = refl
map-append f (x ∷ xs) ys = ap (λ l. f x ∷ l) (map-append f xs ys)

module _ {F M S E : Type 0} (avro : Avro F M) (c : AvroCodec) (serializer : Serializer F S E)
    (IsReady : S → Type 0) (HasRoom : List (AccelRecord F) → Type 0)
    (promise : IsSerializer avro c serializer IsReady HasRoom) (blank : AvroRecord F) where
  serialize_all-read :
      (batches : List (List (AccelRecord F))) (s : S)
      → IsReady s
      → All (λ b. 0 < length b) batches
      → All HasRoom batches
      → (files : List (List ℕ)) × ((serialize_all serializer batches s).0 ≡ map ok files)
        × (read_all avro blank files ≡ ok (map to_avro (concat batches)))
  unfolding serialize_all
  serialize_all-read [] s ready some_each room = ([], refl, refl)
  serialize_all-read ([] ∷ batches) s ready some_each room = absurd (omega (arith, some_each.0))
  serialize_all-read ((a ∷ ars) ∷ batches) s ready some_each room =
      let (data_file, sync, written, read, ready') = promise.writes s a ars blank ready room.0 in
      let (files, all_written, all_read) =
        serialize_all-read batches (serializer.serialize (some (a ∷ ars)) s).1 ready' some_each.1
          room.1 in
      (
        data_file ∷ files,
        ap₂ (λ x xs. x ∷ xs) written all_written,
        rw (read, all_read) (ap ok (sym (map-append to_avro (a ∷ ars) (concat batches)))),
      )

module _ {F : Type 0} ⦃float : Float F⦄ where
  -- The recorder of the program gets to its state by steps of its own.
  abbrev Reached : Recorder (AccelRecord F) → Program F → Type 0
  Reached r p = (acts : List (Action (AccelRecord F))) × (exec r acts ≡ some p.recorder)

  step-Reached :
      (r : Recorder (AccelRecord F)) (a : Action (AccelRecord F)) (p q p' : Program F)
      → q.recorder ≡ p.recorder
      → set_recorder q (step p.recorder a) ≡ some p'
      → Reached r p
      → Reached r p'
  step-Reached r a p q p' same e (acts, reached) =
      let (r', stepped, is) = set_recorder-some q p' (step p.recorder a) e in
      (
        acts ++ a ∷ [],
        exec-snoc r acts p.recorder a r' reached stepped
            ∙ ap (λ (p : Program F). some p.recorder) is,
      )

  turn-Reached :
      (r : Recorder (AccelRecord F)) (t : Turn F) (p p' : Program F)
      → turn p t ≡ some p'
      → Reached r p
      → Reached r p'
  unfolding turn
  turn-Reached r (begin_sample ar) p p' e h = begin-Reached p.sampling e
    where
      begin-Reached : (s : Option (AccelRecord F)) → begin s ar p ≡ some p' → Reached r p'
      begin-Reached none e =
          step-Reached r (push_begin ar) p (record p { sampling = some ar }) p' refl e h
      begin-Reached (some other) e = absurd (cc)
  turn-Reached r (recorder_step a) p p' e h =
      step-Reached r a p p p' refl (own_step-accepted a p p' e).1 h
  turn-Reached r end_sample p p' e h = end-Reached p.sampling p.recorder.pusher e
    where
      end-Reached :
          (s : Option (AccelRecord F)) (q : Pusher (AccelRecord F))
          → end s q p ≡ some p'
          → Reached r p'
      end-Reached (some ar) idle e = subst (Reached r) (some-inj e) h
      end-Reached _ q e = absurd (cc)
  turn-Reached r run_task p p' e h = run-Reached p.pending e
    where
      run-Reached :
          (pending : List (AccelRecord F)) → run_pending pending p ≡ some p' → Reached r p'
      run-Reached [] e = absurd (cc)
      run-Reached (ar ∷ rest) e =
          let (event, d, _, is) = ran-some (record p { pending = rest }) p' _ e in
          subst (Reached r) is h

  turns-Reached :
      (r : Recorder (AccelRecord F)) (ts : List (Turn F)) (p p' : Program F)
      → turns p ts ≡ some p'
      → Reached r p
      → Reached r p'
  unfolding turns
  turns-Reached r [] p p' e h = subst (Reached r) (some-inj e) h
  turns-Reached r (t ∷ ts) p p' e h = elim (Option-cases (turn p t)) [
    | inl stuck ↦ let e' = rw (stuck, turns) at e in absurd (cc)
    | inr (p1, is) ↦ turns-Reached r ts p1 p' (rw (is, turns) at e) (turn-Reached r t p p1 is h)
  ]

All-some :
    {A : Type 0} (n : ℕ) (batches : List (List A))
    → All (IsFull n) batches
    → All (λ b. 0 < length b) batches
All-some n [] full = tt
All-some n (b ∷ batches) full = (full.0.1, All-some n batches full.1)

FullButLast-some :
    {A : Type 0} (n : ℕ) (batches : List (List A))
    → FullButLast n batches
    → All (λ b. 0 < length b) batches
FullButLast-some n batches (inl full) = All-some n batches full
FullButLast-some n batches (inr (front, b, is, full, some_last)) =
    subst (All (λ b. 0 < length b)) (sym is)
      (All-append (λ b. 0 < length b) front (b ∷ []) (All-some n front full) (some_last, tt))

module _ {F M S E : Type 0} ⦃float : Float F⦄ (avro : Avro F M) (c : AvroCodec)
    (serializer : Serializer F S E) (IsReady : S → Type 0) (HasRoom : List (AccelRecord F) → Type 0)
    (promise : IsSerializer avro c serializer IsReady HasRoom) where
  -- From the sensor to the files, with any serializer that keeps its promise and has room for each
  -- batch: in whatever order the threads take turns, every batch that was queued becomes a file,
  -- and who reads the files in their order gets the samples that the handler read, from the first
  -- one on, each once and in order, with the times in milliseconds. What is missing at the end is
  -- what the recorder still holds outside its queue and, only once `_stop` is set, some last
  -- samples that it did not take.
  pub turns-files :
      (n : ℕ) (device_id : Text) (ts : List (Turn F)) (r : Recorder (AccelRecord F)) (p : Program F)
      (s : S) (blank : AvroRecord F)
      → Recorder.init (AccelRecord F) (pos n) ≡ some r
      → turns (start_with r (made_detector device_id)) ts ≡ some p
      → IsReady s
      → All HasRoom p.recorder.queued
      → (files : List (List ℕ)) × (archived late : List (AccelRecord F)) × ((serialize_all
            serializer p.recorder.queued s).0
          ≡ map ok files)
        × (read_all avro blank files ≡ ok (map to_avro archived))
        × (archived
              ++ ((in_flight p.recorder.runner ++ (p.recorder.bucket ++ arriving p.recorder.pusher))
                  ++ late)
            ≡ taken ts)
        × (late ≡ (if p.recorder.stop then late else []))
  unfolding start_with exec
  turns-files n device_id ts r p s blank made e ready room =
      let (delivered, _) = turns-deliver n device_id ts r p made e in
      let start = start_with r (made_detector device_id) in
      let (acts, reached) = turns-Reached r ts start p e ([], exec-start r) in
      let (full, _) = exec-init-batches n acts r p.recorder made reached in
      let (files, written, read) =
        serialize_all-read avro c serializer IsReady HasRoom promise blank p.recorder.queued s ready
          (FullButLast-some p.recorder.bucket_size p.recorder.queued full) room in
      (
        files,
        concat p.recorder.queued,
        delivered.dropped,
        written,
        read,
        sym (
              append_assoc (concat p.recorder.queued)
                (in_flight p.recorder.runner ++ (p.recorder.bucket ++ arriving p.recorder.pusher))
                delivered.dropped)
            ∙ delivered.kept,
        delivered.before_stop,
      )
    where
      exec-start : (r : Recorder (AccelRecord F)) → exec r [] ≡ some r
      exec-start r = refl
