-- ===== src/Main/Pool/Online.antt =====
-- In online mode: what the tasks of the pool and the callback of the detector keep.
use csnd.Prelude.{
  ℕ, ◌≡◌, refl, sym, ap, ap₂, subst, ◌∙◌, Bool, true, false, List, [], ◌∷◌, ◌++◌, append-nil,
  append_assoc, Text, codes, if◌then◌else◌,
}
use csnd.OutputFile.{Os}
use csnd.Iothub.{Hub, IsPrompt, Properties, send, settled}
use csnd.Main.{callback}
use csnd.Main.Pool.{Task, write_str, Pool, sent_or_queued, submit, report}
use csnd.Main.Pool.Tasks.{batches_of, batches_of-append}
use csnd.Main.Pool.Offers.{
  offered, payload, offered_files, offered_strs, writers_of, writers_of-append, Offered,
  act-Offered,
}

-- The properties of a batch and of a quake.
abbrev pub batch_prop : Properties
batch_prop = (codes "batch", codes "false") ∷ []

abbrev pub quake_prop : Properties
quake_prop = (codes "batch", codes "false") ∷ (codes "kind", codes "quake") ∷ []

module _ {F S D : Type 0} where
  -- An answer of `send` leaves the serializer and the batches alone, and queues the writer or not.
  abbrev pub Answers : Task F → Bool → D → Pool F S D → Pool F S D → Type 0
  Answers t delivered world p p' =
      (writers_of p'.tasks ≡ writers_of p.tasks ++ (if delivered then [] else t ∷ []))
      × (batches_of p'.tasks ≡ batches_of p.tasks)
      × (p'.serializer ≡ p.serializer)
      × (p'.world ≡ world)

  pub sent_or_queued-Answers :
      (t : Task F) (delivered : Bool) (world : D) (p : Pool F S D)
      → writers_of (t ∷ []) ≡ t ∷ []
      → batches_of (t ∷ []) ≡ []
      → Answers t delivered world p (sent_or_queued t (settled (delivered, world) (λ w. w)) p)
  unfolding sent_or_queued
  sent_or_queued-Answers t true world p writer no_batch =
      (sym (append-nil (writers_of p.tasks)), refl, refl, refl)
  sent_or_queued-Answers t false world p writer no_batch = (
    writers_of-append p.tasks (t ∷ []) ∙ ap (λ l. writers_of p.tasks ++ l) writer,
    batches_of-append p.tasks (t ∷ [])
        ∙ ap (λ l. batches_of p.tasks ++ l) no_batch
        ∙ append-nil (batches_of p.tasks),
    refl,
    refl,
  )

module _ {F S D : Type 0} (os : Os D) (hub : Hub D) (prompt : IsPrompt hub) (out_dir : Text)
    (world0 : D) where
  -- A file or an event is offered.
  abbrev pub offer : Properties → Task F → Pool F S D → Pool F S D
  offer prop t p = sent_or_queued t (send hub p.world prop (payload t) (λ world. world)) p

  pub offer-Offered :
      (files more_files : List (List ℕ)) (events more_events : List Text) (prop : Properties)
      (t : Task F) (p : Pool F S D)
      → writers_of (t ∷ []) ≡ t ∷ []
      → batches_of (t ∷ []) ≡ []
      → offered_files (offered prop t ∷ []) ≡ more_files
      → offered_strs (offered prop t ∷ []) ≡ more_events
      → Offered os prompt.deliver out_dir world0 files events p
      → Offered os prompt.deliver out_dir world0
          (files ++ more_files)
          (events ++ more_events)
          (offer prop t p)
        × (batches_of (offer prop t p).tasks ≡ batches_of p.tasks)
        × ((offer prop t p).serializer ≡ p.serializer)
  offer-Offered files more_files events more_events prop t p writer no_batch data_file str h =
      let (delivered, world) = prompt.deliver p.world prop (payload t) in
      let (writers, batches, state, world') =
        subst (λ r. Answers t delivered world p (sent_or_queued t r p))
          (sym (prompt.send-settled p.world prop (payload t) (λ w. w)))
          (sent_or_queued-Answers t delivered world p writer no_batch) in
      (
        act-Offered os prompt.deliver out_dir world0 files more_files events more_events p
            (offer prop t p) (offered prop t) data_file str (sym writers) world' h,
        batches,
        state,
      )

  -- `detector->callback` on each event.
  pub report-Offered :
      (reported : List Text) (files : List (List ℕ)) (events : List Text) (p : Pool F S D)
      → Offered os prompt.deliver out_dir world0 files events p
      → Offered os prompt.deliver out_dir world0 files
          (events ++ reported)
          (report hub false reported p)
        × (batches_of (report hub false reported p).tasks ≡ batches_of p.tasks)
        × ((report hub false reported p).serializer ≡ p.serializer)
  unfolding report callback submit
  report-Offered [] files events p h = (
    subst (λ l. Offered os prompt.deliver out_dir world0 files l p) (sym (append-nil events)) h,
    refl,
    refl,
  )
  report-Offered (s ∷ reported) files events p h =
      let t : Task F = write_str s (codes "_quake.json") in
      let (h1, batches1, state1) =
        offer-Offered files [] events (s ∷ []) quake_prop t p refl refl refl refl h in
      let (h2, batches2, state2) =
        report-Offered reported (files ++ []) (events ++ s ∷ []) (offer quake_prop t p) h1 in
      (
        subst
            (λ (l : List (List ℕ) × List Text).
              Offered os prompt.deliver out_dir world0 l.0 l.1
                (report hub false reported (offer quake_prop t p)))
            (ap₂ (λ a b. (a, b)) (append-nil files) (append_assoc events (s ∷ []) reported)) h2,
        batches2 ∙ batches1,
        state2 ∙ state1,
      )
