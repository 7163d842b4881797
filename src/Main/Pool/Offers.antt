-- ===== src/Main/Pool/Offers.antt =====
-- What the pool keeps in online mode: every file and every event was offered to the hub, in order,
-- and those that it did not deliver, and no others, have been written or wait to be.
use csnd.Prelude.{
  ℕ, ◌≡◌, refl, sym, ap, ap₂, ◌∙◌, List, [], ◌∷◌, ◌++◌, append-nil, append_assoc, Text,
  if◌then◌else◌, Bool,
}
use csnd.OutputFile.{Os}
use csnd.Iothub.{Properties}
use csnd.Main.Pool.{Task, flush_batch, write_data, write_str, Pool}
use csnd.Main.Pool.Tasks.{store}

-- A payload was offered to the hub, with the writer that the fallback queues; or a writer has run.
pub data Deed (F : Type 0) : Type 0 where
  offered : Properties → Task F → Deed F
  stored : Task F → Deed F

module _ {F : Type 0} where
  abbrev pub payload : Task F → List ℕ
  payload (flush_batch b) = []
  payload (write_data content suffix) = content
  payload (write_str str suffix) = str

  -- The files and the events that were offered, and the writers that have run.
  abbrev pub offered_files : List (Deed F) → List (List ℕ)
  offered_files [] = []
  offered_files (offered prop (write_data content suffix) ∷ log) = content ∷ offered_files log
  offered_files (other ∷ log) = offered_files log

  abbrev pub offered_strs : List (Deed F) → List Text
  offered_strs [] = []
  offered_strs (offered prop (write_str str suffix) ∷ log) = str ∷ offered_strs log
  offered_strs (other ∷ log) = offered_strs log

  abbrev pub writers_run : List (Deed F) → List (Task F)
  writers_run [] = []
  writers_run (stored t ∷ log) = t ∷ writers_run log
  writers_run (other ∷ log) = writers_run log

  abbrev pub writers_of : List (Task F) → List (Task F)
  writers_of [] = []
  writers_of (flush_batch b ∷ tasks) = writers_of tasks
  writers_of (t ∷ tasks) = t ∷ writers_of tasks

  pub writers_of-append :
      (xs ys : List (Task F)) → writers_of (xs ++ ys) ≡ writers_of xs ++ writers_of ys
  writers_of-append [] ys = refl
  writers_of-append (flush_batch b ∷ xs) ys = writers_of-append xs ys
  writers_of-append (write_data content suffix ∷ xs) ys =
      ap (λ l. write_data content suffix ∷ l) (writers_of-append xs ys)
  writers_of-append (write_str str suffix ∷ xs) ys =
      ap (λ l. write_str str suffix ∷ l) (writers_of-append xs ys)

  offered_files-append :
      (xs ys : List (Deed F)) → offered_files (xs ++ ys) ≡ offered_files xs ++ offered_files ys
  offered_files-append [] ys = refl
  offered_files-append (offered prop (write_data content suffix) ∷ xs) ys =
      ap (λ l. content ∷ l) (offered_files-append xs ys)
  offered_files-append (offered prop (write_str str suffix) ∷ xs) ys = offered_files-append xs ys
  offered_files-append (offered prop (flush_batch b) ∷ xs) ys = offered_files-append xs ys
  offered_files-append (stored t ∷ xs) ys = offered_files-append xs ys

  offered_strs-append :
      (xs ys : List (Deed F)) → offered_strs (xs ++ ys) ≡ offered_strs xs ++ offered_strs ys
  offered_strs-append [] ys = refl
  offered_strs-append (offered prop (write_str str suffix) ∷ xs) ys =
      ap (λ l. str ∷ l) (offered_strs-append xs ys)
  offered_strs-append (offered prop (write_data content suffix) ∷ xs) ys = offered_strs-append xs ys
  offered_strs-append (offered prop (flush_batch b) ∷ xs) ys = offered_strs-append xs ys
  offered_strs-append (stored t ∷ xs) ys = offered_strs-append xs ys

  writers_run-append :
      (xs ys : List (Deed F)) → writers_run (xs ++ ys) ≡ writers_run xs ++ writers_run ys
  writers_run-append [] ys = refl
  writers_run-append (stored t ∷ xs) ys = ap (λ l. t ∷ l) (writers_run-append xs ys)
  writers_run-append (offered prop t ∷ xs) ys = writers_run-append xs ys

module _ {F D : Type 0} (os : Os D) (deliver : D → Properties → List ℕ → Bool × D)
    (out_dir : Text) where
  -- What a deed does to the world, and the writer that it queues if the hub does not deliver.
  abbrev pub act : Deed F → D → D
  act (offered prop t) world = (deliver world prop (payload t)).1
  act (stored t) world = store os out_dir t world

  abbrev pub falls_back : Deed F → D → List (Task F)
  falls_back (offered prop t) world = if (deliver world prop (payload t)).0 then [] else t ∷ []
  falls_back (stored t) world = []

  abbrev pub replay : List (Deed F) → D → D
  replay [] world = world
  replay (a ∷ log) world = replay log (act a world)

  abbrev pub undelivered : List (Deed F) → D → List (Task F)
  undelivered [] world = []
  undelivered (a ∷ log) world = falls_back a world ++ undelivered log (act a world)

  replay-snoc :
      (log : List (Deed F)) (a : Deed F) (world : D)
      → replay (log ++ a ∷ []) world ≡ act a (replay log world)
  replay-snoc [] a world = refl
  replay-snoc (b ∷ log) a world = replay-snoc log a (act b world)

  undelivered-snoc :
      (log : List (Deed F)) (a : Deed F) (world : D)
      → undelivered (log ++ a ∷ []) world ≡ undelivered log world ++ falls_back a (replay log world)
  undelivered-snoc [] a world = append-nil (falls_back a world)
  undelivered-snoc (b ∷ log) a world =
      ap (λ l. falls_back b world ++ l) (undelivered-snoc log a (act b world))
      ∙ sym (
          append_assoc (falls_back b world) (undelivered log (act b world))
            (falls_back a (replay log (act b world))))

module _ {F S D : Type 0} (os : Os D) (deliver : D → Properties → List ℕ → Bool × D)
    (out_dir : Text) (world0 : D) where
  -- The files and the events that have been offered from the state `world0` on.
  pub record Offered (files : List (List ℕ)) (events : List Text) (p : Pool F S D) : Type 0 where
    pub log : List (Deed F)
    pub all_files : offered_files log ≡ files
    pub all_events : offered_strs log ≡ events
    pub fallbacks :
        undelivered os deliver out_dir log world0 ≡ writers_run log ++ writers_of p.tasks
    pub world : p.world ≡ replay os deliver out_dir log world0

  -- One more deed: what it changes of the pool.
  pub act-Offered :
      (files more_files : List (List ℕ)) (events more_events : List Text) (p p' : Pool F S D)
      (a : Deed F)
      → offered_files (a ∷ []) ≡ more_files
      → offered_strs (a ∷ []) ≡ more_events
      → writers_of p.tasks ++ falls_back os deliver out_dir a p.world
        ≡ writers_run (a ∷ []) ++ writers_of p'.tasks
      → p'.world ≡ act os deliver out_dir a p.world
      → Offered files events p
      → Offered (files ++ more_files) (events ++ more_events) p'
  act-Offered files more_files events more_events p p' a some_files some_events tasks world h =
      record {
        log = h.log ++ a ∷ [];
        all_files =
            offered_files-append h.log (a ∷ []) ∙ ap₂ (λ a b. a ++ b) h.all_files some_files;
        all_events =
            offered_strs-append h.log (a ∷ []) ∙ ap₂ (λ a b. a ++ b) h.all_events some_events;
        fallbacks =
            undelivered-snoc os deliver out_dir h.log a world0
            ∙ ap₂ (λ l w. l ++ falls_back os deliver out_dir a w) h.fallbacks (sym h.world)
            ∙ append_assoc (writers_run h.log) (writers_of p.tasks)
                (falls_back os deliver out_dir a p.world)
            ∙ ap (λ l. writers_run h.log ++ l) tasks
            ∙ sym (append_assoc (writers_run h.log) (writers_run (a ∷ [])) (writers_of p'.tasks))
            ∙ ap (λ l. l ++ writers_of p'.tasks) (sym (writers_run-append h.log (a ∷ [])));
        world =
            world
            ∙ ap (act os deliver out_dir a) h.world
            ∙ sym (replay-snoc os deliver out_dir h.log a world0);
      }
