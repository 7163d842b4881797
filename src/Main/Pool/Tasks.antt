-- ===== src/Main/Pool/Tasks.antt =====
-- What the tasks of the recorder's pool hold, in their order: the batches, the contents of the files,
-- the events; and what running them does to the files in offline mode.
use csnd.Prelude.{ℕ, ◌≡◌, refl, ap, some, List, All, [], ◌∷◌, ◌++◌, Text, codes, Result, ok, err}
use csnd.Accel.{AccelRecord}
use csnd.OutputFile.{Os, record_bytes, record_text}
use csnd.Serializer.{Serializer}
use csnd.Main.Sampling.Files.{serialize_all}
use csnd.Main.Pool.{Task, flush_batch, write_data, write_str}

module _ {F : Type 0} where
  abbrev pub batches_of : List (Task F) → List (List (AccelRecord F))
  batches_of [] = []
  batches_of (flush_batch b ∷ tasks) = b ∷ batches_of tasks
  batches_of (write_data content suffix ∷ tasks) = batches_of tasks
  batches_of (write_str str suffix ∷ tasks) = batches_of tasks

  abbrev pub files_of : List (Task F) → List (List ℕ)
  files_of [] = []
  files_of (flush_batch b ∷ tasks) = files_of tasks
  files_of (write_data content suffix ∷ tasks) = content ∷ files_of tasks
  files_of (write_str str suffix ∷ tasks) = files_of tasks

  abbrev pub strs_of : List (Task F) → List Text
  strs_of [] = []
  strs_of (flush_batch b ∷ tasks) = strs_of tasks
  strs_of (write_data content suffix ∷ tasks) = strs_of tasks
  strs_of (write_str str suffix ∷ tasks) = str ∷ strs_of tasks

  -- The suffixes that the handlers give in offline mode.
  abbrev pub IsNamed : Task F → Type 0
  IsNamed (flush_batch b) = Unit
  IsNamed (write_data content suffix) = suffix ≡ codes ".avro"
  IsNamed (write_str str suffix) = suffix ≡ codes "_quake.json"

  pub batches_of-append :
      (xs ys : List (Task F)) → batches_of (xs ++ ys) ≡ batches_of xs ++ batches_of ys
  batches_of-append [] ys = refl
  batches_of-append (flush_batch b ∷ xs) ys = ap (λ l. b ∷ l) (batches_of-append xs ys)
  batches_of-append (write_data content suffix ∷ xs) ys = batches_of-append xs ys
  batches_of-append (write_str str suffix ∷ xs) ys = batches_of-append xs ys

  pub files_of-append : (xs ys : List (Task F)) → files_of (xs ++ ys) ≡ files_of xs ++ files_of ys
  files_of-append [] ys = refl
  files_of-append (flush_batch b ∷ xs) ys = files_of-append xs ys
  files_of-append (write_data content suffix ∷ xs) ys =
      ap (λ l. content ∷ l) (files_of-append xs ys)
  files_of-append (write_str str suffix ∷ xs) ys = files_of-append xs ys

  pub strs_of-append : (xs ys : List (Task F)) → strs_of (xs ++ ys) ≡ strs_of xs ++ strs_of ys
  strs_of-append [] ys = refl
  strs_of-append (flush_batch b ∷ xs) ys = strs_of-append xs ys
  strs_of-append (write_data content suffix ∷ xs) ys = strs_of-append xs ys
  strs_of-append (write_str str suffix ∷ xs) ys = ap (λ l. str ∷ l) (strs_of-append xs ys)

-- The files that were made of batches, without the exceptions.
abbrev pub oks : {E : Type 0} → List (Result E (List ℕ)) → List (List ℕ)
oks [] = []
oks (ok content ∷ rest) = content ∷ oks rest
oks (err e ∷ rest) = oks rest

pub oks-append : {E : Type 0} (xs ys : List (Result E (List ℕ))) → oks (xs ++ ys) ≡ oks xs ++ oks ys
oks-append [] ys = refl
oks-append (ok content ∷ xs) ys = ap (λ l. content ∷ l) (oks-append xs ys)
oks-append (err e ∷ xs) ys = oks-append xs ys

module _ {F D : Type 0} (os : Os D) (out_dir : Text) where
  -- What a task does to the file system in offline mode.
  abbrev pub store : Task F → D → D
  store (flush_batch b) world = world
  store (write_data content suffix) world = (record_bytes os world out_dir content suffix).2
  store (write_str str suffix) world = (record_text os world out_dir str suffix).2

  abbrev pub store_all : List (Task F) → D → D
  store_all [] world = world
  store_all (t ∷ tasks) world = store_all tasks (store t world)

  pub store_all-snoc :
      (tasks : List (Task F)) (t : Task F) (world : D)
      → store_all (tasks ++ t ∷ []) world ≡ store t (store_all tasks world)
  store_all-snoc [] t world = refl
  store_all-snoc (x ∷ tasks) t world = store_all-snoc tasks t (store x world)

module _ {F S E : Type 0} (serializer : Serializer F S E) where
  pub serialize_all-snoc :
      (batches : List (List (AccelRecord F))) (b : List (AccelRecord F)) (s : S)
      → let (files, s') = serialize_all serializer batches s in
        let (data_file, s'') = serializer.serialize (some b) s' in
        serialize_all serializer (batches ++ b ∷ []) s ≡ (files ++ data_file ∷ [], s'')
  unfolding serialize_all
  serialize_all-snoc [] b s = refl
  serialize_all-snoc (x ∷ batches) b s =
      ap
        (λ (all : List (Result E (List ℕ)) × S).
          ((serializer.serialize (some x) s).0 ∷ all.0, all.1))
        (serialize_all-snoc batches b (serializer.serialize (some x) s).1)

-- What the flush handler queues.
abbrev pub written_by : {F E : Type 0} → Result E (List ℕ) → List (Task F)
written_by (ok content) = write_data content (codes ".avro") ∷ []
written_by (err e) = []

module _ (F : Type 0) {E : Type 0} where
  pub files_of-written_by : (r : Result E (List ℕ)) → oks (r ∷ []) ≡ files_of (written_by {F = F} r)
  files_of-written_by (ok content) = refl
  files_of-written_by (err e) = refl

  pub written_by-strs : (r : Result E (List ℕ)) → strs_of (written_by {F = F} r) ≡ []
  written_by-strs (ok content) = refl
  written_by-strs (err e) = refl

  pub written_by-batches : (r : Result E (List ℕ)) → batches_of (written_by {F = F} r) ≡ []
  written_by-batches (ok content) = refl
  written_by-batches (err e) = refl

  pub written_by-IsNamed : (r : Result E (List ℕ)) → All IsNamed (written_by {F = F} r)
  written_by-IsNamed (ok content) = (refl, tt)
  written_by-IsNamed (err e) = tt
