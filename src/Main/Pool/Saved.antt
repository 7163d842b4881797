-- ===== src/Main/Pool/Saved.antt =====
-- The files that the pool's tasks leave on a disk that works: each writer's file has its time in its
-- name, and only a file of the same name is written over.
use csnd.Prelude.{
  ℕ, ◌≡◌, ◌≢◌, refl, ap, ◌∙◌, Option, some, List, [], ◌∷◌, All, Text, codes, text_eq, if◌then◌else◌,
}
use csnd.OutputFile.{Os, record_bytes, record_text}
use csnd.OutputFile.FileSystem.{
  path, IsFileSystem, IsWorking, stamp, IsSaved, record_bytes-IsSaved, record_text-IsSaved,
}
use csnd.Main.Pool.{Task, flush_batch, write_data, write_str}
use csnd.Main.Pool.Tasks.{files_of, strs_of, IsNamed, store_all}

-- A file of the output directory: the time in its name, its suffix and its content.
pub record File : Type 0 where
  pub time : ℕ
  pub suffix : Text
  pub content : List ℕ

-- The contents of the files with a suffix.
abbrev pub contents_with : Text → List File → List (List ℕ)
contents_with suffix [] = []
contents_with suffix (f ∷ files) =
    let rest = contents_with suffix files in
    if text_eq f.suffix suffix then f.content ∷ rest else rest

module _ {F D : Type 0} (os : Os D) (out_dir : Text) where
  -- The files that the tasks write, one after the other.
  abbrev pub saved : List (Task F) → D → List File
  saved [] s = []
  saved (flush_batch b ∷ tasks) s = saved tasks s
  saved (write_data content suffix ∷ tasks) s =
      record { time = stamp os out_dir s; suffix = suffix; content = content }
      ∷ saved tasks (record_bytes os s out_dir content suffix).2
  saved (write_str str suffix ∷ tasks) s =
      record { time = stamp os out_dir s; suffix = suffix; content = str }
      ∷ saved tasks (record_text os s out_dir str suffix).2

  pub saved-files :
      (tasks : List (Task F)) (s : D)
      → All IsNamed tasks
      → contents_with (codes ".avro") (saved tasks s) ≡ files_of tasks
  saved-files [] s named = refl
  saved-files (flush_batch b ∷ tasks) s named = saved-files tasks s named.1
  saved-files (write_data content suffix ∷ tasks) s named =
      rw named.0 (ap (λ l. content ∷ l) (saved-files tasks _ named.1))
  saved-files (write_str str suffix ∷ tasks) s named = rw named.0 (saved-files tasks _ named.1)

  pub saved-strs :
      (tasks : List (Task F)) (s : D)
      → All IsNamed tasks
      → contents_with (codes "_quake.json") (saved tasks s) ≡ strs_of tasks
  saved-strs [] s named = refl
  saved-strs (flush_batch b ∷ tasks) s named = saved-strs tasks s named.1
  saved-strs (write_data content suffix ∷ tasks) s named = rw named.0 (saved-strs tasks _ named.1)
  saved-strs (write_str str suffix ∷ tasks) s named =
      rw named.0 (ap (λ l. str ∷ l) (saved-strs tasks _ named.1))

module _ (out_dir : Text) where
  -- The name is that of none of the files.
  abbrev pub IsElsewhere : Text → List File → Type 0
  IsElsewhere name files = All (λ (f : File). path out_dir f.time f.suffix ≢ name) files

  -- The content of each file is there, unless a later one was written under the same name.
  abbrev pub IsFound : {D : Type 0} → (D → Text → Option (List ℕ)) → D → List File → Type 0
  IsFound find s [] = Unit
  IsFound find s (f ∷ files) =
      let name = path out_dir f.time f.suffix in
      (IsElsewhere name files → find s name ≡ some f.content) × IsFound find s files

module _ {F D : Type 0} (os : Os D) (find : D → Text → Option (List ℕ)) (fs : IsFileSystem os find)
    (out_dir : Text) (P : D → Type 0) (works : IsWorking os out_dir P) where
  -- What is not written keeps its content.
  pub saved-others :
      (tasks : List (Task F)) (s : D) (name : Text)
      → P s
      → IsElsewhere out_dir name (saved os out_dir tasks s)
      → find (store_all os out_dir tasks s) name ≡ find s name
  saved-others [] s name p apart = refl
  saved-others (flush_batch b ∷ tasks) s name p apart = saved-others tasks s name p apart
  saved-others (write_data content suffix ∷ tasks) s name p apart =
      let w = record_bytes-IsSaved os find fs out_dir P works s content suffix p in
      saved-others tasks _ name w.still_works apart.1 ∙ w.others name apart.0
  saved-others (write_str str suffix ∷ tasks) s name p apart =
      let w = record_text-IsSaved os find fs out_dir P works s str suffix p in
      saved-others tasks _ name w.still_works apart.1 ∙ w.others name apart.0

  -- The content of a file that was just written stays, unless its name comes again.
  kept_to_end :
      (tasks : List (Task F)) (s s' : D) (suffix : Text) (content : List ℕ)
      → IsSaved os find fs out_dir P works s suffix content s'
      → let name = path out_dir (stamp os out_dir s) suffix in
        IsElsewhere out_dir name (saved os out_dir tasks s')
        → find (store_all os out_dir tasks s') name ≡ some content
  kept_to_end tasks s s' suffix content w apart =
      saved-others tasks s' (path out_dir (stamp os out_dir s) suffix) w.still_works apart ∙ w.found

  pub saved-IsFound :
      (tasks : List (Task F)) (s : D)
      → P s
      → IsFound out_dir find (store_all os out_dir tasks s) (saved os out_dir tasks s)
  saved-IsFound [] s p = tt
  saved-IsFound (flush_batch b ∷ tasks) s p = saved-IsFound tasks s p
  saved-IsFound (write_data content suffix ∷ tasks) s p =
      let w = record_bytes-IsSaved os find fs out_dir P works s content suffix p in
      (kept_to_end tasks s _ suffix content w, saved-IsFound tasks _ w.still_works)
  saved-IsFound (write_str str suffix ∷ tasks) s p =
      let w = record_text-IsSaved os find fs out_dir P works s str suffix p in
      (kept_to_end tasks s _ suffix str w, saved-IsFound tasks _ w.still_works)
