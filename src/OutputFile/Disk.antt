-- ===== src/OutputFile/Disk.antt =====
-- A small file system on which `record` runs.
use csnd.Prelude.{
  Option, ◌≡◌, ◌≢◌, refl, inl, inr, Bool-cases, text_eq, arith, ℕ, ◌+◌, Bool, true, false, none,
  some, List, [], ◌∷◌, Text, if◌then◌else◌,
}
use csnd.OutputFile.{Os, enospc}
use csnd.OutputFile.FileSystem.{IsFileSystem, IsWorking}

-- Whether the output directory is there, whether files can be opened, the clock, and the files.
abbrev pub Disk : Type 0
Disk = Bool × Bool × ℕ × List (Text × List ℕ)

-- `mkdir` finds no space where no file can be opened.
abbrev pub disk : Os Disk
disk = record {
  is_dir = λ s path. s.0;
  mkdir = λ (there, works, time, files) path.
      if works
      then (none, (true, works, time, files))
      else (some enospc, (there, works, time, files));
  now = λ (there, works, time, files). (time, (there, works, time + 1, files));
  open_file = λ (there, works, time, files) name binary. (works, (there, works, time, files));
  write_file =
      λ (there, works, time, files) name content. (there, works, time, (name, content) ∷ files);
}

abbrev pub empty_disk : Disk
empty_disk = (false, true, 42, [])

-- The content of the file that was written last under a name.
abbrev find_file : List (Text × List ℕ) → Text → Option (List ℕ)
find_file [] name = none
find_file ((other, content) ∷ files) name =
    let rest = find_file files name in if text_eq other name then some content else rest

abbrev pub find : Disk → Text → Option (List ℕ)
find s = find_file s.3

text_eq_refl : (s : Text) → text_eq s s ≡ true
text_eq_refl [] = refl
text_eq_refl (c ∷ s) = ground (arith, text_eq_refl s)

eq_of_text_eq : (s t : Text) → text_eq s t ≡ true → s ≡ t
eq_of_text_eq [] [] e = refl
eq_of_text_eq [] (d ∷ t) e = absurd (cc)
eq_of_text_eq (c ∷ s) [] e = absurd (cc)
eq_of_text_eq (c ∷ s) (d ∷ t) e = ground (arith, eq_of_text_eq s t)

text_eq-ne : (s t : Text) → s ≢ t → text_eq s t ≡ false
text_eq-ne s t apart = elim (Bool-cases (text_eq s t)) [
  | inl same ↦ absurd (apart (eq_of_text_eq s t same))
  | inr other ↦ other
]

mkdir-find : (s : Disk) (dir name : Text) → find (disk.mkdir s dir).1 name ≡ find s name
mkdir-find (there, true, time, files) dir name = refl
mkdir-find (there, false, time, files) dir name = refl

pub disk-IsFileSystem : IsFileSystem disk find
disk-IsFileSystem = record {
  find-mkdir = mkdir-find;
  find-now = λ s name. refl;
  find-open = λ s name binary other apart. refl;
  find-write_self = λ s name content. rw (text_eq_refl name) refl;
  find-write = λ s name content other apart. rw (text_eq-ne name other apart) refl;
}

-- Files can be opened.
abbrev pub IsUsable : Disk → Type 0
IsUsable s = s.1 ≡ true

mkdir-IsUsable :
    (s : Disk) (dir : Text)
    → IsUsable s
    → IsUsable (disk.mkdir s dir).1 × ((disk.mkdir s dir).0 ≡ none)
mkdir-IsUsable (there, works, time, files) dir usable = rw usable (refl, refl)

pub disk-IsWorking : (out_dir : Text) → IsWorking disk out_dir IsUsable
disk-IsWorking out_dir = record {
  ready = λ s usable. inr (mkdir-IsUsable s out_dir usable).1;
  opens = λ s name binary usable. usable;
  after_mkdir = λ s usable. (mkdir-IsUsable s out_dir usable).0;
  after_now = λ s usable. usable;
  after_open = λ s name binary usable. usable;
  after_write = λ s name content usable. usable;
}
