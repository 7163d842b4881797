-- ===== src/OutputFile/FileSystem.antt =====
-- What the files of a recorder rely on in the operating system: `find` gives the content of a file
-- by its name, and `IsFileSystem` states how the calls change it. On a disk that works a
-- recorded file is found again, and no other file is touched.
use csnd.Prelude.{
  ℕ, ◌≡◌, ◌≢◌, refl, sym, ap, subst, ◌∙◌, inl, inr, Bool, true, false, Bool-cases, Option, some,
  List, ◌++◌, Text, codes, to_string, if◌then◌else◌,
}
use csnd.OutputFile.{Os, record_bytes, record_text}
use csnd.OutputFile.Record.{
  IsReady, with_dir, file_name, written, record_bytes-ready, record_text-ready,
}

-- The name of a file by its time.
abbrev pub path : Text → ℕ → Text → Text
path out_dir time suffix = out_dir ++ (codes "/" ++ (to_string time ++ suffix))

module _ {D : Type 0} (os : Os D) (find : D → Text → Option (List ℕ)) where
  -- Only `open`, which truncates, and `write` change a file, and only the one they name.
  pub record IsFileSystem : Type 0 where
    pub find-mkdir : (s : D) (dir name : Text) → find (os.mkdir s dir).1 name ≡ find s name
    pub find-now : (s : D) (name : Text) → find (os.now s).1 name ≡ find s name
    pub find-open :
        (s : D) (name : Text) (binary : Bool) (other : Text)
        → name ≢ other
        → find (os.open_file s name binary).1 other ≡ find s other
    pub find-write_self :
        (s : D) (name : Text) (content : List ℕ)
        → find (os.write_file s name content) name ≡ some content
    pub find-write :
        (s : D) (name : Text) (content : List ℕ) (other : Text)
        → name ≢ other
        → find (os.write_file s name content) other ≡ find s other

module _ {D : Type 0} (os : Os D) where
  -- In the states of `P` the directory is there or can be made, and files can be opened. The calls
  -- of a recorder keep to these states.
  pub record IsWorking (out_dir : Text) (P : D → Type 0) : Type 0 where
    pub ready : (s : D) → P s → IsReady os s out_dir
    pub opens : (s : D) (name : Text) (binary : Bool) → P s → (os.open_file s name binary).0 ≡ true
    pub after_mkdir : (s : D) → P s → P (os.mkdir s out_dir).1
    pub after_now : (s : D) → P s → P (os.now s).1
    pub after_open : (s : D) (name : Text) (binary : Bool) → P s → P (os.open_file s name binary).1
    pub after_write :
        (s : D) (name : Text) (content : List ℕ) → P s → P (os.write_file s name content)

  -- The time that goes into the name of the next file.
  abbrev pub stamp : Text → D → ℕ
  stamp out_dir s = (os.now (with_dir os s out_dir)).0

module _ {D : Type 0} (os : Os D) (find : D → Text → Option (List ℕ)) (fs : IsFileSystem os find)
    (out_dir : Text) (P : D → Type 0) (works : IsWorking os out_dir P) where
  with_dir-works :
      (s : D)
      → P s
      → P (with_dir os s out_dir)
        × ((name : Text) → find (with_dir os s out_dir) name ≡ find s name)
  with_dir-works s p = elim (Bool-cases (os.is_dir s out_dir)) [
    | inl there ↦ rw there (p, λ name. refl)
    | inr missing ↦ rw missing (works.after_mkdir s p, fs.find-mkdir s out_dir)
  ]

  -- The file is written, and no other is touched.
  pub record IsSaved (s : D) (suffix : Text) (content : List ℕ) (s' : D) : Type 0 where
    pub still_works : P s'
    pub found : find s' (path out_dir (stamp os out_dir s) suffix) ≡ some content
    pub others :
        (other : Text)
        → path out_dir (stamp os out_dir s) suffix ≢ other
        → find s' other ≡ find s other

  written-IsSaved :
      (s : D) (suffix : Text) (binary : Bool) (content : List ℕ)
      → P s
      → let s1 = with_dir os s out_dir in
        IsSaved s suffix content
          (written os (os.now s1).1 (file_name os s1 out_dir suffix) binary content)
  written-IsSaved s suffix binary content p =
      let s1 = with_dir os s out_dir in
      let name = path out_dir (stamp os out_dir s) suffix in
      let (p1, same) = with_dir-works s p in
      let s2 = (os.now s1).1 in
      let p2 = works.after_now s1 p1 in
      let s3 = (os.open_file s2 name binary).1 in
      let p3 = works.after_open s2 name binary p2 in
      subst (IsSaved s suffix content)
        (ap (λ (b : Bool). if b then os.write_file s3 name content else s3)
          (sym (works.opens s2 name binary p2)))
        (record {
          still_works = works.after_write s3 name content p3;
          found = fs.find-write_self s3 name content;
          others = λ other apart.
              fs.find-write s3 name content other apart
              ∙ fs.find-open s2 name binary other apart
              ∙ fs.find-now s1 other
              ∙ same other;
        })

  pub record_bytes-IsSaved :
      (s : D) (content : List ℕ) (suffix : Text)
      → P s
      → IsSaved s suffix content (record_bytes os s out_dir content suffix).2
  record_bytes-IsSaved s content suffix p =
      subst (IsSaved s suffix content)
        (sym (
          ap (λ (r : Bool × Option Text × D). r.2)
            (record_bytes-ready os s out_dir content suffix (works.ready s p))))
        (written-IsSaved s suffix true content p)

  pub record_text-IsSaved :
      (s : D) (str suffix : Text)
      → P s
      → IsSaved s suffix str (record_text os s out_dir str suffix).2
  record_text-IsSaved s str suffix p =
      subst (IsSaved s suffix str)
        (sym (
          ap (λ (r : Bool × Option Text × D). r.2)
            (record_text-ready os s out_dir str suffix (works.ready s p))))
        (written-IsSaved s suffix false str p)
