-- ===== src/OutputFile/Record.antt =====
-- What the future of `record` says, and where the content goes.
use csnd.Prelude.{
  ℕ, ◌≡◌, ap, ◌∙◌, ◌⊎◌, inl, inr, Bool-cases, Option-cases, Bool, true, false, none, some, List,
  ◌++◌, Text, codes, arith, to_string, if◌then◌else◌, Result,
}
use csnd.OutputFile.{Os, Errno, mkdir_error, write_stream, record1, record_bytes, record_text}

module _ {S : Type 0} (os : Os S) where
  -- The directory is there, or can be made.
  abbrev pub IsReady : S → Text → Type 0
  IsReady s path = (os.is_dir s path ≡ true) ⊎ ((os.mkdir s path).0 ≡ none)

  -- The state once it is there.
  abbrev pub with_dir : S → Text → S
  with_dir s path = if os.is_dir s path then s else (os.mkdir s path).1

  abbrev pub file_name : S → Text → Text → Text
  file_name s out_dir suffix = out_dir ++ (codes "/" ++ (to_string (os.now s).0 ++ suffix))

  -- The state when the file has been opened and, if that succeeded, written.
  abbrev pub written : S → Text → Bool → List ℕ → S
  written s name binary content =
      let (usable, s') = os.open_file s name binary in
      if usable then os.write_file s' name content else s'

  pub record_bytes-ready :
      (s : S) (out_dir : Text) (content : List ℕ) (suffix : Text)
      → IsReady s out_dir
      → let s1 = with_dir s out_dir in
        record_bytes os s out_dir content suffix
        ≡ (true, none, written (os.now s1).1 (file_name s1 out_dir suffix) true content)
  unfolding record_bytes
  record_bytes-ready s out_dir content suffix ready = ground arith

  pub record_text-ready :
      (s : S) (out_dir str suffix : Text)
      → IsReady s out_dir
      → let s1 = with_dir s out_dir in
        record_text os s out_dir str suffix
        ≡ (true, none, written (os.now s1).1 (file_name s1 out_dir suffix) false str)
  unfolding record_text
  record_text-ready s out_dir str suffix ready = ground arith

  -- A file that cannot be opened goes unnoticed: the future is true, nothing is logged, and nothing
  -- was written.
  pub record_bytes-unopened :
      (s : S) (out_dir : Text) (content : List ℕ) (suffix : Text)
      → IsReady s out_dir
      → (os.open_file
          (os.now (with_dir s out_dir)).1
          (file_name (with_dir s out_dir) out_dir suffix)
          true).0
        ≡ false
      → record_bytes os s out_dir content suffix ≡ (
        true,
        none,
        (os.open_file
            (os.now (with_dir s out_dir)).1
            (file_name (with_dir s out_dir) out_dir suffix)
            true).1,
      )
  record_bytes-unopened s out_dir content suffix ready closed =
      let s1 = with_dir s out_dir in
      let opened = os.open_file (os.now s1).1 (file_name s1 out_dir suffix) true in
      record_bytes-ready s out_dir content suffix ready
      ∙ ap
          (λ (b : Bool). (
            true,
            none,
            (if b then os.write_file opened.1 (file_name s1 out_dir suffix) content else opened.1),
          ))
          closed

  record1-refused :
      (s : S) (out_dir : Text) (writer : S → Result Text (Unit {0}) × S) (e : Errno)
      → os.is_dir s out_dir ≡ false
      → (os.mkdir s out_dir).0 ≡ some e
      → record1 os s out_dir writer ≡ (false, some (mkdir_error e out_dir), (os.mkdir s out_dir).1)
  unfolding record1
  record1-refused s out_dir writer e missing refused = ground arith

  -- The future of `record` is true exactly if the output directory is there or can be made. Then
  -- the content has gone to a file of that directory, named by the time, if that file could be
  -- opened, and to nothing if not; nothing is logged. If the directory is missing and cannot be
  -- made, the future is false, the error of `mkdir` is logged, and only `mkdir` has touched the
  -- state.
  pub record_bytes_cases :
      (s : S) (out_dir : Text) (content : List ℕ) (suffix : Text)
      → let s1 = with_dir s out_dir in
        (IsReady s out_dir
          × (record_bytes os s out_dir content suffix
              ≡ (true, none, written (os.now s1).1 (file_name s1 out_dir suffix) true content)))
        ⊎ ((e : Errno) × (os.is_dir s out_dir ≡ false)
            × ((os.mkdir s out_dir).0 ≡ some e)
            × (record_bytes os s out_dir content suffix
                ≡ (false, some (mkdir_error e out_dir), (os.mkdir s out_dir).1)))
  unfolding record_bytes
  record_bytes_cases s out_dir content suffix = elim (Bool-cases (os.is_dir s out_dir)) [
    | inl there ↦ inl (inl there, record_bytes-ready s out_dir content suffix (inl there))
    | inr missing ↦ elim (Option-cases (os.mkdir s out_dir).0) [
      | inl made ↦ inl (inr made, record_bytes-ready s out_dir content suffix (inr made))
      | inr (e, refused) ↦ inr (
        e,
        missing,
        refused,
        record1-refused s out_dir (write_stream os out_dir suffix true content) e missing refused,
      )
    ]
  ]
