-- ===== src/OutputFile.antt =====
-- recorder/recorder_local_posix.cpp: how a recorder writes its files. The operating system is a
-- parameter: `S` is its state, with the file system, and `Os` what the code asks of it.
pub mod Record
pub mod Disk
pub mod FileSystem
mod Tests
use csnd.Prelude.{
  ℕ, ◌+◌, Bool, true, false, ◌&&◌, Option, none, some, List, [], ◌∷◌, ◌++◌, Text, codes, to_string,
  if◌then◌else◌, Result, ok, err,
}

-- The values of `errno` that `prepare` names.
pub data Errno : Type 0 where
  eacces edquot eexist efault eloop emlink enametoolong enoent enomem enospc enotdir eperm erofs :
      Errno
  other : ℕ → Errno

pub record Os (S : Type 0) : Type 0 where
  -- `stat(path, &sb) == 0 && S_ISDIR(sb.st_mode)`.
  pub is_dir : S → Text → Bool
  -- `mkdir` with the mode of the source: `none` for success.
  pub mkdir : S → Text → Option Errno × S
  -- Microseconds since the epoch, `int64now()`.
  pub now : S → ℕ × S
  -- `ofstream::open`, by the name and whether the mode is binary: whether the stream is usable. It
  -- sets a flag and does not throw.
  pub open_file : S → Text → Bool → Bool × S
  -- `ofstream::write` and `<<` on a usable stream, then `close`.
  pub write_file : S → Text → List ℕ → S

-- The text that is logged for a failed `mkdir`.
pub mkdir_error : Errno → Text → Text
mkdir_error eacces path = codes "Access denied (EACCES): " ++ path
mkdir_error edquot path = codes "Ran out of disk quota (EDQUOT): " ++ path
mkdir_error eexist path = codes "File exist (EEXIST): " ++ path
mkdir_error efault path = codes "Bad address (EFAULT): " ++ path
mkdir_error eloop path = codes "Cannot translate name (ELOOP): " ++ path
mkdir_error emlink path = codes "Too many links (EMLINK): " ++ path
mkdir_error enametoolong path = codes "File name too long (ENAMETOOLONG) " ++ path
mkdir_error enoent path = codes "No such file or directory (ENOENT) " ++ path
mkdir_error enomem path = codes "Cannot allocate memory (ENOMEM) " ++ path
mkdir_error enospc path = codes "No space left on device (ENOSPC) " ++ path
mkdir_error enotdir path = codes "Not a directory (ENOTDIR) " ++ path
mkdir_error eperm path = codes "Operation not permitted (EPERM) " ++ path
mkdir_error erofs path = codes "Read-only file system (EROFS) " ++ path
mkdir_error (other n) path = codes "UNKNOWN MKDIR ERROR (" ++ (to_string n ++ (codes ") " ++ path))

module _ {S : Type 0} (os : Os S) where
  -- The result, the error that is logged, and the state.
  pub prepare : S → Text → Bool × Option Text × S
  prepare s path =
      let (failure, s') = os.mkdir s path in
      if os.is_dir s path then (true, none, s) else elim failure [
        | none ↦ (true, none, s')
        | some e ↦ (false, some (mkdir_error e path), s')
      ]

  -- `output_file_name(suffix)`
  pub output_file_name : S → Text → Text → Text × S
  output_file_name s out_dir suffix =
      let (time, s') = os.now s in (out_dir ++ (codes "/" ++ (to_string time ++ suffix)), s')

  -- The task of `record1`: the writer may throw a message. The result is that of the future.
  pub record1 : S → Text → (S → Result Text (Unit {0}) × S) → Bool × Option Text × S
  unfolding prepare
  record1 s out_dir writer =
      let (ready, failure, s') = prepare s out_dir in
      let (outcome, s'') = writer s' in
      if ready
      then elim outcome [
        | ok _ ↦ (true, none, s'')
        | err what ↦ (false, some (codes "FAILED TO WRITE FILE: " ++ what), s'')
      ]
      else (false, failure, s')

  -- The writer of `record`: it opens the file, writes and closes. What is done to a stream that is
  -- not usable has no effect.
  pub write_stream : Text → Text → Bool → List ℕ → S → Result Text (Unit {0}) × S
  unfolding output_file_name
  write_stream out_dir suffix binary content s =
      let (filename, s1) = output_file_name s out_dir suffix in
      let (usable, s2) = os.open_file s1 filename binary in
      (ok tt, if usable then os.write_file s2 filename content else s2)

  -- The two overloads of `record`: bytes, in binary mode, and a text.
  unfoldable pub record_bytes : S → Text → List ℕ → Text → Bool × Option Text × S
  unfolding record1 write_stream
  record_bytes s out_dir content suffix =
      record1 s out_dir (write_stream out_dir suffix true content)

  pub record_text : S → Text → Text → Text → Bool × Option Text × S
  unfolding record1 write_stream
  record_text s out_dir str suffix = record1 s out_dir (write_stream out_dir suffix false str)
