-- ===== src/OutputFile/Tests.antt =====
-- A small file system, and the theorems on `record` applied to it.
use csnd.Prelude.{◌≡◌, ◌⊎◌, refl, true, false, none, some, [], ◌∷◌, codes, to_string}
use csnd.OutputFile.{Errno, enospc, mkdir_error, record_bytes}
use csnd.OutputFile.Disk.{Disk, disk, empty_disk}
use csnd.OutputFile.Record.{IsReady, record_bytes_cases}

abbrev full_disk : Disk
full_disk = (true, false, 42, [])

record_bytes_cases_example :
    (IsReady disk empty_disk (codes "out")
      × (record_bytes disk empty_disk (codes "out") (1 ∷ 2 ∷ []) (codes ".avro")
          ≡ (true, none, (true, true, 43, (codes "out/42.avro", 1 ∷ 2 ∷ []) ∷ []))))
    ⊎ ((e : Errno) × (false ≡ false)
        × (none ≡ some e)
        × (record_bytes disk empty_disk (codes "out") (1 ∷ 2 ∷ []) (codes ".avro")
            ≡ (false, some (mkdir_error e (codes "out")), (true, true, 42, []))))
unfolding to_string
record_bytes_cases_example =
    record_bytes_cases disk empty_disk (codes "out") (1 ∷ 2 ∷ []) (codes ".avro")

no_space : mkdir_error enospc (codes "out") ≡ codes "No space left on device (ENOSPC) out"
unfolding mkdir_error
no_space = refl
