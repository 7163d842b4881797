-- ===== src/AvroCpp/Tests.antt =====
-- The serializer on plain encoders, and the theorems applied to it.
use csnd.Prelude.{ℕ, ◌≡◌, refl, Option, none, some, List, [], ◌∷◌, ok, err}
use csnd.Accel.{AccelRecord}
use csnd.AvroCpp.{
  AvroRecord, null_codec, deflate_codec, no_data_to_flush, init, draw_sync, serialize,
}
use csnd.AvroCpp.Roundtrip.{read_file}
use csnd.AvroCpp.Calls.{after, file_of, serialize-read_file}
use csnd.AvroCpp.Plain.{sample, sample-Fits, plain, plain-IsInverse}

abbrev blank : AvroRecord ℕ
blank = record { x = 0; y = 0; z = 0; sample_count = 0; start_time = 0; end_time = 0 }

-- A call with nothing to write, and one with a record.
abbrev calls : List (Option (List (AccelRecord ℕ)))
calls = none ∷ some (sample ∷ []) ∷ []

serialize_nothing :
    ((serialize plain (init plain null_codec 5) none).0 ≡ err no_data_to_flush)
    × ((serialize plain (init plain null_codec 5) (some [])).0 ≡ err no_data_to_flush)
unfolding serialize
serialize_nothing = (refl, refl)

-- The generator is not the seeded one.
first_sync : (draw_sync plain 2 (init plain null_codec 5).mt).0 ≡ 100 ∷ 107 ∷ []
unfolding draw_sync init
first_sync = refl

serialize-read_file_example :
    (data_file : List ℕ) × ((serialize plain
        (after plain (init plain deflate_codec 5) calls)
        (some (sample ∷ []))).0
      ≡ ok data_file)
    × (read_file plain blank data_file ≡ ok (file_of plain deflate_codec 16 (sample ∷ [])))
serialize-read_file_example =
    serialize-read_file plain plain-IsInverse deflate_codec 5 calls sample [] blank sample-Fits
