-- ===== src/AvroC/Tests.antt =====
-- The serializer on a library in memory, and the theorems applied to it.
use csnd.Prelude.{ℕ, ◌≡◌, refl, true, false, none, some, List, [], ◌∷◌, arith, ok, err, codes}
use csnd.AvroCpp.{AvroRecord, deflate_codec, compress, encode_record, encode_records, draw_sync}
use csnd.AvroCpp.Plain.{plain, plain-IsInverse, sample}
use csnd.AvroC.{runtime_error, State, Impl, null}
use csnd.AvroCpp.Roundtrip.{contents_of, read_file}
use csnd.Exec.Keeps.{Outcome}
use csnd.AvroC.Serialize.{serialize}
use csnd.AvroC.Serialize.Datum.{Restores}
use csnd.AvroC.Serialize.Sizes.{Fits}
use csnd.AvroC.Serialize.Release.{serialize-undefined}
use csnd.AvroC.Construct.{construct, destruct}
use csnd.AvroC.Construct.Balance.{Abandons, serve, construct-serve-destruct}
use csnd.AvroC.Readable.{construct-serialize}
use csnd.AvroC.Memory.{Writer, library, memory, memory-IsMemory, memory-Succeeds, plain-IsSpecified}

abbrev blank : AvroRecord ℕ
blank = record { x = 0; y = 0; z = 0; sample_count = 0; start_time = 0; end_time = 0 }

abbrev start : State ℕ Writer (Unit {0})
start = record {
  datum_writer = null;
  datum_buffer = null;
  writer = null;
  buffer = null;
  schema_writer = null;
  header_writer = null;
  buffers = 9 ∷ [];
  writers = 1;
  datums = 0;
  held = 0;
  schemas = 2;
  codecs = 3;
  undefined = false;
  world = tt;
  mt = 100;
}

abbrev small_impl : Impl
small_impl = record {
  codec = deflate_codec;
  header = 7 ∷ 8 ∷ [];
  header_size = 2;
  header_buffer_size = 60;
}

sample-Fits : Fits plain memory deflate_codec (sample ∷ [])
unfolding compress encode_records encode_record
sample-Fits = (((omega arith, omega arith, omega arith), tt), omega arith, omega arith)

serialize-undefined_example :
    (serialize plain (library false true) small_impl (some (sample ∷ [])) start).1.undefined ≡ true
serialize-undefined_example =
    serialize-undefined plain (library false true) small_impl sample [] start refl

construct-serialize_example :
    (impl : Impl) × ((construct memory deflate_codec start).0 ≡ ok impl)
    × ((data_file : List ℕ) × ((serialize plain memory impl (some (sample ∷ [])) start).0
          ≡ ok data_file)
        × (read_file plain blank data_file
            ≡ ok (contents_of plain deflate_codec (draw_sync plain 16 100).0 (sample ∷ []))))
construct-serialize_example =
    construct-serialize plain memory memory-IsMemory memory-Succeeds plain-IsSpecified
      plain-IsInverse deflate_codec sample [] blank start start sample-Fits

construct-serve-destruct_example :
    Outcome
      (λ impl s'.
        Restores start
          (destruct impl (serve plain memory impl (none ∷ some (sample ∷ []) ∷ []) s')))
      (Abandons memory start)
      (construct memory deflate_codec start)
construct-serve-destruct_example =
    construct-serve-destruct plain memory deflate_codec (none ∷ some (sample ∷ []) ∷ []) start
      (λ n world. refl) refl

-- A constructor that throws leaves a schema and a codec behind.
construct_throws :
    ((construct (library true false) deflate_codec start).0
      ≡ err (runtime_error (codes "FAILED TO SET CODEC (deflate)")))
    × ((construct (library true false) deflate_codec start).1.schemas ≡ 3)
    × ((construct (library true false) deflate_codec start).1.codecs ≡ 4)
unfolding construct
construct_throws = (refl, refl, refl)
