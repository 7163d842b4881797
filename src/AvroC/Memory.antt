-- ===== src/AvroC/Memory.antt =====
-- A library in memory over the plain encoders, which serves its calls as Avro C documents.
use csnd.Prelude.{
  ℕ, ◌+◌, ◌≡◌, refl, Bool, true, Option, none, some, List, [], ◌∷◌, ◌++◌, length, arith, codes, leb,
  if◌then◌else◌,
}
use csnd.AvroCpp.{compress, encode_record}
use csnd.AvroC.Format.{ar_schema}
use csnd.AvroCpp.Plain.{plain}
use csnd.AvroC.{Library}
use csnd.AvroC.Laws.{Writes, IsMemory, Succeeds, IsSpecified}

pub record Writer : Type 0 where
  pub capacity : ℕ
  pub bytes : List ℕ

abbrev put : List ℕ → Writer → Option Writer
put d w =
    if leb (length w.bytes + length d) w.capacity
    then some (record w { bytes = w.bytes ++ d })
    else none

-- Whether memory can be had, and whether the codec can be set.
abbrev pub library : Bool → Bool → Library ℕ Writer (Unit {0})
library memory codec = record {
  malloc = λ n world. (memory, world);
  codec_size = 48;
  writer_memory = λ n world. (some (record { capacity = n; bytes = [] }), world);
  written = λ w. w.bytes;
  tell = λ w. length w.bytes;
  write = put;
  write_long = λ n. put (plain.encode_long n);
  write_string = λ t. put (length t ∷ t);
  write_bytes = λ d. put (length d ∷ d);
  write_data = λ v. put (encode_record plain v);
  schema_to_json = put ar_schema;
  parse_schema = λ t world. (true, world);
  set_codec = λ t world. (codec, world);
  record_set = λ t world. (true, world);
  strerror = λ world. codes "no memory";
  codec_encode = λ c d world. (some (compress plain c d), world);
}

abbrev pub memory : Library ℕ Writer (Unit {0})
memory = library true true

put-Writes : (d : List ℕ) → Writes plain memory (λ w. w.capacity) d (put d)
put-Writes d w fits =
    let e : leb (length w.bytes + length d) w.capacity ≡ true = ground arith in
    (record w { bytes = w.bytes ++ d }, rw e refl, refl, refl)

pub memory-IsMemory : IsMemory plain memory
memory-IsMemory = record {
  capacity = λ w. w.capacity;
  fresh = λ n world. (record { capacity = n; bytes = [] }, refl, refl, refl);
  tell_law = λ w. refl;
  write_law = put-Writes;
  long_law = λ n. put-Writes (n ∷ []);
  string_law = λ t. put-Writes (length t ∷ t);
  bytes_law = λ d. put-Writes (length d ∷ d);
  data_law = λ v. put-Writes (encode_record plain v);
  json_law = put-Writes ar_schema;
}

pub memory-Succeeds : Succeeds plain memory
memory-Succeeds = record {
  allocates = λ n world. refl;
  parses = λ world. refl;
  sets_codec = λ c world. refl;
  sets_field = λ name world. refl;
  json_fits = omega arith;
  encodes = λ c d world. refl;
}

pub plain-IsSpecified : IsSpecified plain
plain-IsSpecified = record {
  float_size = λ v. omega arith;
  int_size = λ k n small. omega arith;
  long_size = λ k n small. omega arith;
  fixed_form = λ v. refl;
  map_form = λ k v k' v'. refl;
}
