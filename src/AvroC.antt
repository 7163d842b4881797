-- ===== src/AvroC.antt =====
-- serializer/avro_c/avroc.cpp: the class `serializer_avroc` with its `impl`. The C library of Avro
-- is a parameter: `W` is its type of memory writers and `S` its own state, of which its failures
-- may depend. The state of the model has the local variables that the guards refer to, and counts
-- what has been allocated and not yet released.
pub mod Format
pub mod Construct
pub mod Laws
pub mod Memory
pub mod Readable
pub mod Serialize
mod Tests
use csnd.Prelude.{
  ℕ, zero, suc, ◌+◌, ◌-◌, ◌*◌, Bool, true, false, Option, none, some, List, [], ◌∷◌, ◌++◌, length,
  take, Text, codes, to_string, leb, ltb, ◌==◌, if◌then◌else◌, Result, ok, err,
}
use csnd.Accel.{AccelRecord}
use csnd.Exec.{Exec, pure, throw, gets, ◌>>=◌, ◌>>◌}
use csnd.Util.{guarded}
use csnd.AvroCpp.{
  Avro, AvroRecord, to_avro, AvroCodec, codec_name, avro_codec_key, avro_schema_key, draw_sync,
}

pub data Error : Type 0 where
  runtime_error invalid_argument : Text → Error

-- A local variable of pointer type: not yet assigned, null, or with a referent.
pub data Pointer (A : Type 0) : Type 0 where
  indeterminate null : Pointer A
  at : A → Pointer A

pub record Library (F W S : Type 0) : Type 0 where
  -- `avro_malloc`, and `avro_new` of a codec: whether memory was got.
  pub malloc : ℕ → S → Bool × S
  -- `sizeof(struct avro_codec_t_)`
  pub codec_size : ℕ
  -- `avro_writer_memory` on a buffer of this size.
  pub writer_memory : ℕ → S → Option W × S
  -- What the writer has written so far, and `avro_writer_tell`.
  pub written : W → List ℕ
  pub tell : W → ℕ
  -- Functions that write: `none` for a result other than 0.
  pub write : List ℕ → W → Option W
  pub write_long : ℕ → W → Option W
  pub write_string : Text → W → Option W
  pub write_bytes : List ℕ → W → Option W
  pub write_data : AvroRecord F → W → Option W
  pub schema_to_json : W → Option W
  -- `avro_schema_from_json_literal`, `avro_codec` and `avro_record_set`: whether they returned 0.
  pub parse_schema : Text → S → Bool × S
  pub set_codec : Text → S → Bool × S
  pub record_set : Text → S → Bool × S
  -- `avro_strerror`.
  pub strerror : S → Text
  -- `avro_codec_encode`: `block_data` up to `used_size`.
  pub codec_encode : AvroCodec → List ℕ → S → Option (List ℕ) × S

-- `buffers` has the sizes of the live buffers, the latest first; `writers`, `datums`, `schemas` and
-- `codecs` count what is live, of datums the references. `held` is how many references the datum `ar`
-- holds to its fields. `undefined` is set by undefined behaviour.
pub record State (M W S : Type 0) : Type 0 where
  pub datum_writer : Pointer W
  pub datum_buffer : Pointer ℕ
  pub writer : Pointer W
  pub buffer : Pointer ℕ
  pub schema_writer : Pointer W
  pub header_writer : Pointer W
  pub buffers : List ℕ
  pub writers : ℕ
  pub datums : ℕ
  pub held : ℕ
  pub schemas : ℕ
  pub codecs : ℕ
  pub undefined : Bool
  pub world : S
  pub mt : M

-- The members of `impl` that the constructor computes. `header` is the header buffer up to
-- `header_size`.
pub record Impl : Type 0 where
  pub codec : AvroCodec
  pub header : List ℕ
  pub header_size : ℕ
  pub header_buffer_size : ℕ

-- A live buffer of this size is released.
abbrev pub free_from : ℕ → List ℕ → Option (List ℕ)
free_from size [] = none
free_from size (n ∷ ns) =
    let behind = free_from size ns in
    if n == size then some ns else elim behind [ none ↦ none | some ns' ↦ some (n ∷ ns') ]

module _ {M W S : Type 0} where
  abbrev pub set_buffers : State M W S → Option (List ℕ) → State M W S
  set_buffers s none = record s { undefined = true }
  set_buffers s (some ns) = record s { buffers = ns }

  -- `if (buffer) avro_free(buffer, size);`
  abbrev pub free_buffer : Pointer ℕ → State M W S → State M W S
  free_buffer indeterminate s = record s { undefined = true }
  free_buffer null s = s
  free_buffer (at size) s = set_buffers s (free_from size s.buffers)

  abbrev pub fewer_writers : State M W S → ℕ → State M W S
  fewer_writers s zero = record s { undefined = true }
  fewer_writers s (suc n) = record s { writers = n }

  -- `if (writer) { avro_writer_reset(writer); avro_writer_free(writer); }`
  abbrev pub free_writer : Pointer W → State M W S → State M W S
  free_writer indeterminate s = record s { undefined = true }
  free_writer null s = s
  free_writer (at w) s = fewer_writers s s.writers

  -- The bodies of the four guards, in the order in which avroc.cpp has them.
  pub clear_header : State M W S → State M W S
  clear_header s = let s' = free_writer s.header_writer s in free_writer s.schema_writer s'

  pub clear_datum : State M W S → State M W S
  clear_datum s = let s' = free_writer s.datum_writer s in free_buffer s.datum_buffer s'

  -- Six fields and the record itself, which gives up the references that it holds.
  pub decref_datums : State M W S → State M W S
  decref_datums s =
      if ltb s.datums (7 + s.held)
      then record s { undefined = true }
      else record s { datums = s.datums - (7 + s.held); held = 0 }

  pub clear_writer : State M W S → State M W S
  clear_writer s = let s' = free_writer s.writer s in free_buffer s.buffer s'
