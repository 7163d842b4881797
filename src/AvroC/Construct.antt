-- ===== src/AvroC/Construct.antt =====
-- serializer/avro_c/avroc.cpp, the constructor and the destructor of `impl`.
pub mod Balance
pub mod Guard
pub mod Header
pub mod Total
use csnd.Prelude.{
  ℕ, zero, suc, ◌+◌, ◌*◌, Bool, true, false, Option, none, some, List, [], ◌∷◌, ◌++◌, length, take,
  Text, codes, to_string, if◌then◌else◌, Result, ok, err,
}
use csnd.Exec.{Exec, pure, throw, gets, ◌>>=◌, ◌>>◌}
use csnd.Util.{guarded}
use csnd.AvroCpp.{AvroCodec, codec_name, avro_codec_key, avro_schema_key}
use csnd.AvroC.Format.{magic, ar_schema}
use csnd.AvroC.{
  Error, runtime_error, Pointer, null, at, Library, State, Impl, set_buffers, free_from,
  clear_header,
}

abbrev Action : Type 0 → Type 0 → Type 0 → Type 0 → Type 0
Action M W S A = Exec (State M W S) Error A

-- `sizeof(schema_buf)`
abbrev pub schema_buf_size : ℕ
schema_buf_size = 64 * 1024

-- `4 + 8 + 10 + strlen(_codec->name) + 11 + schema_len + 8`
abbrev pub header_buffer_size_for : AvroCodec → List ℕ → ℕ
header_buffer_size_for c json = 4 + 8 + 10 + length (codec_name c) + 11 + length json + 8

module _ {F W S : Type 0} (lib : Library F W S) where
  -- The calls that write the header, in their order.
  abbrev pub header_calls : AvroCodec → List ℕ → List ((W → Option W) × Text)
  header_calls c json =
      (lib.write magic, codes "FAILED TO WRITE MAGIC")
      ∷ (lib.write_long 2, codes "FAILED TO WRITE LONG (2)")
      ∷ (lib.write_string avro_codec_key, codes "FAILED TO WRITE KEY 'avro.codec'")
      ∷ (lib.write_bytes (codec_name c), codes "FAILED TO WRITE VALUE OF 'avro.codec'")
      ∷ (lib.write_string avro_schema_key, codes "FAILED TO WRITE KEY 'avro.schema'")
      ∷ (
        lib.write_bytes json,
        codes "FAILED TO WRITE VALUE OF 'avro.schema' (" ++ (to_string (length json) ++ codes ")"),
      )
      ∷ (lib.write_long 0, codes "FAILED TO WRITE LONG (0)")
      ∷ []

  abbrev pub made : AvroCodec → List ℕ → W → Impl
  made c json w = record {
    codec = c;
    header = lib.written w;
    header_size = lib.tell w;
    header_buffer_size = header_buffer_size_for c json;
  }

module _ {F M W S : Type 0} (lib : Library F W S) where
  -- `avro_schema_from_json_literal(AR_SCHEMA, &_ar_schema)`.
  pub parse_ar_schema : Action M W S (Unit {0})
  parse_ar_schema s =
      let (done, world') = lib.parse_schema ar_schema s.world in
      if done then (ok tt, record s { schemas = suc s.schemas; world = world' }) else (
        err (
            runtime_error
              (codes "FAILED TO PARSE AR SCHEMA (" ++ (lib.strerror world' ++ codes ")"))),
        record s { world = world' },
      )

  -- `_codec = avro_new(struct avro_codec_t_)`.
  pub new_codec : Action M W S (Unit {0})
  new_codec s =
      let (done, world') = lib.malloc lib.codec_size s.world in
      if done
      then (ok tt, record s { codecs = suc s.codecs; world = world' })
      else (err (runtime_error (codes "FAILED TO ALLOCATE NEW CODEC")), record s { world = world' })

  -- The `switch`. Both values of the enumeration have a case, so `default` is out of reach.
  pub set_codec : AvroCodec → Action M W S (Unit {0})
  set_codec c s =
      let (done, world') = lib.set_codec (codec_name c) s.world in
      if done then (ok tt, record s { world = world' }) else (
        err (runtime_error (codes "FAILED TO SET CODEC (" ++ (codec_name c ++ codes ")"))),
        record s { world = world' },
      )

  abbrev pub set_schema_writer : Option W × S → Action M W S W
  set_schema_writer (none, world') s =
      (err (runtime_error (codes "FAILED TO CREATE SCHEMA WRITER")), record s { world = world' })
  set_schema_writer (some w, world') s =
      (ok w, record s { schema_writer = at w; writers = suc s.writers; world = world' })

  pub make_schema_writer : Action M W S W
  make_schema_writer s = set_schema_writer (lib.writer_memory schema_buf_size s.world) s

  -- `schema_buf` up to `schema_len`.
  abbrev pub put_schema : Option W → Action M W S (List ℕ)
  put_schema none s = (err (runtime_error (codes "FAILED TO TRANSLATE SCHEMA TO JSON")), s)
  put_schema (some w) s =
      (ok (take (lib.tell w) (lib.written w)), record s { schema_writer = at w })

  pub alloc_header_buffer : ℕ → Action M W S (Unit {0})
  alloc_header_buffer size s =
      let (done, world') = lib.malloc size s.world in
      if done then (ok tt, record s { buffers = size ∷ s.buffers; world = world' }) else (
        err (runtime_error (codes "FAILED TO ALLOCATE HEADER BUFFER")),
        record s { world = world' },
      )

  abbrev pub set_header_writer : Option W × S → Action M W S W
  set_header_writer (none, world') s =
      (err (runtime_error (codes "FAILED TO CREATE HEADER WRITER")), record s { world = world' })
  set_header_writer (some w, world') s =
      (ok w, record s { header_writer = at w; writers = suc s.writers; world = world' })

  pub make_header_writer : ℕ → Action M W S W
  make_header_writer size s = set_header_writer (lib.writer_memory size s.world) s

  -- `if (call) { throw std::runtime_error(what); }`: the writer behind the call.
  abbrev pub put_header : Option W → Text → Action M W S W
  put_header none what s = (err (runtime_error what), s)
  put_header (some w) what s = (ok w, record s { header_writer = at w })

  -- Calls that write, each with what is thrown if it fails.
  pub write_calls : List ((W → Option W) × Text) → W → Action M W S W
  write_calls [] w = pure w
  write_calls ((call, what) ∷ calls) w = put_header (call w) what >>= write_calls calls

  -- The scope of the guard from the header buffer on.
  pub fill_header : AvroCodec → List ℕ → Action M W S Impl
  unfolding alloc_header_buffer make_header_writer write_calls
  fill_header c json =
      alloc_header_buffer (header_buffer_size_for c json)
      >> (make_header_writer (header_buffer_size_for c json) >>= λ w.
          write_calls (header_calls lib c json) w >>= λ w. pure (made lib c json w))

  -- The scope of the guard.
  pub make_header : AvroCodec → Action M W S Impl
  unfolding make_schema_writer fill_header
  make_header c = make_schema_writer >>= λ w. put_schema (lib.schema_to_json w) >>= fill_header c

  -- The guard, with both writers null at first.
  pub guard_header : AvroCodec → Action M W S Impl
  unfolding make_header
  guard_header c s =
      guarded clear_header (make_header c) (record s { header_writer = null; schema_writer = null })

  unfoldable pub construct : AvroCodec → Action M W S Impl
  unfolding parse_ar_schema new_codec set_codec guard_header
  construct c = parse_ar_schema >> (new_codec >> (set_codec c >> guard_header c))

module _ {M W S : Type 0} where
  abbrev pub fewer_schemas : State M W S → ℕ → State M W S
  fewer_schemas s zero = record s { undefined = true }
  fewer_schemas s (suc n) = record s { schemas = n }

  abbrev pub fewer_codecs : State M W S → ℕ → State M W S
  fewer_codecs s zero = record s { undefined = true }
  fewer_codecs s (suc n) = record s { codecs = n }

  -- The destructor: only of an `impl` that has been constructed, so both pointers are there.
  pub destruct : Impl → State M W S → State M W S
  destruct impl s =
      let s1 = fewer_schemas s s.schemas in
      let s2 = set_buffers s1 (free_from impl.header_buffer_size s1.buffers) in
      fewer_codecs s2 s2.codecs
