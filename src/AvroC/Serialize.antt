-- ===== src/AvroC/Serialize.antt =====
-- serializer/avro_c/avroc.cpp, `impl::serialize`.
pub mod Datum
pub mod File
pub mod Release
pub mod Block
pub mod Total
pub mod Awaits
pub mod Sizes
use csnd.Prelude.{
  ℕ, zero, suc, ◌+◌, ◌*◌, Bool, true, false, Option, none, some, List, [], ◌∷◌, ◌++◌, length, take,
  Text, codes, to_string, leb, if◌then◌else◌, Result, ok, err,
}
use csnd.Accel.{AccelRecord}
use csnd.Exec.{Exec, pure, throw, gets, ◌>>=◌, ◌>>◌}
use csnd.Util.{guarded}
use csnd.AvroCpp.{Avro, AvroRecord, to_avro, draw_sync}
use csnd.AvroC.{
  Error, runtime_error, invalid_argument, Pointer, indeterminate, null, at, Library, State, Impl,
  clear_datum, decref_datums, clear_writer,
}

module _ {F M W S : Type 0} (avro : Avro F M) (lib : Library F W S) where
  abbrev pub Action : Type 0 → Type 0
  Action A = Exec (State M W S) Error A

  -- `datum_buffer = avro_malloc(size)` and the test of it.
  pub alloc_datum_buffer : ℕ → Action (Unit {0})
  alloc_datum_buffer size s =
      let (done, world') = lib.malloc size s.world in
      if done
      then (ok tt, record s { datum_buffer = at size; buffers = size ∷ s.buffers; world = world' })
      else (
        err (runtime_error (codes "FAILED TO ALLOCATE DATUM BUFFER")),
        record s { datum_buffer = null; world = world' },
      )

  -- `datum_writer = avro_writer_memory(...)` and the test of it.
  abbrev pub set_datum_writer : Option W × S → Action (Unit {0})
  set_datum_writer (none, world') s = (
    err (runtime_error (codes "FAILED TO CREATE DATUM WRITER")),
    record s { datum_writer = null; world = world' },
  )
  set_datum_writer (some w, world') s =
      (ok tt, record s { datum_writer = at w; writers = suc s.writers; world = world' })

  pub make_datum_writer : ℕ → Action (Unit {0})
  make_datum_writer size s = set_datum_writer (lib.writer_memory size s.world) s

  pub alloc_buffer : ℕ → Action (Unit {0})
  alloc_buffer size s =
      let (done, world') = lib.malloc size s.world in
      if done
      then (ok tt, record s { buffer = at size; buffers = size ∷ s.buffers; world = world' })
      else (
        err (runtime_error (codes "FAILED TO ALLOCATE BUFFER")),
        record s { buffer = null; world = world' },
      )

  abbrev pub set_writer : Option W × S → Action (Unit {0})
  set_writer (none, world') s = (
    err (runtime_error (codes "FAILED TO CREATE WRITER")),
    record s { writer = null; world = world' },
  )
  set_writer (some w, world') s =
      (ok tt, record s { writer = at w; writers = suc s.writers; world = world' })

  pub make_writer : ℕ → Action (Unit {0})
  make_writer size s = set_writer (lib.writer_memory size s.world) s

  -- A call that writes, `if (call) { throw std::runtime_error(what); }`. (A writer that is not there
  -- cannot occur behind the tests above.)
  abbrev pub put_datum : Option W → Text → Action (Unit {0})
  put_datum none what s = (err (runtime_error what), s)
  put_datum (some w) what s = (ok tt, record s { datum_writer = at w })

  abbrev pub with_datum_writer : Pointer W → (W → Option W) → Text → Action (Unit {0})
  with_datum_writer (at w) call what s = put_datum (call w) what s
  with_datum_writer other call what s = (err (runtime_error what), record s { undefined = true })

  abbrev pub on_datum_writer : (W → Option W) → Text → Action (Unit {0})
  on_datum_writer call what s = with_datum_writer s.datum_writer call what s

  abbrev pub put_file : Option W → Text → Action (Unit {0})
  put_file none what s = (err (runtime_error what), s)
  put_file (some w) what s = (ok tt, record s { writer = at w })

  abbrev pub with_writer : Pointer W → (W → Option W) → Text → Action (Unit {0})
  with_writer (at w) call what s = put_file (call w) what s
  with_writer other call what s = (err (runtime_error what), record s { undefined = true })

  abbrev pub on_writer : (W → Option W) → Text → Action (Unit {0})
  on_writer call what s = with_writer s.writer call what s

  -- The bytes that a writer has written, up to where it tells that it is.
  abbrev pub bytes_of : Pointer W → List ℕ
  bytes_of (at w) = take (lib.tell w) (lib.written w)
  bytes_of other = []

  -- `for (i < 16) sync[i] = _mt();`
  pub draw : Action (List ℕ)
  draw s = let (sync, mt') = draw_sync avro 16 s.mt in (ok sync, record s { mt = mt' })

  -- `avro_record`, `avro_float` and so on: seven datums, with one reference each. (The code does
  -- not ask whether there was memory for them.)
  abbrev pub create_datums : State M W S → State M W S
  create_datums s = record s { datums = s.datums + 7; held = 0 }

  -- `avro_record_set(ar, name, field)`: `ar` holds a reference more.
  pub set_field : Text → Action (Unit {0})
  set_field name s =
      let (done, world') = lib.record_set name s.world in
      if done
      then (ok tt, record s { datums = suc s.datums; held = suc s.held; world = world' })
      else (err (runtime_error (codes "UNABLE TO CREATE AR DATUM")), record s { world = world' })

  -- The body of the loop over the records, behind the guard.
  pub fill_record : AccelRecord F → Action (Unit {0})
  unfolding set_field
  fill_record a =
      set_field (codes "x")
      >> (set_field (codes "y")
          >> (set_field (codes "z")
              >> (set_field (codes "sample_count")
                  >> (set_field (codes "start_time")
                      >> (set_field (codes "end_time")
                          >> on_datum_writer (lib.write_data (to_avro a))
                              (codes "UNABLE TO APPEND AR DATUM"))))))

  pub write_record : AccelRecord F → Action (Unit {0})
  unfolding fill_record
  write_record a s = guarded decref_datums (fill_record a) (create_datums s)

  -- The loop, with `block_count`.
  pub write_records : List (AccelRecord F) → ℕ → Action ℕ
  write_records [] block_count = pure block_count
  write_records (a ∷ ars) block_count = write_record a >> write_records ars (block_count + 1)

  -- `avro_codec_encode(_codec, datum_buffer, block_size)`.
  pub encode_block : Impl → Action (List ℕ)
  encode_block impl s =
      let (encoded, world') = lib.codec_encode impl.codec (bytes_of s.datum_writer) s.world in
      elim encoded [
        | none ↦
            (err (runtime_error (codes "FAILED TO ENCODE THE BLOCK")), record s { world = world' })
        | some block ↦ (ok block, record s { world = world' })
      ]

  -- `_header_size + 4 + 4 + sizeof(sync) * 2 + _codec->used_size`
  abbrev pub buffer_size_for : Impl → List ℕ → ℕ
  buffer_size_for impl block = impl.header_size + 4 + 4 + 16 * 2 + length block

  -- The scope of the last guard: the file, put together in a buffer of its own.
  pub write_file : Impl → List ℕ → ℕ → List ℕ → Action (List ℕ)
  unfolding alloc_buffer make_writer
  write_file impl sync block_count block =
      alloc_buffer (buffer_size_for impl block)
      >> (make_writer (buffer_size_for impl block)
          >> (on_writer (lib.write (take impl.header_size impl.header)) (
                codes "FAILED TO WRITE HEADER BLOCK (" ++ (to_string impl.header_size ++ codes ")"))
              >> (on_writer (lib.write sync) (codes "FAILED TO WRITE SYNC (HEADER)")
                  >> (on_writer (lib.write_long block_count)
                        (codes "FAILED TO WRITE THE DATA BLOCK COUNT")
                      >> (on_writer (lib.write_long (length block))
                            (codes "FAILED TO WRITE THE DATA BLOCK SIZE")
                          >> (on_writer (lib.write block) (codes "FAILED TO WRITE THE DATA BLOCK")
                              >> (on_writer (lib.write sync)
                                    (codes "FAILED TO WRITE SYNC MARKER (DATA BLOCK)")
                                  >> gets (λ s. bytes_of s.writer))))))))

  -- `if (block_count <= 0) { throw ... }`
  abbrev pub require_some : ℕ → Action (Unit {0})
  require_some block_count =
      if leb block_count 0
      then throw
          (runtime_error (codes "NO DATA TO SERIALIZE (" ++ (to_string block_count ++ codes ")")))
      else pure tt

  -- `writer` and `buffer` are declared without a value.
  pub write_block : Impl → List ℕ → ℕ → List ℕ → Action (List ℕ)
  unfolding write_file
  write_block impl sync block_count block s =
      guarded clear_writer (write_file impl sync block_count block)
        (record s { writer = indeterminate; buffer = indeterminate })

  -- Four bytes each for three floats and an `int32_t`, eight each for two `int64_t`.
  abbrev pub datum_size_for : List (AccelRecord F) → ℕ
  datum_size_for ars = length ars * (4 * 3 + 4 + 8 * 2)

  -- The scope of the first guard.
  pub write_datums : Impl → List (AccelRecord F) → Action (List ℕ)
  unfolding alloc_datum_buffer make_datum_writer draw write_records encode_block write_block
  write_datums impl ars =
      alloc_datum_buffer (datum_size_for ars)
      >> (make_datum_writer (datum_size_for ars)
          >> (draw >>= λ sync. write_records ars 0 >>= λ block_count.
              require_some block_count
              >> (encode_block impl >>= λ block. write_block impl sync block_count block)))

  unfoldable pub serialize : Impl → Option (List (AccelRecord F)) → Action (List ℕ)
  unfolding write_datums
  serialize impl none s = throw (invalid_argument (codes "NO DATA TO SERIALIZE")) s
  serialize impl (some []) s = throw (invalid_argument (codes "NO DATA TO SERIALIZE")) s
  serialize impl (some (a ∷ ars)) s =
      guarded clear_datum (write_datums impl (a ∷ ars))
        (record s { datum_writer = indeterminate; datum_buffer = indeterminate })
