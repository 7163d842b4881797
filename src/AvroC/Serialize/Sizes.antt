-- ===== src/AvroC/Serialize/Sizes.antt =====
-- The sizes of the two buffers of `serialize` are enough.
use csnd.Prelude.{
  ℕ, ◌^◌, ◌≤◌, ◌<◌, ◌≡◌, ap, List, [], ◌∷◌, ◌++◌, length, length-append, append-nil, take, arith,
  All,
}
use csnd.Accel.{AccelRecord}
use csnd.AvroCpp.{Avro, AvroRecord, to_avro, AvroCodec, compress, encode_record, encode_records}
use csnd.AvroC.{Library, Impl}
use csnd.AvroC.Laws.{IsSpecified}
use csnd.AvroC.Serialize.{datum_size_for, buffer_size_for}

module _ {F M W S : Type 0} (avro : Avro F M) (lib : Library F W S) where
  -- The bytes that the last scope puts together.
  abbrev pub file_bytes : Impl → List ℕ → ℕ → List ℕ → List ℕ
  file_bytes impl sync n block =
      take impl.header_size impl.header
      ++ (sync
          ++ (avro.encode_long n ++ (avro.encode_long (length block) ++ (block ++ (sync ++ [])))))

  -- They fit in the buffer.
  pub length-file_bytes :
      IsSpecified avro
      → (impl : Impl) (sync : List ℕ) (n : ℕ) (block : List ℕ) → length sync ≡ 16
      → n < 2 ^ 27
      → length block < 2 ^ 27
      → length (take impl.header_size impl.header) ≤ impl.header_size
      → length (file_bytes impl sync n block) ≤ buffer_size_for avro lib impl block
  length-file_bytes spec impl sync n block sync_size small_count small_size header_fits =
      let from_block = block ++ (sync ++ []) in
      let e0 =
        length-append (take impl.header_size impl.header)
          (sync ++ (avro.encode_long n ++ (avro.encode_long (length block) ++ from_block))) in
      let e1 =
        length-append sync
          (avro.encode_long n ++ (avro.encode_long (length block) ++ from_block)) in
      let e2 = length-append (avro.encode_long n) (avro.encode_long (length block) ++ from_block) in
      let e3 = length-append (avro.encode_long (length block)) from_block in
      let e4 = length-append block (sync ++ []) in
      let e5 = ap length (append-nil sync) in
      let b0 = spec.long_size 3 n (omega (arith, small_count)) in
      let b1 = spec.long_size 3 (length block) (omega (arith, small_size)) in
      omega (arith, e0, e1, e2, e3, e4, e5, b0, b1, sync_size, header_fits)

  -- The numbers of the record fit the places that the size of the datum buffer counts for them.
  abbrev pub IsShort : AvroRecord F → Type 0
  IsShort v = (v.sample_count < 2 ^ 27) × (v.start_time < 2 ^ 55) × (v.end_time < 2 ^ 55)

  length-encode_record :
      IsSpecified avro → (v : AvroRecord F) → IsShort v → length (encode_record avro v) ≤ 32
  unfolding encode_record
  length-encode_record spec v (count, begun, ended) =
      let from_end = avro.encode_long v.start_time ++ avro.encode_long v.end_time in
      let from_count = avro.encode_int v.sample_count ++ from_end in
      omega (
        arith,
        length-append (avro.encode_float v.x)
            (avro.encode_float v.y ++ (avro.encode_float v.z ++ from_count)),
        length-append (avro.encode_float v.y) (avro.encode_float v.z ++ from_count),
        length-append (avro.encode_float v.z) from_count,
        length-append (avro.encode_int v.sample_count) from_end,
        length-append (avro.encode_long v.start_time) (avro.encode_long v.end_time),
        spec.float_size v.x,
        spec.float_size v.y,
        spec.float_size v.z,
        spec.int_size 3 v.sample_count count,
        spec.long_size 7 v.start_time begun,
        spec.long_size 7 v.end_time ended,
      )

  pub length-encode_records :
      IsSpecified avro
      → (ars : List (AccelRecord F)) → All (λ a. IsShort (to_avro a)) ars
      → length (encode_records avro ars) ≤ datum_size_for avro lib ars
  unfolding encode_records
  length-encode_records spec [] short = omega arith
  length-encode_records spec (a ∷ ars) (one, short) = omega (
    arith,
    length-append (encode_record avro (to_avro a)) (encode_records avro ars),
    length-encode_record spec (to_avro a) one,
    length-encode_records spec ars short,
  )

  -- Records that the two buffers of `serialize` have room for.
  abbrev pub Fits : AvroCodec → List (AccelRecord F) → Type 0
  Fits c ars =
      All (λ a. IsShort (to_avro a)) ars
      × (length ars < 2 ^ 27)
      × (length (compress avro c (encode_records avro ars)) < 2 ^ 27)
