-- ===== src/AvroCpp/Roundtrip.antt =====
-- What a reader of Avro object container files gets from the output of `serialize`.
use csnd.Prelude.{
  ℕ, zero, suc, ◌^◌, ◌<◌, All, text_ltb, true, ◌≡◌, refl, sym, ap, ◌∙◌, Option, none, some, List,
  [], ◌∷◌, ◌++◌, append-nil, append_assoc, length, map, take, drop, take-length, drop-length, Text,
  text_eq, if◌then◌else◌, Result, ok, err, ◌>>=◌,
}
use csnd.Accel.{AccelRecord}
use csnd.AvroCpp.{
  Avro, Metadata, Error, library_error, Decoder, AvroRecord, AvroCodec, to_avro, avro_schema_key,
  ar_schema, null_codec, deflate_codec, avro_codec_key, codec_name, magic, encode_record,
  encode_records, decode_record,
}

-- The entries stand in the order of their keys, as those of a `std::map`.
abbrev pub IsSorted : Metadata → Type 0
IsSorted [] = Unit
IsSorted (e ∷ []) = Unit
IsSorted (e ∷ e' ∷ m) = (text_ltb e.0 e'.0 ≡ true) × IsSorted (e' ∷ m)

-- The decoders of the library undo its encoders, whatever follows, on numbers of their types, and
-- `inflate` undoes `deflate`.
pub record IsInverse {F M : Type 0} (avro : Avro F M) : Type 0 where
  pub float_law : (v : F) (d : List ℕ) → avro.decode_float (avro.encode_float v ++ d) ≡ ok (v, d)
  pub int_law :
      (v : ℕ) (d : List ℕ) → v < 2 ^ 31 → avro.decode_int (avro.encode_int v ++ d) ≡ ok (v, d)
  pub long_law :
      (v : ℕ) (d : List ℕ) → v < 2 ^ 63 → avro.decode_long (avro.encode_long v ++ d) ≡ ok (v, d)
  pub fixed_law :
      (v d : List ℕ) → avro.decode_fixed (length v) (avro.encode_fixed v ++ d) ≡ ok (v, d)
  pub map_law :
      (m : Metadata) (d : List ℕ)
      → IsSorted m
      → avro.decode_map (avro.encode_map m ++ d) ≡ ok (m, d)
  pub deflate_law : (d : List ℕ) → avro.inflate (avro.deflate d) ≡ ok d

-- The value under a key.
abbrev pub find_key : Text → Metadata → Option (List ℕ)
find_key key [] = none
find_key key ((k, v) ∷ rest) =
    let behind = find_key key rest in if text_eq key k then some v else behind

-- The numbers of the record fit their types.
abbrev pub IsSmall : {F : Type 0} → AvroRecord F → Type 0
IsSmall v = (v.sample_count < 2 ^ 31) × (v.start_time < 2 ^ 63) × (v.end_time < 2 ^ 63)

-- What stands in a file with one data block, by the Avro specification: the magic number, the
-- metadata, the sync marker, the records of the block with the bytes behind them in the block, the
-- sync marker at its end, and the bytes behind the file.
pub record Container (F : Type 0) : Type 0 where
  pub start : List ℕ
  pub metadata : Metadata
  pub sync : List ℕ
  pub records : List (AvroRecord F)
  pub left_in_block : List ℕ
  pub end_sync : List ℕ
  pub left : List ℕ

-- What stands in the file of a serializer for this codec, with this sync marker.
abbrev pub contents_of :
    {F M : Type 0} → Avro F M → AvroCodec → List ℕ → List (AccelRecord F) → Container F
contents_of avro c sync ars = record {
  start = magic;
  metadata = (avro_codec_key, codec_name c) ∷ (avro_schema_key, avro.schema_json ar_schema) ∷ [];
  sync = sync;
  records = map to_avro ars;
  left_in_block = [];
  end_sync = sync;
  left = [];
}

module _ {F M : Type 0} (avro : Avro F M) where
  -- The contents of a data block, by the codec that the metadata name.
  abbrev pub expand : Option (List ℕ) → List ℕ → Result Error (List ℕ)
  expand none block = ok block
  expand (some name) block =
      if text_eq name (codec_name null_codec)
      then ok block
      else if text_eq name (codec_name deflate_codec)
      then avro.inflate block
      else err library_error

  -- The records one after the other, each decoded into a copy of `blank`.
  pub decode_records : AvroRecord F → ℕ → Decoder (List (AvroRecord F))
  decode_records blank zero d = ok ([], d)
  decode_records blank (suc n) d = do
    v ← decode_record avro none blank d
    vs ← decode_records blank n v.1
    ok (v.0 ∷ vs.0, vs.1)

  pub read_file : AvroRecord F → List ℕ → Result Error (Container F)
  read_file blank d = do
    start ← avro.decode_fixed 4 d
    metadata ← avro.decode_map start.1
    sync ← avro.decode_fixed 16 metadata.1
    count ← avro.decode_long sync.1
    size ← avro.decode_long count.1
    data_block ← expand (find_key avro_codec_key metadata.0) (take size.0 size.1)
    records ← decode_records blank count.0 data_block
    end_sync ← avro.decode_fixed 16 (drop size.0 size.1)
    ok (record {
      start = start.0;
      metadata = metadata.0;
      sync = sync.0;
      records = records.0;
      left_in_block = records.1;
      end_sync = end_sync.0;
      left = end_sync.1;
    })

module _ {F M : Type 0} (avro : Avro F M) (laws : IsInverse avro) where
  -- The decoder of a record undoes its encoder.
  decode_record-encode_record :
      (blank v : AvroRecord F) (d : List ℕ)
      → IsSmall v
      → decode_record avro none blank (encode_record avro v ++ d) ≡ ok (v, d)
  unfolding decode_record encode_record
  decode_record-encode_record blank v d (count, begun, ended) =
      rw
        (
          append_assoc (avro.encode_float v.x) _ d,
          laws.float_law v.x _,
          append_assoc (avro.encode_float v.y) _ d,
          laws.float_law v.y _,
          append_assoc (avro.encode_float v.z) _ d,
          laws.float_law v.z _,
          append_assoc (avro.encode_int v.sample_count) _ d,
          laws.int_law v.sample_count _ count,
          append_assoc (avro.encode_long v.start_time) _ d,
          laws.long_law v.start_time _ begun,
          laws.long_law v.end_time _ ended,
        )
        refl

  decode_records-encode_records :
      (blank : AvroRecord F) (ars : List (AccelRecord F)) (d : List ℕ)
      → All (λ a. IsSmall (to_avro a)) ars
      → decode_records avro blank (length ars) (encode_records avro ars ++ d)
        ≡ ok (map to_avro ars, d)
  unfolding decode_records encode_records
  decode_records-encode_records blank [] d small = refl
  decode_records-encode_records blank (a ∷ ars) d small =
      rw
        (
          append_assoc (encode_record avro (to_avro a)) (encode_records avro ars) d,
          decode_record-encode_record blank (to_avro a) (encode_records avro ars ++ d) small.0,
          decode_records-encode_records blank ars d small.1,
        )
        refl

  fixed_end :
      (v : List ℕ) (n : ℕ) → length v ≡ n → avro.decode_fixed n (avro.encode_fixed v) ≡ ok (v, [])
  fixed_end v n e =
      ap (λ n. avro.decode_fixed n (avro.encode_fixed v)) (sym e)
      ∙ ap (avro.decode_fixed (length v)) (sym (append-nil (avro.encode_fixed v)))
      ∙ laws.fixed_law v []

  fixed_at :
      (v : List ℕ) (n : ℕ) (d : List ℕ)
      → length v ≡ n
      → avro.decode_fixed n (avro.encode_fixed v ++ d) ≡ ok (v, d)
  fixed_at v n d e =
      ap (λ n. avro.decode_fixed n (avro.encode_fixed v ++ d)) (sym e) ∙ laws.fixed_law v d

  pub read_file-assembled :
      (blank : AvroRecord F) (metadata : Metadata) (sync block : List ℕ)
      (ars : List (AccelRecord F))
      → IsSorted metadata
      → length sync ≡ 16
      → All (λ a. IsSmall (to_avro a)) ars
      → length ars < 2 ^ 63
      → length block < 2 ^ 63
      → expand avro (find_key avro_codec_key metadata) block ≡ ok (encode_records avro ars)
      → read_file avro blank (
          avro.encode_fixed magic
          ++ (avro.encode_map metadata
              ++ (avro.encode_fixed sync
                  ++ (avro.encode_long (length ars)
                      ++ (avro.encode_long (length block) ++ (block ++ avro.encode_fixed sync))))))
        ≡ ok (record {
          start = magic;
          metadata = metadata;
          sync = sync;
          records = map to_avro ars;
          left_in_block = [];
          end_sync = sync;
          left = [];
        })
  unfolding read_file
  read_file-assembled blank metadata sync block ars sorted full small count size contents =
      rw
        (
          laws.fixed_law magic _,
          laws.map_law metadata _ sorted,
          fixed_at sync 16 _ full,
          laws.long_law (length ars) _ count,
          laws.long_law (length block) _ size,
          take-length block _,
          contents,
          ap (decode_records avro blank (length ars)) (sym (append-nil (encode_records avro ars)))
              ∙ decode_records-encode_records blank ars [] small,
          drop-length block _,
          fixed_end sync 16 full,
        )
        refl

  -- Whichever decoder reads it, a plain one or a resolving one that has the fields in their order,
  -- the encoding of a record whose numbers fit their types gives the record back, and leaves the
  -- bytes behind it.
  pub decode_record-encode :
      (blank v : AvroRecord F) (d : List ℕ)
      → IsSmall v
      → (decode_record avro none blank (encode_record avro v ++ d) ≡ ok (v, d))
        × (decode_record avro (some (0 ∷ 1 ∷ 2 ∷ 3 ∷ 4 ∷ 5 ∷ [])) blank (encode_record avro v ++ d)
            ≡ ok (v, d))
  unfolding decode_record encode_record
  decode_record-encode blank v d (count, begun, ended) = (
    decode_record-encode_record blank v d (count, begun, ended),
    rw
        (
          append_assoc (avro.encode_float v.x) _ d,
          laws.float_law v.x _,
          append_assoc (avro.encode_float v.y) _ d,
          laws.float_law v.y _,
          append_assoc (avro.encode_float v.z) _ d,
          laws.float_law v.z _,
          append_assoc (avro.encode_int v.sample_count) _ d,
          laws.int_law v.sample_count _ count,
          append_assoc (avro.encode_long v.start_time) _ d,
          laws.long_law v.start_time _ begun,
          laws.long_law v.end_time _ ended,
        )
        refl,
  )
