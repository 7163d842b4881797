-- ===== src/AvroCpp.antt =====
-- serializer/avro_cpp/avrocpp.cpp (the class `serializer_avrocpp` with its `impl`) and ar.hpp (the
-- Avro form of a record). Parameters are the Avro library's encoders and decoders of its basic types,
-- its schema compiler, the deflate of Boost, and the generator `std::mt19937` with the states `M`.
pub mod Roundtrip
pub mod Calls
pub mod Plain
mod Tests
use csnd.Prelude.{
  ℕ, zero, suc, ◌%◌, Option, none, some, List, [], ◌∷◌, ◌++◌, length, replicate, Text, codes, ◌^◌,
  text_eq, text_ltb, if◌then◌else◌, Result, ok, err, ◌>>=◌,
}
use csnd.Accel.{AccelRecord, millis}

abbrev pub Metadata : Type 0
Metadata = List (Text × List ℕ)

-- What the libraries throw, and what `serialize` throws.
pub data Error : Type 0 where
  library_error no_data_to_flush : Error

-- A decoder gives the value and the bytes behind it.
abbrev pub Decoder : Type 0 → Type 0
Decoder A = List ℕ → Result Error (A × List ℕ)

pub record Avro (F M : Type 0) : Type 0 where
  pub encode_float : F → List ℕ
  pub encode_int : ℕ → List ℕ
  pub encode_long : ℕ → List ℕ
  -- A `boost::array` of bytes, and a map from strings to bytes.
  pub encode_fixed : List ℕ → List ℕ
  pub encode_map : Metadata → List ℕ
  pub decode_float : Decoder F
  pub decode_int : Decoder ℕ
  pub decode_long : Decoder ℕ
  pub decode_fixed : ℕ → Decoder (List ℕ)
  pub decode_map : Decoder Metadata
  -- `compileJsonSchema`, then `toJson`.
  pub schema_json : Text → Text
  -- A whole run of the compressor with the parameters of `get_zlib_params`, and its inverse.
  pub deflate : List ℕ → List ℕ
  pub inflate : List ℕ → Result Error (List ℕ)
  -- `std::mt19937`: constructed without and with a seed, and one call.
  pub mt_default : M
  pub mt_seeded : ℕ → M
  pub mt_draw : M → ℕ × M

-- `avro_serialize::accel_record`
pub record AvroRecord (F : Type 0) : Type 0 where
  pub x : F
  pub y : F
  pub z : F
  pub sample_count : ℕ
  pub start_time : ℕ
  pub end_time : ℕ

-- The copy of a sample that the loop of `serialize` makes: the times are in milliseconds.
abbrev pub to_avro : {F : Type 0} → AccelRecord F → AvroRecord F
to_avro a = record {
  x = a.x;
  y = a.y;
  z = a.z;
  sample_count = a.sample_count;
  start_time = millis a.start_time;
  end_time = millis a.end_time;
}

pub data AvroCodec : Type 0 where
  null_codec deflate_codec : AvroCodec

abbrev pub avro_schema_key : Text
avro_schema_key = codes "avro.schema"

abbrev pub avro_codec_key : Text
avro_codec_key = codes "avro.codec"

abbrev pub codec_name : AvroCodec → Text
codec_name null_codec = codes "null"
codec_name deflate_codec = codes "deflate"

abbrev pub magic : List ℕ
magic = b'O' ∷ b'b' ∷ b'j' ∷ 1 ∷ []

abbrev pub ar_schema : Text
ar_schema =
    codes "{\"name\": \"accel_record\",      \"type\": \"record\",      \"fields\": ["
    ++ (codes "       {\"name\": \"x\", \"type\": \"float\"},"
        ++ (codes "       {\"name\": \"y\", \"type\": \"float\"},"
            ++ (codes "       {\"name\": \"z\", \"type\": \"float\"},"
                ++ (codes "       {\"name\": \"sample_count\", \"type\": \"int\"},"
                    ++ (codes
                          "       {\"name\": \"start_time\", \"type\": {\"type\": \"long\", \"logicalType\": \"timestamp-millis\"}},"
                        ++ codes
                            "       {\"name\": \"end_time\",   \"type\": {\"type\": \"long\", \"logicalType\": \"timestamp-millis\"}}]}")))))

-- `_metadata[key] = value` of `set_metadata`. A `std::map` is a list in the order of its keys.
pub set_metadata : Text → Text → Metadata → Metadata
set_metadata key value [] = (key, value) ∷ []
set_metadata key value ((k, v) ∷ rest) =
    let behind = set_metadata key value rest in
    if text_eq key k
    then (k, value) ∷ rest
    else if text_ltb key k
    then (key, value) ∷ (k, v) ∷ rest
    else (k, v) ∷ behind

-- The members of `impl`.
pub record Impl (M : Type 0) : Type 0 where
  pub mt : M
  pub codec : AvroCodec
  pub sync : List ℕ
  pub metadata : Metadata

module _ {F M : Type 0} (avro : Avro F M) where
  -- The constructor, with the seed of `random_device`. It seeds a local variable `_mt`; the member
  -- `_mt` is constructed without a seed.
  unfoldable pub init : AvroCodec → ℕ → Impl M
  unfolding set_metadata
  init c seed =
      let local_mt = avro.mt_seeded seed in
      record {
        mt = avro.mt_default;
        codec = c;
        sync = replicate 16 0;
        metadata =
            set_metadata avro_codec_key (codec_name c)
              (set_metadata avro_schema_key (avro.schema_json ar_schema) []);
      }

  -- `_sync[i] = _mt()` for each place: the number drawn is cut down to a byte.
  pub draw_sync : ℕ → M → List ℕ × M
  draw_sync zero mt = ([], mt)
  draw_sync (suc n) mt =
      let (drawn, mt') = avro.mt_draw mt in
      let (rest, mt'') = draw_sync n mt' in (drawn % 2 ^ 8 ∷ rest, mt'')

  -- ar.hpp, `encode`.
  unfoldable pub encode_record : AvroRecord F → List ℕ
  encode_record v =
      avro.encode_float v.x
      ++ (avro.encode_float v.y
          ++ (avro.encode_float v.z
              ++ (avro.encode_int v.sample_count
                  ++ (avro.encode_long v.start_time ++ avro.encode_long v.end_time))))

  -- The loop over the records.
  unfoldable pub encode_records : List (AccelRecord F) → List ℕ
  unfolding encode_record
  encode_records [] = []
  encode_records (a ∷ ars) = encode_record (to_avro a) ++ encode_records ars

  unfoldable pub compress : AvroCodec → List ℕ → List ℕ
  compress null_codec out_data = out_data
  compress deflate_codec out_data = avro.deflate out_data

  -- `serialize` on records that are there: the header, one data block and the sync marker. The null
  -- pointer and the empty vector throw before anything changes.
  unfoldable pub serialize : Impl M → Option (List (AccelRecord F)) → Result Error (List ℕ) × Impl M
  unfolding draw_sync encode_records compress
  serialize s none = (err no_data_to_flush, s)
  serialize s (some []) = (err no_data_to_flush, s)
  serialize s (some (a ∷ ars)) =
      let (sync, mt') = draw_sync (length s.sync) s.mt in
      let block = compress s.codec (encode_records (a ∷ ars)) in
      (
        ok (
            avro.encode_fixed magic
            ++ (avro.encode_map s.metadata
                ++ (avro.encode_fixed sync
                    ++ (avro.encode_long (length (a ∷ ars))
                        ++ (avro.encode_long (length block)
                            ++ (block ++ avro.encode_fixed sync)))))),
        record s { mt = mt'; sync = sync },
      )

  -- ar.hpp, `decode`: one field by its number.
  pub decode_field : ℕ → AvroRecord F → Decoder (AvroRecord F)
  decode_field zero v d = avro.decode_float d >>= λ r. ok (record v { x = r.0 }, r.1)
  decode_field (suc zero) v d = avro.decode_float d >>= λ r. ok (record v { y = r.0 }, r.1)
  decode_field (suc (suc zero)) v d = avro.decode_float d >>= λ r. ok (record v { z = r.0 }, r.1)
  decode_field (suc (suc (suc zero))) v d =
      avro.decode_int d >>= λ r. ok (record v { sample_count = r.0 }, r.1)
  decode_field (suc (suc (suc (suc zero)))) v d =
      avro.decode_long d >>= λ r. ok (record v { start_time = r.0 }, r.1)
  decode_field (suc (suc (suc (suc (suc zero))))) v d =
      avro.decode_long d >>= λ r. ok (record v { end_time = r.0 }, r.1)
  decode_field n v d = ok (v, d)

  pub decode_fields : List ℕ → AvroRecord F → Decoder (AvroRecord F)
  unfolding decode_field
  decode_fields [] v d = ok (v, d)
  decode_fields (i ∷ order) v d = decode_field i v d >>= λ r. decode_fields order r.0 r.1

  -- `decode`: a resolving decoder gives the order of the fields, any other has none.
  pub decode_record : Option (List ℕ) → AvroRecord F → Decoder (AvroRecord F)
  unfolding decode_fields
  decode_record (some order) v d = decode_fields order v d
  decode_record none v d = do
    x ← avro.decode_float d
    y ← avro.decode_float x.1
    z ← avro.decode_float y.1
    sample_count ← avro.decode_int z.1
    start_time ← avro.decode_long sample_count.1
    end_time ← avro.decode_long start_time.1
    ok (
      record {
        x = x.0;
        y = y.0;
        z = z.0;
        sample_count = sample_count.0;
        start_time = start_time.0;
        end_time = end_time.0;
      },
      end_time.1,
    )
