-- ===== src/AvroC/Laws.antt =====
-- What the documentation of Avro C and the Avro specification say of the library, as hypotheses.
use csnd.Prelude.{
  ℕ, suc, ◌+◌, ◌*◌, ◌^◌, ◌≤◌, ◌<◌, ◌≡◌, true, Option, some, List, [], ◌∷◌, ◌++◌, length, Text,
}
use csnd.AvroCpp.{Avro, AvroRecord, AvroCodec, codec_name, compress, encode_record}
use csnd.AvroC.Format.{ar_schema}
use csnd.AvroC.{Pointer, at, Library}
use csnd.AvroC.Construct.{schema_buf_size}
use csnd.AvroC.Serialize.File.{Allocates}

module _ {F M W S : Type 0} (avro : Avro F M) (lib : Library F W S) where
  -- The call appends these bytes, if they fit in the buffer behind what has been written.
  abbrev pub Writes : (W → ℕ) → List ℕ → (W → Option W) → Type 0
  Writes capacity d call =
      (w : W)
      → length (lib.written w) + length d ≤ capacity w
      → (w' : W) × (call w ≡ some w')
        × (lib.written w' ≡ lib.written w ++ d)
        × (capacity w' ≡ capacity w)

  -- A writer in memory: it is empty at first and as large as its buffer, and the encoders append
  -- the binary encoding of what they are given. Here `schema_json` stands for the text that the C
  -- library prints.
  pub record IsMemory : Type 0 where
    pub capacity : W → ℕ
    pub fresh :
        (n : ℕ) (world : S)
        → (w : W) × ((lib.writer_memory n world).0 ≡ some w)
          × (lib.written w ≡ [])
          × (capacity w ≡ n)
    pub tell_law : (w : W) → lib.tell w ≡ length (lib.written w)
    pub write_law : (d : List ℕ) → Writes capacity d (lib.write d)
    pub long_law : (n : ℕ) → Writes capacity (avro.encode_long n) (lib.write_long n)
    pub string_law :
        (t : Text) → Writes capacity (avro.encode_long (length t) ++ t) (lib.write_string t)
    pub bytes_law :
        (d : List ℕ) → Writes capacity (avro.encode_long (length d) ++ d) (lib.write_bytes d)
    pub data_law : (v : AvroRecord F) → Writes capacity (encode_record avro v) (lib.write_data v)
    pub json_law : Writes capacity (avro.schema_json ar_schema) lib.schema_to_json

  -- The local variable refers to a writer on a buffer of this size, with these bytes written.
  abbrev pub Holds : (W → ℕ) → ℕ → List ℕ → Pointer W → Type 0
  Holds capacity size d p = (w : W) × (p ≡ at w) × (lib.written w ≡ d) × (capacity w ≡ size)

  -- The calls that can fail for want of memory or on a bad argument do not fail, and the compressor
  -- of the library is the one that the codec names.
  pub record Succeeds : Type 0 where
    pub allocates : Allocates avro lib
    pub parses : (world : S) → (lib.parse_schema ar_schema world).0 ≡ true
    pub sets_codec : (c : AvroCodec) (world : S) → (lib.set_codec (codec_name c) world).0 ≡ true
    pub sets_field : (name : Text) (world : S) → (lib.record_set name world).0 ≡ true
    pub json_fits : length (avro.schema_json ar_schema) ≤ schema_buf_size
    pub encodes :
        (c : AvroCodec) (d : List ℕ) (world : S)
        → (lib.codec_encode c d world).0 ≡ some (compress avro c d)

-- Sizes and forms that the specification of Avro prescribes: a `float` has four bytes, a number of
-- `7 k + 6` bits has at most `k + 1`, and a map with two entries is one block of two and the end.
pub record IsSpecified {F M : Type 0} (avro : Avro F M) : Type 0 where
  pub float_size : (v : F) → length (avro.encode_float v) ≤ 4
  pub int_size : (k n : ℕ) → n < 2 ^ (7 * k + 6) → length (avro.encode_int n) ≤ suc k
  pub long_size : (k n : ℕ) → n < 2 ^ (7 * k + 6) → length (avro.encode_long n) ≤ suc k
  pub fixed_form : (v : List ℕ) → avro.encode_fixed v ≡ v
  pub map_form :
      (k v k' v' : List ℕ)
      → avro.encode_map ((k, v) ∷ (k', v') ∷ [])
        ≡ avro.encode_long 2
          ++ ((avro.encode_long (length k) ++ k)
              ++ ((avro.encode_long (length v) ++ v)
                  ++ ((avro.encode_long (length k') ++ k')
                      ++ ((avro.encode_long (length v') ++ v') ++ avro.encode_long 0))))
