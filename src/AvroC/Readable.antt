-- ===== src/AvroC/Readable.antt =====
-- What a reader of Avro files gets from the output of avroc.cpp.
use csnd.Prelude.{
  ℕ, ◌≤◌, ◌≡◌, refl, sym, subst, ap, ap₂, ◌∙◌, some, List, [], ◌∷◌, ◌++◌, length, append-nil,
  append_assoc, take, take-length, arith, ok, All,
}
use csnd.Accel.{AccelRecord}
use csnd.Exec.Keeps.{Outcome-returns}
use csnd.AvroCpp.{
  Avro, AvroRecord, to_avro, AvroCodec, null_codec, deflate_codec, avro_codec_key, ar_schema, magic,
  compress, encode_records, draw_sync,
}
use csnd.AvroCpp.Roundtrip.{
  IsInverse, IsSmall, contents_of, find_key, expand, read_file, read_file-assembled,
}
use csnd.AvroCpp.Calls.{length-draw_sync}
use csnd.AvroC.{Library, State, Impl}
use csnd.AvroC.Laws.{IsMemory, Succeeds, IsSpecified}
use csnd.AvroC.Construct.{construct}
use csnd.AvroC.Construct.Header.{metadata_of, header_of}
use csnd.AvroC.Construct.Total.{Made, construct-Made}
use csnd.AvroC.Serialize.{serialize}
use csnd.AvroC.Serialize.Sizes.{file_bytes, IsShort, Fits}
use csnd.AvroC.Serialize.Total.{serialize-result}

module _ {F M W S : Type 0} (avro : Avro F M) (lib : Library F W S) (mem : IsMemory avro lib)
    (succeeds : Succeeds avro lib) (spec : IsSpecified avro) (laws : IsInverse avro) where
  abbrev json_text : List ℕ
  json_text = avro.schema_json ar_schema

  expand-compress :
      (c : AvroCodec) (d : List ℕ)
      → expand avro (find_key avro_codec_key (metadata_of c json_text)) (compress avro c d) ≡ ok d
  unfolding compress
  expand-compress null_codec d = refl
  expand-compress deflate_codec d = laws.deflate_law d

  IsShort-IsSmall :
      (ars : List (AccelRecord F))
      → All (λ a. IsShort avro lib (to_avro a)) ars
      → All (λ a. IsSmall (to_avro a)) ars
  IsShort-IsSmall [] short = tt
  IsShort-IsSmall (a ∷ ars) ((count, begun, ended), short) = (
    (omega (arith, count), omega (arith, begun), omega (arith, ended)),
    IsShort-IsSmall ars short,
  )

  -- The header of a serializer, up to `header_size`.
  header-Made :
      (c : AvroCodec) (impl : Impl)
      → Made avro lib mem succeeds spec c impl
      → take impl.header_size impl.header ≡ header_of avro c json_text
  header-Made c impl made =
      ap₂ take made.header_size (made.header ∙ sym (append-nil (header_of avro c json_text)))
      ∙ take-length (header_of avro c json_text) []

  -- The bytes of `serialize` are those that the reader expects.
  file_bytes-assembled :
      (c : AvroCodec) (impl : Impl) (sync : List ℕ) (n : ℕ) (block : List ℕ)
      → Made avro lib mem succeeds spec c impl
      → file_bytes avro lib impl sync n block
        ≡ avro.encode_fixed magic
          ++ (avro.encode_map (metadata_of c json_text)
              ++ (avro.encode_fixed sync
                  ++ (avro.encode_long n
                      ++ (avro.encode_long (length block) ++ (block ++ avro.encode_fixed sync)))))
  file_bytes-assembled c impl sync n block made =
      rw (header-Made c impl made, spec.fixed_form magic, spec.fixed_form sync, append-nil sync)
        (append_assoc magic (avro.encode_map (metadata_of c json_text)) _)

  pub serialize-Made :
      (c : AvroCodec) (impl : Impl) (a : AccelRecord F) (ars : List (AccelRecord F))
      (blank : AvroRecord F) (s : State M W S)
      → Made avro lib mem succeeds spec c impl
      → Fits avro lib c (a ∷ ars)
      → (data_file : List ℕ) × ((serialize avro lib impl (some (a ∷ ars)) s).0 ≡ ok data_file)
        × (read_file avro blank data_file
            ≡ ok (contents_of avro c (draw_sync avro 16 s.mt).0 (a ∷ ars)))
  serialize-Made c impl a ars blank s made (short, count, room) =
      let sync = (draw_sync avro 16 s.mt).0 in
      let block = compress avro c (encode_records avro (a ∷ ars)) in
      let header_fits : length (take impl.header_size impl.header) ≤ impl.header_size =
        omega (arith, ap length (header-Made c impl made), made.header_size) in
      (
        _,
        serialize-result avro lib mem succeeds spec impl header_fits a ars
            (subst (λ c. Fits avro lib c (a ∷ ars)) (sym made.codec) (short, count, room)) s,
        ap
              (λ c. read_file avro blank (
                file_bytes avro lib impl sync (length (a ∷ ars))
                  (compress avro c (encode_records avro (a ∷ ars)))))
              made.codec
            ∙ ap (read_file avro blank)
                (file_bytes-assembled c impl sync (length (a ∷ ars)) block made)
            ∙ read_file-assembled avro laws blank (metadata_of c json_text) sync block (a ∷ ars)
                (refl, tt) (length-draw_sync avro 16 s.mt) (IsShort-IsSmall (a ∷ ars) short)
                (omega (arith, count)) (omega (arith, room))
                (expand-compress c (encode_records avro (a ∷ ars))),
      )

  -- If the library serves the calls as it documents, the constructor returns, for either codec, and
  -- `serialize` on some records then returns, whatever has happened to the serializer in between: a
  -- file that a reader of Avro takes apart again, with nothing left over, into the magic number,
  -- the schema and the name of the codec, the records in order with their times in milliseconds,
  -- and the next 16 numbers of the generator as sync marker in both places. So none of the three
  -- buffers whose sizes avroc.cpp works out is too small. The conditions: below 2 ^ 27 records, a
  -- block below 2 ^ 27 bytes, sample counts below 2 ^ 27, and times below 2 ^ 55 milliseconds. (The
  -- README reports that this serializer does not work correctly: this is about the code on top of a
  -- library of which all this is assumed, and not about the library that it is linked to.)
  pub construct-serialize :
      (c : AvroCodec) (a : AccelRecord F) (ars : List (AccelRecord F)) (blank : AvroRecord F)
      (s s' : State M W S)
      → Fits avro lib c (a ∷ ars)
      → (impl : Impl) × ((construct lib c s).0 ≡ ok impl)
        × ((data_file : List ℕ) × ((serialize avro lib impl (some (a ∷ ars)) s').0 ≡ ok data_file)
            × (read_file avro blank data_file
                ≡ ok (contents_of avro c (draw_sync avro 16 s'.mt).0 (a ∷ ars))))
  construct-serialize c a ars blank s s' fits =
      let (impl, made, h) =
        Outcome-returns (λ impl _. Made avro lib mem succeeds spec c impl) (construct lib c s)
          (construct-Made avro lib mem succeeds spec c s) in
      (impl, made, serialize-Made c impl a ars blank s' h fits)
