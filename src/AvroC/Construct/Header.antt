-- ===== src/AvroC/Construct/Header.antt =====
-- The bytes of the header: they fit in the header buffer, and the calls of the constructor write
-- them.
use csnd.Prelude.{
  ℕ, suc, ◌+◌, ◌*◌, ◌^◌, ◌≤◌, ◌<◌, ◌≡◌, refl, sym, subst, ap, ◌∙◌, Option, List, [], ◌∷◌, ◌++◌,
  length, length-append, append-nil, append_assoc, arith, Text,
}
use csnd.Exec.Keeps.{Outcome}
use csnd.AvroCpp.{
  Avro, AvroCodec, null_codec, deflate_codec, Metadata, codec_name, avro_codec_key, avro_schema_key,
  magic,
}
use csnd.AvroC.{at, Library, State}
use csnd.AvroC.Laws.{Writes, IsMemory, IsSpecified}
use csnd.AvroC.Construct.{header_buffer_size_for, header_calls, write_calls, schema_buf_size}

module _ {F M W S : Type 0} (avro : Avro F M) (lib : Library F W S) (mem : IsMemory avro lib) where
  -- The calls append these bytes between them.
  abbrev pub WriteAll : List ((W → Option W) × Text) → List ℕ → Type 0
  WriteAll [] d = d ≡ []
  WriteAll ((call, what) ∷ calls) d =
      (d1 d2 : List ℕ) × Writes avro lib mem.capacity d1 call × WriteAll calls d2 × (d ≡ d1 ++ d2)

  abbrev Nothing : State M W S → Type 0
  Nothing s = ⊥

  pub write_calls-WriteAll :
      (calls : List ((W → Option W) × Text)) (d : List ℕ) (w : W) (s : State M W S)
      → WriteAll calls d
      → length (lib.written w) + length d ≤ mem.capacity w
      → Outcome (λ w' _. lib.written w' ≡ lib.written w ++ d) Nothing (write_calls lib calls w s)
  unfolding write_calls
  write_calls-WriteAll [] d w s e fits =
      sym (append-nil (lib.written w)) ∙ ap (λ d. lib.written w ++ d) (sym e)
  write_calls-WriteAll ((call, what) ∷ calls) d w s (d1, d2, one, rest, e) fits =
      let room : length d ≡ length d1 + length d2 = ap length e ∙ length-append d1 d2 in
      let (w', returned, behind, kept) = one w (omega (arith, room)) in
      let room' : length (lib.written w') ≡ length (lib.written w) + length d1 =
        ap length behind ∙ length-append (lib.written w) d1 in
      rw returned (
        subst
          (λ x.
            Outcome (λ w' _. lib.written w' ≡ x) Nothing
              (write_calls lib calls w' (record s { header_writer = at w' })))
          (ap (λ x. x ++ d2) behind
            ∙ append_assoc (lib.written w) d1 d2
            ∙ ap (λ x. lib.written w ++ x) (sym e))
          (write_calls-WriteAll calls d2 w' _ rest (omega (arith, room, room', kept, fits))))

-- The entries of the header, and the header.
abbrev pub metadata_of : AvroCodec → List ℕ → Metadata
metadata_of c json = (avro_codec_key, codec_name c) ∷ (avro_schema_key, json) ∷ []

module _ {F M : Type 0} (avro : Avro F M) where
  abbrev pub header_of : AvroCodec → List ℕ → List ℕ
  header_of c json = magic ++ avro.encode_map (metadata_of c json)

  length-codec_name : (c : AvroCodec) → length (codec_name c) ≤ 7
  length-codec_name null_codec = omega arith
  length-codec_name deflate_codec = omega arith

  -- A string with its length in front.
  abbrev sized : List ℕ → List ℕ
  sized t = avro.encode_long (length t) ++ t

  length-sized :
      IsSpecified avro
      → (k : ℕ) (t : List ℕ) → length t < 2 ^ (7 * k + 6)
      → length (sized t) ≤ suc k + length t
  length-sized spec k t small =
      omega
        (arith, length-append (avro.encode_long (length t)) t, spec.long_size k (length t) small)

  -- The size of the buffer is enough.
  pub length-header_of :
      IsSpecified avro
      → (c : AvroCodec) (json : List ℕ) → length json ≤ schema_buf_size
      → length (header_of c json) ≤ header_buffer_size_for c json
  length-header_of spec c json fits =
      let name = codec_name c in
      let schema = sized json ++ avro.encode_long 0 in
      let codec_and = sized name ++ (sized avro_schema_key ++ schema) in
      let e0 = ap length (spec.map_form avro_codec_key name avro_schema_key json) in
      let e1 = length-append (avro.encode_long 2) (sized avro_codec_key ++ codec_and) in
      let e2 = length-append (sized avro_codec_key) codec_and in
      let e3 = length-append (sized name) (sized avro_schema_key ++ schema) in
      let e4 = length-append (sized avro_schema_key) schema in
      let e5 = length-append (sized json) (avro.encode_long 0) in
      let b1 = spec.long_size 0 2 (omega arith) in
      let b2 = length-sized spec 0 avro_codec_key (omega arith) in
      let b3 = length-sized spec 0 name (omega (arith, length-codec_name c)) in
      let b4 = length-sized spec 0 avro_schema_key (omega arith) in
      let b5 = length-sized spec 2 json (omega (arith, fits)) in
      let b6 = spec.long_size 0 0 (omega arith) in
      omega (arith, e0, e1, e2, e3, e4, e5, b1, b2, b3, b4, b5, b6)

module _ {F M W S : Type 0} (avro : Avro F M) (lib : Library F W S) (mem : IsMemory avro lib)
    (spec : IsSpecified avro) where
  pub header_calls-WriteAll :
      (c : AvroCodec) (json : List ℕ)
      → WriteAll avro lib mem (header_calls lib c json) (header_of avro c json)
  header_calls-WriteAll c json = (
    magic,
    avro.encode_map (metadata_of c json),
    mem.write_law magic,
    (
      _,
      _,
      mem.long_law 2,
      (
        _,
        _,
        mem.string_law avro_codec_key,
        (
          _,
          _,
          mem.bytes_law (codec_name c),
          (
            _,
            _,
            mem.string_law avro_schema_key,
            (
              _,
              _,
              mem.bytes_law json,
              (_, [], mem.long_law 0, refl, sym (append-nil (avro.encode_long 0))),
              refl,
            ),
            refl,
          ),
          refl,
        ),
        refl,
      ),
      spec.map_form avro_codec_key (codec_name c) avro_schema_key json,
    ),
    refl,
  )
