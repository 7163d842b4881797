-- ===== src/AvroC/Construct/Total.antt =====
-- The constructor returns, with the header of an Avro file in its buffer.
use csnd.Prelude.{
  ℕ, ◌≡◌, refl, sym, subst, ap, ◌∙◌, List, [], ◌++◌, length, append-nil, take, take-length, arith,
  Result,
}
use csnd.Exec.Keeps.{Outcome, Outcome-resume, Outcome-guarded}
use csnd.AvroCpp.{Avro, AvroCodec, ar_schema}
use csnd.AvroC.{Error, null, Library, State, Impl, clear_header}
use csnd.AvroC.Laws.{IsMemory, Succeeds, IsSpecified}
use csnd.AvroC.Construct.{
  parse_ar_schema, new_codec, set_codec, header_buffer_size_for, make_schema_writer, put_schema,
  alloc_header_buffer, make_header_writer, header_calls, write_calls, made, fill_header,
  make_header, guard_header, construct, schema_buf_size,
}
use csnd.AvroC.Construct.Header.{
  header_of, length-header_of, write_calls-WriteAll, header_calls-WriteAll,
}

module _ {F M W S : Type 0} (avro : Avro F M) (lib : Library F W S) (mem : IsMemory avro lib)
    (succeeds : Succeeds avro lib) (spec : IsSpecified avro) where
  abbrev json_text : List ℕ
  json_text = avro.schema_json ar_schema

  -- What the constructor computes.
  pub record Made (c : AvroCodec) (impl : Impl) : Type 0 where
    pub codec : impl.codec ≡ c
    pub header : impl.header ≡ header_of avro c json_text
    pub header_size : impl.header_size ≡ length (header_of avro c json_text)

  abbrev Returns : {A : Type 0} → (A → Type 0) → Result Error A × State M W S → Type 0
  Returns Q = Outcome (λ a _. Q a) (λ _. ⊥)

  abbrev Fresh : ℕ → W → Type 0
  Fresh size w = (lib.written w ≡ []) × (mem.capacity w ≡ size)

  make_schema_writer-Fresh :
      (s : State M W S) → Returns (Fresh schema_buf_size) (make_schema_writer lib s)
  unfolding make_schema_writer
  make_schema_writer-Fresh s =
      let (w, e, empty, size) = mem.fresh schema_buf_size s.world in rw e (empty, size)

  put_schema-json_text :
      (w : W) (s : State M W S)
      → Fresh schema_buf_size w
      → Returns (λ json. json ≡ json_text) (put_schema lib (lib.schema_to_json w) s)
  put_schema-json_text w s (empty, size) =
      let room : length (lib.written w) ≡ 0 = ap length empty in
      let (w', e, behind, _) = mem.json_law w (omega (arith, room, size, succeeds.json_fits)) in
      let all : lib.written w' ≡ json_text = behind ∙ ap (λ d. d ++ json_text) empty in
      rw e (
        ap (λ n. take n (lib.written w')) (mem.tell_law w' ∙ ap length all)
        ∙ ap (take (length json_text)) (all ∙ sym (append-nil json_text))
        ∙ take-length json_text [])

  make_header_writer-Fresh :
      (size : ℕ) (s : State M W S) → Returns (Fresh size) (make_header_writer lib size s)
  unfolding make_header_writer
  make_header_writer-Fresh size s =
      let (w, e, empty, room) = mem.fresh size s.world in rw e (empty, room)

  alloc_header_buffer-returns :
      (size : ℕ) (s : State M W S) → Returns (λ _. Unit {0}) (alloc_header_buffer lib size s)
  unfolding alloc_header_buffer
  alloc_header_buffer-returns size s = rw (succeeds.allocates size s.world) tt

  calls_write_header :
      (c : AvroCodec) (w : W) (s : State M W S)
      → Fresh (header_buffer_size_for c json_text) w
      → Returns
          (λ w. lib.written w ≡ header_of avro c json_text)
          (write_calls lib (header_calls lib c json_text) w s)
  calls_write_header c w s (empty, size) =
      let room : length (lib.written w) ≡ 0 = ap length empty in
      subst
        (λ d. Returns (λ w. lib.written w ≡ d) (write_calls lib (header_calls lib c json_text) w s))
        (ap (λ d. d ++ header_of avro c json_text) empty)
        (write_calls-WriteAll avro lib mem (header_calls lib c json_text)
          (header_of avro c json_text) w s (header_calls-WriteAll avro lib mem spec c json_text)
          (omega (arith, room, size, length-header_of avro spec c json_text succeeds.json_fits)))

  made-Made :
      (c : AvroCodec) (w : W)
      → lib.written w ≡ header_of avro c json_text
      → Made c (made lib c json_text w)
  made-Made c w e = record { codec = refl; header = e; header_size = mem.tell_law w ∙ ap length e }

  fill_header-Made :
      (c : AvroCodec) (s : State M W S) → Returns (Made c) (fill_header lib c json_text s)
  unfolding fill_header
  fill_header-Made c s =
      let size = header_buffer_size_for c json_text in
      Outcome-resume (λ _ _. Unit {0}) _ _ _ (alloc_header_buffer lib size s)
        (alloc_header_buffer-returns size s)
        λ _ s h.
          Outcome-resume (λ w _. Fresh size w) _ _ _ (make_header_writer lib size s)
            (make_header_writer-Fresh size s)
            λ w s fresh.
              Outcome-resume (λ w _. lib.written w ≡ header_of avro c json_text) _ _ _
                (write_calls lib (header_calls lib c json_text) w s)
                (calls_write_header c w s fresh) (λ w s e. made-Made c w e)

  make_header-Made : (c : AvroCodec) (s : State M W S) → Returns (Made c) (make_header lib c s)
  unfolding make_header
  make_header-Made c s =
      Outcome-resume (λ w _. Fresh schema_buf_size w) _ _ _ (make_schema_writer lib s)
        (make_schema_writer-Fresh s)
        λ w s fresh.
          Outcome-resume (λ json _. json ≡ json_text) _ _ (fill_header lib c)
            (put_schema lib (lib.schema_to_json w) s) (put_schema-json_text w s fresh)
            λ json s e.
              subst (λ json. Returns (Made c) (fill_header lib c json s)) (sym e)
                (fill_header-Made c s)

  parse_ar_schema-returns : (s : State M W S) → Returns (λ _. Unit {0}) (parse_ar_schema lib s)
  unfolding parse_ar_schema
  parse_ar_schema-returns s = rw (succeeds.parses s.world) tt

  new_codec-returns : (s : State M W S) → Returns (λ _. Unit {0}) (new_codec lib s)
  unfolding new_codec
  new_codec-returns s = rw (succeeds.allocates lib.codec_size s.world) tt

  set_codec-returns :
      (c : AvroCodec) (s : State M W S) → Returns (λ _. Unit {0}) (set_codec lib c s)
  unfolding set_codec
  set_codec-returns c s = rw (succeeds.sets_codec c s.world) tt

  pub construct-Made : (c : AvroCodec) (s : State M W S) → Returns (Made c) (construct lib c s)
  unfolding construct guard_header
  construct-Made c s =
      Outcome-resume (λ _ _. Unit {0}) _ _ _ (parse_ar_schema lib s) (parse_ar_schema-returns s)
        λ _ s _.
          Outcome-resume (λ _ _. Unit {0}) _ _ _ (new_codec lib s) (new_codec-returns s)
            λ _ s _.
              Outcome-resume (λ _ _. Unit {0}) _ _ _ (set_codec lib c s) (set_codec-returns c s)
                λ _ s _.
                  Outcome-guarded (λ impl _. Made c impl) _ _ _ clear_header (make_header lib c)
                    (record s { header_writer = null; schema_writer = null }) (make_header-Made c _)
                    (λ _ _ h. h) (λ _ h. h)
