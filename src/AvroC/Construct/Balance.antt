-- ===== src/AvroC/Construct/Balance.antt =====
-- What the constructor leaves allocated, and what the destructor releases.
use csnd.Prelude.{
  suc, ◌≡◌, ◌∙◌, inl, inr, true, false, Option, List, [], ◌∷◌, arith, Bool-cases, if◌then◌else◌,
}
use csnd.Accel.{AccelRecord}
use csnd.Exec.Keeps.{Outcome, Outcome-resume, Outcome-weaken}
use csnd.AvroCpp.{Avro, AvroCodec, ar_schema}
use csnd.AvroC.{Library, State, Impl}
use csnd.AvroC.Serialize.{serialize}
use csnd.AvroC.Serialize.Datum.{Restores}
use csnd.AvroC.Serialize.File.{Allocates}
use csnd.AvroC.Serialize.Release.{serialize-Restores}
use csnd.AvroC.Construct.{parse_ar_schema, new_codec, set_codec, guard_header, construct, destruct}
use csnd.AvroC.Construct.Guard.{Open, OpenWith, guard_header-Open}

module _ {F M W S : Type 0} (lib : Library F W S) (s0 : State M W S) where
  -- What an exception leaves behind: the writers have been freed, but the schema and what else the
  -- constructor allocated have not, since the destructor is not called.
  pub record Abandons (s' : State M W S) : Type 0 where
    pub writers : s'.writers ≡ s0.writers
    pub datums : s'.datums ≡ s0.datums
    pub schemas :
        s'.schemas
        ≡ (if (lib.parse_schema ar_schema s0.world).0 then suc s0.schemas else s0.schemas)
    pub defined : s'.undefined ≡ false

  abbrev Parsed : Type 0
  Parsed = (lib.parse_schema ar_schema s0.world).0 ≡ true

  Open-Abandons : (s : State M W S) → Parsed → Open s0 s → Abandons s
  Open-Abandons s parsed h = record {
    writers = h.writers;
    datums = h.datums;
    schemas = rw parsed h.schemas;
    defined = h.defined;
  }

  -- A schema, and no codec yet.
  record HasSchema (s : State M W S) : Type 0 where
    writers : s.writers ≡ s0.writers
    datums : s.datums ≡ s0.datums
    schemas : s.schemas ≡ suc s0.schemas
    codecs : s.codecs ≡ s0.codecs
    buffers : s.buffers ≡ s0.buffers
    defined : s.undefined ≡ false

  HasSchema-Abandons : (s : State M W S) → Parsed → HasSchema s → Abandons s
  HasSchema-Abandons s parsed h = record {
    writers = h.writers;
    datums = h.datums;
    schemas = rw parsed h.schemas;
    defined = h.defined;
  }

  new_codec-Open :
      (s : State M W S)
      → HasSchema s
      → Outcome (λ _. OpenWith s0 s0.buffers) HasSchema (new_codec lib s)
  unfolding new_codec
  new_codec-Open s h = ground arith

  set_codec-Open :
      (c : AvroCodec) (s : State M W S)
      → OpenWith s0 s0.buffers s
      → Outcome (λ _. OpenWith s0 s0.buffers) (Open s0) (set_codec lib c s)
  unfolding set_codec
  set_codec-Open c s (h, e) = ground arith

  construct-Opens :
      (c : AvroCodec)
      → s0.undefined ≡ false
      → Outcome
          (λ impl. OpenWith s0 (impl.header_buffer_size ∷ s0.buffers))
          Abandons
          (construct lib c s0)
  unfolding construct parse_ar_schema
  construct-Opens c defined = elim (Bool-cases (lib.parse_schema ar_schema s0.world).0) [
    | inl parsed ↦
        Outcome-resume (λ _. HasSchema) _ Abandons _ (parse_ar_schema lib s0) (has_schema parsed)
          λ _ s h.
            Outcome-resume (λ _. OpenWith s0 s0.buffers) _ Abandons _ (new_codec lib s)
              (Outcome-weaken (λ _. OpenWith s0 s0.buffers) _ HasSchema Abandons (new_codec lib s)
                (λ _ _ h. h) (λ s h. HasSchema-Abandons s parsed h) (new_codec-Open s h))
              λ _ s h.
                Outcome-resume (λ _. OpenWith s0 s0.buffers) _ Abandons _ (set_codec lib c s)
                  (Outcome-weaken (λ _. OpenWith s0 s0.buffers) _ (Open s0) Abandons
                    (set_codec lib c s) (λ _ _ h. h) (λ s h. Open-Abandons s parsed h)
                    (set_codec-Open c s h))
                  λ _ s h.
                    Outcome-weaken (λ impl. OpenWith s0 (impl.header_buffer_size ∷ s0.buffers)) _
                      (Open s0) Abandons (guard_header lib c s) (λ _ _ h. h)
                      (λ s h. Open-Abandons s parsed h) (guard_header-Open lib s0 c s h)
    | inr failed ↦ not_parsed failed
  ]
    where
      has_schema : Parsed → Outcome (λ _. HasSchema) Abandons (parse_ar_schema lib s0)
      has_schema parsed = rw parsed (ground arith)

      not_parsed :
          (lib.parse_schema ar_schema s0.world).0 ≡ false
          → Outcome
              (λ impl. OpenWith s0 (impl.header_buffer_size ∷ s0.buffers))
              Abandons
              (construct lib c s0)
      not_parsed failed = rw failed (ground arith)

module _ {F M W S : Type 0} (avro : Avro F M) (lib : Library F W S) where
  -- A serializer serves calls, one after the other.
  abbrev pub serve : Impl → List (Option (List (AccelRecord F))) → State M W S → State M W S
  serve impl [] s = s
  serve impl (call ∷ calls) s = serve impl calls (serialize avro lib impl call s).1

  serve-Restores :
      (impl : Impl) (calls : List (Option (List (AccelRecord F)))) (s : State M W S)
      → Allocates avro lib
      → s.undefined ≡ false
      → Restores s (serve impl calls s)
  serve-Restores impl [] s allocates defined = ground arith
  serve-Restores impl (call ∷ calls) s allocates defined =
      let h = serialize-Restores avro lib impl call s allocates defined in
      let h' = serve-Restores impl calls (serialize avro lib impl call s).1 allocates h.defined in
      record {
        buffers = h'.buffers ∙ h.buffers;
        writers = h'.writers ∙ h.writers;
        datums = h'.datums ∙ h.datums;
        schemas = h'.schemas ∙ h.schemas;
        codecs = h'.codecs ∙ h.codecs;
        defined = h'.defined;
      }

  destruct-Open :
      (impl : Impl) (s0 s s' : State M W S)
      → OpenWith s0 (impl.header_buffer_size ∷ s0.buffers) s
      → Restores s s'
      → Restores s0 (destruct impl s')
  unfolding destruct
  destruct-Open impl s0 s s' (o, e) h = ground arith

  -- The whole life of a serializer, with no undefined behaviour before and an `avro_malloc` that
  -- does not fail. If the constructor returns, then any calls of `serialize` and the destructor
  -- after them, the library has released everything that was allocated since, each thing once, and
  -- nothing else. If the constructor throws, the writers are freed, but the schema is not released
  -- whenever it was parsed, since then no destructor is called.
  pub construct-serve-destruct :
      (c : AvroCodec) (calls : List (Option (List (AccelRecord F)))) (s : State M W S)
      → Allocates avro lib
      → s.undefined ≡ false
      → Outcome
          (λ impl s'. Restores s (destruct impl (serve impl calls s')))
          (Abandons lib s)
          (construct lib c s)
  construct-serve-destruct c calls s allocates defined =
      Outcome-weaken (λ impl. OpenWith s (impl.header_buffer_size ∷ s.buffers)) _ (Abandons lib s) _
        (construct lib c s)
        (λ impl s' (o, e).
          destruct-Open impl s s' (serve impl calls s') (o, e)
            (serve-Restores impl calls s' allocates o.defined))
        (λ _ h. h) (construct-Opens lib s c defined)
