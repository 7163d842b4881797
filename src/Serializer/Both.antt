-- ===== src/Serializer/Both.antt =====
-- Both implementations keep the promise of `serializer`.
use csnd.Prelude.{ℕ, ◌+◌, ◌≡◌, refl, false, some, ◌∷◌}
use csnd.AvroCpp
use csnd.AvroCpp.{Avro, AvroCodec, draw_sync}
use csnd.AvroCpp.Roundtrip.{IsInverse}
use csnd.AvroCpp.Calls
use csnd.AvroCpp.Calls.{IsMade, drawn, serialize-IsMade, serialize-made}
use csnd.AvroC
use csnd.AvroC.{Library, State}
use csnd.AvroC.Laws.{IsMemory, Succeeds, IsSpecified}
use csnd.AvroC.Serialize
use csnd.AvroC.Serialize.Sizes
use csnd.AvroC.Serialize.Release.{serialize-Restores}
use csnd.AvroC.Construct.Total.{Made}
use csnd.AvroC.Readable.{serialize-Made}
use csnd.Serializer.{Serializer, IsSerializer}

-- `serializer_avrocpp` and `serializer_avroc`.
abbrev pub avrocpp : {F M : Type 0} → Avro F M → Serializer F (AvroCpp.Impl M) AvroCpp.Error
avrocpp avro = record { serialize = λ ars s. AvroCpp.serialize avro s ars }

abbrev pub avroc :
    {F M W S : Type 0}
    → Avro F M
    → Library F W S
    → AvroC.Impl
    → Serializer F (State M W S) AvroC.Error
avroc avro lib impl = record { serialize = Serialize.serialize avro lib impl }

-- A C++ serializer that was made for the codec, after any number of calls.
abbrev pub IsInUse : {F M : Type 0} → Avro F M → AvroCodec → AvroCpp.Impl M → Type 0
IsInUse avro c s = (n : ℕ) × IsMade avro c n s

-- No undefined behaviour yet.
abbrev pub IsDefined : {M W S : Type 0} → State M W S → Type 0
IsDefined s = s.undefined ≡ false

module _ {F M : Type 0} (avro : Avro F M) (laws : IsInverse avro) (c : AvroCodec) where
  -- The C++ serializer keeps the promise, from every state that its constructor and its calls lead
  -- to.
  pub avrocpp-IsSerializer : IsSerializer avro c (avrocpp avro) (IsInUse avro c) (Calls.Fits avro c)
  unfolding AvroCpp.serialize
  avrocpp-IsSerializer = record {
    writes = λ s a ars blank (n, made) fits.
        let (data_file, written, read) = serialize-made avro laws c n s a ars blank fits made in
        (
          data_file,
          (draw_sync avro 16 (drawn avro n avro.mt_default)).0,
          written,
          read,
          (n + 16, serialize-IsMade avro c n s a ars made),
        );
    refuses_null = λ s ready. ((_, refl), ready);
    refuses_empty = λ s ready. ((_, refl), ready);
  }

module _ {F M W S : Type 0} (avro : Avro F M) (lib : Library F W S) (mem : IsMemory avro lib)
    (succeeds : Succeeds avro lib) (spec : IsSpecified avro) (laws : IsInverse avro) (c : AvroCodec)
    (impl : AvroC.Impl) (made : Made avro lib mem succeeds spec c impl) where
  -- The C serializer keeps the promise, if it was constructed with a library that serves its calls,
  -- from every state without undefined behaviour. (The README reports that it does not work correctly
  -- with the library that it is linked to; this library is one of which the calls' documented
  -- effects are assumed.)
  pub avroc-IsSerializer :
      IsSerializer avro c (avroc avro lib impl) IsDefined (Sizes.Fits avro lib c)
  unfolding Serialize.serialize
  avroc-IsSerializer = record {
    writes = λ s a ars blank defined fits.
        let (data_file, written, read) =
          serialize-Made avro lib mem succeeds spec laws c impl a ars blank s made fits in
        (
          data_file,
          (draw_sync avro 16 s.mt).0,
          written,
          read,
          (serialize-Restores avro lib impl (some (a ∷ ars)) s succeeds.allocates defined).defined,
        );
    refuses_null = λ s defined. ((_, refl), defined);
    refuses_empty = λ s defined. ((_, refl), defined);
  }
