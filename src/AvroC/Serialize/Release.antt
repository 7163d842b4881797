-- ===== src/AvroC/Serialize/Release.antt =====
-- What `serialize` has allocated and released when it is left.
use csnd.Prelude.{
  ℕ, ◌≡◌, refl, sym, ◌⊎◌, inl, inr, true, false, Option, none, some, List, [], ◌∷◌, arith,
  Bool-cases, Result, ok, err, leb,
}
use csnd.Accel.{AccelRecord}
use csnd.Exec.{Exec, resume}
use csnd.Exec.Keeps.{Outcome, Outcome-resume, Outcome-guarded}
use csnd.Util.{guarded}
use csnd.AvroCpp.{Avro}
use csnd.AvroC.{Error, Pointer, indeterminate, null, at, Library, State, Impl, clear_datum}
use csnd.AvroC.Serialize.{
  alloc_datum_buffer, make_datum_writer, set_datum_writer, draw, write_records, encode_block,
  write_block, require_some, write_datums, serialize, datum_size_for,
}
use csnd.AvroC.Serialize.Datum.{
  Restores, InDatum, Inside, clear_datum-InDatum, write_records-InDatum, draw-InDatum,
  encode_block-InDatum,
}
use csnd.AvroC.Serialize.File.{Allocates, Keeps, Keeps-InDatum, write_block-Keeps}

module _ {F M W S : Type 0} (avro : Avro F M) (lib : Library F W S) where
  -- Inside the first guard before there is a writer.
  record Bare (s : State M W S) (size : ℕ) (p : Pointer W) (s' : State M W S) : Type 0 where
    buffer : s'.datum_buffer ≡ at size
    buffers : s'.buffers ≡ size ∷ s.buffers
    writer : s'.datum_writer ≡ p
    writers : s'.writers ≡ s.writers
    datums : s'.datums ≡ s.datums
    schemas : s'.schemas ≡ s.schemas
    codecs : s'.codecs ≡ s.codecs
    defined : s'.undefined ≡ false

  abbrev Thrown : State M W S → ℕ → State M W S → Type 0
  Thrown s size s' = InDatum s size s' ⊎ Bare s size null s'

  clear_datum-Thrown :
      (s s' : State M W S) (size : ℕ) → Thrown s size s' → Restores s (clear_datum s')
  unfolding clear_datum
  clear_datum-Thrown s s' size (inl h) = clear_datum-InDatum s s' size h
  clear_datum-Thrown s s' size (inr h) = ground arith

  module _ (s0 : State M W S) (size : ℕ) where
    alloc_datum_buffer-Bare :
        Allocates avro lib
        → s0.undefined ≡ false
        → Outcome
            (λ _. Bare s0 size indeterminate)
            (Thrown s0 size)
            (alloc_datum_buffer avro lib size
              (record s0 { datum_writer = indeterminate; datum_buffer = indeterminate }))
    unfolding alloc_datum_buffer
    alloc_datum_buffer-Bare allocates defined = let done = allocates size s0.world in ground arith

    make_datum_writer-InDatum :
        (s : State M W S)
        → Bare s0 size indeterminate s
        → Outcome (λ _. InDatum s0 size) (Thrown s0 size) (make_datum_writer avro lib size s)
    unfolding make_datum_writer
    make_datum_writer-InDatum s h = made (lib.writer_memory size s.world)
      where
        made :
            (o : Option W × S)
            → Outcome {A = Unit {0}}
                (λ _. InDatum s0 size)
                (Thrown s0 size)
                (set_datum_writer avro lib o s)
        made (none, world') = inr (ground arith)
        made (some w, world') = ground arith

    write_block-InDatum :
        Allocates avro lib
        → (impl : Impl) (sync : List ℕ) (n : ℕ) (block : List ℕ) (s : State M W S)
        → InDatum s0 size s
        → Inside avro lib s0 size (write_block avro lib impl sync n block s)
    write_block-InDatum allocates impl sync n block s h =
        kept (write_block avro lib impl sync n block s)
          (write_block-Keeps avro lib allocates impl sync n block s h.defined)
      where
        kept :
            (p : Result Error (List ℕ) × State M W S)
            → Outcome (λ _. Keeps avro lib s) (Keeps avro lib s) p
            → Inside avro lib s0 size p
        kept (ok a, s') k = Keeps-InDatum avro lib s0 s s' size h k
        kept (err e, s') k = Keeps-InDatum avro lib s0 s s' size h k

    -- Inside the first guard, with the exceptions of its first two calls let through.
    abbrev Scope : {A : Type 0} → Result Error A × State M W S → Type 0
    Scope = Outcome (λ _. InDatum s0 size) (Thrown s0 size)

    Inside-Scope :
        {A : Type 0} (p : Result Error A × State M W S) → Inside avro lib s0 size p → Scope p
    Inside-Scope (ok a, s) h = h
    Inside-Scope (err e, s) h = inl h

    require_some-Inside :
        (n : ℕ) (s : State M W S)
        → InDatum s0 size s
        → Inside avro lib s0 size (require_some avro lib n s)
    require_some-Inside n s h = elim (Bool-cases (leb n 0)) [ inl e ↦ rw e h | inr e ↦ rw e h ]

    next_step :
        {A B : Type 0} (rest : A → Exec (State M W S) Error B) (p : Result Error A × State M W S)
        → Inside avro lib s0 size p
        → ((a : A) (s : State M W S) → InDatum s0 size s → Scope (rest a s))
        → Scope (resume rest p)
    next_step rest p h next =
        Outcome-resume (λ _. InDatum s0 size) (λ _. InDatum s0 size) (Thrown s0 size) rest p
          (Inside-Scope p h) next

    write_datums-Scope :
        Allocates avro lib
        → (impl : Impl) (ars : List (AccelRecord F)) → size ≡ datum_size_for avro lib ars
        → s0.undefined ≡ false
        → Scope (
            write_datums avro lib impl ars
              (record s0 { datum_writer = indeterminate; datum_buffer = indeterminate }))
    unfolding write_datums
    write_datums-Scope allocates impl ars same defined =
        let start = record s0 { datum_writer = indeterminate; datum_buffer = indeterminate } in
        rw (sym same) (
          Outcome-resume (λ _. Bare s0 size indeterminate) (λ _. InDatum s0 size) (Thrown s0 size) _
            (alloc_datum_buffer avro lib size start) (alloc_datum_buffer-Bare allocates defined)
            (λ _ s h.
              Outcome-resume (λ _. InDatum s0 size) (λ _. InDatum s0 size) (Thrown s0 size) _
                (make_datum_writer avro lib size s) (make_datum_writer-InDatum s h)
                (λ _ s h.
                  next_step _ (draw avro lib s) (draw-InDatum avro lib s0 size s h) (λ sync s h.
                    next_step _ (write_records avro lib ars 0 s)
                      (write_records-InDatum avro lib s0 size ars 0 s h)
                      (λ n s h.
                        next_step _ (require_some avro lib n s) (require_some-Inside n s h)
                          (λ _ s h.
                            next_step _ (encode_block avro lib impl s)
                              (encode_block-InDatum avro lib s0 size impl s h)
                              (λ block s h.
                                Inside-Scope (write_block avro lib impl sync n block s)
                                  (write_block-InDatum allocates impl sync n block s h))))))))

  -- However a call of `serialize` ends, by a return or by an exception of any of its steps, it has
  -- released everything that it allocated, each thing once, and nothing else: provided that
  -- `avro_malloc` does not fail, and with no undefined behaviour before.
  pub serialize-Restores :
      (impl : Impl) (ars : Option (List (AccelRecord F))) (s : State M W S)
      → Allocates avro lib
      → s.undefined ≡ false
      → Restores s (serialize avro lib impl ars s).1
  unfolding serialize
  serialize-Restores impl none s allocates defined = ground arith
  serialize-Restores impl (some []) s allocates defined = ground arith
  serialize-Restores impl (some (a ∷ ars)) s allocates defined =
      let size = datum_size_for avro lib (a ∷ ars) in
      let start = record s { datum_writer = indeterminate; datum_buffer = indeterminate } in
      state_of (guarded clear_datum (write_datums avro lib impl (a ∷ ars)) start) (
        Outcome-guarded (λ _. InDatum s size) (λ _. Restores s) (Thrown s size) (Restores s)
          clear_datum (write_datums avro lib impl (a ∷ ars)) start
          (write_datums-Scope s size allocates impl (a ∷ ars) refl defined)
          (λ _ s' h. clear_datum-InDatum s s' size h) (λ s' h. clear_datum-Thrown s s' size h))
    where
      state_of :
          (p : Result Error (List ℕ) × State M W S)
          → Outcome (λ _. Restores s) (Restores s) p
          → Restores s p.1
      state_of (ok b, s') h = h
      state_of (err e, s') h = h

  -- If `avro_malloc` fails for the first buffer, the guard reads `datum_writer`, which has no value
  -- yet: undefined behaviour, whatever records are to be written.
  pub serialize-undefined :
      (impl : Impl) (a : AccelRecord F) (ars : List (AccelRecord F)) (s : State M W S)
      → (lib.malloc (datum_size_for avro lib (a ∷ ars)) s.world).0 ≡ false
      → (serialize avro lib impl (some (a ∷ ars)) s).1.undefined ≡ true
  unfolding serialize write_datums alloc_datum_buffer guarded clear_datum
  serialize-undefined impl a ars s full = rw full refl
