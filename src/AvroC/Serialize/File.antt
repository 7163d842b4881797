-- ===== src/AvroC/Serialize/File.antt =====
-- What is allocated inside the last guard of `serialize`, and what that guard releases.
use csnd.Prelude.{
  ℕ, suc, ◌≡◌, sym, subst, ◌⊎◌, inl, inr, true, false, Option, none, some, List, ◌∷◌, arith, Text,
}
use csnd.Exec.{Exec, resume}
use csnd.Exec.Keeps.{Outcome, Outcome-resume, Outcome-guarded}
use csnd.AvroCpp.{Avro}
use csnd.AvroC.{Error, Pointer, indeterminate, null, at, Library, State, Impl, clear_writer}
use csnd.AvroC.Serialize.{
  alloc_buffer, make_writer, on_writer, with_writer, put_file, set_writer, write_file, write_block,
  buffer_size_for,
}
use csnd.AvroC.Serialize.Datum.{Restores, InDatum}

module _ {F M W S : Type 0} (avro : Avro F M) (lib : Library F W S) where
  -- Buffers can be allocated: what the library can run short of is anything else.
  abbrev pub Allocates : Type 0
  Allocates = (n : ℕ) (world : S) → (lib.malloc n world).0 ≡ true

  -- Inside the last guard, once both local variables are set; what the first guard refers to does not
  -- change.
  record InFile (s : State M W S) (size : ℕ) (s' : State M W S) : Type 0 where
    buffer : s'.buffer ≡ at size
    buffers : s'.buffers ≡ size ∷ s.buffers
    writer : (w : W) × (s'.writer ≡ at w)
    writers : s'.writers ≡ suc s.writers
    datums : s'.datums ≡ s.datums
    schemas : s'.schemas ≡ s.schemas
    codecs : s'.codecs ≡ s.codecs
    defined : s'.undefined ≡ false
    datum_buffer : s'.datum_buffer ≡ s.datum_buffer
    datum_writer : s'.datum_writer ≡ s.datum_writer

  -- What the last guard restores.
  pub record Keeps (s s' : State M W S) : Type 0 where
    pub restored : Restores s s'
    pub datum_buffer : s'.datum_buffer ≡ s.datum_buffer
    pub datum_writer : s'.datum_writer ≡ s.datum_writer

  -- The same before there is a writer: `p` is what the local variable is.
  record Bare (s : State M W S) (size : ℕ) (p : Pointer W) (s' : State M W S) : Type 0 where
    buffer : s'.buffer ≡ at size
    buffers : s'.buffers ≡ size ∷ s.buffers
    writer : s'.writer ≡ p
    writers : s'.writers ≡ s.writers
    datums : s'.datums ≡ s.datums
    schemas : s'.schemas ≡ s.schemas
    codecs : s'.codecs ≡ s.codecs
    defined : s'.undefined ≡ false
    datum_buffer : s'.datum_buffer ≡ s.datum_buffer
    datum_writer : s'.datum_writer ≡ s.datum_writer

  -- What an exception leaves behind for the last guard.
  abbrev Thrown : State M W S → ℕ → State M W S → Type 0
  Thrown s size s' = InFile s size s' ⊎ Bare s size null s'

  clear_writer-InFile :
      (s s' : State M W S) (size : ℕ) → InFile s size s' → Keeps s (clear_writer s')
  unfolding clear_writer
  clear_writer-InFile s s' size h = ground arith

  clear_writer-Thrown :
      (s s' : State M W S) (size : ℕ) → Thrown s size s' → Keeps s (clear_writer s')
  unfolding clear_writer
  clear_writer-Thrown s s' size (inl h) = clear_writer-InFile s s' size h
  clear_writer-Thrown s s' size (inr h) = ground arith

  pub Keeps-InDatum :
      (s0 s s' : State M W S) (size : ℕ) → InDatum s0 size s → Keeps s s' → InDatum s0 size s'
  Keeps-InDatum s0 s s' size h k = ground arith

  module _ (s0 : State M W S) (size : ℕ) where
    alloc_buffer-Bare :
        Allocates
        → s0.undefined ≡ false
        → Outcome
            (λ _. Bare s0 size indeterminate)
            (Thrown s0 size)
            (alloc_buffer avro lib size
              (record s0 { writer = indeterminate; buffer = indeterminate }))
    unfolding alloc_buffer
    alloc_buffer-Bare allocates defined = let done = allocates size s0.world in ground arith

    make_writer-InFile :
        (s : State M W S)
        → Bare s0 size indeterminate s
        → Outcome (λ _. InFile s0 size) (Thrown s0 size) (make_writer avro lib size s)
    unfolding make_writer
    make_writer-InFile s h = made (lib.writer_memory size s.world)
      where
        made :
            (o : Option W × S)
            → Outcome {A = Unit {0}}
                (λ _. InFile s0 size)
                (Thrown s0 size)
                (set_writer avro lib o s)
        made (none, world') = inr (ground arith)
        made (some w, world') = ground arith

    put_file-InFile :
        (o : Option W) (what : Text) (s : State M W S)
        → InFile s0 size s
        → Outcome {A = Unit {0}} (λ _. InFile s0 size) (Thrown s0 size) (put_file avro lib o what s)
    put_file-InFile none what s h = inl h
    put_file-InFile (some w) what s h = ground arith

    on_writer-InFile :
        (call : W → Option W) (what : Text) (s : State M W S)
        → InFile s0 size s
        → Outcome {A = Unit {0}}
            (λ _. InFile s0 size)
            (Thrown s0 size)
            (on_writer avro lib call what s)
    on_writer-InFile call what s h =
        let (w, e) = h.writer in
        subst
          (λ p.
            Outcome {A = Unit {0}} (λ _. InFile s0 size) (Thrown s0 size)
              (with_writer avro lib p call what s))
          (sym e) (put_file-InFile (call w) what s h)

    -- One call of `write_file` after the other.
    after :
        {A : Type 0} (call : W → Option W) (what : Text) (rest : Exec (State M W S) Error A)
        (s : State M W S)
        → InFile s0 size s
        → ((s : State M W S)
            → InFile s0 size s
            → Outcome (λ _. InFile s0 size) (Thrown s0 size) (rest s))
        → Outcome
            (λ _. InFile s0 size)
            (Thrown s0 size)
            (resume (λ _. rest) (on_writer avro lib call what s))
    after call what rest s h next =
        Outcome-resume (λ _. InFile s0 size) (λ _. InFile s0 size) (Thrown s0 size) (λ _. rest)
          (on_writer avro lib call what s) (on_writer-InFile call what s h) (λ _ s h. next s h)

  pub write_block-Keeps :
      Allocates
      → (impl : Impl) (sync : List ℕ) (n : ℕ) (block : List ℕ) (s : State M W S)
      → s.undefined ≡ false
      → Outcome (λ _. Keeps s) (Keeps s) (write_block avro lib impl sync n block s)
  unfolding write_block write_file
  write_block-Keeps allocates impl sync n block s defined =
      let size = buffer_size_for avro lib impl block in
      let start = record s { writer = indeterminate; buffer = indeterminate } in
      Outcome-guarded (λ _. InFile s size) (λ _. Keeps s) (Thrown s size) (Keeps s) clear_writer
        (write_file avro lib impl sync n block) start
        (Outcome-resume (λ _. Bare s size indeterminate) (λ _. InFile s size) (Thrown s size) _
          (alloc_buffer avro lib size start) (alloc_buffer-Bare s size allocates defined)
          (λ _ s1 h.
            Outcome-resume (λ _. InFile s size) (λ _. InFile s size) (Thrown s size) _
              (make_writer avro lib size s1) (make_writer-InFile s size s1 h)
              (λ _ s1 h. after s size _ _ _ s1 h (λ s1 h. after s size _ _ _ s1 h (λ s1 h.
                after s size _ _ _ s1 h (λ s1 h. after s size _ _ _ s1 h (λ s1 h.
                  after s size _ _ _ s1 h (λ s1 h. after s size _ _ _ s1 h (λ s1 h. h)))))))))
        (λ _ s' h. clear_writer-InFile s s' size h) (λ s' h. clear_writer-Thrown s s' size h)
