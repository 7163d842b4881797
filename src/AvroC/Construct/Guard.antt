-- ===== src/AvroC/Construct/Guard.antt =====
-- What is allocated inside the guard of the constructor, and what that guard releases.
use csnd.Prelude.{
  ℕ, suc, ◌≡◌, refl, ◌⊎◌, inl, inr, false, Option, none, some, List, [], ◌∷◌, arith, Bool-cases,
  Text,
}
use csnd.Exec.Keeps.{Outcome, Outcome-resume, Outcome-guarded}
use csnd.AvroCpp.{AvroCodec}
use csnd.AvroC.{Pointer, null, at, Library, State, clear_header}
use csnd.AvroC.Construct.{
  header_buffer_size_for, set_schema_writer, make_schema_writer, put_schema, alloc_header_buffer,
  set_header_writer, make_header_writer, put_header, header_calls, write_calls, fill_header,
  make_header, guard_header, schema_buf_size,
}

-- How many writers a local variable refers to, which has been given a value.
abbrev live : {W : Type 0} → Pointer W → ℕ → ℕ
live (at w) n = suc n
live other n = n

abbrev IsGiven : {W : Type 0} → Pointer W → Type 0
IsGiven p = (p ≡ null) ⊎ ((w : _) × (p ≡ at w))

module _ {M W S : Type 0} where
  -- Between the constructor and the destructor: a schema and a codec are live.
  pub record Open (s s' : State M W S) : Type 0 where
    pub writers : s'.writers ≡ s.writers
    pub datums : s'.datums ≡ s.datums
    pub schemas : s'.schemas ≡ suc s.schemas
    pub codecs : s'.codecs ≡ suc s.codecs
    pub defined : s'.undefined ≡ false

  -- Inside the guard of the constructor.
  record InHeader (s : State M W S) (ns : List ℕ) (s' : State M W S) : Type 0 where
    writers : s'.writers ≡ live s'.header_writer (live s'.schema_writer s.writers)
    header_writer : IsGiven s'.header_writer
    schema_writer : IsGiven s'.schema_writer
    datums : s'.datums ≡ s.datums
    schemas : s'.schemas ≡ suc s.schemas
    codecs : s'.codecs ≡ suc s.codecs
    buffers : s'.buffers ≡ ns
    defined : s'.undefined ≡ false

  abbrev pub OpenWith : State M W S → List ℕ → State M W S → Type 0
  OpenWith s buffers s' = Open s s' × (s'.buffers ≡ buffers)

  clear_header-Open :
      (s s' : State M W S) (buffers : List ℕ)
      → InHeader s buffers s'
      → OpenWith s buffers (clear_header s')
  unfolding clear_header
  clear_header-Open s s' buffers h = elim h.header_writer [
    | inl hn ↦ elim h.schema_writer [ inl sn ↦ ground arith | inr (w, sw) ↦ ground arith ]
    | inr (v, hw) ↦ elim h.schema_writer [ inl sn ↦ ground arith | inr (w, sw) ↦ ground arith ]
  ]

module _ {F M W S : Type 0} (lib : Library F W S) (s0 : State M W S) where
  -- Before there is a header writer, and with one.
  abbrev Before : List ℕ → State M W S → Type 0
  Before ns s = InHeader s0 ns s × (s.header_writer ≡ null)

  abbrev With : List ℕ → State M W S → Type 0
  With ns s = InHeader s0 ns s × ((w : W) × (s.header_writer ≡ at w))

  abbrev Thrown : State M W S → Type 0
  Thrown s = (ns : List ℕ) × InHeader s0 ns s

  set_schema_writer-Before :
      (o : Option W × S) (ns : List ℕ) (s : State M W S)
      → Before ns s
      → s.schema_writer ≡ null
      → Outcome
          (λ w s'. Before ns s' × (s'.schema_writer ≡ at w))
          Thrown
          (set_schema_writer lib o s)
  set_schema_writer-Before (none, world') ns s (h, e) e' = (ns, ground arith)
  set_schema_writer-Before (some w, world') ns s (h, e) e' = ground arith

  put_schema-Before :
      (o : Option W) (w : W) (ns : List ℕ) (s : State M W S)
      → Before ns s
      → s.schema_writer ≡ at w
      → Outcome (λ _. Before ns) Thrown (put_schema lib o s)
  put_schema-Before none w ns s (h, e) e' = (ns, h)
  put_schema-Before (some v) w ns s (h, e) e' = ground arith

  alloc_header_buffer-Before :
      (size : ℕ) (ns : List ℕ) (s : State M W S)
      → Before ns s
      → Outcome (λ _. Before (size ∷ ns)) Thrown (alloc_header_buffer lib size s)
  unfolding alloc_header_buffer
  alloc_header_buffer-Before size ns s (h, e) = elim (Bool-cases (lib.malloc size s.world).0) [
    | inl done ↦ rw done (ground arith)
    | inr full ↦ rw full (ns, ground arith)
  ]

  set_header_writer-With :
      (o : Option W × S) (ns : List ℕ) (s : State M W S)
      → Before ns s
      → Outcome (λ _. With ns) Thrown (set_header_writer lib o s)
  set_header_writer-With (none, world') ns s (h, e) = (ns, ground arith)
  set_header_writer-With (some w, world') ns s (h, e) = ground arith

  put_header-With :
      (o : Option W) (what : Text) (ns : List ℕ) (s : State M W S)
      → With ns s
      → Outcome (λ _. With ns) Thrown (put_header lib o what s)
  put_header-With none what ns s (h, e) = (ns, h)
  put_header-With (some v) what ns s (h, (w, e)) = ground arith

  write_calls-With :
      (calls : List ((W → Option W) × Text)) (w : W) (ns : List ℕ) (s : State M W S)
      → With ns s
      → Outcome (λ _. With ns) Thrown (write_calls lib calls w s)
  unfolding write_calls
  write_calls-With [] w ns s h = h
  write_calls-With ((call, what) ∷ calls) w ns s h =
      Outcome-resume (λ _. With ns) (λ _. With ns) Thrown (write_calls lib calls)
        (put_header lib (call w) what s) (put_header-With (call w) what ns s h)
        (λ w s h. write_calls-With calls w ns s h)

  fill_header-With :
      (c : AvroCodec) (json : List ℕ) (s : State M W S)
      → Before s0.buffers s
      → Outcome
          (λ impl. With (impl.header_buffer_size ∷ s0.buffers))
          Thrown
          (fill_header lib c json s)
  unfolding fill_header make_header_writer
  fill_header-With c json s h =
      let size = header_buffer_size_for c json in
      Outcome-resume (λ _. Before (size ∷ s0.buffers)) _ Thrown _ (alloc_header_buffer lib size s)
        (alloc_header_buffer-Before size s0.buffers s h)
        λ _ s h.
          Outcome-resume (λ _. With (size ∷ s0.buffers)) _ Thrown _ (make_header_writer lib size s)
            (set_header_writer-With (lib.writer_memory size s.world) (size ∷ s0.buffers) s h)
            λ w s h.
              Outcome-resume (λ _. With (size ∷ s0.buffers)) _ Thrown _
                (write_calls lib (header_calls lib c json) w s)
                (write_calls-With (header_calls lib c json) w (size ∷ s0.buffers) s h) (λ w s h. h)

  make_header-With :
      (c : AvroCodec) (s : State M W S)
      → Before s0.buffers s
      → s.schema_writer ≡ null
      → Outcome (λ impl. With (impl.header_buffer_size ∷ s0.buffers)) Thrown (make_header lib c s)
  unfolding make_header make_schema_writer
  make_header-With c s h e =
      Outcome-resume (λ w s. Before s0.buffers s × (s.schema_writer ≡ at w)) _ Thrown _
        (make_schema_writer lib s)
        (set_schema_writer-Before (lib.writer_memory schema_buf_size s.world) s0.buffers s h e)
        λ w s (h, e).
          Outcome-resume (λ _. Before s0.buffers) _ Thrown (fill_header lib c)
            (put_schema lib (lib.schema_to_json w) s)
            (put_schema-Before (lib.schema_to_json w) w s0.buffers s h e)
            (λ json s h. fill_header-With c json s h)

  pub guard_header-Open :
      (c : AvroCodec) (s : State M W S)
      → OpenWith s0 s0.buffers s
      → Outcome
          (λ impl. OpenWith s0 (impl.header_buffer_size ∷ s0.buffers))
          (Open s0)
          (guard_header lib c s)
  unfolding guard_header
  guard_header-Open c s (h, e) =
      Outcome-guarded (λ impl. With (impl.header_buffer_size ∷ s0.buffers)) _ Thrown (Open s0)
        clear_header (make_header lib c) (record s { header_writer = null; schema_writer = null })
        (make_header-With c _ (ground arith, refl) refl)
        (λ impl s' (h, _). clear_header-Open s0 s' _ h)
        (λ s' (ns, h). (clear_header-Open s0 s' ns h).0)
