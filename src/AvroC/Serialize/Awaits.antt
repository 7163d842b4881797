-- ===== src/AvroC/Serialize/Awaits.antt =====
-- The steps of `serialize` return, and what is still to be written behind each.
use csnd.Prelude.{
  ltb, ℕ, ◌+◌, ◌≤◌, ◌≡◌, refl, sym, subst, ap, ◌∙◌, Bool-cases, inl, inr, Option, some, List, [],
  ◌∷◌, ◌++◌, length, length-append, append-nil, append_assoc, take, take-length, arith, Result,
  Text, codes,
}
use csnd.Accel.{AccelRecord}
use csnd.Exec.{Exec, resume}
use csnd.Exec.Keeps.{Outcome, Outcome-resume, Outcome-guarded, Outcome-weaken}
use csnd.AvroCpp.{Avro, to_avro, compress, encode_record, encode_records}
use csnd.AvroC.{Error, Pointer, at, Library, State, Impl, decref_datums}
use csnd.AvroC.Laws.{Writes, Holds, IsMemory, Succeeds}
use csnd.AvroC.Serialize.{
  on_datum_writer, on_writer, with_writer, with_datum_writer, create_datums, set_field, fill_record,
  write_record, write_records, encode_block, bytes_of,
}

module _ {F M W S : Type 0} (avro : Avro F M) (lib : Library F W S) (mem : IsMemory avro lib)
    (succeeds : Succeeds avro lib) where
  abbrev pub Returns :
      {A : Type 0} → (A → State M W S → Type 0) → Result Error A × State M W S → Type 0
  Returns Q = Outcome Q (λ _. ⊥)

  module _ (size : ℕ) (all : List ℕ) (fits : length all ≤ size) where
    -- Of the bytes `all`, `rest` are still to be written.
    abbrev pub Awaits : List ℕ → Pointer W → Type 0
    Awaits rest p = (d : List ℕ) × Holds avro lib mem.capacity size d p × (d ++ rest ≡ all)

    next_bytes :
        (x rest : List ℕ) (call : W → Option W) (p : Pointer W)
        → Writes avro lib mem.capacity x call
        → Awaits (x ++ rest) p
        → (w w' : W) × (p ≡ at w) × (call w ≡ some w') × Awaits rest (at w')
    next_bytes x rest call p writes (d, (w, e, written, room), split) =
        let total = ap length split in
        let l1 = length-append d (x ++ rest) in
        let l2 = length-append x rest in
        let l3 = ap length written in
        let (w', done, behind, kept) = writes w (omega (arith, total, l1, l2, l3, room, fits)) in
        (
          w,
          w',
          e,
          done,
          (
            d ++ x,
            (w', refl, behind ∙ ap (λ d. d ++ x) written, kept ∙ room),
            append_assoc d x rest ∙ split,
          ),
        )

    on_datum_writer-Awaits :
        (x rest : List ℕ) (call : W → Option W) (what : Text) (s : State M W S)
        → Writes avro lib mem.capacity x call
        → Awaits (x ++ rest) s.datum_writer
        → Returns (λ _ s. Awaits rest s.datum_writer) (on_datum_writer avro lib call what s)
    on_datum_writer-Awaits x rest call what s writes h =
        let (w, w', e, done, h') = next_bytes x rest call s.datum_writer writes h in
        subst
          (λ p.
            Returns (λ _ s. Awaits rest s.datum_writer) (with_datum_writer avro lib p call what s))
          (sym e) (rw done h')

    pub on_writer-Awaits :
        (x rest : List ℕ) (call : W → Option W) (what : Text) (s : State M W S)
        → Writes avro lib mem.capacity x call
        → Awaits (x ++ rest) s.writer
        → Returns (λ _ s. Awaits rest s.writer) (on_writer avro lib call what s)
    on_writer-Awaits x rest call what s writes h =
        let (w, w', e, done, h') = next_bytes x rest call s.writer writes h in
        subst (λ p. Returns (λ _ s. Awaits rest s.writer) (with_writer avro lib p call what s))
          (sym e) (rw done h')

    set_field-Awaits :
        (rest : List ℕ) (name : Text) (s : State M W S)
        → Awaits rest s.datum_writer
        → Returns (λ _ s. Awaits rest s.datum_writer) (set_field avro lib name s)
    unfolding set_field
    set_field-Awaits rest name s h = rw (succeeds.sets_field name s.world) h

    -- What has been written, when nothing is left.
    pub bytes_of-Awaits : (p : Pointer W) → Awaits [] p → bytes_of avro lib p ≡ all
    bytes_of-Awaits p (d, (w, e, written, room), split) =
        ap (bytes_of avro lib) e
        ∙ ap (λ n. take n (lib.written w)) (mem.tell_law w)
        ∙ ap (take (length (lib.written w))) (sym (append-nil (lib.written w)))
        ∙ take-length (lib.written w) []
        ∙ written
        ∙ sym (append-nil d)
        ∙ split

    -- The datum writer awaits these bytes.
    abbrev pub Datum : List ℕ → State M W S → Type 0
    Datum rest s = Awaits rest s.datum_writer

    fill_record-Awaits :
        (a : AccelRecord F) (rest : List ℕ) (s : State M W S)
        → Datum (encode_record avro (to_avro a) ++ rest) s
        → Returns (λ _. Datum rest) (fill_record avro lib a s)
    unfolding fill_record
    fill_record-Awaits a rest s h = after (codes "x") _ s h λ s h. after (codes "y") _ s h λ s h.
        after (codes "z") _ s h λ s h. after (codes "sample_count") _ s h λ s h.
          after (codes "start_time") _ s h λ s h. after (codes "end_time") _ s h (λ s h.
            on_datum_writer-Awaits (encode_record avro (to_avro a)) rest
              (lib.write_data (to_avro a)) (codes "UNABLE TO APPEND AR DATUM") s
              (mem.data_law (to_avro a)) h)
      where
        filled : List ℕ
        filled = encode_record avro (to_avro a) ++ rest

        after :
            (name : Text) (next : Exec (State M W S) Error (Unit {0})) (s : State M W S)
            → Datum filled s
            → ((s : State M W S) → Datum filled s → Returns (λ _. Datum rest) (next s))
            → Returns (λ _. Datum rest) (resume (λ _. next) (set_field avro lib name s))
        after name next s h proceed =
            Outcome-resume (λ _. Datum filled) _ _ (λ _. next) (set_field avro lib name s)
              (set_field-Awaits filled name s h) (λ _. proceed)

    decref_datums-Awaits :
        (rest : List ℕ) (s : State M W S) → Datum rest s → Datum rest (decref_datums s)
    unfolding decref_datums
    decref_datums-Awaits rest s h = elim (Bool-cases (ltb s.datums (7 + s.held))) [
      | inl e ↦ rw e h
      | inr e ↦ rw e h
    ]

    write_record-Awaits :
        (a : AccelRecord F) (rest : List ℕ) (s : State M W S)
        → Datum (encode_record avro (to_avro a) ++ rest) s
        → Returns (λ _. Datum rest) (write_record avro lib a s)
    unfolding write_record
    write_record-Awaits a rest s h =
        Outcome-guarded (λ _. Datum rest) (λ _. Datum rest) _ _ decref_datums
          (fill_record avro lib a) (create_datums avro lib s)
          (fill_record-Awaits a rest (create_datums avro lib s) h)
          (λ _ s h. decref_datums-Awaits rest s h) (λ _ h. h)

    pub write_records-Awaits :
        (ars : List (AccelRecord F)) (n : ℕ) (s : State M W S)
        → Datum (encode_records avro ars) s
        → Returns (λ m s. (m ≡ n + length ars) × Datum [] s) (write_records avro lib ars n s)
    unfolding write_records encode_records
    write_records-Awaits [] n s h = (omega arith, h)
    write_records-Awaits (a ∷ ars) n s h =
        Outcome-resume (λ _. Datum (encode_records avro ars)) _ _ _ (write_record avro lib a s)
          (write_record-Awaits a (encode_records avro ars) s h)
          λ _ s h.
            Outcome-weaken (λ m s. (m ≡ n + 1 + length ars) × Datum [] s) _ _ _
              (write_records avro lib ars (n + 1) s) (λ m s (e, h). (omega (arith, e), h))
              (λ _ h. h) (write_records-Awaits ars (n + 1) s h)

  pub encode_block-compress :
      (d : List ℕ) (impl : Impl) (s : State M W S)
      → bytes_of avro lib s.datum_writer ≡ d
      → Returns (λ block _. block ≡ compress avro impl.codec d) (encode_block avro lib impl s)
  unfolding encode_block
  encode_block-compress d impl s e =
      rw (encode_block, succeeds.encodes impl.codec (bytes_of avro lib s.datum_writer) s.world)
        (ap (compress avro impl.codec) e)
