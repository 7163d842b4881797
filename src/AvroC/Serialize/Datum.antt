-- ===== src/AvroC/Serialize/Datum.antt =====
-- What is allocated inside the first guard of `serialize`, and what that guard releases.
use csnd.Prelude.{
  ℕ, suc, ◌+◌, ◌≡◌, sym, subst, false, Option, none, some, List, [], ◌∷◌, arith, Result, Text,
  codes,
}
use csnd.Accel.{AccelRecord}
use csnd.Exec.{Exec, resume}
use csnd.Exec.Keeps.{Outcome, Outcome-resume, Outcome-guarded}
use csnd.AvroCpp.{Avro, to_avro}
use csnd.AvroC.{Error, at, Library, State, Impl, clear_datum, decref_datums}
use csnd.AvroC.Serialize.{
  on_datum_writer, with_datum_writer, put_datum, draw, create_datums, set_field, fill_record,
  write_record, write_records, encode_block,
}

module _ {M W S : Type 0} where
  -- Everything allocated between `s` and `s'` has been released, and nothing else, without undefined
  -- behaviour.
  pub record Restores (s s' : State M W S) : Type 0 where
    pub buffers : s'.buffers ≡ s.buffers
    pub writers : s'.writers ≡ s.writers
    pub datums : s'.datums ≡ s.datums
    pub schemas : s'.schemas ≡ s.schemas
    pub codecs : s'.codecs ≡ s.codecs
    pub defined : s'.undefined ≡ false

  -- Inside the first guard, once both local variables are set.
  pub record InDatum (s : State M W S) (size : ℕ) (s' : State M W S) : Type 0 where
    pub buffer : s'.datum_buffer ≡ at size
    pub buffers : s'.buffers ≡ size ∷ s.buffers
    pub writer : (w : W) × (s'.datum_writer ≡ at w)
    pub writers : s'.writers ≡ suc s.writers
    pub datums : s'.datums ≡ s.datums
    pub schemas : s'.schemas ≡ s.schemas
    pub codecs : s'.codecs ≡ s.codecs
    pub defined : s'.undefined ≡ false

  -- Inside the guard of one record.
  record InRecord (s : State M W S) (size : ℕ) (s' : State M W S) : Type 0 where
    pub buffer : s'.datum_buffer ≡ at size
    pub buffers : s'.buffers ≡ size ∷ s.buffers
    pub writer : (w : W) × (s'.datum_writer ≡ at w)
    pub writers : s'.writers ≡ suc s.writers
    pub datums : s'.datums ≡ s.datums + (7 + s'.held)
    pub schemas : s'.schemas ≡ s.schemas
    pub codecs : s'.codecs ≡ s.codecs
    pub defined : s'.undefined ≡ false

  pub clear_datum-InDatum :
      (s s' : State M W S) (size : ℕ) → InDatum s size s' → Restores s (clear_datum s')
  unfolding clear_datum
  clear_datum-InDatum s s' size h = ground arith

  decref_datums-InRecord :
      (s s' : State M W S) (size : ℕ) → InRecord s size s' → InDatum s size (decref_datums s')
  unfolding decref_datums
  decref_datums-InRecord s s' size h = ground arith

module _ {F M W S : Type 0} (avro : Avro F M) (lib : Library F W S) (s0 : State M W S)
    (size : ℕ) where
  set_field-InRecord :
      (name : Text) (s : State M W S)
      → InRecord s0 size s
      → Outcome (λ _. InRecord s0 size) (InRecord s0 size) (set_field avro lib name s)
  unfolding set_field
  set_field-InRecord name s h = ground arith

  -- Abbreviations for the two invariants as outcomes.
  abbrev Filling : Result Error (Unit {0}) × State M W S → Type 0
  Filling = Outcome (λ _. InRecord s0 size) (InRecord s0 size)

  put_datum-InRecord :
      (o : Option W) (what : Text) (s : State M W S)
      → InRecord s0 size s
      → Filling (put_datum avro lib o what s)
  put_datum-InRecord none what s h = h
  put_datum-InRecord (some w) what s h = ground arith

  on_datum_writer-InRecord :
      (call : W → Option W) (what : Text) (s : State M W S)
      → InRecord s0 size s
      → Filling (on_datum_writer avro lib call what s)
  on_datum_writer-InRecord call what s h =
      let (w, e) = h.writer in
      subst (λ p. Filling (with_datum_writer avro lib p call what s)) (sym e)
        (put_datum-InRecord (call w) what s h)

  fill_record-InRecord :
      (a : AccelRecord F) (s : State M W S)
      → InRecord s0 size s
      → Filling (fill_record avro lib a s)
  unfolding fill_record
  fill_record-InRecord a s h = after s h (codes "x") _ λ s h. after s h (codes "y") _ λ s h.
      after s h (codes "z") _ λ s h. after s h (codes "sample_count") _ λ s h.
        after s h (codes "start_time") _ λ s h. after s h (codes "end_time") _ (λ s h.
          on_datum_writer-InRecord (lib.write_data (to_avro a)) (codes "UNABLE TO APPEND AR DATUM")
            s h)
    where
      after :
          (s : State M W S)
          → InRecord s0 size s
          → (name : Text) → (rest : Exec (State M W S) Error (Unit {0}))
          → ((s : State M W S) → InRecord s0 size s → Filling (rest s))
          → Filling (resume (λ _. rest) (set_field avro lib name s))
      after s h name rest next =
          Outcome-resume (λ _. InRecord s0 size) (λ _. InRecord s0 size) (InRecord s0 size)
            (λ _. rest) (set_field avro lib name s) (set_field-InRecord name s h)
            (λ _ s h. next s h)

  create_datums-InDatum :
      (s : State M W S) → InDatum s0 size s → InRecord s0 size (create_datums avro lib s)
  create_datums-InDatum s h = ground arith

  abbrev pub Inside : {A : Type 0} → Result Error A × State M W S → Type 0
  Inside = Outcome (λ _. InDatum s0 size) (InDatum s0 size)

  write_record-InDatum :
      (a : AccelRecord F) (s : State M W S) → InDatum s0 size s → Inside (write_record avro lib a s)
  unfolding write_record
  write_record-InDatum a s h =
      Outcome-guarded (λ _. InRecord s0 size) (λ _. InDatum s0 size) (InRecord s0 size)
        (InDatum s0 size) decref_datums (fill_record avro lib a) (create_datums avro lib s)
        (fill_record-InRecord a (create_datums avro lib s) (create_datums-InDatum s h))
        (λ _ s' h'. decref_datums-InRecord s0 s' size h')
        (λ s' h'. decref_datums-InRecord s0 s' size h')

  pub write_records-InDatum :
      (ars : List (AccelRecord F)) (n : ℕ) (s : State M W S)
      → InDatum s0 size s
      → Inside (write_records avro lib ars n s)
  unfolding write_records
  write_records-InDatum [] n s h = h
  write_records-InDatum (a ∷ ars) n s h =
      Outcome-resume (λ _. InDatum s0 size) (λ _. InDatum s0 size) (InDatum s0 size)
        (λ _. write_records avro lib ars (n + 1)) (write_record avro lib a s)
        (write_record-InDatum a s h) (λ _ s' h'. write_records-InDatum ars (n + 1) s' h')

  pub draw-InDatum : (s : State M W S) → InDatum s0 size s → Inside (draw avro lib s)
  unfolding draw
  draw-InDatum s h = ground arith

  pub encode_block-InDatum :
      (impl : Impl) (s : State M W S) → InDatum s0 size s → Inside (encode_block avro lib impl s)
  unfolding encode_block
  encode_block-InDatum impl s h = ground arith
