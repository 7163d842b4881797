-- ===== src/AvroC/Serialize/Total.antt =====
-- `serialize` returns, and the bytes that it returns.
use csnd.Prelude.{
  ℕ, ◌+◌, ◌≤◌, ◌≡◌, refl, sym, subst, ap, ◌∙◌, some, List, [], ◌∷◌, length, take, arith, ok,
}
use csnd.Accel.{AccelRecord}
use csnd.Exec.{Exec, ◌>>=◌, ◌>>◌}
use csnd.Exec.Keeps.{Outcome-resume, Outcome-guarded, Outcome-returns}
use csnd.AvroCpp.{Avro, compress, encode_records, draw_sync}
use csnd.AvroCpp.Calls.{length-draw_sync}
use csnd.AvroC.{Error, indeterminate, Library, State, Impl, clear_datum}
use csnd.AvroC.Laws.{IsMemory, Succeeds, IsSpecified}
use csnd.AvroC.Serialize.{
  alloc_datum_buffer, make_datum_writer, draw, write_records, encode_block, write_block,
  require_some, write_datums, serialize, datum_size_for,
}
use csnd.AvroC.Serialize.Awaits.{
  Returns, Datum, bytes_of-Awaits, write_records-Awaits, encode_block-compress,
}
use csnd.AvroC.Serialize.Sizes.{file_bytes, length-file_bytes, length-encode_records, Fits}
use csnd.AvroC.Serialize.Block.{write_block-bytes}

module _ {F M W S : Type 0} (avro : Avro F M) (lib : Library F W S) (mem : IsMemory avro lib)
    (succeeds : Succeeds avro lib) (spec : IsSpecified avro) (impl : Impl)
    (header_fits : length (take impl.header_size impl.header) ≤ impl.header_size)
    (a : AccelRecord F) (ars : List (AccelRecord F))
    (fits : Fits avro lib impl.codec (a ∷ ars)) where
  abbrev records_size : ℕ
  records_size = datum_size_for avro lib (a ∷ ars)

  abbrev bytes : List ℕ
  bytes = encode_records avro (a ∷ ars)

  bytes_fit : length bytes ≤ records_size
  bytes_fit = length-encode_records avro lib spec (a ∷ ars) fits.0

  abbrev Awaiting : List ℕ → State M W S → Type 0
  Awaiting rest s = Datum avro lib mem succeeds records_size bytes bytes_fit rest s

  alloc_datum_buffer-mt :
      (s : State M W S)
      → Returns avro lib mem succeeds
          (λ _ s'. s'.mt ≡ s.mt)
          (alloc_datum_buffer avro lib records_size s)
  unfolding alloc_datum_buffer
  alloc_datum_buffer-mt s = rw (succeeds.allocates records_size s.world) refl

  make_datum_writer-Awaiting :
      (s : State M W S)
      → Returns avro lib mem succeeds
          (λ _ s'. (s'.mt ≡ s.mt) × Awaiting bytes s')
          (make_datum_writer avro lib records_size s)
  unfolding make_datum_writer
  make_datum_writer-Awaiting s =
      let (w, e, empty, room) = mem.fresh records_size s.world in
      rw e (refl, ([], (w, refl, empty, room), refl))

  abbrev sync_of : State M W S → List ℕ
  sync_of s = (draw_sync avro 16 s.mt).0

  draw-Awaiting :
      (s : State M W S)
      → Awaiting bytes s
      → Returns avro lib mem succeeds
          (λ sync s'. (sync ≡ sync_of s) × Awaiting bytes s')
          (draw avro lib s)
  unfolding draw
  draw-Awaiting s h = (refl, h)

  abbrev result : List ℕ → List ℕ
  result sync = file_bytes avro lib impl sync (length (a ∷ ars)) (compress avro impl.codec bytes)

  write_block-result :
      (sync : List ℕ) (n : ℕ) (block : List ℕ) (s : State M W S)
      → length sync ≡ 16
      → n ≡ length (a ∷ ars)
      → block ≡ compress avro impl.codec bytes
      → Returns avro lib mem succeeds
          (λ b _. b ≡ result sync)
          (write_block avro lib impl sync n block s)
  write_block-result sync n block s sync_size count same =
      subst
        (λ n.
          Returns avro lib mem succeeds (λ b _. b ≡ result sync)
            (write_block avro lib impl sync n block s))
        (sym count)
        (subst
          (λ block.
            Returns avro lib mem succeeds (λ b _. b ≡ result sync)
              (write_block avro lib impl sync (length (a ∷ ars)) block s))
          (sym same)
          (write_block-bytes avro lib mem succeeds impl sync (length (a ∷ ars))
            (compress avro impl.codec bytes)
            (length-file_bytes avro lib spec impl sync (length (a ∷ ars)) _ sync_size fits.1 fits.2
              header_fits)
            s))

  -- `write_datums` behind the sync marker.
  abbrev from_records : List ℕ → Exec (State M W S) Error (List ℕ)
  from_records sync = write_records avro lib (a ∷ ars) 0 >>= λ block_count.
      require_some avro lib block_count
      >> (encode_block avro lib impl >>= λ block. write_block avro lib impl sync block_count block)

  require_some-Awaiting :
      (n : ℕ) (s : State M W S)
      → n ≡ length (a ∷ ars)
      → Awaiting [] s
      → Returns avro lib mem succeeds (λ _. Awaiting []) (require_some avro lib n s)
  require_some-Awaiting n s count h = ground arith

  from_records-result :
      (sync : List ℕ) (s : State M W S)
      → length sync ≡ 16
      → Awaiting bytes s
      → Returns avro lib mem succeeds (λ b _. b ≡ result sync) (from_records sync s)
  from_records-result sync s sync_size h =
      Outcome-resume (λ n s. (n ≡ 0 + length (a ∷ ars)) × Awaiting [] s) _ _ _
        (write_records avro lib (a ∷ ars) 0 s)
        (write_records-Awaits avro lib mem succeeds records_size bytes bytes_fit (a ∷ ars) 0 s h)
        λ n s (count, h).
          let count' : n ≡ length (a ∷ ars) = omega (arith, count) in
          Outcome-resume (λ _. Awaiting []) _ _ _ (require_some avro lib n s)
            (require_some-Awaiting n s count' h)
            λ _ s h.
              Outcome-resume (λ block _. block ≡ compress avro impl.codec bytes) _ _ _
                (encode_block avro lib impl s)
                (encode_block-compress avro lib mem succeeds bytes impl s (
                  bytes_of-Awaits avro lib mem succeeds records_size bytes bytes_fit s.datum_writer
                    h))
                (λ block s same. write_block-result sync n block s sync_size count' same)

  write_datums-result :
      (s : State M W S)
      → Returns avro lib mem succeeds
          (λ b _. b ≡ result (sync_of s))
          (write_datums avro lib impl (a ∷ ars) s)
  unfolding write_datums
  write_datums-result s0 =
      Outcome-resume (λ _ s. s.mt ≡ s0.mt) _ _ _ (alloc_datum_buffer avro lib records_size s0)
        (alloc_datum_buffer-mt s0)
        λ _ s m.
          Outcome-resume (λ _ s'. (s'.mt ≡ s.mt) × Awaiting bytes s') _ _ _
            (make_datum_writer avro lib records_size s) (make_datum_writer-Awaiting s)
            λ _ s (m', h).
              Outcome-resume (λ sync s'. (sync ≡ sync_of s) × Awaiting bytes s')
                (λ b _. b ≡ result (sync_of s0)) _ from_records (draw avro lib s)
                (draw-Awaiting s h)
                λ sync s1 (e, h).
                  let place = ap (λ mt. (draw_sync avro 16 mt).0) (m' ∙ m) in
                  subst
                    (λ sync'.
                      Returns avro lib mem succeeds (λ b _. b ≡ result sync')
                        (from_records sync s1))
                    (e ∙ place)
                    (from_records-result sync s1 (ap length e ∙ length-draw_sync avro 16 s.mt) h)

  -- `serialize` returns the bytes of the header, the sync marker, the block and the marker again.
  pub serialize-result :
      (s : State M W S) → (serialize avro lib impl (some (a ∷ ars)) s).0 ≡ ok (result (sync_of s))
  unfolding serialize
  serialize-result s =
      let start = record s { datum_writer = indeterminate; datum_buffer = indeterminate } in
      let (b, returned, e) =
        Outcome-returns (λ b _. b ≡ result (sync_of s)) (serialize avro lib impl (some (a ∷ ars)) s)
          (Outcome-guarded (λ b _. b ≡ result (sync_of s)) (λ b _. b ≡ result (sync_of s)) _ _
            clear_datum (write_datums avro lib impl (a ∷ ars)) start (write_datums-result start)
            (λ _ _ h. h) (λ _ h. h)) in
      returned ∙ ap ok e
