-- ===== src/AvroC/Serialize/Block.antt =====
-- The last scope of `serialize` returns, and the bytes that it returns.
use csnd.Prelude.{ℕ, ◌≤◌, ◌≡◌, refl, Option, List, [], ◌++◌, length, take, Text}
use csnd.Exec.{Exec, resume}
use csnd.Exec.Keeps.{Outcome-resume, Outcome-guarded}
use csnd.AvroCpp.{Avro}
use csnd.AvroC.{Error, indeterminate, Library, State, Impl, clear_writer}
use csnd.AvroC.Laws.{Writes, IsMemory, Succeeds}
use csnd.AvroC.Serialize.{
  alloc_buffer, make_writer, on_writer, write_file, write_block, buffer_size_for,
}
use csnd.AvroC.Serialize.Awaits.{Returns, Awaits, on_writer-Awaits, bytes_of-Awaits}
use csnd.AvroC.Serialize.Sizes.{file_bytes}

module _ {F M W S : Type 0} (avro : Avro F M) (lib : Library F W S) (mem : IsMemory avro lib)
    (succeeds : Succeeds avro lib) where
  module _ (impl : Impl) (sync : List ℕ) (n : ℕ) (block : List ℕ)
      (fits : length (file_bytes avro lib impl sync n block)
        ≤ buffer_size_for avro lib impl block) where
    abbrev size : ℕ
    size = buffer_size_for avro lib impl block

    abbrev all : List ℕ
    all = file_bytes avro lib impl sync n block

    abbrev File : List ℕ → State M W S → Type 0
    File rest s = Awaits avro lib mem succeeds size all fits rest s.writer

    alloc_buffer-returns :
        (s : State M W S)
        → Returns avro lib mem succeeds (λ _ _. Unit {0}) (alloc_buffer avro lib size s)
    unfolding alloc_buffer
    alloc_buffer-returns s = rw (succeeds.allocates size s.world) tt

    make_writer-File :
        (s : State M W S)
        → Returns avro lib mem succeeds (λ _. File all) (make_writer avro lib size s)
    unfolding make_writer
    make_writer-File s =
        let (w, e, empty, room) = mem.fresh size s.world in rw e ([], (w, refl, empty, room), refl)

    after :
        {A : Type 0} (Q : A → State M W S → Type 0) (x rest : List ℕ) (call : W → Option W)
        (what : Text) (next : Exec (State M W S) Error A) (s : State M W S)
        → Writes avro lib mem.capacity x call
        → File (x ++ rest) s
        → ((s : State M W S) → File rest s → Returns avro lib mem succeeds Q (next s))
        → Returns avro lib mem succeeds Q (resume (λ _. next) (on_writer avro lib call what s))
    after Q x rest call what next s writes h proceed =
        Outcome-resume (λ _. File rest) Q _ (λ _. next) (on_writer avro lib call what s)
          (on_writer-Awaits avro lib mem succeeds size all fits x rest call what s writes h)
          (λ _. proceed)

    pub write_block-bytes :
        (s : State M W S)
        → Returns avro lib mem succeeds (λ b _. b ≡ all) (write_block avro lib impl sync n block s)
    unfolding write_block write_file
    write_block-bytes s =
        let start = record s { writer = indeterminate; buffer = indeterminate } in
        Outcome-guarded (λ b _. b ≡ all) (λ b _. b ≡ all) _ _ clear_writer
          (write_file avro lib impl sync n block) start
          (Outcome-resume (λ _ _. Unit {0}) (λ b _. b ≡ all) _ _ (alloc_buffer avro lib size start)
            (alloc_buffer-returns start)
            λ _ s _.
              Outcome-resume (λ _. File all) (λ b _. b ≡ all) _ _ (make_writer avro lib size s)
                (make_writer-File s)
                λ _ s h.
                  after Q (take impl.header_size impl.header) _ _ _ _ s (mem.write_law _) h λ s h.
                    after Q sync _ _ _ _ s (mem.write_law sync) h λ s h.
                      after Q (avro.encode_long n) _ _ _ _ s (mem.long_law n) h λ s h.
                        after Q (avro.encode_long (length block)) _ _ _ _ s
                          (mem.long_law (length block)) h
                          λ s h. after Q block _ _ _ _ s (mem.write_law block) h λ s h.
                            after Q sync [] _ _ _ s (mem.write_law sync) h (λ s h.
                              bytes_of-Awaits avro lib mem succeeds size all fits s.writer h))
          (λ _ _ h. h) (λ _ h. h)
      where
        Q : List ℕ → State M W S → Type 0
        Q b s = b ≡ all
