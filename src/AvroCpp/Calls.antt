-- ===== src/AvroCpp/Calls.antt =====
-- A serializer over a sequence of calls: each file can be read, and where its sync marker comes from.
use csnd.Prelude.{
  ◌^◌, ◌<◌, All, ℕ, zero, suc, ◌+◌, ◌*◌, ◌≡◌, refl, sym, subst, ap, ap₂, ◌∙◌, Option, none, some,
  List, [], ◌∷◌, length, map, ok, arith,
}
use csnd.Accel.{AccelRecord}
use csnd.AvroCpp.{
  Avro, AvroRecord, to_avro, AvroCodec, null_codec, deflate_codec, avro_codec_key, magic,
  set_metadata, Impl, init, draw_sync, encode_records, compress, serialize,
}
use csnd.AvroCpp.Roundtrip.{
  IsSorted, IsSmall, IsInverse, Container, contents_of, find_key, expand, read_file,
  read_file-assembled,
}

module _ {F M : Type 0} (avro : Avro F M) where
  -- The serializer when these calls have been made, and how many of them gave a file.
  abbrev pub after : Impl M → List (Option (List (AccelRecord F))) → Impl M
  after s [] = s
  after s (call ∷ calls) = after (serialize avro s call).1 calls

  abbrev pub files : List (Option (List (AccelRecord F))) → ℕ
  files [] = 0
  files (none ∷ calls) = files calls
  files (some [] ∷ calls) = files calls
  files (some (a ∷ ars) ∷ calls) = suc (files calls)

  -- The generator when it has drawn `n` numbers.
  abbrev pub drawn : ℕ → M → M
  drawn zero mt = mt
  drawn (suc n) mt = drawn n (avro.mt_draw mt).1

  drawn-add : (m n : ℕ) (mt : M) → drawn n (drawn m mt) ≡ drawn (m + n) mt
  drawn-add zero n mt = ap (λ k. drawn k mt) {x = n} {y = 0 + n} (omega arith)
  drawn-add (suc m) n mt =
      drawn-add m n (avro.mt_draw mt).1
      ∙ (let count : suc (m + n) ≡ suc m + n = omega arith in ap (λ k. drawn k mt) count)

  draw_sync-drawn : (n : ℕ) (mt : M) → (draw_sync avro n mt).1 ≡ drawn n mt
  unfolding draw_sync
  draw_sync-drawn zero mt = refl
  draw_sync-drawn (suc n) mt = draw_sync-drawn n (avro.mt_draw mt).1

  pub length-draw_sync : (n : ℕ) (mt : M) → length (draw_sync avro n mt).0 ≡ n
  unfolding draw_sync
  length-draw_sync zero mt = refl
  length-draw_sync (suc n) mt = ap suc (length-draw_sync n (avro.mt_draw mt).1)

  -- The state of a serializer that was made for the codec `c` and has drawn `n` numbers.
  pub IsMade : AvroCodec → ℕ → Impl M → Type 0
  IsMade c n s =
      (s.codec ≡ c)
      × (s.metadata ≡ (init avro c 0).metadata)
      × (length s.sync ≡ 16)
      × (s.mt ≡ drawn n avro.mt_default)

  pub init-IsMade : (c : AvroCodec) (seed : ℕ) → IsMade c 0 (init avro c seed)
  unfolding init IsMade
  init-IsMade c seed = (refl, refl, refl, refl)

  pub serialize-IsMade :
      (c : AvroCodec) (n : ℕ) (s : Impl M) (a : AccelRecord F) (ars : List (AccelRecord F))
      → IsMade c n s
      → IsMade c (n + 16) (serialize avro s (some (a ∷ ars))).1
  unfolding serialize IsMade
  serialize-IsMade c n s a ars (codec, metadata, size, place) = (
    codec,
    metadata,
    length-draw_sync (length s.sync) s.mt ∙ size,
    ap (λ k. (draw_sync avro k s.mt).1) size
        ∙ draw_sync-drawn 16 s.mt
        ∙ ap (drawn 16) place
        ∙ drawn-add n 16 avro.mt_default,
  )

  after-IsMade :
      (c : AvroCodec) (n : ℕ) (s : Impl M) (calls : List (Option (List (AccelRecord F))))
      → IsMade c n s
      → IsMade c (n + 16 * files calls) (after s calls)
  unfolding serialize
  after-IsMade c n s [] made = subst (λ k. IsMade c k s) (omega arith) made
  after-IsMade c n s (none ∷ calls) made = after-IsMade c n s calls made
  after-IsMade c n s (some [] ∷ calls) made = after-IsMade c n s calls made
  after-IsMade c n s (some (a ∷ ars) ∷ calls) made =
      let s' = (serialize avro s (some (a ∷ ars))).1 in
      subst (λ k. IsMade c k (after s' calls)) (omega arith)
        (after-IsMade c (n + 16) s' calls (serialize-IsMade c n s a ars made))

  -- The file of a call, as a reader takes it apart.
  abbrev pub file_of : AvroCodec → ℕ → List (AccelRecord F) → Container F
  file_of c n ars = contents_of avro c (draw_sync avro 16 (drawn n avro.mt_default)).0 ars

  -- The numbers of the records, how many there are and the size of their block fit their types.
  abbrev pub Fits : AvroCodec → List (AccelRecord F) → Type 0
  Fits c ars =
      All (λ a. IsSmall (to_avro a)) ars
      × (length ars < 2 ^ 63)
      × (length (compress avro c (encode_records avro ars)) < 2 ^ 63)

module _ {F M : Type 0} (avro : Avro F M) (laws : IsInverse avro) where
  expand-compress :
      (c : AvroCodec) (d : List ℕ)
      → expand avro (find_key avro_codec_key (init avro c 0).metadata) (compress avro c d) ≡ ok d
  unfolding init compress set_metadata
  expand-compress null_codec d = refl
  expand-compress deflate_codec d = laws.deflate_law d

  pub serialize-made :
      (c : AvroCodec) (n : ℕ) (s : Impl M) (a : AccelRecord F) (ars : List (AccelRecord F))
      (blank : AvroRecord F)
      → Fits avro c (a ∷ ars)
      → IsMade avro c n s
      → (data_file : List ℕ) × ((serialize avro s (some (a ∷ ars))).0 ≡ ok data_file)
        × (read_file avro blank data_file ≡ ok (file_of avro c n (a ∷ ars)))
  unfolding serialize IsMade init set_metadata
  serialize-made c n s a ars blank (small, count, room) (codec, metadata, size, place) =
      let block = compress avro s.codec (encode_records avro (a ∷ ars)) in
      let sync = (draw_sync avro (length s.sync) s.mt).0 in
      let same : sync ≡ (draw_sync avro 16 (drawn avro n avro.mt_default)).0 =
        ap₂ (λ k mt. (draw_sync avro k mt).0) size place in
      (
        _,
        refl,
        read_file-assembled avro laws blank s.metadata sync block (a ∷ ars)
              (subst IsSorted (sym metadata) (refl, tt))
              (length-draw_sync avro (length s.sync) s.mt ∙ size) small count
              (subst (λ k. length (compress avro k (encode_records avro (a ∷ ars))) < 2 ^ 63)
                (sym codec) room)
              (ap₂
                  (λ m k.
                    expand avro (find_key avro_codec_key m)
                      (compress avro k (encode_records avro (a ∷ ars))))
                  metadata codec
                ∙ expand-compress c (encode_records avro (a ∷ ars)))
            ∙ ap₂
                (λ m marker. ok (record {
                  start = magic;
                  metadata = m;
                  sync = marker;
                  records = map to_avro (a ∷ ars);
                  left_in_block = [];
                  end_sync = marker;
                  left = [];
                }))
                metadata same,
      )

  -- Whatever calls a serializer has served, with either codec, the next call on some records, whose
  -- numbers fit their types, gives a file that a reader takes apart again, with nothing left over:
  -- it has the magic number, the schema and the name of the codec, the records in order with their
  -- times in milliseconds, and the same sync marker in both places. The marker is the next 16
  -- numbers of the generator as it is constructed without a seed, so the seed that the constructor
  -- draws has no influence on any file.
  pub serialize-read_file :
      (c : AvroCodec) (seed : ℕ) (calls : List (Option (List (AccelRecord F)))) (a : AccelRecord F)
      (ars : List (AccelRecord F)) (blank : AvroRecord F)
      → Fits avro c (a ∷ ars)
      → (data_file : List ℕ) × ((serialize avro
            (after avro (init avro c seed) calls)
            (some (a ∷ ars))).0
          ≡ ok data_file)
        × (read_file avro blank data_file ≡ ok (file_of avro c (16 * files avro calls) (a ∷ ars)))
  serialize-read_file c seed calls a ars blank fits =
      serialize-made c (16 * files avro calls) (after avro (init avro c seed) calls) a ars blank
        fits
        (subst (λ k. IsMade avro c k (after avro (init avro c seed) calls)) (omega arith)
          (after-IsMade avro c 0 (init avro c seed) calls (init-IsMade avro c seed)))
