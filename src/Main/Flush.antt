-- ===== src/Main/Flush.antt =====
-- From a full bucket to a file: `recorder->flush` with the serializer and the recorder's files.
use csnd.Prelude.{
  ℕ, ◌*◌, ◌≡◌, refl, Bool, true, false, not, Option, List, [], ◌∷◌, Text, codes, if◌then◌else◌, ok,
}
use csnd.Accel.{AccelRecord}
use csnd.OutputFile.{Os, record_text}
use csnd.OutputFile.Record.{
  IsReady, with_dir, file_name, written, record_bytes-ready, record_text-ready,
}
use csnd.AvroCpp.{Avro, AvroRecord, deflate_codec, init}
use csnd.AvroCpp.Roundtrip.{IsInverse, read_file}
use csnd.AvroCpp.Calls.{Fits, after, files, file_of, serialize-read_file}
use csnd.Serializer.Both.{avrocpp}
use csnd.Iothub.{Hub, IsPrompt, Properties}
use csnd.Main.{flush, callback, Request, record_data, Performed, recorded, answered, perform}

module _ {S : Type 0} (os : Os S) where
  -- What a call of `send` comes to, from whether the payload was delivered: nothing more, or a file.
  abbrev pub fallen_back : Bool × S → Text → Text → Bool → List ℕ → Performed × S
  fallen_back (delivered, s) out_dir suffix binary content =
      let s1 = with_dir os s out_dir in
      (
        answered (ok (not delivered)),
        if delivered
            then s
            else written os (os.now s1).1 (file_name os s1 out_dir suffix) binary content,
      )

  -- The event of a quake goes to a file `<time>_quake.json` in offline mode, and else to the hub
  -- with the property `kind`, by which it is routed; the fallback writes the same file. Here the
  -- output directory is there or can be made.
  pub callback-perform :
      (hub : Hub S) (prompt : IsPrompt hub) (s : S) (out_dir str : Text)
      → IsReady os s out_dir
      → ((prop : Properties) → IsReady os (prompt.deliver s prop str).1 out_dir)
      → let s1 = with_dir os s out_dir in
        let prop : Properties =
          (codes "batch", codes "false") ∷ (codes "kind", codes "quake") ∷ [] in
        (perform os hub s out_dir (callback true str) ≡ (
          recorded true,
          written os (os.now s1).1 (file_name os s1 out_dir (codes "_quake.json")) false str,
        ))
        × (perform os hub s out_dir (callback false str)
            ≡ fallen_back (prompt.deliver s prop str) out_dir (codes "_quake.json") false str)
  unfolding callback perform
  callback-perform hub prompt s out_dir str here there =
      let prop : Properties = (codes "batch", codes "false") ∷ (codes "kind", codes "quake") ∷ [] in
      (
        rw (record_text-ready os s out_dir str (codes "_quake.json") here) refl,
        rw
            (
              prompt.send-settled s prop str
                  (λ s'. (record_text os s' out_dir str (codes "_quake.json")).2),
              record_text-ready os (prompt.deliver s prop str).1 out_dir str (codes "_quake.json")
                  (there prop),
            )
            refl,
      )

module _ {F M S : Type 0} (avro : Avro F M) (laws : IsInverse avro) (os : Os S) (hub : Hub S) where
  -- The numbers of the records fit their types. In offline mode the output directory, which is there
  -- or can be made, gets a file `<time>.avro` for every bucket that is flushed, whatever was flushed
  -- before. If it could be opened, what is written to it is a container file with the records of the
  -- bucket in order.
  pub flush-offline :
      (seed : ℕ) (calls : List (Option (List (AccelRecord F)))) (a : AccelRecord F)
      (ars : List (AccelRecord F)) (blank : AvroRecord F) (s : S) (out_dir : Text)
      → Fits avro deflate_codec (a ∷ ars)
      → IsReady os s out_dir
      → let serializer = after avro (init avro deflate_codec seed) calls in
        let s1 = with_dir os s out_dir in
        (request : Request) × (content : List ℕ) × ((flush
            (avrocpp avro)
            true
            serializer
            (a ∷ ars)).0
          ≡ ok request)
        × (perform os hub s out_dir request ≡ (
          recorded true,
          written os (os.now s1).1 (file_name os s1 out_dir (codes ".avro")) true content,
        ))
        × (read_file avro blank content
            ≡ ok (file_of avro deflate_codec (16 * files avro calls) (a ∷ ars)))
  unfolding flush perform
  flush-offline seed calls a ars blank s out_dir fits ready =
      let (content, made, read) =
        serialize-read_file avro laws deflate_codec seed calls a ars blank fits in
      (
        record_data content (codes ".avro"),
        content,
        rw made refl,
        rw (record_bytes-ready os s out_dir content (codes ".avro") ready) refl,
        read,
      )
