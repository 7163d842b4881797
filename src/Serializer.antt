-- ===== src/Serializer.antt =====
-- serializer/serializer.hpp: the abstract class `serializer`, what it promises, and the two classes
-- that implement it.
pub mod Both
mod Tests
use csnd.Prelude.{ℕ, ◌≡◌, Option, none, some, List, [], ◌∷◌, Result, ok, err}
use csnd.Accel.{AccelRecord}
use csnd.AvroCpp.{Avro, AvroRecord, AvroCodec}
use csnd.AvroCpp.Roundtrip.{contents_of, read_file}

-- `serialize`, on the state `S` of the implementation, which throws an `E`.
pub record Serializer (F S E : Type 0) : Type 0 where
  pub serialize : Option (List (AccelRecord F)) → S → Result E (List ℕ) × S

-- From every state that `IsReady` allows, and on records that `HasRoom` allows, a file comes back
-- from which a reader gets the records; a call without records throws. The state stays ready.
pub record IsSerializer {F M S E : Type 0} (avro : Avro F M) (c : AvroCodec)
    (serializer : Serializer F S E) (IsReady : S → Type 0) (HasRoom : List (AccelRecord F) → Type 0)
    : Type 0 where
  pub writes :
      (s : S) (a : AccelRecord F) (ars : List (AccelRecord F)) (blank : AvroRecord F)
      → IsReady s
      → HasRoom (a ∷ ars)
      → (data_file : List ℕ) × (sync : List ℕ) × ((serializer.serialize (some (a ∷ ars)) s).0
          ≡ ok data_file)
        × (read_file avro blank data_file ≡ ok (contents_of avro c sync (a ∷ ars)))
        × IsReady (serializer.serialize (some (a ∷ ars)) s).1
  pub refuses_null :
      (s : S)
      → IsReady s
      → ((e : E) × ((serializer.serialize none s).0 ≡ err e))
        × IsReady (serializer.serialize none s).1
  pub refuses_empty :
      (s : S)
      → IsReady s
      → ((e : E) × ((serializer.serialize (some []) s).0 ≡ err e))
        × IsReady (serializer.serialize (some []) s).1
