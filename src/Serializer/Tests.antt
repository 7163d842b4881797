-- ===== src/Serializer/Tests.antt =====
-- Both serializers on concrete libraries.
use csnd.Prelude.{ℕ, refl, length}
use csnd.AvroCpp.{deflate_codec, ar_schema}
use csnd.AvroCpp.Plain.{plain, plain-IsInverse}
use csnd.AvroC.{Impl}
use csnd.AvroC.Memory.{memory, memory-IsMemory, memory-Succeeds, plain-IsSpecified}
use csnd.AvroC.Construct.Header.{header_of}
use csnd.AvroC.Construct.Total.{Made}
use csnd.AvroC.Serialize.Sizes
use csnd.Serializer.{IsSerializer}
use csnd.Serializer.Both.{avroc, IsDefined, avroc-IsSerializer}

abbrev impl : Impl
impl = record {
  codec = deflate_codec;
  header = header_of plain deflate_codec ar_schema;
  header_size = length (header_of plain deflate_codec ar_schema);
  header_buffer_size = 600;
}

impl-Made : Made plain memory memory-IsMemory memory-Succeeds plain-IsSpecified deflate_codec impl
impl-Made = record { codec = refl; header = refl; header_size = refl }

avroc-IsSerializer_example :
    IsSerializer {M = ℕ} plain deflate_codec
      (avroc {M = ℕ} plain memory impl)
      IsDefined
      (Sizes.Fits plain memory deflate_codec)
avroc-IsSerializer_example =
    avroc-IsSerializer plain memory memory-IsMemory memory-Succeeds plain-IsSpecified
      plain-IsInverse deflate_codec impl impl-Made
