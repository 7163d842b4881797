-- ===== src/AvroCpp/Plain.antt =====
-- Plain encoders and decoders on numbers, with the laws of the Avro library's: a number is one
-- item, a string its length and its bytes, and a map its size, its entries and a 0.
use csnd.Prelude.{
  arith, ℕ, zero, suc, ◌+◌, ◌≡◌, refl, List, [], ◌∷◌, ◌++◌, append_assoc, length, take, drop,
  take-length, drop-length, Result, ok, err, ◌>>=◌,
}
use csnd.Accel.{AccelRecord}
use csnd.AvroCpp.{
  deflate_codec, compress, encode_record, encode_records, Avro, Decoder, Metadata, Error,
  library_error,
}
use csnd.AvroCpp.Roundtrip.{IsInverse}
use csnd.AvroCpp.Calls.{Fits}

abbrev get_number : Decoder ℕ
get_number [] = err library_error
get_number (n ∷ d) = ok (n, d)

abbrev put_bytes : List ℕ → List ℕ
put_bytes v = length v ∷ v

abbrev get_bytes : Decoder (List ℕ)
get_bytes [] = err library_error
get_bytes (n ∷ d) = ok (take n d, drop n d)

abbrev put_entries : Metadata → List ℕ
put_entries [] = 0 ∷ []
put_entries ((k, v) ∷ m) = put_bytes k ++ (put_bytes v ++ put_entries m)

abbrev get_entries : ℕ → Decoder Metadata
get_entries zero [] = err library_error
get_entries zero (n ∷ d) = ok ([], d)
get_entries (suc n) d = get_bytes d >>= λ k.
    get_bytes k.1 >>= λ v. get_entries n v.1 >>= λ m. ok ((k.0, v.0) ∷ m.0, m.1)

abbrev get_map : Decoder Metadata
get_map [] = err library_error
get_map (n ∷ d) = get_entries n d

-- The compressor reverses nothing and shortens nothing: it marks its output. The generator counts in
-- steps of 7.
abbrev expand_marked : List ℕ → Result Error (List ℕ)
expand_marked [] = err library_error
expand_marked (n ∷ d) = ok d

abbrev pub plain : Avro ℕ ℕ
plain = record {
  encode_float = λ n. n ∷ [];
  encode_int = λ n. n ∷ [];
  encode_long = λ n. n ∷ [];
  encode_fixed = λ v. v;
  encode_map = λ m. length m ∷ put_entries m;
  decode_float = get_number;
  decode_int = get_number;
  decode_long = get_number;
  decode_fixed = λ n d. ok (take n d, drop n d);
  decode_map = get_map;
  schema_json = λ t. t;
  deflate = λ d. 0 ∷ d;
  inflate = expand_marked;
  mt_default = 100;
  mt_seeded = λ n. n;
  mt_draw = λ m. (m, m + 7);
}

get_entries-put_entries :
    (m : Metadata) (d : List ℕ) → get_entries (length m) (put_entries m ++ d) ≡ ok (m, d)
get_entries-put_entries [] d = refl
get_entries-put_entries ((k, v) ∷ m) d =
    rw
      (
        append_assoc k (put_bytes v ++ put_entries m) d,
        take-length k ((put_bytes v ++ put_entries m) ++ d),
        drop-length k ((put_bytes v ++ put_entries m) ++ d),
        append_assoc v (put_entries m) d,
        take-length v (put_entries m ++ d),
        drop-length v (put_entries m ++ d),
        get_entries-put_entries m d,
      )
      refl

pub plain-IsInverse : IsInverse plain
plain-IsInverse = record {
  float_law = λ v d. refl;
  int_law = λ v d small. refl;
  long_law = λ v d small. refl;
  fixed_law = λ v d. rw (take-length v d, drop-length v d) refl;
  map_law = λ m d sorted. get_entries-put_entries m d;
  deflate_law = λ d. refl;
}

-- A record that fits.
abbrev pub sample : AccelRecord ℕ
sample = record { x = 1; y = 2; z = 3; sample_count = 8; start_time = 5000000; end_time = 25000000 }

pub sample-Fits : Fits plain deflate_codec (sample ∷ [])
unfolding compress encode_records encode_record
sample-Fits = (((omega arith, omega arith, omega arith), tt), omega arith, omega arith)
