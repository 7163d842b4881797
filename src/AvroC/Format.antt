-- ===== src/AvroC/Format.antt =====
-- serializer/avro_c/avroc.cpp: MAGIC and AR_SCHEMA, its own constants.
use csnd.Prelude.{ℕ, List, [], ◌∷◌, ◌++◌, Text, codes}

-- MAGIC
abbrev pub magic : List ℕ
magic = b'O' ∷ b'b' ∷ b'j' ∷ 1 ∷ []

-- AR_SCHEMA, with the blanks of its continued lines.
abbrev pub ar_schema : Text
ar_schema =
    codes "{\"name\": \"accel_record\",      \"type\": \"record\",      \"fields\": ["
    ++ (codes "       {\"name\": \"x\", \"type\": \"float\"},"
        ++ (codes "       {\"name\": \"y\", \"type\": \"float\"},"
            ++ (codes "       {\"name\": \"z\", \"type\": \"float\"},"
                ++ (codes "       {\"name\": \"sample_count\", \"type\": \"int\"},"
                    ++ (codes
                          "       {\"name\": \"start_time\", \"type\": {\"type\": \"long\", \"logicalType\": \"timestamp-millis\"}},"
                        ++ codes
                            "       {\"name\": \"end_time\",   \"type\": {\"type\": \"long\", \"logicalType\": \"timestamp-millis\"}}]}")))))
