-- ===== src/Config/Keys.antt =====
-- What a configuration file has to hold, and that the constructor reads exactly that.
use csnd.Prelude.{
  arith, ◌≡◌, refl, sym, subst, true, false, Option, some, Text, codes, ◌>>=◌, >>=-returns, Result,
  ok, ok-inj,
}
use csnd.Prelude.Int.{ℤ}
use mathlib.Core.Logic.{◌↔◌}
use csnd.Config.{
  Yaml, Config, Error, to_size, parse_device_id, parse_level, parse_logger, convert, subscript,
  field, section, config,
}
use csnd.Config.Names.{level_name, logger_name, parse_level_iff, parse_logger_iff}

module _ {N : Type 0} (yaml : Yaml N) where
  -- The node has the key, and its value converts to `v`.
  abbrev pub Gives {ℓ} : {A : Type ℓ} → (N → Option A) → N → Text → A → Type ℓ
  Gives as_type node key v =
      (m : N) × (yaml.child node key ≡ some m) × (yaml.is_defined m ≡ true) × (as_type m ≡ some v)

  -- The node has the key, with the section `m` under it.
  abbrev pub Enters : N → Text → N → Type 0
  Enters node key m = (yaml.child node key ≡ some m) × (yaml.is_nullptr m ≡ false)

  field-ok {ℓ} :
      {A : Type ℓ} (as_type : N → Option A) (node : N) (key name : Text) (v : A)
      → field yaml as_type node key name ≡ ok v
      → Gives as_type node key v
  unfolding field subscript convert
  field-ok as_type node key name v h = ground arith

  Gives-field {ℓ} :
      {A : Type ℓ} (as_type : N → Option A) (node : N) (key name : Text) (v : A)
      → Gives as_type node key v
      → field yaml as_type node key name ≡ ok v
  unfolding field subscript convert
  Gives-field as_type node key name v (m, found, defined, value) = ground arith

  section-ok :
      (node : N) (key name : Text) (m : N) → section yaml node key name ≡ ok m → Enters node key m
  unfolding section subscript
  section-ok node key name m h = ground arith

  Enters-section :
      (node : N) (key name : Text) (m : N) → Enters node key m → section yaml node key name ≡ ok m
  unfolding section subscript
  Enters-section node key name m (found, there) = ground arith

  -- The first statement of a `do` block that came to its end, with what it gave.
  through_field {ℓ κ ι} :
      {A : Type ℓ} {B : Type κ} {R : Type ι} (as_type : N → Option A) (node : N) (key name : Text)
      (f : A → Result Error B) {b : B}
      → (field yaml as_type node key name >>= f) ≡ ok b
      → ((a : A) → Gives as_type node key a → f a ≡ ok b → R)
      → R
  through_field as_type node key name f h k =
      let (a, e, rest) = >>=-returns (field yaml as_type node key name) f h in
      k a (field-ok as_type node key name a e) rest

  through_section {κ ι} :
      {B : Type κ} {R : Type ι} (node : N) (key name : Text) (f : N → Result Error B) {b : B}
      → (section yaml node key name >>= f) ≡ ok b
      → ((m : N) → Enters node key m → f m ≡ ok b → R)
      → R
  through_section node key name f h k =
      let (m, e, rest) = >>=-returns (section yaml node key name) f h in
      k m (section-ok node key name m e) rest

  through_names {ℓ κ ι} :
      {A : Type ℓ} {B : Type κ} {R : Type ι} (parse : Text → Result Error A) (name_of : A → Text)
      → ((t : Text) (a : A) → (parse t ≡ ok a) ↔ (t ≡ name_of a))
      → (node : N) (key name : Text) (f : A → Result Error B) {b : B}
      → (field yaml yaml.as_string node key name >>= λ t. parse t >>= f) ≡ ok b
      → ((a : A) → Gives yaml.as_string node key (name_of a) → f a ≡ ok b → R)
      → R
  through_names parse name_of named node key name f h k =
      through_field yaml.as_string node key name (λ t. parse t >>= f) h
        (λ t gives h.
          let (a, e, rest) = >>=-returns (parse t) f h in
          k a (subst (Gives yaml.as_string node key) ((named t a).0 e) gives) rest)

  -- The keys of the file, with the values of the configuration `c` under them.
  abbrev pub Describes : N → Config → Type 0
  Describes node c =
      (logging file_settings sensor iothub : N) × (size files : ℤ) × Gives yaml.as_bool node
        (codes "offline_mode") c.offline_mode
      × Gives yaml.as_string node (codes "pid_file") c.pid_file
      × Gives yaml.as_string node (codes "out_dir") c.out_dir
      × Enters node (codes "logging") logging
      × Gives yaml.as_string logging (codes "level") (level_name c.logging_level)
      × Gives yaml.as_string logging (codes "logger") (logger_name c.logging_logger)
      × Enters logging (codes "file_settings") file_settings
      × Gives yaml.as_string file_settings (codes "filename") c.logging_file_settings_filename
      × Gives yaml.as_int file_settings (codes "max_file_size") size
      × Gives yaml.as_int file_settings (codes "max_files") files
      × Enters node (codes "sensor") sensor
      × Gives yaml.as_string sensor (codes "device_file") c.sensor_device_file
      × Enters node (codes "iothub") iothub
      × Gives yaml.as_string iothub (codes "connection_string") c.iothub_conn_string
      × Gives yaml.as_int iothub (codes "bucket_size") c.iothub_bucket_size
      × (c.logging_file_settings_max_file_size ≡ to_size size)
      × (c.logging_file_settings_max_files ≡ to_size files)
      × (c.device_id ≡ parse_device_id c.iothub_conn_string (codes "SET_DEVICE_NAME"))

  config-ok : (node : N) (c : Config) → config yaml node ≡ ok c → Describes node c
  unfolding config
  config-ok node c h =
      through_field yaml.as_bool node (codes "offline_mode") (codes "offline_mode") _ h
        (λ offline_mode_v g1 h.
          through_field yaml.as_string node (codes "pid_file") (codes "pid_file") _ h
            (λ pid_file_v g2 h.
              through_field yaml.as_string node (codes "out_dir") (codes "out_dir") _ h
                (λ out_dir_v g3 h.
                  through_section node (codes "logging") (codes "logging") _ h (λ logging g4 h.
                    through_names parse_level level_name parse_level_iff logging (codes "level")
                      (codes "logging.level") _ h
                      (λ level_v g5 h.
                        through_names parse_logger logger_name parse_logger_iff logging
                          (codes "logger") (codes "logging.logger") _ h
                          (λ logger_v g6 h.
                            through_section logging (codes "file_settings")
                              (codes "logging.file_settings") _ h
                              (λ file_settings g7 h.
                                through_field yaml.as_string file_settings (codes "filename")
                                  (codes "logging.file_settings.filename") _ h
                                  (λ filename_v g8 h.
                                    through_field yaml.as_int file_settings (codes "max_file_size")
                                      (codes "logging.file_settings.max_file_size") _ h
                                      (λ max_file_size_v g9 h.
                                        through_field yaml.as_int file_settings (codes "max_files")
                                          (codes "logging.file_settings.max_files") _ h
                                          (λ max_files_v g10 h.
                                            through_section node (codes "sensor") (codes "sensor") _
                                              h
                                              (λ sensor g11 h.
                                                through_field yaml.as_string sensor
                                                  (codes "device_file") (codes "sensor.device_file")
                                                  _ h
                                                  (λ device_file_v g12 h.
                                                    through_section node (codes "iothub")
                                                      (codes "iothub") _ h
                                                      (λ iothub g13 h.
                                                        through_field yaml.as_string iothub
                                                          (codes "connection_string")
                                                          (codes "iothub.connection_string") _ h
                                                          (λ connection_string_v g14 h.
                                                            through_field yaml.as_int iothub
                                                            (codes "bucket_size")
                                                            (codes "iothub.bucket_size") _ h
                                                            (λ bucket_size_v g15 h.
                                                            subst (Describes node) (ok-inj h) (
                                                            logging, file_settings, sensor, iothub,
                                                            max_file_size_v, max_files_v, g1, g2,
                                                            g3, g4, g5, g6, g7, g8, g9, g10, g11,
                                                            g12, g13, g14, g15, refl, refl, refl,
                                                            ))))))))))))))))

  Describes-config : (node : N) (c : Config) → Describes node c → config yaml node ≡ ok c
  unfolding config
  Describes-config node c
        (
          logging, file_settings, sensor, iothub, size, files, g1, g2, g3, g4, g5, g6, g7, g8, g9,
          g10, g11, g12, g13, g14, g15, e1, e2, e3,
        ) =
      rw
        (
          Gives-field yaml.as_bool node (codes "offline_mode") (codes "offline_mode") c.offline_mode
              g1,
          Gives-field yaml.as_string node (codes "pid_file") (codes "pid_file") c.pid_file g2,
          Gives-field yaml.as_string node (codes "out_dir") (codes "out_dir") c.out_dir g3,
          Enters-section node (codes "logging") (codes "logging") logging g4,
          Gives-field yaml.as_string logging (codes "level") (codes "logging.level")
              (level_name c.logging_level) g5,
          (parse_level_iff (level_name c.logging_level) c.logging_level).1 refl,
          Gives-field yaml.as_string logging (codes "logger") (codes "logging.logger")
              (logger_name c.logging_logger) g6,
          (parse_logger_iff (logger_name c.logging_logger) c.logging_logger).1 refl,
          Enters-section logging (codes "file_settings") (codes "logging.file_settings")
              file_settings g7,
          Gives-field yaml.as_string file_settings (codes "filename")
              (codes "logging.file_settings.filename") c.logging_file_settings_filename g8,
          Gives-field yaml.as_int file_settings (codes "max_file_size")
              (codes "logging.file_settings.max_file_size") size g9,
          Gives-field yaml.as_int file_settings (codes "max_files")
              (codes "logging.file_settings.max_files") files g10,
          Enters-section node (codes "sensor") (codes "sensor") sensor g11,
          Gives-field yaml.as_string sensor (codes "device_file") (codes "sensor.device_file")
              c.sensor_device_file g12,
          Enters-section node (codes "iothub") (codes "iothub") iothub g13,
          Gives-field yaml.as_string iothub (codes "connection_string")
              (codes "iothub.connection_string") c.iothub_conn_string g14,
          Gives-field yaml.as_int iothub (codes "bucket_size") (codes "iothub.bucket_size")
              c.iothub_bucket_size g15,
          sym e1,
          sym e2,
          sym e3,
        )
        refl

  -- The constructor returns the configuration `c` exactly when the file describes `c`: every key is
  -- defined and converts to the member of its name, the level and the logger are known names, the
  -- sizes are the conversions of the integers, and the device id is that of the connection string.
  pub config_iff : (node : N) (c : Config) → (config yaml node ≡ ok c) ↔ Describes node c
  config_iff node c = (config-ok node c, Describes-config node c)
