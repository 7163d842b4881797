-- ===== src/Config.antt =====
-- src/config.hpp and config.cpp: the class `config`. The YAML library is a parameter: `N` is its type
-- of nodes, and `Yaml` what the code asks of it.
pub mod Names
pub mod DeviceId
pub mod Keys
mod Tests
use csnd.Prelude.{
  ℕ, suc, ◌+◌, ◌-◌, ◌^◌, Bool, true, false, Option, none, some, List, [], ◌∷◌, ◌++◌, length, get_or,
  Text, codes, text_eq, leb, ◌==◌, if◌then◌else◌, Result, ok, err, ◌>>=◌, ◌&&◌,
}
use csnd.Prelude.Int.{ℤ, pos, negsuc}
use csnd.Util.{split}

pub record Yaml (N : Type 0) : Type 0 where
  -- `node[key]`; `none` where that throws, as on a scalar.
  pub child : N → Text → Option N
  -- A node as a condition, and `node == nullptr`.
  pub is_defined : N → Bool
  pub is_nullptr : N → Bool
  -- The conversions; `none` where they throw.
  pub as_bool : N → Option Bool
  pub as_string : N → Option Text
  pub as_int : N → Option ℤ

pub data Error : Type 0 where
  yaml_exception : Error
  undefined_config : Text → Error
  invalid_logging_level : Text → Error
  invalid_logger : Text → Error

-- `spdlog::level::level_enum` and `csn::logger`.
pub data Level : Type 0 where
  trace debug info warn error critical off : Level

pub data Logger : Type 0 where
  console_logger file_logger : Logger

pub record Config : Type 0 where
  pub offline_mode : Bool
  pub pid_file : Text
  pub out_dir : Text
  pub logging_level : Level
  pub logging_logger : Logger
  pub logging_file_settings_filename : Text
  pub logging_file_settings_max_file_size : ℕ
  pub logging_file_settings_max_files : ℕ
  pub sensor_device_file : Text
  pub iothub_conn_string : Text
  pub device_id : Text
  pub iothub_bucket_size : ℤ

-- The conversion of an `int` to `size_t`.
pub to_size : ℤ → ℕ
to_size (pos n) = n
to_size (negsuc n) = 2 ^ 64 - suc n

-- The chain of comparisons for `logging.level`.
pub parse_level : Text → Result Error Level
parse_level lv =
    if text_eq lv (codes "trace")
    then ok trace
    else if text_eq lv (codes "debug")
    then ok debug
    else if text_eq lv (codes "info")
    then ok info
    else if text_eq lv (codes "warning")
    then ok warn
    else if text_eq lv (codes "error")
    then ok error
    else if text_eq lv (codes "critical")
    then ok critical
    else if text_eq lv (codes "off")
    then ok off
    else err (invalid_logging_level lv)

pub parse_logger : Text → Result Error Logger
parse_logger lgr =
    if text_eq lgr (codes "console")
    then ok console_logger
    else if text_eq lgr (codes "file")
    then ok file_logger
    else err (invalid_logger lgr)

-- The device id out of the connection string: the value of its second token. The default stays where
-- there is none.
pub parse_device_id : Text → Text → Text
parse_device_id conn_string default_id =
    let token = split conn_string b';' in
    let kv = split (get_or token 1 []) b'=' in
    if leb 2 (length token) && leb 2 (length kv) then get_or kv 1 [] else default_id

module _ {N : Type 0} (yaml : Yaml N) where
  -- `node[key]`
  pub subscript : N → Text → Result Error N
  subscript node key = elim (yaml.child node key) [ none ↦ err yaml_exception | some n ↦ ok n ]

  pub convert {ℓ} : {A : Type ℓ} → (N → Option A) → N → Result Error A
  convert as_type node = elim (as_type node) [ none ↦ err yaml_exception | some a ↦ ok a ]

  -- `if (node[key]) { x = node[key].as<A>(); } else { throw ... 'name' }`
  pub field {ℓ} : {A : Type ℓ} → (N → Option A) → N → Text → Text → Result Error A
  unfolding subscript convert
  field as_type node key name = do
    n ← subscript node key
    if yaml.is_defined n then convert as_type n else err (undefined_config name)

  -- `if (node[key] == nullptr) { throw ... 'name' }`, and the node for what follows.
  pub section : N → Text → Text → Result Error N
  unfolding subscript
  section node key name = do
    n ← subscript node key
    if yaml.is_nullptr n then err (undefined_config name) else ok n

  -- The constructor, from the node that `YAML::LoadFile` returned.
  pub config : N → Result Error Config
  config node = do
    offline_mode ← field yaml.as_bool node (codes "offline_mode") (codes "offline_mode")
    pid_file ← field yaml.as_string node (codes "pid_file") (codes "pid_file")
    out_dir ← field yaml.as_string node (codes "out_dir") (codes "out_dir")
    logging ← section node (codes "logging") (codes "logging")
    lv ← field yaml.as_string logging (codes "level") (codes "logging.level")
    logging_level ← parse_level lv
    lgr ← field yaml.as_string logging (codes "logger") (codes "logging.logger")
    logging_logger ← parse_logger lgr
    file_settings ← section logging (codes "file_settings") (codes "logging.file_settings")
    filename ←
        field yaml.as_string file_settings (codes "filename")
          (codes "logging.file_settings.filename")
    max_file_size ←
        field yaml.as_int file_settings (codes "max_file_size")
          (codes "logging.file_settings.max_file_size")
    max_files ←
        field yaml.as_int file_settings (codes "max_files")
          (codes "logging.file_settings.max_files")
    sensor ← section node (codes "sensor") (codes "sensor")
    device_file ← field yaml.as_string sensor (codes "device_file") (codes "sensor.device_file")
    iothub ← section node (codes "iothub") (codes "iothub")
    conn_string ←
        field yaml.as_string iothub (codes "connection_string") (codes "iothub.connection_string")
    bucket_size ← field yaml.as_int iothub (codes "bucket_size") (codes "iothub.bucket_size")
    ok (record {
      offline_mode = offline_mode;
      pid_file = pid_file;
      out_dir = out_dir;
      logging_level = logging_level;
      logging_logger = logging_logger;
      logging_file_settings_filename = filename;
      logging_file_settings_max_file_size = to_size max_file_size;
      logging_file_settings_max_files = to_size max_files;
      sensor_device_file = device_file;
      iothub_conn_string = conn_string;
      device_id = parse_device_id conn_string (codes "SET_DEVICE_NAME");
      iothub_bucket_size = bucket_size;
    })
