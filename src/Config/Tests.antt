-- ===== src/Config/Tests.antt =====
-- A configuration file as a small tree, read by the constructor, and the theorems applied to it.
use csnd.Prelude.{
  ◌≡◌, refl, Bool, true, false, Option, none, some, Text, codes, text_eq, arith, if◌then◌else◌, ok,
  err,
}
use mathlib.Core.Logic.{◌↔◌}
use csnd.Prelude.Int.{ℤ, pos}
use csnd.Config.{
  Yaml, Config, undefined_config, invalid_logging_level, warn, file_logger, to_size,
  parse_device_id, parse_level, parse_logger, field, section, config,
}
use csnd.Util.{split}
use csnd.Config.DeviceId.{parse_device_id-of_string}
use csnd.Config.Keys.{Describes, config_iff}

-- A key with a value, or the entries of a section. A missing key gives `missing`.
data Node : Type 0 where
  missing : Node
  scalar_text : Text → Node
  scalar_int : ℤ → Node
  scalar_bool : Bool → Node
  entry : Text → Node → Node → Node

abbrev child : Node → Text → Node
child (entry k v rest) key = let behind = child rest key in if text_eq k key then v else behind
child other key = missing

abbrev as_bool : Node → Option Bool
as_bool (scalar_bool b) = some b
as_bool other = none

abbrev as_string : Node → Option Text
as_string (scalar_text t) = some t
as_string other = none

abbrev as_int : Node → Option ℤ
as_int (scalar_int z) = some z
as_int other = none

abbrev is_defined : Node → Bool
is_defined missing = false
is_defined other = true

-- A section that is missing is equal to `nullptr`.
abbrev is_nullptr : Node → Bool
is_nullptr missing = true
is_nullptr other = false

abbrev yaml : Yaml Node
yaml = record {
  child = λ node key. some (child node key);
  is_defined = is_defined;
  is_nullptr = is_nullptr;
  as_bool = as_bool;
  as_string = as_string;
  as_int = as_int;
}

abbrev connection : Text
connection = codes "HostName=h;DeviceId=dev7;SharedAccessKey=k="

abbrev file_settings : Node
file_settings = entry (codes "filename") (scalar_text (codes "csnd.log")) (
    entry (codes "max_file_size") (scalar_int (pos 1000))
      (entry (codes "max_files") (scalar_int (pos 4)) missing))

abbrev logging_of : Text → Node
logging_of level = entry (codes "level") (scalar_text level) (
    entry (codes "logger") (scalar_text (codes "file"))
      (entry (codes "file_settings") file_settings missing))

abbrev iothub : Node
iothub =
    entry (codes "connection_string") (scalar_text connection)
      (entry (codes "bucket_size") (scalar_int (pos 500)) missing)

abbrev file_of : Text → Node
file_of level = entry (codes "offline_mode") (scalar_bool false) (
    entry (codes "pid_file") (scalar_text (codes "csnd.pid")) (
      entry (codes "out_dir") (scalar_text (codes "out")) (
        entry (codes "logging") (logging_of level) (
          entry (codes "sensor")
            (entry (codes "device_file") (scalar_text (codes "/dev/tty")) missing)
            (entry (codes "iothub") iothub missing)))))

abbrev expected : Config
expected = record {
  offline_mode = false;
  pid_file = codes "csnd.pid";
  out_dir = codes "out";
  logging_level = warn;
  logging_logger = file_logger;
  logging_file_settings_filename = codes "csnd.log";
  logging_file_settings_max_file_size = 1000;
  logging_file_settings_max_files = 4;
  sensor_device_file = codes "/dev/tty";
  iothub_conn_string = connection;
  device_id = codes "dev7";
  iothub_bucket_size = pos 500;
}

reads : config yaml (file_of (codes "warning")) ≡ ok expected
unfolding config field section parse_level parse_logger parse_device_id split to_size
reads = refl

no_such_level : config yaml (file_of (codes "warn")) ≡ err (invalid_logging_level (codes "warn"))
unfolding config field section parse_level
no_such_level = refl

no_mode : config yaml iothub ≡ err (undefined_config (codes "offline_mode"))
unfolding config field
no_mode = refl

config_iff_example :
    (config yaml (file_of (codes "warning")) ≡ ok expected)
    ↔ Describes yaml (file_of (codes "warning")) expected
config_iff_example = config_iff yaml (file_of (codes "warning")) expected

parse_device_id-of_string_example :
    parse_device_id (codes "H=h;Id=d7;K=k=") (codes "SET") ≡ codes "d7"
parse_device_id-of_string_example =
    parse_device_id-of_string (codes "H=h") (codes "Id") (codes "d7") (codes "K=k=") (codes "SET")
      (refl, (refl, (refl, tt))) (refl, (refl, (refl, (refl, (refl, tt))))) (refl, (refl, tt))
      (refl, (refl, tt)) (omega arith)
