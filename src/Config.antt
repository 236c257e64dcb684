-- ===== src/Config.antt =====
-- internal/config/config.go: the configuration, from its defaults, the file and the environment. What
-- encoding/json makes of the file is given.
pub mod Listen
use raku_sika_hub.Prelude.{
  ℕ, ◌==◌, Bool, true, false, not, ◌||◌, Option, none, some, List, [], ◌∷◌, ◌++◌, String, bytes,
  if◌then◌else◌, ℤ, pos,
}
use raku_sika_hub.Scale.Text.{is_empty, same_bytes}
use raku_sika_hub.Scale.Protocol.{trim_space}
use raku_sika_hub.Strings.{starts_with, contains, to_lower}
use raku_sika_hub.Strings.Atoi.{atoi}

pub record Config : Type 0 where
  pub vid : List ℕ
  pub pid : List ℕ
  pub port : List ℕ
  pub baud_rate : ℤ
  pub data_bits : ℤ
  pub parity : List ℕ
  pub stop_bits : ℤ
  pub printer_name : List ℕ
  pub font_path : List ℕ
  pub assets_dir : List ℕ
  pub listen_addr : List ℕ
  pub log_level : List ℕ
  pub enable_web_socket : Bool
  pub scanner_vid : List ℕ
  pub scanner_pid : List ℕ
  pub scanner_device_name : List ℕ
  pub printer_roll_check : Bool

-- Default.
unfoldable pub default_config : Config
default_config = record {
  vid = bytes "0403";
  pid = bytes "6015";
  port = [];
  baud_rate = pos 2400;
  data_bits = pos 7;
  parity = bytes "even";
  stop_bits = pos 1;
  printer_name = [];
  font_path = [];
  assets_dir = bytes "assets";
  listen_addr = bytes "0.0.0.0:19800";
  log_level = bytes "INFO";
  enable_web_socket = false;
  scanner_vid = [];
  scanner_pid = [];
  scanner_device_name = [];
  printer_roll_check = true;
}

-- os.Getenv: a variable that is not set is empty.
abbrev pub Environment : Type 0
Environment = String → List ℕ

abbrev pub trimmed : Environment → String → List ℕ
trimmed env name = trim_space (env name)

-- A value that is set stands in for the one of the file.
abbrev pub text_or : List ℕ → List ℕ → List ℕ
text_or value old = if is_empty value then old else value

abbrev pub number_or : List ℕ → ℤ → ℤ
number_or value old = elim (atoi value) [ none ↦ old | some n ↦ n ]

-- PORT: a number, :number, or an address; another text, such as the path of a device, is ignored.
unfoldable pub port_or : List ℕ → List ℕ → List ℕ
unfolding atoi
port_or value old = if is_empty value then old else elim (atoi value) [
  | some n ↦ bytes "0.0.0.0:" ++ value
  | none ↦
      if starts_with (bytes ":") value
      then bytes "0.0.0.0" ++ value
      else if contains (bytes ":") value
      then value
      else old
]

abbrev switch_or : List ℕ → Bool → Bool
switch_or value old =
    if is_empty value then old else same_bytes value (bytes "true") || same_bytes value (bytes "1")

abbrev roll_check_or : List ℕ → Bool → Bool
roll_check_or value old =
    if is_empty value
    then old
    else not (
        same_bytes value (bytes "off")
        || same_bytes value (bytes "false")
        || same_bytes value (bytes "0")
        || same_bytes value (bytes "no"))

unfoldable pub apply_env_overrides : Environment → Config → Config
unfolding port_or atoi to_lower
apply_env_overrides env cfg = record {
  vid = text_or (trimmed env "VID") cfg.vid;
  pid = text_or (trimmed env "PID") cfg.pid;
  port = text_or (trimmed env "SCALE_PORT") cfg.port;
  baud_rate = number_or (trimmed env "BAUD_RATE") cfg.baud_rate;
  data_bits = number_or (trimmed env "DATA_BITS") cfg.data_bits;
  parity = text_or (trimmed env "PARITY") cfg.parity;
  stop_bits = number_or (trimmed env "STOP_BITS") cfg.stop_bits;
  printer_name = text_or (trimmed env "PRINTER_NAME") cfg.printer_name;
  font_path = text_or (trimmed env "FONT_PATH") cfg.font_path;
  assets_dir = text_or (trimmed env "ASSETS_DIR") cfg.assets_dir;
  listen_addr = text_or (trimmed env "LISTEN_ADDR") (port_or (trimmed env "PORT") cfg.listen_addr);
  log_level = text_or (trimmed env "LOG_LEVEL") cfg.log_level;
  enable_web_socket = switch_or (trimmed env "ENABLE_WEBSOCKET") cfg.enable_web_socket;
  scanner_vid = text_or (trimmed env "SCANNER_VID") cfg.scanner_vid;
  scanner_pid = text_or (trimmed env "SCANNER_PID") cfg.scanner_pid;
  scanner_device_name = text_or (trimmed env "SCANNER_DEVICE_NAME") cfg.scanner_device_name;
  printer_roll_check =
      roll_check_or (to_lower (trimmed env "PRINTER_ROLL_CHECK")) cfg.printer_roll_check;
}

-- What os.ReadFile and encoding/json make of config.json: a Config over the one given, or not.
pub data ConfigFile : Type 0 where
  missing unreadable malformed : ConfigFile
  decoded : (Config → Config) → ConfigFile

-- Load, and whether it returns an error.
unfoldable pub load : ConfigFile → Environment → Config × Bool
unfolding default_config apply_env_overrides
load missing env = (apply_env_overrides env default_config, false)
load unreadable env = (default_config, true)
load malformed env = (default_config, true)
load (decoded over) env = (apply_env_overrides env (over default_config), false)
