-- ===== src/Main.antt =====
-- main up to the start of the daemon, and load_json_config_file (src/main.cpp). The argument parser and
-- the JSON library are parameters: `Parser` takes the registered options with their default values and
-- argv, and gives what parser.get returns for each, or nothing where parse_args throws. -v, the usage
-- text and logging are left out. Main.Numbers is what the code uses of the standard library, and
-- Main.Threads the loop that waits for a signal.
pub mod Numbers
pub mod Options
use syrius_orbit_daemon.Common.{
  ℕ, ◌≡◌, Bool, true, false, Option, none, some, List, [], ◌∷◌, Bytes, text, is_empty, ◌>>=◌,
  if◌then◌else◌,
}
use syrius_orbit_daemon.Json.{Json}
use syrius_orbit_daemon.Config.{RuntimeConfig, default_config, choose_config}
use syrius_orbit_daemon.Config.FromJson.{from_json, JsonLibrary}
use syrius_orbit_daemon.Main.Numbers.{to_string, stoi, uint16}

-- What std::ifstream reads of a file; `none` where it does not open.
abbrev pub Files : Type 0
Files = Bytes → Option Bytes

-- load_json_config_file: the configuration where it returns true.
unfoldable pub load_json_config_file : Files → JsonLibrary → Bytes → Option RuntimeConfig
load_json_config_file files json file_path =
    if is_empty file_path
    then none
    else (files file_path >>= λ content. json.parse content >>= from_json json)

-- The calls of add_argument: the options with their default values.
unfoldable pub arguments : RuntimeConfig → List (Bytes × Bytes)
arguments c =
    (text "--config", c.config_file_path)
    ∷ (text "--db-path", c.db_path)
    ∷ (text "--http-host", c.http_host)
    ∷ (text "--http-port", to_string c.http_port)
    ∷ (text "--mqtt-host", c.mqtt_host)
    ∷ (text "--mqtt-port", to_string c.mqtt_port)
    ∷ (text "--mqtt-client-id", c.mqtt_client_id)
    ∷ (text "--mqtt-username", c.mqtt_username)
    ∷ (text "--mqtt-password", c.mqtt_password)
    ∷ (text "--cloud-mqtt-host", c.cloud_mqtt_host)
    ∷ (text "--cloud-mqtt-port", to_string c.cloud_mqtt_port)
    ∷ (text "--cloud-mqtt-client-id", c.cloud_mqtt_client_id)
    ∷ (text "--cloud-mqtt-username", c.cloud_mqtt_username)
    ∷ (text "--cloud-mqtt-password", c.cloud_mqtt_password)
    ∷ (text "--mqtt-topic-prefix", c.mqtt_topic_prefix)
    ∷ []

abbrev pub Parser : Type 0
Parser = List (Bytes × Bytes) → List Bytes → Option (Bytes → Bytes)

-- config_cli behind the assignments from parser.get; `none` where std::stoi throws.
unfoldable pub command_line : (Bytes → Bytes) → Option RuntimeConfig
command_line get = do
  http_port ← stoi (get (text "--http-port"))
  mqtt_port ← stoi (get (text "--mqtt-port"))
  cloud_mqtt_port ← stoi (get (text "--cloud-mqtt-port"))
  some (record default_config {
    config_file_path = get (text "--config");
    db_path = get (text "--db-path");
    http_host = get (text "--http-host");
    http_port = uint16 http_port;
    mqtt_host = get (text "--mqtt-host");
    mqtt_port = uint16 mqtt_port;
    mqtt_client_id = get (text "--mqtt-client-id");
    mqtt_username = get (text "--mqtt-username");
    mqtt_password = get (text "--mqtt-password");
    cloud_mqtt_host = get (text "--cloud-mqtt-host");
    cloud_mqtt_port = uint16 cloud_mqtt_port;
    cloud_mqtt_client_id = get (text "--cloud-mqtt-client-id");
    cloud_mqtt_username = get (text "--cloud-mqtt-username");
    cloud_mqtt_password = get (text "--cloud-mqtt-password");
    mqtt_topic_prefix = get (text "--mqtt-topic-prefix");
  })

-- How main gets to the daemon: EXIT_FAILURE behind the usage text, an exception that nothing catches,
-- or the configuration that the daemon is built with.
pub data Launch : Type 0 where
  exit_failure terminated : Launch
  launched : RuntimeConfig → Launch

module _ (parser : Parser) (files : Files) (json : JsonLibrary) where
  abbrev pub chosen : Option RuntimeConfig → Launch
  chosen none = terminated
  chosen (some config_cli) = launched (choose_config (load_json_config_file files json) config_cli)

  abbrev pub parsed : Option (Bytes → Bytes) → Launch
  parsed none = exit_failure
  parsed (some get) = chosen (command_line get)

  -- main, up to the constructor of Daemon.
  unfoldable pub configure : List Bytes → Launch
  configure argv = parsed (parser (arguments default_config) argv)
