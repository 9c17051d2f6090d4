-- ===== src/Config.antt =====
-- RuntimeConfig and its Override (include/syrius_orbit/RuntimeConfig.hpp), and the choice of the
-- configuration in main (src/main.cpp). Ports are uint16_t and the interval is an int; both are only
-- copied and compared.
pub mod Layers
pub mod FromJson
use syrius_orbit_daemon.Common.{
  ℕ, ◌≡◌, ◌↔◌, Bool, true, false, not, Option, none, some, [], Bytes, text, ◌==◌, nat_eq,
  nat_eq_iff, is_empty, Eq, text_eq, if◌then◌else◌,
}

instance abbrev pub number_eq : Eq ℕ
number_eq = record { beq = nat_eq; beq_iff = nat_eq_iff }

pub record RuntimeConfig : Type 0 where
  pub config_file_path : Bytes
  pub http_host : Bytes
  pub http_port : ℕ
  pub mqtt_host : Bytes
  pub mqtt_port : ℕ
  pub mqtt_client_id : Bytes
  pub mqtt_username : Bytes
  pub mqtt_password : Bytes
  pub cloud_mqtt_host : Bytes
  pub cloud_mqtt_port : ℕ
  pub cloud_mqtt_client_id : Bytes
  pub cloud_mqtt_username : Bytes
  pub cloud_mqtt_password : Bytes
  pub mqtt_topic_prefix : Bytes
  pub db_path : Bytes
  pub projection_interval_ms : ℕ

-- The default member initializers.
abbrev pub default_config : RuntimeConfig
default_config = record {
  config_file_path = text "syrius_orbit_daemon.json";
  http_host = text "0.0.0.0";
  http_port = 8080;
  mqtt_host = text "127.0.0.1";
  mqtt_port = 1883;
  mqtt_client_id = text "syrius-orbit-daemon";
  mqtt_username = [];
  mqtt_password = [];
  cloud_mqtt_host = text "127.0.0.1";
  cloud_mqtt_port = 1884;
  cloud_mqtt_client_id = text "syrius-orbit-daemon-cloud";
  cloud_mqtt_username = [];
  cloud_mqtt_password = [];
  mqtt_topic_prefix = text "vda5050/v3";
  db_path = text "syrius_orbit.db";
  projection_interval_ms = 1000;
}

-- `if (other.x != default_config.x) result.x = other.x`.
unfoldable pub pick : {A : Type 0} ⦃e : Eq A⦄ → A → A → A → A
pick ⦃e⦄ initial mine other = if not (e.beq other initial) then other else mine

-- Override.
unfoldable pub override : RuntimeConfig → RuntimeConfig → RuntimeConfig
override this other = record {
  config_file_path =
      pick default_config.config_file_path this.config_file_path other.config_file_path;
  http_host = pick default_config.http_host this.http_host other.http_host;
  http_port = pick default_config.http_port this.http_port other.http_port;
  mqtt_host = pick default_config.mqtt_host this.mqtt_host other.mqtt_host;
  mqtt_port = pick default_config.mqtt_port this.mqtt_port other.mqtt_port;
  mqtt_client_id = pick default_config.mqtt_client_id this.mqtt_client_id other.mqtt_client_id;
  mqtt_username = pick default_config.mqtt_username this.mqtt_username other.mqtt_username;
  mqtt_password = pick default_config.mqtt_password this.mqtt_password other.mqtt_password;
  cloud_mqtt_host = pick default_config.cloud_mqtt_host this.cloud_mqtt_host other.cloud_mqtt_host;
  cloud_mqtt_port = pick default_config.cloud_mqtt_port this.cloud_mqtt_port other.cloud_mqtt_port;
  cloud_mqtt_client_id =
      pick default_config.cloud_mqtt_client_id this.cloud_mqtt_client_id other.cloud_mqtt_client_id;
  cloud_mqtt_username =
      pick default_config.cloud_mqtt_username this.cloud_mqtt_username other.cloud_mqtt_username;
  cloud_mqtt_password =
      pick default_config.cloud_mqtt_password this.cloud_mqtt_password other.cloud_mqtt_password;
  mqtt_topic_prefix =
      pick default_config.mqtt_topic_prefix this.mqtt_topic_prefix other.mqtt_topic_prefix;
  db_path = pick default_config.db_path this.db_path other.db_path;
  projection_interval_ms =
      pick default_config.projection_interval_ms this.projection_interval_ms
        other.projection_interval_ms;
}

-- main: `load` is load_json_config_file, which gives nothing where it returns false.
abbrev pub layered : RuntimeConfig → Option RuntimeConfig → RuntimeConfig
layered config_cli none = config_cli
layered config_cli (some config_json) = override config_json config_cli

unfoldable pub choose_config : (Bytes → Option RuntimeConfig) → RuntimeConfig → RuntimeConfig
choose_config load config_cli =
    if not (is_empty config_cli.config_file_path)
    then layered config_cli (load config_cli.config_file_path)
    else config_cli
