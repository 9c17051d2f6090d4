-- ===== src/Config/FromJson.antt =====
-- from_json of RuntimeConfig, which NLOHMANN_DEFINE_TYPE_NON_INTRUSIVE writes from the list of members in
-- include/syrius_orbit/RuntimeConfig.hpp, by the documented expansion: `j.at(key).get_to(member)` for
-- each of them. `at` throws on a missing key, get_to on a value of another kind; it takes a boolean for a
-- number. What it makes of a JSON number, an integer or a double, is a parameter.
use syrius_orbit_daemon.Common.{
  ℕ, ◌^◌, ◌≡◌, refl, Option, none, some, List, [], ◌∷◌, Bytes, text, ◌>>=◌, if◌then◌else◌, All, ◌≢◌,
}
use syrius_orbit_daemon.Json.{Json, boolean, number, string}
use syrius_orbit_daemon.Schema.FactSheet.ArrayLengths.{value_at}
use syrius_orbit_daemon.Config.{RuntimeConfig}

-- get_to(std::string&).
unfoldable pub get_text : Json → Option Bytes
get_text (string s) = some s
get_text j = none

-- What the program uses of nlohmann/json here: parse, which throws on a text that is no JSON, and get_to
-- of a number for an unsigned type with that many values.
pub record JsonLibrary : Type 0 where
  pub parse : Bytes → Option Json
  pub number_as : ℕ → ℕ → ℕ

module _ (json : JsonLibrary) where
  unfoldable pub get_number : ℕ → Json → Option ℕ
  get_number limit (number n) = some (json.number_as limit n)
  get_number limit (boolean b) = some (if b then 1 else 0)
  get_number limit j = none

module _ (json : JsonLibrary) (j : Json) where
  unfoldable pub text_at : Bytes → Option Bytes
  text_at key = value_at key j >>= get_text

  unfoldable pub number_at : ℕ → Bytes → Option ℕ
  number_at limit key = value_at key j >>= get_number json limit

-- from_json; `none` where it throws.
unfoldable pub from_json : JsonLibrary → Json → Option RuntimeConfig
from_json json j = do
  config_file_path ← text_at json j (text "config_file_path")
  http_host ← text_at json j (text "http_host")
  http_port ← number_at json j (2 ^ 16) (text "http_port")
  mqtt_host ← text_at json j (text "mqtt_host")
  mqtt_port ← number_at json j (2 ^ 16) (text "mqtt_port")
  mqtt_client_id ← text_at json j (text "mqtt_client_id")
  mqtt_username ← text_at json j (text "mqtt_username")
  mqtt_password ← text_at json j (text "mqtt_password")
  cloud_mqtt_host ← text_at json j (text "cloud_mqtt_host")
  cloud_mqtt_port ← number_at json j (2 ^ 16) (text "cloud_mqtt_port")
  cloud_mqtt_client_id ← text_at json j (text "cloud_mqtt_client_id")
  cloud_mqtt_username ← text_at json j (text "cloud_mqtt_username")
  cloud_mqtt_password ← text_at json j (text "cloud_mqtt_password")
  mqtt_topic_prefix ← text_at json j (text "mqtt_topic_prefix")
  db_path ← text_at json j (text "db_path")
  projection_interval_ms ← number_at json j (2 ^ 32) (text "projection_interval_ms")
  some (record {
    config_file_path = config_file_path;
    http_host = http_host;
    http_port = http_port;
    mqtt_host = mqtt_host;
    mqtt_port = mqtt_port;
    mqtt_client_id = mqtt_client_id;
    mqtt_username = mqtt_username;
    mqtt_password = mqtt_password;
    cloud_mqtt_host = cloud_mqtt_host;
    cloud_mqtt_port = cloud_mqtt_port;
    cloud_mqtt_client_id = cloud_mqtt_client_id;
    cloud_mqtt_username = cloud_mqtt_username;
    cloud_mqtt_password = cloud_mqtt_password;
    mqtt_topic_prefix = mqtt_topic_prefix;
    db_path = db_path;
    projection_interval_ms = projection_interval_ms;
  })

-- The members that the macro is given.
abbrev pub keys : List Bytes
keys =
    text "config_file_path"
    ∷ text "http_host"
    ∷ text "http_port"
    ∷ text "mqtt_host"
    ∷ text "mqtt_port"
    ∷ text "mqtt_client_id"
    ∷ text "mqtt_username"
    ∷ text "mqtt_password"
    ∷ text "cloud_mqtt_host"
    ∷ text "cloud_mqtt_port"
    ∷ text "cloud_mqtt_client_id"
    ∷ text "cloud_mqtt_username"
    ∷ text "cloud_mqtt_password"
    ∷ text "mqtt_topic_prefix"
    ∷ text "db_path"
    ∷ text "projection_interval_ms"
    ∷ []

>>=-some {ℓ κ} :
    {A : Type ℓ} {B : Type κ} (m : Option A) (f : A → Option B) {b : B}
    → (m >>= f) ≡ some b
    → (a : A) × (m ≡ some a) × (f a ≡ some b)
>>=-some none f h = cc
>>=-some (some a) f h = (a, refl, h)

module _ (json : JsonLibrary) (j : Json) where
  abbrev pub Present : Bytes → Type 0
  Present key = value_at key j ≢ none

  -- A result that needs these keys.
  unfoldable pub Needs : List Bytes → Option RuntimeConfig → Type 0
  Needs needed o = (c : RuntimeConfig) → o ≡ some c → All Present needed

  text-Needs :
      (key : Bytes) (needed : List Bytes) (f : Bytes → Option RuntimeConfig)
      → ((s : Bytes) → Needs needed (f s))
      → Needs (key ∷ needed) (text_at json j key >>= f)
  unfolding text_at Needs
  text-Needs key needed f rest c h =
      let (s, found, h') = >>=-some (text_at json j key) f h in
      let (v, there, _) = >>=-some (value_at key j) get_text found in
      (λ missing. cc (missing, there), rest s c h')

  number-Needs :
      (limit : ℕ) (key : Bytes) (needed : List Bytes) (f : ℕ → Option RuntimeConfig)
      → ((n : ℕ) → Needs needed (f n))
      → Needs (key ∷ needed) (number_at json j limit key >>= f)
  unfolding number_at Needs
  number-Needs limit key needed f rest c h =
      let (n, found, h') = >>=-some (number_at json j limit key) f h in
      let (v, there, e) = >>=-some (value_at key j) (get_number json limit) found in
      (λ missing. cc (missing, there), rest n c h')

  done-Needs : (c : RuntimeConfig) → Needs [] (some c)
  unfolding Needs
  done-Needs c c' h = tt

  -- A configuration that is read needs a value under each of the 16 keys.
  pub from_json-Needs : Needs keys (from_json json j)
  unfolding from_json
  from_json-Needs = text-Needs (text "config_file_path") _ _ λ _.
      text-Needs (text "http_host") _ _ λ _. number-Needs (2 ^ 16) (text "http_port") _ _ λ _.
        text-Needs (text "mqtt_host") _ _ λ _. number-Needs (2 ^ 16) (text "mqtt_port") _ _ λ _.
          text-Needs (text "mqtt_client_id") _ _ λ _. text-Needs (text "mqtt_username") _ _ λ _.
            text-Needs (text "mqtt_password") _ _ λ _. text-Needs (text "cloud_mqtt_host") _ _ λ _.
              number-Needs (2 ^ 16) (text "cloud_mqtt_port") _ _ λ _.
                text-Needs (text "cloud_mqtt_client_id") _ _ λ _.
                  text-Needs (text "cloud_mqtt_username") _ _ λ _.
                    text-Needs (text "cloud_mqtt_password") _ _ λ _.
                      text-Needs (text "mqtt_topic_prefix") _ _ λ _.
                        text-Needs (text "db_path") _ _ λ _.
                          number-Needs (2 ^ 32) (text "projection_interval_ms") _ _
                            λ _. done-Needs _
