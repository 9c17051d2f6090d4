-- ===== src/Tests/Options.antt =====
-- The command line and the config file.
use syrius_orbit_daemon.Common.{
  ◌%◌, ◌≡◌, refl, subst, none, some, List, [], ◌∷◌, Bytes, text, ◌==◌, if◌then◌else◌, value_or,
  arith, inl, inr,
}
use syrius_orbit_daemon.Json.{Json, object, member, end, string, number}
use syrius_orbit_daemon.Schema.FactSheet.ArrayLengths.{value_at, lookup}
use syrius_orbit_daemon.Config.{default_config}
use syrius_orbit_daemon.Config.FromJson.{
  JsonLibrary, from_json, text_at, number_at, get_text, get_number,
}
use syrius_orbit_daemon.Config.{RuntimeConfig}
use syrius_orbit_daemon.Main.{
  Files, Parser, launched, terminated, load_json_config_file, arguments, configure,
}
use syrius_orbit_daemon.Main.Numbers.{
  pos, negsuc, stoi, uint16, signed, skip_spaces, magnitude, digits,
}
use syrius_orbit_daemon.Main.Numbers.Laws.{stoi-to_string}
use syrius_orbit_daemon.Main.Options.{IsIncomplete, no_file}
use syrius_orbit_daemon.Main.Options.Ports.{
  config_file, port, configure-ports, configure-terminated,
}
use syrius_orbit_daemon.Main.Options.Loaded.{configure_incomplete, configure-default}

abbrev default_of : Bytes → List (Bytes × Bytes) → Bytes
default_of name [] = []
default_of name ((n, v) ∷ rest) = if n == name then v else default_of name rest

abbrev given : Bytes → Bytes → List Bytes → Bytes
given name value [] = value
given name value (a ∷ []) = value
given name value (a ∷ b ∷ rest) = if a == name then b else given name value rest

-- A parser of pairs `--name value` behind the program's name.
abbrev pairs : Parser
pairs args [] = none
pairs args (program ∷ argv) = some (λ name. given name (default_of name args) argv)

-- The example in README.md.
abbrev readme : Json
readme = object (
    member (text "http_host") (string (text "0.0.0.0")) (
      member (text "http_port") (number 8080) (
        member (text "mqtt_host") (string (text "127.0.0.1")) (
          member (text "mqtt_port") (number 1883) (
            member (text "mqtt_client_id") (string (text "syrius-orbit-daemon")) (
              member (text "mqtt_username") (string []) (
                member (text "mqtt_password") (string []) (
                  member (text "cloud_mqtt_host") (string (text "127.0.0.1")) (
                    member (text "cloud_mqtt_port") (number 1884) (
                      member (text "cloud_mqtt_client_id")
                        (string (text "syrius-orbit-daemon-cloud"))
                        (member (text "cloud_mqtt_username") (string []) (
                          member (text "cloud_mqtt_password") (string []) (
                            member (text "mqtt_topic_prefix") (string (text "vda5050/v3"))
                              end)))))))))))))

abbrev the_file : Files
the_file path = some path

-- A library that reads every file as this value.
abbrev reading : Json → JsonLibrary
reading j = record { parse = λ content. some j; number_as = λ limit n. n % limit }

abbrev parse_readme : JsonLibrary
parse_readme = reading readme

-- A file with all 16 keys.
abbrev complete : Json
complete = object (
    member (text "config_file_path") (string []) (
      member (text "db_path") (string (text "o.db")) (
        member (text "projection_interval_ms") (number 500) (
          member (text "http_host") (string (text "0.0.0.0")) (
            member (text "http_port") (number 8081) (
              member (text "mqtt_host") (string (text "127.0.0.1")) (
                member (text "mqtt_port") (number 1900) (
                  member (text "mqtt_client_id") (string (text "d")) (
                    member (text "mqtt_username") (string []) (
                      member (text "mqtt_password") (string []) (
                        member (text "cloud_mqtt_host") (string (text "c")) (
                          member (text "cloud_mqtt_port") (number 1901) (
                            member (text "cloud_mqtt_client_id") (string (text "e")) (
                              member (text "cloud_mqtt_username") (string []) (
                                member (text "cloud_mqtt_password") (string []) (
                                  member (text "mqtt_topic_prefix") (string (text "vda5050/v3"))
                                    end))))))))))))))))

abbrev argv : List Bytes
argv = text "daemon" ∷ text "--http-port" ∷ text "65616" ∷ text "--cloud-mqtt-port" ∷ text "-1" ∷ []

abbrev got : Bytes → Bytes
got name =
    given name (default_of name (arguments default_config))
      (text "--http-port" ∷ text "65616" ∷ text "--cloud-mqtt-port" ∷ text "-1" ∷ [])

configure-ports_example :
    let file = config_file the_file (reading complete) got in
    (c : RuntimeConfig) × (configure pairs the_file (reading complete) argv ≡ launched c)
    × (c.http_port ≡ port 8080 (λ (c : RuntimeConfig). c.http_port) file (pos 65616))
    × (c.mqtt_port ≡ port 1883 (λ (c : RuntimeConfig). c.mqtt_port) file (pos 1883))
    × (c.cloud_mqtt_port ≡ port 1884 (λ (c : RuntimeConfig). c.cloud_mqtt_port) file (negsuc 0))
unfolding stoi signed skip_spaces magnitude digits arguments ◌==◌
configure-ports_example =
    configure-ports pairs the_file (reading complete) argv got refl (pos 65616) (pos 1883)
      (negsuc 0) refl (stoi-to_string 1883 (omega arith)) refl

-- The three ports: cut to 16 bits, from the file, and cut again.
ports_of_complete :
    let file = config_file the_file (reading complete) got in
    (port 8080 (λ (c : RuntimeConfig). c.http_port) file (pos 65616) ≡ 80)
    × (port 1883 (λ (c : RuntimeConfig). c.mqtt_port) file (pos 1883) ≡ 1900)
    × (port 1884 (λ (c : RuntimeConfig). c.cloud_mqtt_port) file (negsuc 0) ≡ 65535)
unfolding arguments load_json_config_file from_json text_at number_at get_text get_number value_at
    lookup ◌==◌
ports_of_complete = (refl, refl, refl)

configure-terminated_example :
    configure pairs the_file
      (reading complete)
      (text "daemon" ∷ text "--mqtt-port" ∷ text "mqtt" ∷ [])
    ≡ terminated
unfolding stoi signed skip_spaces magnitude arguments ◌==◌
configure-terminated_example =
    configure-terminated pairs the_file (reading complete)
      (text "daemon" ∷ text "--mqtt-port" ∷ text "mqtt" ∷ [])
      (λ name.
        given name (default_of name (arguments default_config))
          (text "--mqtt-port" ∷ text "mqtt" ∷ []))
      refl (inr (inl refl))

readme-IsIncomplete : IsIncomplete readme
unfolding value_at lookup ◌==◌
readme-IsIncomplete = (
  text "db_path",
  inr (inr (inr (inr (inr (inr (inr (inr (inr (inr (inr (inr (inr (inr (inl refl)))))))))))))),
  refl,
)

configure_incomplete_example :
    configure pairs the_file parse_readme argv ≡ configure pairs no_file parse_readme argv
configure_incomplete_example =
    configure_incomplete pairs the_file parse_readme argv
      (λ path content j opened parsed. subst IsIncomplete (cc parsed) readme-IsIncomplete)

configure-default_example :
    configure pairs the_file parse_readme (text "daemon" ∷ [])
    ≡ launched (
        value_or
          (load_json_config_file the_file parse_readme default_config.config_file_path)
          default_config)
unfolding arguments ◌==◌
configure-default_example = configure-default pairs the_file parse_readme (text "daemon" ∷ []) (
  _,
  refl,
  (
    refl,
    (
      refl,
      (
        refl,
        (
          refl,
          (
            refl,
            (refl, (refl, (refl, (refl, (refl, (refl, (refl, (refl, (refl, (refl, tt)))))))))),
          ),
        ),
      ),
    ),
  ),
)

-- A port that does not fit is cut to 16 bits.
wrapped_port : uint16 (pos 65616) ≡ 80
wrapped_port = refl

read_back : stoi (text " 65616x") ≡ some (pos 65616)
unfolding stoi signed skip_spaces magnitude digits
read_back = refl
