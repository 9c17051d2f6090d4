-- ===== src/Main/Options/Loaded.antt =====
-- When main uses the config file.
use syrius_orbit_daemon.Common.{
  ◌≡◌, refl, ap, ◌∙◌, sym, not, Option, none, some, List, Bytes, is_empty, if◌then◌else◌, if_ind,
  All, value_or, arith,
}
use syrius_orbit_daemon.Json.{Json}
use syrius_orbit_daemon.Config.{RuntimeConfig, default_config, choose_config, layered}
use syrius_orbit_daemon.Config.FromJson.{JsonLibrary}
use syrius_orbit_daemon.Config.Layers.{override-default}
use syrius_orbit_daemon.Main.{
  Files, Parser, launched, load_json_config_file, arguments, command_line, configure, chosen,
  parsed,
}
use syrius_orbit_daemon.Main.Numbers.Laws.{stoi-to_string}
use syrius_orbit_daemon.Main.Options.{IsIncomplete, contents_incomplete, no_file}

choose_config_alike :
    (load other : Bytes → Option RuntimeConfig) (cli : RuntimeConfig)
    → load cli.config_file_path ≡ other cli.config_file_path
    → choose_config load cli ≡ choose_config other cli
unfolding choose_config
choose_config_alike load other cli h =
    ap (λ o. if not (is_empty cli.config_file_path) then layered cli o else cli) h

module _ (parser : Parser) (files : Files) (json : JsonLibrary) where
  load_incomplete :
      (path : Bytes)
      → ((content : Bytes) (j : Json)
          → files path ≡ some content
          → json.parse content ≡ some j
          → IsIncomplete j)
      → load_json_config_file files json path ≡ none
  unfolding load_json_config_file
  load_incomplete path h =
      if_ind {A = Option RuntimeConfig} (λ o. o ≡ none) (is_empty path) (λ _. refl)
        (λ _. contents_incomplete json (files path) h)

  load-no_file : (path : Bytes) → load_json_config_file no_file json path ≡ none
  unfolding load_json_config_file no_file
  load-no_file path =
      if_ind {A = Option RuntimeConfig} (λ o. o ≡ none) (is_empty path) (λ _. refl) (λ _. refl)

  -- A config file that does not parse, or lacks one of the 16 keys of RuntimeConfig, is not used at
  -- all: main goes on, or fails, as if the file could not be opened; if that holds of every file.
  pub configure_incomplete :
      (argv : List Bytes)
      → ((path content : Bytes) (j : Json)
          → files path ≡ some content
          → json.parse content ≡ some j
          → IsIncomplete j)
      → configure parser files json argv ≡ configure parser no_file json argv
  unfolding configure
  configure_incomplete argv h = parsed_alike (parser (arguments default_config) argv)
    where
      chosen_alike :
          (o : Option RuntimeConfig) → chosen parser files json o ≡ chosen parser no_file json o
      chosen_alike none = refl
      chosen_alike (some cli) = ap launched (
          choose_config_alike (load_json_config_file files json)
            (load_json_config_file no_file json) cli
            (load_incomplete cli.config_file_path (h cli.config_file_path)
              ∙ sym (load-no_file cli.config_file_path)))

      parsed_alike :
          (o : Option (Bytes → Bytes)) → parsed parser files json o ≡ parsed parser no_file json o
      parsed_alike none = refl
      parsed_alike (some get) = chosen_alike (command_line get)

  -- What argparse documents of a command line without options: every option has its default value.
  abbrev pub GivesDefaults : List Bytes → Type 0
  GivesDefaults argv =
      (get : Bytes → Bytes) × (parser (arguments default_config) argv ≡ some get)
      × All (λ (a : Bytes × Bytes). get a.0 ≡ a.1) (arguments default_config)

  command_line-default :
      (get : Bytes → Bytes)
      → All (λ (a : Bytes × Bytes). get a.0 ≡ a.1) (arguments default_config)
      → command_line get ≡ some default_config
  unfolding command_line arguments
  command_line-default get h =
      let http = stoi-to_string 8080 (omega arith) in
      let mqtt = stoi-to_string 1883 (omega arith) in
      let cloud = stoi-to_string 1884 (omega arith) in
      rw
        (
          h.1.1.1.0, http, h.1.1.1.1.1.0, mqtt, h.1.1.1.1.1.1.1.1.1.1.0, cloud, h.0, h.1.0, h.1.1.0,
          h.1.1.1.1.0, h.1.1.1.1.1.1.0, h.1.1.1.1.1.1.1.0, h.1.1.1.1.1.1.1.1.0,
          h.1.1.1.1.1.1.1.1.1.0, h.1.1.1.1.1.1.1.1.1.1.1.0, h.1.1.1.1.1.1.1.1.1.1.1.1.0,
          h.1.1.1.1.1.1.1.1.1.1.1.1.1.0, h.1.1.1.1.1.1.1.1.1.1.1.1.1.1.0,
        )
        refl

  layered-default :
      (o : Option RuntimeConfig) → layered default_config o ≡ value_or o default_config
  layered-default none = refl
  layered-default (some c) = (override-default c).0

  -- Without options main builds the daemon with the configuration of the file
  -- syrius_orbit_daemon.json as it stands there, or with the default one if that cannot be loaded,
  -- where the parser gives every option its default value.
  pub configure-default :
      (argv : List Bytes)
      → GivesDefaults argv
      → configure parser files json argv
        ≡ launched (
            value_or
              (load_json_config_file files json default_config.config_file_path)
              default_config)
  unfolding configure choose_config
  configure-default argv (get, given, defaults) =
      rw (given, command_line-default get defaults)
        (ap launched
          (layered-default (load_json_config_file files json default_config.config_file_path)))
