-- ===== src/Main/Options/Ports.antt =====
-- The ports of the configuration that main builds the daemon with.
use syrius_orbit_daemon.Common.{
  ℕ, ◌≡◌, refl, ap, ◌∙◌, Option, none, some, List, Bytes, text, is_empty, nat_eq, if◌then◌else◌,
  Option-cases, Bool-cases, ◌⊎◌, inl, inr,
}
use syrius_orbit_daemon.Config.{
  RuntimeConfig, default_config, pick, override, choose_config, layered, number_eq,
}
use syrius_orbit_daemon.Config.FromJson.{JsonLibrary}
use syrius_orbit_daemon.Main.{
  Files, Parser, launched, terminated, load_json_config_file, arguments, command_line, configure,
}
use syrius_orbit_daemon.Main.Numbers.{ℤ, stoi, uint16}

-- The config file that --config names, if there is one that can be used.
abbrev pub config_file : Files → JsonLibrary → (Bytes → Bytes) → Option RuntimeConfig
config_file files json get =
    let path = get (text "--config") in
    if is_empty path then none else load_json_config_file files json path

-- A port that is given as `z`: cut to 16 bits, it counts unless it is the default and the file has one.
abbrev pub port : ℕ → (RuntimeConfig → ℕ) → Option RuntimeConfig → ℤ → ℕ
port default column none z = uint16 z
port default column (some file) z = if nat_eq (uint16 z) default then column file else uint16 z

pick-given : (d mine other : ℕ) → pick d mine other ≡ (if nat_eq other d then mine else other)
unfolding pick
pick-given d mine other = elim (Bool-cases (nat_eq other d)) [
  | inl same ↦ rw same refl
  | inr apart ↦ rw apart refl
]

-- A column that Override takes from the command line where it differs from its default.
module _ (column : RuntimeConfig → ℕ)
    (picks : (a b : RuntimeConfig)
      → column (override a b) ≡ pick (column default_config) (column a) (column b))
    (load : Bytes → Option RuntimeConfig) (cli : RuntimeConfig) (z : ℤ)
    (given : column cli ≡ uint16 z) where
  layered-port :
      (o : Option RuntimeConfig) → column (layered cli o) ≡ port (column default_config) column o z
  layered-port none = given
  layered-port (some file) =
      picks file cli
      ∙ (pick-given (column default_config) (column file) (column cli)
          ∙ ap (λ n. if nat_eq n (column default_config) then column file else n) given)

  choose_config-port :
      column (choose_config load cli)
      ≡ port
          (column default_config)
          column
          (if is_empty cli.config_file_path then none else load cli.config_file_path)
          z
  unfolding choose_config
  choose_config-port = elim (Bool-cases (is_empty cli.config_file_path)) [
    | inl empty ↦ rw empty given
    | inr named ↦ rw named (layered-port (load cli.config_file_path))
  ]

module _ (parser : Parser) (files : Files) (json : JsonLibrary) (argv : List Bytes)
    (get : Bytes → Bytes) (parses : parser (arguments default_config) argv ≡ some get) where
  -- Where the command line parses and its three ports are numbers, the daemon is launched, and each port
  -- of its configuration is the given number modulo 2^16, unless that is the default port and the file
  -- of --config can be used, whose port counts then.
  pub configure-ports :
      (a b d : ℤ)
      → stoi (get (text "--http-port")) ≡ some a
      → stoi (get (text "--mqtt-port")) ≡ some b
      → stoi (get (text "--cloud-mqtt-port")) ≡ some d
      → let file = config_file files json get in
        (c : RuntimeConfig) × (configure parser files json argv ≡ launched c)
        × (c.http_port ≡ port 8080 (λ (c : RuntimeConfig). c.http_port) file a)
        × (c.mqtt_port ≡ port 1883 (λ (c : RuntimeConfig). c.mqtt_port) file b)
        × (c.cloud_mqtt_port ≡ port 1884 (λ (c : RuntimeConfig). c.cloud_mqtt_port) file d)
  unfolding configure command_line override
  configure-ports a b d http mqtt cloud =
      let load = load_json_config_file files json in
      rw (parses, http, mqtt, cloud)
        (
          _,
          refl,
          choose_config-port (λ (c : RuntimeConfig). c.http_port) (λ _ _. refl) load _ a refl,
          choose_config-port (λ (c : RuntimeConfig). c.mqtt_port) (λ _ _. refl) load _ b refl,
          choose_config-port (λ (c : RuntimeConfig). c.cloud_mqtt_port) (λ _ _. refl) load _ d refl,
        )

  -- Where the command line parses but one of its three ports is no number that fits an int, an exception
  -- that nothing catches ends the program, whatever the other options and the config file say.
  pub configure-terminated :
      (stoi (get (text "--http-port")) ≡ none)
        ⊎ ((stoi (get (text "--mqtt-port")) ≡ none)
            ⊎ (stoi (get (text "--cloud-mqtt-port")) ≡ none))
      → configure parser files json argv ≡ terminated
  unfolding configure command_line
  configure-terminated (inl http) = rw (parses, http) refl
  configure-terminated (inr (inl mqtt)) = elim (Option-cases (stoi (get (text "--http-port")))) [
    | inl e ↦ rw (parses, e) refl
    | inr (a, e) ↦ rw (parses, e, mqtt) refl
  ]
  configure-terminated (inr (inr cloud)) = elim (Option-cases (stoi (get (text "--http-port")))) [
    | inl e ↦ rw (parses, e) refl
    | inr (a, e) ↦ elim (Option-cases (stoi (get (text "--mqtt-port")))) [
      | inl f ↦ rw (parses, e, f) refl
      | inr (b, f) ↦ rw (parses, e, f, cloud) refl
    ]
  ]
