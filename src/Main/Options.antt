-- ===== src/Main/Options.antt =====
-- A config file that cannot be used.
pub mod Loaded
pub mod Ports
use syrius_orbit_daemon.Common.{
  ℕ, ◌<◌, ◌^◌, ◌≡◌, refl, ap, ◌∙◌, sym, Bool, true, false, not, Option, none, some, List, [], ◌∷◌,
  Bytes, text, is_empty, ◌>>=◌, if◌then◌else◌, if_ind, In, All, value_or, inl, inr, arith,
  Option-cases, subst, All-In, ◌≢◌, ==_iff, nat_eq,
}
use syrius_orbit_daemon.Json.{Json}
use syrius_orbit_daemon.Schema.FactSheet.ArrayLengths.{value_at}
use syrius_orbit_daemon.Config.{
  RuntimeConfig, default_config, pick, override, choose_config, number_eq, layered,
}
use syrius_orbit_daemon.Config.Layers.{override-default}
use syrius_orbit_daemon.Config.FromJson.{JsonLibrary, from_json, keys, Needs, from_json-Needs}
use syrius_orbit_daemon.Main.{
  Files, Parser, Launch, exit_failure, terminated, launched, load_json_config_file, arguments,
  command_line, configure, chosen, parsed,
}
use syrius_orbit_daemon.Main.Numbers.{ℤ, pos, to_string, stoi, uint16}
use syrius_orbit_daemon.Main.Numbers.Laws.{stoi-to_string, uint16-lt}

-- A JSON value that lacks one of the 16 keys.
abbrev pub IsIncomplete : Json → Type 0
IsIncomplete j = (key : Bytes) × In key keys × (value_at key j ≡ none)

unfoldable pub no_file : Files
no_file path = none

from_json_incomplete : (json : JsonLibrary) (j : Json) → IsIncomplete j → from_json json j ≡ none
unfolding Needs
from_json_incomplete json j (key, i, missing) = elim (Option-cases (from_json json j)) [
  | inl e ↦ e
  | inr (c, e) ↦
      absurd (All-In (λ k. value_at k j ≢ none) keys key (from_json-Needs json j c e) i missing)
]

module _ (json : JsonLibrary) where
  -- What parsing a text and reading it as a configuration gives.
  abbrev read : Option Json → Option RuntimeConfig
  read o = o >>= from_json json

  abbrev pub contents : Option Bytes → Option RuntimeConfig
  contents o = o >>= λ content. read (json.parse content)

  pub contents_incomplete :
      (o : Option Bytes)
      → ((content : Bytes) (j : Json)
          → o ≡ some content
          → json.parse content ≡ some j
          → IsIncomplete j)
      → contents o ≡ none
  contents_incomplete none h = refl
  contents_incomplete (some content) h = elim (Option-cases (json.parse content)) [
    | inl e ↦ rw e refl
    | inr (j, e) ↦ rw e (from_json_incomplete json j (h content j refl e))
  ]
